-- ===== src/Instance/Updates.antt =====
-- internal/migration/instance_model.go, ApplyUpdates and UpdateMonitoring: what an instance takes
-- from a new report of its source, and whether anything has changed.
pub mod Laws
use migration_manager.Prelude.{
  String, str_eq, Bool, true, false, not, ◌&&◌, ◌==◌, if◌then◌else◌, ltb, List, [], ◌∷◌, ◌++◌, map,
  Option, none, some, is_some,
}
use migration_manager.Prelude.Int.{eqb_ℤ}
use migration_manager.Prelude.Map.{string_eq, lookup, index}
use migration_manager.Instance.Service.{bool_eq}
use migration_manager.Env.{Env}
use migration_manager.Api.Types.{Instance, InstanceProperties, Disk, Nic, Monitoring}

-- `slices.Equal`.
module _ {A : Type 0} (eq : A → A → Bool) where
  abbrev pub list_eq : List A → List A → Bool
  list_eq [] [] = true
  list_eq [] (_ ∷ _) = false
  list_eq (_ ∷ _) [] = false
  list_eq (x ∷ xs) (y ∷ ys) = eq x y && list_eq xs ys

-- `==` on the structs.
abbrev pub disk_eq : Disk → Disk → Bool
disk_eq a b =
    eqb_ℤ a.capacity b.capacity
    && str_eq a.name b.name
    && bool_eq a.shared b.shared
    && bool_eq a.supported b.supported
    && bool_eq a.background_import_verified b.background_import_verified

abbrev pub nic_eq : Nic → Nic → Bool
nic_eq a b =
    (a.uuid == b.uuid)
    && str_eq a.source_specific_id b.source_specific_id
    && str_eq a.hardware_address b.hardware_address
    && str_eq a.location b.location
    && str_eq a.ipv4_address b.ipv4_address
    && str_eq a.ipv6_address b.ipv6_address

abbrev pub tag_eq : String × String → String × String → Bool
tag_eq a b = str_eq a.0 b.0 && str_eq a.1 b.1

abbrev pub monitoring_eq : Monitoring → Monitoring → Bool
monitoring_eq a b =
    str_eq a.source b.source
    && str_eq a.resource_id b.resource_id
    && str_eq a.health b.health
    && str_eq a.status b.status
    && (a.collected_at == b.collected_at)
    && str_eq a.metrics b.metrics
    && str_eq a.sample_times b.sample_times
    && (a.attempted_at == b.attempted_at)
    && str_eq a.error b.error

-- A disk that was known keeps what was verified of it.
unfoldable pub keep_verified : List Disk → List Disk → List Disk
keep_verified old new =
    let known = index (λ (d : Disk). d.name) (λ d. d) old [] in
    map
      (λ (d : Disk). elim (lookup d.name known) [
        | none ↦ d
        | some k ↦ record d { background_import_verified = k.background_import_verified }
      ])
      new

unfoldable pub new_disks : InstanceProperties → InstanceProperties → List Disk
unfolding keep_verified
new_disks old src =
    if bool_eq old.background_import src.background_import
    then keep_verified old.disks src.disks
    else src.disks

-- An address that the source no longer reports is kept from the last time.
abbrev pub or_known : String → String → String
or_known new old = if str_eq new "" && not (str_eq old "") then old else new

-- The NICs of the last report, by the identifier of their network.
unfoldable pub new_nics : List Nic → List Nic → List Nic
new_nics old new =
    let known = index (λ (n : Nic). n.source_specific_id) (λ n. n) old [] in
    map
      (λ (n : Nic). elim (lookup n.source_specific_id known) [
        | none ↦ n
        | some k ↦ record n {
          ipv4_address = or_known n.ipv4_address k.ipv4_address;
          ipv6_address = or_known n.ipv6_address k.ipv6_address;
          uuid = k.uuid;
        }
      ])
      new

-- `UpdateMonitoring`: the monitoring data to store, or none if the old data stay.
abbrev pub is_stale : Monitoring → Monitoring → Bool
is_stale old new =
    str_eq old.source new.source
    && not (old.attempted_at == 0)
    && ltb new.attempted_at old.attempted_at

abbrev pub keep_snapshot : Monitoring → Monitoring → Monitoring
keep_snapshot old new =
    if not (str_eq new.error "")
      && str_eq old.source new.source
      && str_eq old.resource_id new.resource_id
    then record new {
      collected_at = old.collected_at;
      metrics = old.metrics;
      sample_times = old.sample_times;
      health = old.health;
      status = old.status;
    }
    else new

unfoldable pub update_monitoring : Option Monitoring → Monitoring → Option Monitoring
update_monitoring none new = some new
update_monitoring (some old) new =
    if is_stale old new
    then none
    else if monitoring_eq old (keep_snapshot old new)
    then none
    else some (keep_snapshot old new)

-- One `if` of `ApplyUpdates`: what it asks of the properties so far, and what it makes of them.
pub record Change : Type 0 where
  pub happens : InstanceProperties → Bool
  pub set : InstanceProperties → InstanceProperties

-- The old text is replaced by another one, or by another one that is not empty.
abbrev pub differs : String → String → Bool
differs old new = not (str_eq old new)

abbrev pub is_news : String → String → Bool
is_news old new = differs old new && not (str_eq new "")

module _ (env : Env) (src : InstanceProperties) where
  -- The changes of the texts, in the order of the code.
  abbrev pub text_changes : List Change
  text_changes =
      record {
        happens = λ p. str_eq p.source_specific_id "" && not (str_eq src.source_specific_id "");
        set = λ p. record p { source_specific_id = src.source_specific_id };
      }
      ∷ record {
        happens = λ p. differs p.location src.location;
        set = λ p. record p { location = src.location };
      }
      ∷ record {
        happens = λ p. differs p.configurable.name src.configurable.name;
        set =
            λ p. record p { configurable = record p.configurable { name = src.configurable.name } };
      }
      ∷ record {
        happens = λ p. differs p.description src.description;
        set = λ p. record p { description = src.description };
      }
      ∷ record {
        happens = λ p. is_news p.configurable.architecture src.configurable.architecture;
        set = λ p. record p {
          configurable = record p.configurable { architecture = src.configurable.architecture };
        };
      }
      ∷ record {
        happens = λ p. str_eq p.configurable.architecture "";
        set = λ p. record p {
          configurable = record p.configurable { architecture = env.architecture_default };
        };
      }
      ∷ record { happens = λ p. is_news p.os src.os; set = λ p. record p { os = src.os } }
      ∷ record {
        happens = λ p. is_news p.os_description src.os_description;
        set = λ p. record p { os_description = src.os_description };
      }
      ∷ record {
        happens = λ p. is_news p.os_template src.os_template;
        set = λ p. record p { os_template = src.os_template };
      }
      ∷ []

  -- The changes of the disks, of the background import, and of the NICs.
  abbrev pub device_changes : List Change
  device_changes =
      record {
        happens = λ p.
            not (list_eq disk_eq p.disks src.disks)
            && not (list_eq disk_eq p.disks (new_disks p src));
        set = λ p. record p { disks = new_disks p src };
      }
      ∷ record {
        happens = λ p. not (bool_eq p.background_import src.background_import);
        set = λ p. record p { background_import = src.background_import };
      }
      ∷ record {
        happens = λ p.
            not (list_eq nic_eq p.nics src.nics)
            && not (list_eq nic_eq p.nics (new_nics p.nics src.nics));
        set = λ p. record p { nics = new_nics p.nics src.nics };
      }
      ∷ record {
        happens = λ p. not (list_eq str_eq p.snapshots src.snapshots);
        set = λ p. record p { snapshots = src.snapshots };
      }
      ∷ []

  -- The changes of the limits, of the firmware, and of the running state.
  abbrev pub state_changes : List Change
  state_changes =
      record {
        happens = λ p. not (eqb_ℤ p.configurable.cpus src.configurable.cpus);
        set =
            λ p. record p { configurable = record p.configurable { cpus = src.configurable.cpus } };
      }
      ∷ record {
        happens = λ p. not (eqb_ℤ p.configurable.memory src.configurable.memory);
        set = λ p. record p {
          configurable = record p.configurable { memory = src.configurable.memory };
        };
      }
      ∷ record {
        happens = λ p. not (bool_eq p.legacy_boot src.legacy_boot);
        set = λ p. record p { legacy_boot = src.legacy_boot };
      }
      ∷ record {
        happens = λ p. not (bool_eq p.secure_boot src.secure_boot);
        set = λ p. record p { secure_boot = src.secure_boot };
      }
      ∷ record { happens = λ p. not (bool_eq p.tpm src.tpm); set = λ p. record p { tpm = src.tpm } }
      ∷ record {
        happens = λ p. not (bool_eq p.running src.running);
        set = λ p. record p { running = src.running };
      }
      ∷ []

  -- A source that reports no SDN tags, or no monitoring data, leaves the old ones.
  abbrev pub sdn_changes : Option (List (String × String)) → List (String × String) → Bool
  sdn_changes old new = not (list_eq tag_eq (elim old [ none ↦ [] | some ts ↦ ts ]) new)

  abbrev pub monitored : InstanceProperties → Option Monitoring
  monitored p = elim src.monitoring [ none ↦ none | some m ↦ update_monitoring p.monitoring m ]

  abbrev pub report_changes : List Change
  report_changes =
      record {
        happens = λ p. elim src.sdn_tags [ none ↦ false | some ts ↦ sdn_changes p.sdn_tags ts ];
        set = λ p. record p { sdn_tags = src.sdn_tags };
      }
      ∷ record {
        happens = λ p. not (list_eq tag_eq p.tags src.tags);
        set = λ p. record p { tags = src.tags };
      }
      ∷ record {
        happens = λ p. is_some (monitored p);
        set = λ p. record p { monitoring = monitored p };
      }
      ∷ []

  abbrev pub changes : List Change
  changes = text_changes ++ device_changes ++ state_changes ++ report_changes

-- Each change sets the properties and the flag, or leaves both.
abbrev pub change : Change → InstanceProperties × Bool → InstanceProperties × Bool
change c (p, updated) = if c.happens p then (c.set p, true) else (p, updated)

abbrev pub run_changes : List Change → InstanceProperties × Bool → InstanceProperties × Bool
run_changes [] r = r
run_changes (c ∷ cs) r = run_changes cs (change c r)

-- `ApplyUpdates`.
unfoldable pub apply_updates : Env → Instance → Instance → Instance × Bool
apply_updates env i src =
    let (p, updated) = run_changes (changes env src.properties) (i.properties, false) in
    (record i { properties = p }, updated)

-- ===== src/Batch/Placement.antt =====
-- batch_model.go, `GetIncusPlacement`, and batch_service.go, `DeterminePlacement`: where an instance
-- goes on the target.
pub mod Complete
use migration_manager.Prelude.{
  String, str_eq, Bool, true, false, ◌&&◌, if◌then◌else◌, List, [], ◌∷◌, ◌++◌, Option, none, some,
  map,
}
use migration_manager.Prelude.Table.{find?}
use migration_manager.Prelude.Map.{Map, insert, copy, string_eq}
use migration_manager.Errors.{Result, ok, err, failed, ◌>>=◌}
use migration_manager.Env.{Env}
use migration_manager.Api.Types.{
  Placement, NetworkPlacement, Network, ApiNetwork, Instance, Disk, Nic, Batch, Window,
}
use migration_manager.Network.{to_api, apply}

-- The loop over the disks: the default pool for each disk that is supported.
unfoldable pub place_disks : String → List Disk → Map String String → Map String String
place_disks pool [] m = m
place_disks pool (d ∷ ds) m = place_disks pool ds (if d.supported then insert d.name pool m else m)

-- The network of a NIC.
abbrev pub is_network_of : Instance → Nic → Network → Bool
is_network_of i n net =
    str_eq n.source_specific_id net.source_specific_id && str_eq i.source net.source

-- A network that is not found reads as the empty one, whose name is empty.
unfoldable pub place_nic : Env → Instance → List Network → Nic → Result NetworkPlacement
place_nic env i nets n = elim (find? (is_network_of i n) nets) [
  | none ↦ err (failed "No network associated with instance")
  | some net ↦ do
    a ← to_api env net
    if str_eq a.source_specific_id ""
        then err (failed "No network associated with instance")
        else ok (apply a.overrides a.placement)
]

-- The loop over the NICs.
unfoldable pub place_nics :
    Env
    → Instance
    → List Network
    → List Nic
    → Map String NetworkPlacement
    → Result (Map String NetworkPlacement)
place_nics env i nets [] m = ok m
place_nics env i nets (n ∷ ns) m = do
  p ← place_nic env i nets n
  place_nics env i nets ns (insert n.hardware_address p m)

-- A nil map has no entries.
abbrev pub entries : Option (Map String NetworkPlacement) → Map String NetworkPlacement
entries none = []
entries (some m) = m

abbrev pub or_default : String → String → String
or_default new old = if str_eq new "" then old else new

-- Whether the instance runs after its migration.
abbrev pub runs_after : Instance → Bool
runs_after i =
    if i.overrides.stopped_after_migration
    then false
    else if i.overrides.started_after_migration
    then true
    else i.properties.running

-- `Batch.GetIncusPlacement`.
unfoldable pub get_incus_placement :
    Env → Batch → Instance → List Network → Placement → Result Placement
get_incus_placement env b i nets p = do
  networks ← place_nics env i nets i.properties.nics []
  ok (record {
    target_name = or_default p.target_name b.defaults.target;
    target_project = or_default p.target_project b.defaults.target_project;
    storage_pools =
        copy (place_disks b.defaults.storage_pool i.properties.disks []) p.storage_pools;
    networks = some (copy networks (entries p.networks));
    running = runs_after i;
  })

-- `api.Placement{}` and `api.Network{}`.
abbrev pub no_placement : Placement
no_placement = record {
  target_name = "";
  target_project = "";
  storage_pools = [];
  networks = none;
  running = false;
}

abbrev pub no_network : ApiNetwork
no_network = record {
  uuid = 0;
  source_specific_id = "";
  location = "";
  source = "";
  network_type = "";
  properties = "";
  placement = record { network = ""; nic_type = ""; vlan_id = "" };
  overrides = record { network = ""; nic_type = ""; vlan_id = "" };
}

-- The list that the script sees: `make` fills it with empty networks, and `append` adds the real ones.
unfoldable pub to_apis : Env → List Network → Result (List ApiNetwork)
to_apis env [] = ok []
to_apis env (n ∷ ns) = do a ← to_api env n; rest ← to_apis env ns; ok (a ∷ rest)

abbrev pub script_networks : List ApiNetwork → List ApiNetwork
script_networks apis = map (λ a. no_network) apis ++ apis

-- `DeterminePlacement`.
unfoldable pub determine_placement :
    Env → Instance → List Network → Batch → List Window → Result Placement
unfolding get_incus_placement
determine_placement env i nets b ws =
    if str_eq b.config.placement_scriptlet ""
    then get_incus_placement env b i nets no_placement
    else (do
      apis ← to_apis env nets
      raw ← elim (env.run_scriptlet b.config.placement_scriptlet i b ws (script_networks apis)) [
        | none ↦ err (failed "Failed to run placement scriptlet")
        | some p ↦ ok p
      ]
      get_incus_placement env b i nets raw)

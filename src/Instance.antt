-- ===== src/Instance.antt =====
-- internal/migration/instance_model.go and shared/api/properties.go: what an instance says of itself
-- with its overrides applied, and the reasons for which it cannot be migrated.
pub mod Os
pub mod Valid
pub mod Service
pub mod Updates
use migration_manager.Prelude.{
  String, str_eq, Bool, false, not, ◌&&◌, ◌||◌, if◌then◌else◌, List, [], Option, none, some,
  is_empty,
}
use migration_manager.Prelude.Int.{ℤ, pos, eqb_ℤ}
use migration_manager.Prelude.Table.{any}
use migration_manager.Prelude.Map.{copy, string_eq}
use migration_manager.Env.{Env}
use migration_manager.Instance.Os.{get_os_type, get_distribution}
use migration_manager.Api.Types.{
  Instance, InstanceProperties, Configurable, Disk, Nic, RestrictionOverride,
}

abbrev pub or_default : String → String → String
or_default new old = if str_eq new "" then old else new

abbrev pub or_default_int : ℤ → ℤ → ℤ
or_default_int new old = if eqb_ℤ new (pos 0) then old else new

-- `InstanceProperties.Apply`: what the overrides set wins, and the two configurations are merged.
unfoldable pub apply : Configurable → InstanceProperties → InstanceProperties
apply cfg p =
    let base = p.configurable in
    record p {
      configurable = record {
        name = or_default cfg.name base.name;
        cpus = or_default_int cfg.cpus base.cpus;
        memory = or_default_int cfg.memory base.memory;
        config = copy (copy [] base.config) cfg.config;
        architecture = or_default cfg.architecture base.architecture;
      };
    }

-- A disk that would stop a background import.
abbrev pub is_unverified : Disk → Bool
is_unverified d = d.supported && not d.background_import_verified

-- `InstanceProperties.SupportsBackgroundImport`.
unfoldable pub supports_background_import : InstanceProperties → Bool
supports_background_import p =
    if p.background_import then not (any is_unverified p.disks) else false

-- `Instance.NeedsBackgroundImportVerification`.
unfoldable pub needs_background_import_verification : Instance → Bool
needs_background_import_verification i =
    if i.properties.background_import then any is_unverified i.properties.disks else false

-- `Instance.GetName`.
unfoldable pub get_name : Instance → String
unfolding apply
get_name i = (apply i.overrides.configurable i.properties).configurable.name

-- `Instance.GetArchitecture`; the default is `osarch.ArchitectureDefault` of the incus library.
unfoldable pub get_architecture : String → Instance → String
unfolding apply
get_architecture default i =
    or_default (apply i.overrides.configurable i.properties).configurable.architecture default

-- `DisabledReason` of internal/migration/errors.go.
pub data DisabledReason : Type 0 where
  manually_disabled invalid_hostname unknown_os unknown_architecture : DisabledReason
  unknown_ip_address verifying_background_import : DisabledReason
  unsupported_background_import unsupported_disk_snapshot : DisabledReason

-- No NIC has an IPv4 address, though there are NICs.
abbrev pub ip_restrict : List Nic → Bool
ip_restrict nics = not (is_empty nics) && not (any (λ n. not (str_eq n.ipv4_address "")) nics)

-- `Instance.DisabledReason`: `none` for an instance that may be migrated.
unfoldable pub disabled_reason : Env → Instance → RestrictionOverride → Option DisabledReason
unfolding get_name get_architecture supports_background_import get_os_type get_distribution
disabled_reason env i o =
    if i.overrides.disable_migration
    then some manually_disabled
    else if i.overrides.ignore_restrictions
    then none
    else if not (env.is_hostname (get_name i))
    then some invalid_hostname
    else if str_eq (get_os_type env i false) env.linux
        && str_eq (get_distribution env i false).0 env.other_distro
        && not o.allow_unknown_os
        && not (not (str_eq i.overrides.distribution "") || not (str_eq i.overrides.os_type ""))
    then some unknown_os
    else if str_eq (get_architecture env.architecture_default i) ""
    then some unknown_architecture
    else if ip_restrict i.properties.nics && not o.allow_no_ipv4
    then some unknown_ip_address
    else if not (supports_background_import i.properties) && not o.allow_no_background_import
    then (if i.properties.background_import
        then some verifying_background_import
        else some unsupported_background_import)
    else if any (λ d. not d.supported) i.properties.disks
    then some unsupported_disk_snapshot
    else none

-- The text of the error, without its arguments.
abbrev pub disabled_message : DisabledReason → String
disabled_message manually_disabled = "Migration is manually disabled"
disabled_message invalid_hostname = "Instance name is not a valid hostname"
disabled_message unknown_os = "Could not determine instance OS, check if guest agent is running"
disabled_message unknown_architecture =
    "Could not determine instance architecture, check if guest agent is running"
disabled_message unknown_ip_address =
    "Could not determine instance IP, check if guest agent is running"
disabled_message verifying_background_import = "Verifying background import support"
disabled_message unsupported_background_import = "Background import is not supported"
disabled_message unsupported_disk_snapshot = "Disk does not support snapshots"

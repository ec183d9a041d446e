-- ===== src/Api/Types.antt =====
-- The records of shared/api and internal/migration that the services read and write.
-- Instants are nanoseconds since Go's zero `Time`, so `IsZero` is `== 0` and `Before` is `<`; a
-- duration and an `int` are signed. A UUID is its 128-bit number, and `uuid.Nil` is 0. A Go map is
-- an association list, and a nil map is `none` where the code tells it from an empty one.
use migration_manager.Prelude.{ℕ, String, Bool, Option, List}
use migration_manager.Prelude.Int.{ℤ}
use migration_manager.Api.Status.{
  MigrationStatus, ImportStage, BatchStatus, WorkerResponseType, WorkerCommandType,
}

-- `api.NetworkPlacement`.
pub record NetworkPlacement : Type 0 where
  pub network : String
  pub nic_type : String
  pub vlan_id : String

-- `api.Placement`.
pub record Placement : Type 0 where
  pub target_name : String
  pub target_project : String
  pub storage_pools : List (String × String)
  pub networks : Option (List (String × NetworkPlacement))
  pub running : Bool

-- `migration.QueueEntry`.
pub record QueueEntry : Type 0 where
  pub id : ℤ
  pub instance_uuid : ℕ
  pub batch_name : String
  pub secret_token : ℕ
  pub import_stage : ImportStage
  pub migration_status : MigrationStatus
  pub migration_status_message : String
  pub last_worker_status : WorkerResponseType
  pub last_background_sync : ℕ
  pub migration_window_name : Option String
  pub placement : Placement

-- `api.WorkerResponse`; of the metadata only whether it is nil counts.
pub record WorkerResponse : Type 0 where
  pub status : WorkerResponseType
  pub status_message : String
  pub has_metadata : Bool

-- `migration.Window`, with the capacity of `api.MigrationWindowConfig`.
pub record Window : Type 0 where
  pub id : ℤ
  pub name : String
  pub start : ℕ
  pub end : ℕ
  pub lockout : ℕ
  pub batch : String
  pub capacity : ℤ

-- `api.BatchConstraint`.
pub record BatchConstraint : Type 0 where
  pub name : String
  pub description : String
  pub include_expression : String
  pub max_concurrent_instances : ℤ
  pub min_instance_boot_time : ℤ

-- `api.InstanceRestrictionOverride`.
pub record RestrictionOverride : Type 0 where
  pub allow_unknown_os : Bool
  pub allow_no_ipv4 : Bool
  pub allow_no_background_import : Bool

-- `api.MigrationNetworkPlacement`.
pub record MigrationNetwork : Type 0 where
  pub config : NetworkPlacement
  pub target : String
  pub target_project : String

-- `api.BatchDefaults`, with the fields of `api.BatchPlacement`.
pub record BatchDefaults : Type 0 where
  pub target : String
  pub target_project : String
  pub storage_pool : String
  pub migration_network : List MigrationNetwork
  pub force_conflict_resolution : Bool
  pub sync_limit : ℤ

-- `api.BatchConfig`.
pub record BatchConfig : Type 0 where
  pub rerun_scriptlets : Bool
  pub placement_scriptlet : String
  pub post_migration_retries : ℤ
  pub restriction_overrides : RestrictionOverride
  pub background_sync_interval : ℤ
  pub final_background_sync_limit : ℤ

-- `migration.Batch`.
pub record Batch : Type 0 where
  pub id : ℤ
  pub name : String
  pub status : BatchStatus
  pub status_message : String
  pub include_expression : String
  pub start_date : ℕ
  pub constraints : List BatchConstraint
  pub config : BatchConfig
  pub defaults : BatchDefaults

-- `api.InstancePropertiesDisk`.
pub record Disk : Type 0 where
  pub capacity : ℤ
  pub name : String
  pub shared : Bool
  pub supported : Bool
  pub background_import_verified : Bool

-- `api.InstancePropertiesNIC`.
pub record Nic : Type 0 where
  pub uuid : ℕ
  pub source_specific_id : String
  pub hardware_address : String
  pub location : String
  pub ipv4_address : String
  pub ipv6_address : String

-- `api.InstancePropertiesConfigurable`.
pub record Configurable : Type 0 where
  pub name : String
  pub cpus : ℤ
  pub memory : ℤ
  pub config : List (String × String)
  pub architecture : String

-- `api.InstanceMonitoring`: the metrics and their sample times are maps, kept as JSON texts with the
-- keys in order, so that equal maps are equal texts.
pub record Monitoring : Type 0 where
  pub source : String
  pub resource_id : String
  pub health : String
  pub status : String
  pub collected_at : ℕ
  pub metrics : String
  pub sample_times : String
  pub attempted_at : ℕ
  pub error : String

-- `api.InstanceProperties`. A snapshot is its name; a tag is its scope or category, and its value.
pub record InstanceProperties : Type 0 where
  pub configurable : Configurable
  pub uuid : ℕ
  pub source_specific_id : String
  pub location : String
  pub description : String
  pub os : String
  pub os_description : String
  pub os_template : String
  pub secure_boot : Bool
  pub legacy_boot : Bool
  pub tpm : Bool
  pub running : Bool
  pub background_import : Bool
  pub nics : List Nic
  pub disks : List Disk
  pub snapshots : List String
  pub sdn_tags : Option (List (String × String))
  pub tags : List (String × String)
  pub monitoring : Option Monitoring

-- `api.InstanceOverride`.
pub record InstanceOverride : Type 0 where
  pub configurable : Configurable
  pub last_update : ℕ
  pub comment : String
  pub os_type : String
  pub distribution : String
  pub distribution_version : String
  pub disable_migration : Bool
  pub ignore_restrictions : Bool
  pub started_after_migration : Bool
  pub stopped_after_migration : Bool

-- `migration.Instance`.
pub record Instance : Type 0 where
  pub id : ℤ
  pub uuid : ℕ
  pub source : String
  pub source_type : String
  pub last_update_from_source : ℕ
  pub overrides : InstanceOverride
  pub properties : InstanceProperties

-- `migration.Source` and `migration.Target`: the properties are a JSON text.
pub record Source : Type 0 where
  pub id : ℤ
  pub name : String
  pub source_type : String
  pub properties : String

pub record Target : Type 0 where
  pub id : ℤ
  pub name : String
  pub target_type : String
  pub properties : String

-- `migration.WorkerCommand`.
pub record WorkerCommand : Type 0 where
  pub command : WorkerCommandType
  pub location : String
  pub source_type : String
  pub source : Source
  pub distro : String
  pub distro_version : String
  pub os_type : String
  pub architecture : String

-- `migration.Network`; the properties are a JSON text, empty for none.
pub record Network : Type 0 where
  pub id : ℤ
  pub uuid : ℕ
  pub network_type : String
  pub source_specific_id : String
  pub location : String
  pub source : String
  pub properties : String
  pub overrides : NetworkPlacement

-- `api.Network`.
pub record ApiNetwork : Type 0 where
  pub uuid : ℕ
  pub source_specific_id : String
  pub location : String
  pub source : String
  pub network_type : String
  pub properties : String
  pub placement : NetworkPlacement
  pub overrides : NetworkPlacement

-- `migration.Warning`.
pub record Warning : Type 0 where
  pub id : ℤ
  pub uuid : ℕ
  pub warning_type : String
  pub scope : String
  pub entity_type : String
  pub entity : String
  pub status : String
  pub first_seen_date : ℕ
  pub last_seen_date : ℕ
  pub updated_date : ℕ
  pub messages : List String
  pub count : ℤ

-- `api.WarningScope`.
pub record WarningScope : Type 0 where
  pub scope : String
  pub entity_type : String
  pub entity : String

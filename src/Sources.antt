-- ===== src/Sources.antt =====
-- internal/migration/source_service.go and source_vrops.go, DeleteByName with what it calls, and the
-- same of target_service.go. The check of a connection, which creation and update make, is I/O.
pub mod Removal
use migration_manager.Prelude.{
  ℕ, String, str_eq, Bool, true, false, not, ◌||◌, if◌then◌else◌, List, [], ◌∷◌, Option, none, some,
  map,
}
use migration_manager.Prelude.Table.{any, filter}
use migration_manager.Errors.{ok, failed, not_permitted}
use migration_manager.Env.{Env}
use migration_manager.Api.Status.{is_defined, is_batch_finished}
use migration_manager.Api.Types.{Batch, Instance, Source, Monitoring}
use migration_manager.Store.{Db, M, ◌>>=◌, ◌>>◌, pure, raise_if, query, exec, when}
use migration_manager.Store.Transaction.{do_tx}
use migration_manager.Store.Repo.{
  get_source, get_batches_by_instance, delete_source, delete_target, comes_from,
}
use migration_manager.Instance.Service.{delete_by_uuid, update}

-- `GetAllUUIDsBySource`.
unfoldable pub get_uuids_by_source : String → Db → List ℕ
get_uuids_by_source n d = map (λ (i : Instance). i.uuid) (filter (comes_from n) d.instances)

-- A batch that is not at rest.
abbrev pub is_active : Batch → Bool
is_active b = not (is_defined b.status || is_batch_finished b.status)

-- The loop of `canBeModified`.
unfoldable pub check_inactive : List ℕ → M (Unit {0})
check_inactive [] = pure tt
check_inactive (id ∷ ids) = do
  batches ← query (λ d. ok (get_batches_by_instance id d))
  raise_if (any is_active batches)
      (failed "Instance cannot be modified because it is part of an active batch")
  check_inactive ids

-- `canBeModified`: the instances of the source.
unfoldable pub can_be_modified : String → M (List ℕ)
unfolding check_inactive
can_be_modified name = do
  ids ← query (λ d. ok (get_uuids_by_source name d))
  check_inactive ids
  pure ids

unfoldable pub delete_instances : Env → List ℕ → M (Unit {0})
delete_instances env [] = pure tt
delete_instances env (id ∷ ids) = do delete_by_uuid env id; delete_instances env ids

-- The monitoring data after their source has a new name, or is gone.
abbrev pub monitored_by : String → Option Monitoring → Bool
monitored_by old none = false
monitored_by old (some m) = str_eq m.source old

abbrev pub renamed : String → Option Monitoring → Option Monitoring
renamed new none = none
renamed new (some m) = if str_eq new "" then none else some (record m { source = new })

-- `updateVROpsMonitoringSource`.
unfoldable pub rename_in : Env → String → String → List Instance → M (Unit {0})
rename_in env old new [] = pure tt
rename_in env old new (i ∷ is) = do
  when (monitored_by old i.properties.monitoring) (
      update env
        (record i {
          properties = record i.properties { monitoring = renamed new i.properties.monitoring };
        })
        true)
  rename_in env old new is

unfoldable pub update_monitoring_source : Env → String → String → M (Unit {0})
unfolding rename_in
update_monitoring_source env old new = do is ← query (λ d. ok d.instances); rename_in env old new is

-- `DeleteByName` of the source service.
unfoldable pub delete_source_by_name : Env → String → M (Unit {0})
unfolding can_be_modified delete_instances update_monitoring_source
delete_source_by_name env name = do
  raise_if (str_eq name "") (not_permitted "Source name cannot be empty")
  do_tx (do
    src ← query (get_source name)
    ids ← can_be_modified name
    delete_instances env ids
    when (str_eq src.source_type "vrops") (update_monitoring_source env name "")
    exec (delete_source name))

-- `DeleteByName` of the target service.
unfoldable pub delete_target_by_name : String → M (Unit {0})
delete_target_by_name name = do
  raise_if (str_eq name "") (not_permitted "Target name cannot be empty")
  exec (delete_target name)

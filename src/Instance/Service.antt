-- ===== src/Instance/Service.antt =====
-- internal/migration/instance_service.go: the operations that change an instance.
pub mod Guards
use migration_manager.Prelude.{
  ℕ, String, str_eq, Bool, true, false, not, ◌&&◌, ◌||◌, if◌then◌else◌, List, Option, none, some,
  map, is_empty, is_some,
}
use migration_manager.Prelude.Table.{any, find?}
use migration_manager.Errors.{ok, failed, not_permitted}
use migration_manager.Env.{Env}
use migration_manager.Api.Status.{is_running, is_batch_error, status_eq, canceled}
use migration_manager.Api.Types.{Instance, InstanceOverride, Batch, QueueEntry, Disk}
use migration_manager.Store.{M, ◌>>=◌, ◌>>◌, pure, raise_if, lift, query, exec, when}
use migration_manager.Store.Transaction.{do_tx}
use migration_manager.Store.Repo.{
  has_uuid, get_instance, get_batches_by_instance, update_instance, delete_instance,
  update_queue_entry, delete_queue_entry,
}
use migration_manager.Instance.{disabled_reason}
use migration_manager.Instance.Valid.{validate}

-- The instance may be migrated in the batch.
abbrev pub is_migratable : Env → Instance → Batch → Bool
is_migratable env i b = not (is_some (disabled_reason env i b.config.restriction_overrides))

-- The batch has started or failed, and the instance is not blocked in it.
abbrev pub pins : Env → Instance → Batch → Bool
pins env i b = (is_running b.status || is_batch_error b.status) && is_migratable env i b

-- The check that `Update` makes unless it may change an instance while it migrates.
unfoldable pub check_unpinned : Env → Instance → M (Unit {0})
check_unpinned env old = do
  batches ← query (λ d. ok (get_batches_by_instance old.uuid d))
  raise_if (any (pins env old) batches)
      (not_permitted "Instance is part of a running batch and cannot be modified")

-- `Update`.
unfoldable pub update : Env → Instance → Bool → M (Unit {0})
update env i allow = do
  lift (validate env i)
  do_tx (do
    old ← query (get_instance i.uuid)
    when (not allow) (check_unpinned env old)
    exec (update_instance i))

-- The overrides that decide what the worker is told about the instance.
abbrev pub changes_os : InstanceOverride → InstanceOverride → Bool
changes_os old new =
    not (str_eq old.configurable.name new.configurable.name)
    || not (str_eq old.os_type new.os_type)
    || not (str_eq old.distribution new.distribution)
    || not (str_eq old.distribution_version new.distribution_version)
    || not (str_eq old.configurable.architecture new.configurable.architecture)

-- The queue entry's placement has the other running state.
abbrev pub flips : QueueEntry → InstanceOverride → Bool
flips q o =
    (q.placement.running && o.stopped_after_migration)
    || (not q.placement.running && o.started_after_migration)

abbrev pub with_running : QueueEntry → Bool → QueueEntry
with_running q r = record q { placement = record q.placement { running = r } }

-- The rest of `UpdateOverride`, by whether the instance is in the queue.
unfoldable pub override_as : Env → Instance → InstanceOverride → Option QueueEntry → M (Unit {0})
override_as env i new none = update env (record i { overrides = new }) false
override_as env i new (some q) = do
  raise_if (not i.overrides.disable_migration && new.disable_migration)
      (failed "Migration has already started")
  raise_if (not (status_eq q.migration_status canceled) && changes_os i.overrides new)
      (failed "Cannot override OS information after migration has started")
  update env (record i { overrides = new }) true
  when (flips q new) (exec (update_queue_entry (with_running q new.started_after_migration)))

-- `UpdateOverride`.
unfoldable pub update_override : Env → ℕ → InstanceOverride → M (Unit {0})
update_override env id new = do_tx (do
  i ← query (get_instance id)
  q ← query (λ d. ok (find? (has_uuid id) d.queue))
  override_as env i new q)

abbrev pub unverified : Disk → Disk
unverified d = record d { background_import_verified = false }

-- The instance with background imports, which its disks have yet to show.
abbrev pub with_reset : Instance → Instance
with_reset i = record i {
  properties = record i.properties {
    background_import = true;
    disks = map unverified i.properties.disks;
  };
}

-- A running batch that has no need of the instance's background imports.
abbrev pub is_unrestricted : Instance → Batch → Bool
is_unrestricted i b =
    (b.config.restriction_overrides.allow_no_background_import || i.overrides.ignore_restrictions)
    && is_running b.status

-- `ResetBackgroundImport`.
unfoldable pub reset_background_import : Env → Instance → M (Unit {0})
reset_background_import env i =
    if i.properties.background_import
    then pure tt
    else do_tx (
        when (not i.overrides.disable_migration) (do
          batches ← query (λ d. ok (get_batches_by_instance i.uuid d))
          raise_if (any (is_unrestricted i) batches)
              (failed "Cannot reset background_import for unrestricted instance in a running batch")
          update env (with_reset i) false))

-- The disk after the report, and whether the report makes it verified.
abbrev pub verified_in : List String → Disk → Disk
verified_in names d =
    if any (str_eq d.name) names then record d { background_import_verified = true } else d

abbrev pub newly_verified : List String → Disk → Bool
newly_verified names d = any (str_eq d.name) names && not d.background_import_verified

abbrev pub with_report : Instance → Bool → List String → Instance
with_report i support names = record i {
  properties = record i.properties {
    background_import = support;
    disks = map (verified_in names) i.properties.disks;
  };
}

abbrev pub bool_eq : Bool → Bool → Bool
bool_eq a b = if a then b else not b

-- `SetBackgroundImportVerified`.
unfoldable pub set_background_import_verified : ℕ → Bool → List String → M Instance
set_background_import_verified id support names = do_tx (do
  i ← query (get_instance id)
  let same = bool_eq i.properties.background_import support in
      if is_empty names && same
      then pure i
      else if not same || any (newly_verified names) i.properties.disks
      then (exec (update_instance (with_report i support names))
          >> pure (with_report i support names))
      else pure (with_report i support names))

-- `DeleteByUUID`.
unfoldable pub delete_by_uuid : Env → ℕ → M (Unit {0})
delete_by_uuid env id = do_tx (do
  old ← query (get_instance id)
  batches ← query (λ d. ok (get_batches_by_instance id d))
  raise_if (any (is_migratable env old) batches)
      (not_permitted "Cannot delete instance: Either assigned to a batch or currently migrating")
  exec (delete_instance id))

-- `RemoveFromQueue`.
unfoldable pub remove_from_queue : ℕ → M (Unit {0})
remove_from_queue id = exec (delete_queue_entry id)

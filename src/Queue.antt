-- ===== src/Queue.antt =====
-- internal/migration/queue_model.go: the predicates on a queue entry's place in the migration, and
-- its validation. The operations of queue_service.go are in the children, and so are the proofs.
pub mod Phases
pub mod NextWindow
pub mod Operations
pub mod WorkerCommand
pub mod WorkerUpdate
pub mod Handler
pub mod Retry
use migration_manager.Prelude.{str_eq, Bool, true, false, not, ◌==◌, is_some, is_empty}
use migration_manager.Errors.{Result, validation, refuse_if, ◌>>=◌, ◌>>◌}
use migration_manager.Api.Status.{
  MigrationStatus, blocked, waiting, waiting_import, creating, background_import, idle,
  final_import, post_import, worker_done, finished, error, canceled, conflict, other,
  is_migration_status, ImportStage, complete,
}
use migration_manager.Api.Types.{QueueEntry}

abbrev pub is_complete : ImportStage → Bool
is_complete complete = true
is_complete _ = false

-- `QueueEntry.IsMigrating`, on the status.
abbrev pub migrating_status : MigrationStatus → Bool
migrating_status creating = true
migrating_status background_import = true
migrating_status idle = true
migrating_status final_import = true
migrating_status post_import = true
migrating_status worker_done = true
migrating_status _ = false

unfoldable pub is_migrating : QueueEntry → Bool
is_migrating q = migrating_status q.migration_status

-- `QueueEntry.StatusBeforeMigrationWindow`.
abbrev pub before_window_status : MigrationStatus → Bool
before_window_status background_import = true
before_window_status blocked = true
before_window_status creating = true
before_window_status idle = true
before_window_status waiting = true
before_window_status _ = false

unfoldable pub status_before_migration_window : QueueEntry → Bool
status_before_migration_window q = before_window_status q.migration_status

-- `QueueEntry.StatusBeforePlacement`.
abbrev pub before_placement : MigrationStatus → ImportStage → Bool
before_placement blocked s = true
before_placement waiting s = true
before_placement creating s = true
before_placement conflict s = not (is_complete s)
before_placement _ s = false

unfoldable pub status_before_placement : QueueEntry → Bool
status_before_placement q = before_placement q.migration_status q.import_stage

-- `QueueEntry.IsCommitted`.
abbrev pub committed : MigrationStatus → ImportStage → Bool
committed blocked s = false
committed canceled s = false
committed creating s = false
committed error s = false
committed finished s = false
committed waiting s = false
committed background_import s = false
committed final_import s = true
committed post_import s = true
committed worker_done s = true
committed idle s = is_complete s
committed conflict s = is_complete s
committed waiting_import s = true
committed (other _) s = true

unfoldable pub is_committed : QueueEntry → Bool
is_committed q = committed q.migration_status q.import_stage

-- `QueueEntry.Validate`.
unfoldable pub validate : QueueEntry → Result (Unit {0})
unfolding is_migration_status
validate q = do
  refuse_if (q.instance_uuid == 0) (validation "Invalid instance, UUID can not be empty")
  refuse_if (str_eq q.batch_name "") (validation "Invalid queue entry, batch name can not be empty")
  refuse_if (q.secret_token == 0) (validation "Invalid queue entry, token can not be empty")
  refuse_if (not (is_migration_status q.migration_status)) (validation "Invalid migration status")
  refuse_if (str_eq q.placement.target_name "") (validation "Target name cannot be empty")
  refuse_if (str_eq q.placement.target_project "") (validation "Target project cannot be empty")
  refuse_if (is_empty q.placement.storage_pools) (validation "No storage pool defined")
  refuse_if (not (is_some q.placement.networks)) (validation "No network defined")

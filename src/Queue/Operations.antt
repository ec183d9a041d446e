-- ===== src/Queue/Operations.antt =====
-- queue_service.go: the operations on one queue entry that the API and the other services call.
pub mod Outcome
use migration_manager.Prelude.{ℕ, String, Bool, not, Option, none}
use migration_manager.Prelude.Int.{pos}
use migration_manager.Errors.{ok, failed, not_permitted, validation}
use migration_manager.Api.Status.{
  MigrationStatus, finished, canceled, is_migration_status, ImportStage, background, status_eq,
}
use migration_manager.Api.Types.{QueueEntry, Placement}
use migration_manager.Store.{M, ◌>>=◌, ◌>>◌, pure, raise_if, lift, query, exec}
use migration_manager.Store.Transaction.{do_tx}
use migration_manager.Store.Repo.{
  get_queue_entry, create_queue_entry, update_queue_entry, delete_queue_entry,
  delete_queue_by_batch,
}
use migration_manager.Queue.{is_migrating, is_committed, validate}

-- `CreateEntry`: the entry is validated before anything is written.
unfoldable pub create_entry : QueueEntry → M QueueEntry
create_entry q = do
  lift (validate q)
  n ← query (λ d. ok d.next_id)
  exec (create_queue_entry q)
  pure (record q { id = pos n })

-- The fields that `UpdateStatusByUUID` sets.
abbrev pub with_status :
    MigrationStatus → String → ImportStage → Option String → QueueEntry → QueueEntry
with_status status message stage window q = record q {
  migration_status = status;
  migration_status_message = message;
  import_stage = stage;
  migration_window_name = window;
}

-- `UpdateStatusByUUID`.
unfoldable pub update_status :
    ℕ → MigrationStatus → String → ImportStage → Option String → M QueueEntry
update_status id status message stage window = do
  raise_if (not (is_migration_status status)) (validation "Invalid migration status")
  do_tx (do
    q ← query (get_queue_entry id)
    exec (update_queue_entry (with_status status message stage window q))
    pure (with_status status message stage window q))

-- `UpdatePlacementByUUID`: the whole entry is validated again.
unfoldable pub update_placement : ℕ → Placement → M QueueEntry
update_placement id p = do_tx (do
  q ← query (get_queue_entry id)
  lift (validate (record q { placement = p }))
  exec (update_queue_entry (record q { placement = p }))
  pure (record q { placement = p }))

-- `DeleteByUUID`: an entry in a migration phase stays.
unfoldable pub delete_by_uuid : ℕ → M (Unit {0})
delete_by_uuid id = do_tx (do
  q ← query (get_queue_entry id)
  raise_if (is_migrating q) (not_permitted "Cannot delete queue entry")
  exec (delete_queue_entry id))

-- `DeleteAllByBatch`.
unfoldable pub delete_all_by_batch : String → M (Unit {0})
delete_all_by_batch b = do_tx (exec (delete_queue_by_batch b))

-- `CancelByUUID`: the canceled entry, and whether it was past the point of no return.
unfoldable pub cancel : ℕ → M (QueueEntry × Bool)
unfolding update_status
cancel id = do_tx (do
  q ← query (get_queue_entry id)
  raise_if (status_eq q.migration_status finished) (failed "Queue entry is already finished")
  new ← update_status q.instance_uuid canceled q.migration_status_message background none
  pure (new, is_committed q))

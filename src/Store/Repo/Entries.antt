-- ===== src/Store/Repo/Entries.antt =====
-- internal/migration/repo/sqlite/queue.go: the statements on queue entries.
use migration_manager.Prelude.{
  ℕ, suc, String, Bool, not, ◌&&◌, if◌then◌else◌, List, Option, none, some, is_empty,
}
use migration_manager.Prelude.Int.{ℤ, pos}
use migration_manager.Prelude.Map.{insert, nat_eq}
use migration_manager.Prelude.Table.{find?, filter, any, replace, remove, snoc}
use migration_manager.Errors.{Result, ok, err, failed, not_found, constraint_violation}
use migration_manager.Api.Status.{MigrationStatus, status_eq}
use migration_manager.Api.Types.{QueueEntry, Batch, Window}
use migration_manager.Store.State.{Db}
use migration_manager.Store.Repo.Keys.{
  or_not_found, has_uuid, in_batch, is_batch, is_instance, is_window,
}

-- `GetByInstanceUUID`.
unfoldable pub get_queue_entry : ℕ → Db → Result QueueEntry
get_queue_entry id d = or_not_found (find? (has_uuid id) d.queue)

-- `GetAll`.
abbrev pub get_all_queue : Db → List QueueEntry
get_all_queue d = d.queue

-- `GetAllByBatch`.
unfoldable pub get_queue_by_batch : String → Db → List QueueEntry
get_queue_by_batch b d = filter (in_batch b) d.queue

abbrev pub any_status : List MigrationStatus → QueueEntry → Bool
any_status ss q = any (λ s. status_eq q.migration_status s) ss

-- `GetAllByState`. One filter for each state: with none, every row is returned.
unfoldable pub get_queue_by_state : List MigrationStatus → Db → List QueueEntry
get_queue_by_state ss d = if is_empty ss then d.queue else filter (any_status ss) d.queue

-- `GetAllByBatchAndState`.
unfoldable pub get_queue_by_batch_and_state : String → List MigrationStatus → Db → List QueueEntry
get_queue_by_batch_and_state b ss d =
    if is_empty ss then d.queue else filter (λ q. in_batch b q && any_status ss q) d.queue

-- The subselect for the window of an entry. Its `batch_id` is the window's own column, so that a window
-- of that name in any batch is found: the engine takes the one whose batch comes first.
unfoldable pub window_named : String → Db → Option Window
window_named n d = elim (find? (λ (b : Batch). any (is_window n b.name) d.windows) d.batches) [
  | none ↦ none
  | some b ↦ find? (is_window n b.name) d.windows
]

abbrev pub linked_window : Db → QueueEntry → Option Window
linked_window d q = elim q.migration_window_name [ none ↦ none | some n ↦ window_named n d ]

-- A read joins the name of the window that the id stands for: none, where the name is no window's.
abbrev pub link_window : Db → QueueEntry → QueueEntry
link_window d q = record q {
  migration_window_name = elim (linked_window d q) [ none ↦ none | some w ↦ some w.name ];
}

abbrev pub window_id : Db → QueueEntry → Option ℤ
window_id d q = elim (linked_window d q) [ none ↦ none | some w ↦ some w.id ]

-- `Create` of a queue entry.
unfoldable pub create_queue_entry : QueueEntry → Db → Result Db
create_queue_entry q d =
    if not (any (is_instance q.instance_uuid) d.instances && any (is_batch q.batch_name) d.batches)
    then err (failed "Failed to create \"queue\" entry")
    else if any (has_uuid q.instance_uuid) d.queue
    then err constraint_violation
    else ok (record d {
      queue = snoc d.queue (record (link_window d q) { id = pos d.next_id });
      window_ids = insert q.instance_uuid (window_id d q) d.window_ids;
      next_id = suc d.next_id;
    })

-- `Update` of a queue entry: the row keeps its id.
unfoldable pub update_queue_entry : QueueEntry → Db → Result Db
update_queue_entry q d = elim (find? (has_uuid q.instance_uuid) d.queue) [
  | none ↦ err not_found
  | some old ↦
      if any (is_batch q.batch_name) d.batches
      then ok (record d {
        queue =
            replace (has_uuid q.instance_uuid) (record (link_window d q) { id = old.id }) d.queue;
        window_ids = insert q.instance_uuid (window_id d q) d.window_ids;
      })
      else err (failed "Update \"queue\" entry failed")
]

-- `DeleteByUUID` of a queue entry.
unfoldable pub delete_queue_entry : ℕ → Db → Result Db
delete_queue_entry id d =
    if any (has_uuid id) d.queue
    then ok (record d { queue = remove (has_uuid id) d.queue })
    else err not_found

-- `DeleteAllByBatch`.
unfoldable pub delete_queue_by_batch : String → Db → Result Db
delete_queue_by_batch b d = ok (record d { queue = remove (in_batch b) d.queue })

-- ===== src/Batch/Operations.antt =====
-- batch_service.go: the operations that change the status of a batch, and the reset. Its start is in
-- Batch/Start.
pub mod Reset
use migration_manager.Prelude.{
  ℕ, ◌==◌, String, str_eq, Bool, not, ◌&&◌, ◌||◌, if◌then◌else◌, List, [], ◌∷◌, none, some,
}
use migration_manager.Prelude.Table.{find?, any}
use migration_manager.Errors.{ok, not_permitted}
use migration_manager.Api.Status.{
  background_import, final_import, status_eq, BatchStatus, defined, stopped, is_defined, is_running,
}
use migration_manager.Api.Types.{QueueEntry, Batch, Instance}
use migration_manager.Cache.Counters.{remove_active_import}
use migration_manager.Store.{World, M, ◌>>=◌, ◌>>◌, pure, raise_if, query, exec}
use migration_manager.Store.Transaction.{do_tx}
use migration_manager.Store.Repo.{get_batch, update_batch, get_queue_by_batch}
use migration_manager.Queue.{is_committed}
use migration_manager.Queue.NextWindow.{get_batch_by_name, get_all_queued}
use migration_manager.Queue.Operations.{delete_all_by_batch}

-- `UpdateStatusByName`.
unfoldable pub update_status : String → BatchStatus → String → M Batch
update_status name status message = do_tx (do
  b ← query (get_batch name)
  exec (update_batch b.name (record b { status = status; status_message = message }))
  pure (record b { status = status; status_message = message }))

-- `StopBatchByName`.
unfoldable pub stop : String → M Batch
stop name = do
  raise_if (str_eq name "") (not_permitted "Batch name cannot be empty")
  do_tx (do
    b ← query (get_batch_by_name name)
    raise_if (not (is_running b.status)) (not_permitted "Cannot stop batch in its current state")
    exec (update_batch b.name (record b { status = stopped; status_message = "Stopped" }))
    pure (record b { status = stopped; status_message = "Stopped" }))

-- `instMap[id].Source`: a missing instance reads as the zero value.
abbrev pub source_of : List Instance → ℕ → String
source_of is id = elim (find? (λ (i : Instance). i.uuid == id) is) [ none ↦ "" | some i ↦ i.source ]

-- The imports of an entry that the reset takes off the counters.
unfoldable pub release_entry : String → List Instance → QueueEntry → World → World
release_entry name is q w =
    let background = status_eq q.migration_status background_import in
    let imports = background || status_eq q.migration_status final_import in
    record w {
      source_imports =
          if imports
          then remove_active_import (source_of is q.instance_uuid) w.source_imports
          else w.source_imports;
      target_imports =
          if imports
          then remove_active_import q.placement.target_name w.target_imports
          else w.target_imports;
      batch_imports =
          if background then remove_active_import name w.batch_imports else w.batch_imports;
    }

unfoldable pub release_entries : String → List Instance → List QueueEntry → World → World
release_entries name is [] w = w
release_entries name is (q ∷ qs) w = release_entries name is qs (release_entry name is q w)

unfoldable pub release_all : String → List Instance → List QueueEntry → M (Unit {0})
release_all name is qs w = (ok tt, release_entries name is qs w)

-- The batch as it is after a reset.
abbrev pub as_defined : Batch → Batch
as_defined b = record b { status = defined; status_message = "Defined"; start_date = 0 }

-- The reset of a batch that has started.
unfoldable pub reset_started : String → Bool → Batch → M Batch
reset_started name force b = do
  entries ← query (λ d. ok (get_queue_by_batch name d))
  raise_if (any is_committed entries && not force)
      (not_permitted "Queue entries have already begun final import or post-migration steps")
  instances ← query (λ d. ok (get_all_queued entries d))
  delete_all_by_batch name
  exec (update_batch name (as_defined b))
  release_all name instances entries
  pure (as_defined b)

unfoldable pub reset_found : String → Bool → Batch → M Batch
unfolding reset_started
reset_found name force b = if is_defined b.status then pure b else reset_started name force b

-- `ResetBatchByName`.
unfoldable pub reset : String → Bool → M Batch
unfolding reset_found
reset name force = do_tx (do b ← query (get_batch name); reset_found name force b)

-- ===== src/Queue/WorkerUpdate.antt =====
-- queue_service.go, ProcessWorkerUpdate: what a worker's response does to its queue entry and to the
-- counters of running imports. The log file that a failure may write is not modelled.
pub mod Laws
use migration_manager.Prelude.{ℕ, String, Bool, true, false, not, ◌&&◌, if◌then◌else◌}
use migration_manager.Errors.{ok, not_found}
use migration_manager.Api.Status.{
  MigrationStatus, idle, background_import, final_import, post_import, worker_done, error,
  status_eq, final, complete, WorkerResponseType, unknown_response, running_response,
  success_response, failed_response, other_response, is_running_response,
}
use migration_manager.Api.Types.{QueueEntry, Instance, WorkerResponse}
use migration_manager.Cache.Counters.{remove_active_import}
use migration_manager.Store.{World, M, ◌>>=◌, ◌>>◌, pure, raise_if, query, exec, when}
use migration_manager.Store.Transaction.{do_tx}
use migration_manager.Store.Repo.{get_queue_entry, get_instance, update_queue_entry}
use migration_manager.Queue.{is_migrating}

-- A success moves the entry on by its status.
abbrev succeed : ℕ → MigrationStatus → QueueEntry → QueueEntry
succeed now background_import q = record q {
  import_stage = final;
  migration_status = idle;
  migration_status_message = "Waiting for migration window";
  last_background_sync = now;
}
succeed now final_import q = record q {
  import_stage = complete;
  migration_status = idle;
  migration_status_message = "Waiting for worker to begin post-import tasks";
}
succeed now post_import q = record q {
  migration_status = worker_done;
  migration_status_message = "Starting target instance";
}
succeed now _ q = q

-- The `switch` on the response.
abbrev respond_by : ℕ → WorkerResponseType → String → QueueEntry → QueueEntry
respond_by now running_response message q = record q { migration_status_message = message }
respond_by now success_response message q = succeed now q.migration_status q
respond_by now failed_response message q = record q {
  migration_status = error;
  migration_status_message = message;
}
respond_by now unknown_response message q = q
respond_by now (other_response _) message q = q

-- The entry as it is stored after the response.
unfoldable pub respond : ℕ → WorkerResponse → QueueEntry → QueueEntry
respond now r q = record (respond_by now r.status r.status_message q) {
  last_worker_status = r.status;
}

abbrev is_failed_response : WorkerResponseType → Bool
is_failed_response failed_response = true
is_failed_response _ = false

-- The counters after a response that ends a command; `was_background` is the status before it.
unfoldable pub release_imports : Instance → QueueEntry → Bool → World → World
release_imports i q was_background w = record w {
  source_imports = remove_active_import i.source w.source_imports;
  target_imports = remove_active_import q.placement.target_name w.target_imports;
  batch_imports =
      if was_background then remove_active_import q.batch_name w.batch_imports else w.batch_imports;
}

unfoldable pub release_in : Instance → QueueEntry → Bool → M (Unit {0})
release_in i q b w = (ok tt, release_imports i q b w)

-- The body of the transaction.
unfoldable pub process : ℕ → ℕ → WorkerResponse → M QueueEntry
process now id r = do
  q ← query (get_queue_entry id)
  raise_if (not (is_migrating q)) not_found
  when (is_failed_response r.status && not (status_eq q.migration_status error) && r.has_metadata)
      (do query (get_instance id); pure tt)
  when (not (is_running_response r.status)) (do
    i ← query (get_instance id)
    release_in i q (status_eq q.migration_status background_import))
  exec (update_queue_entry (respond now r q))
  pure (respond now r q)

-- `ProcessWorkerUpdate`.
unfoldable pub process_worker_update : ℕ → ℕ → WorkerResponse → M QueueEntry
unfolding process
process_worker_update now id r = do_tx (process now id r)

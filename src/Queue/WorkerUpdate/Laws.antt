-- ===== src/Queue/WorkerUpdate/Laws.antt =====
-- queue_service.go: what holds of a queue entry and the counters after a worker's response.
use migration_manager.Prelude.{
  suc, ◌<◌, ℕ, ◌≡◌, refl, ◌≢◌, inl, inr, true, false, if◌then◌else◌, arith, eq_refl,
}
use migration_manager.Prelude.Int.{pos, int_limit}
use migration_manager.Errors.{ok, Result-cases}
use migration_manager.Api.Status.{
  background_import, post_import, worker_done, status_eq, success_response, failed_response,
  is_running_response,
}
use migration_manager.Api.Types.{QueueEntry, Instance, WorkerResponse, Batch}
use migration_manager.Cache.Counters.{remove_active_import, get_cached_imports}
use migration_manager.Cache.Counters.Laws.{get-remove}
use migration_manager.Store.{World, ◌>>=◌, ◌>>◌, query, raise_if, when, exec, pure}
use migration_manager.Store.Repo.{get_queue_entry, get_instance}
use migration_manager.Queue.{is_committed, is_migrating}
use migration_manager.Queue.WorkerCommand.{record_imports}
use migration_manager.Queue.WorkerUpdate.{respond, process, release_imports, release_in}

-- A worker's response that does not report a failure never takes back a commitment: an entry that is
-- past the point of no return is still past it after the response.
pub respond-committed :
    (now : ℕ) (r : WorkerResponse) (q : QueueEntry)
    → r.status ≢ failed_response
    → is_committed q ≡ true
    → is_committed (respond now r q) ≡ true
unfolding respond is_committed
respond-committed now r q ne c = ground arith

-- What a successful call has done.
process-ok :
    (now id : ℕ) (r : WorkerResponse) (w : World) (q' : QueueEntry)
    → (process now id r w).0 ≡ ok q'
    → (q : QueueEntry) × (get_queue_entry id w.db ≡ ok q)
      × (is_migrating q ≡ true)
      × (q' ≡ respond now r q)
unfolding process release_in ◌>>=◌ ◌>>◌ query raise_if when exec pure
process-ok now id r w q' h = elim (Result-cases (get_queue_entry id w.db)) [
  | inr (x, e) ↦ ground arith
  | inl (q, e) ↦ (q, e, ground arith, ground arith)
]

-- The counters after a successful call that ends a command.
process-counters :
    (now id : ℕ) (r : WorkerResponse) (w : World) (q q' : QueueEntry) (i : Instance)
    → is_running_response r.status ≡ false
    → get_queue_entry id w.db ≡ ok q
    → get_instance id w.db ≡ ok i
    → (process now id r w).0 ≡ ok q'
    → ((process now id r w).1.source_imports ≡ remove_active_import i.source w.source_imports)
      × ((process now id r w).1.target_imports
          ≡ remove_active_import q.placement.target_name w.target_imports)
      × ((process now id r w).1.batch_imports ≡ (
          if status_eq q.migration_status background_import
          then remove_active_import q.batch_name w.batch_imports
          else w.batch_imports))
unfolding process release_in release_imports ◌>>=◌ ◌>>◌ query raise_if when exec pure
process-counters now id r w q q' i ends eq ei h = ground arith

process-result :
    (now id : ℕ) (r : WorkerResponse) (w : World) (q q' : QueueEntry)
    → get_queue_entry id w.db ≡ ok q
    → (process now id r w).0 ≡ ok q'
    → q' ≡ respond now r q
process-result now id r w q q' eq h =
    let (p, ep, _, done) = process-ok now id r w q' h in let same : p ≡ q = cc in rw (← same) done

respond-done :
    (now : ℕ) (r : WorkerResponse) (q q' : QueueEntry)
    → r.status ≡ success_response
    → q.migration_status ≡ post_import
    → q' ≡ respond now r q
    → q'.migration_status ≡ worker_done
unfolding respond
respond-done now r q q' success st e = ground arith

-- When a worker reports the success of its post-import tasks, and an import of its source is counted,
-- the count falls by one, and the entry's worker is done. But to start such tasks has counted no
-- import of the source.
pub post_import-releases :
    (now id : ℕ) (r : WorkerResponse) (v w : World) (q q' : QueueEntry) (i : Instance) (b : Batch)
    (n : ℕ)
    → r.status ≡ success_response
    → get_queue_entry id w.db ≡ ok q
    → q.migration_status ≡ post_import
    → get_instance id w.db ≡ ok i
    → get_cached_imports i.source w.source_imports ≡ pos (suc n)
    → suc n < int_limit
    → (process now id r w).0 ≡ ok q'
    → (get_cached_imports i.source (process now id r w).1.source_imports ≡ pos n)
      × (q'.migration_status ≡ worker_done)
      × ((record_imports i q b post_import v).source_imports ≡ v.source_imports)
unfolding record_imports
post_import-releases now id r v w q q' i b n success eq st ei running small h =
    let (src, _, _) = process-counters now id r w q q' i (rw success refl) eq ei h in
    (
      rw src (rw get-remove (ground (arith, eq_refl i.source))),
      respond-done now r q q' success st (process-result now id r w q q' eq h),
      refl,
    )

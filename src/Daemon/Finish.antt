-- ===== src/Daemon/Finish.antt =====
-- cmd/migration-managerd/internal/api/workers.go, finalizeCompleteInstances: the transaction at its
-- end, which marks the entries whose configuration failed, and the batches that are complete; and
-- what resetQueueEntry and configureMigratedInstances write of an entry.
pub mod Laws
use migration_manager.Prelude.{
  ℕ, String, Bool, false, not, if◌then◌else◌, List, [], ◌∷◌, Option, none, some,
}
use migration_manager.Prelude.Int.{ℤ, pos, ◌+ℤ◌, ltb_ℤ, wrap_int}
use migration_manager.Prelude.Map.{Map, nat_eq}
use migration_manager.Cache.{read, write}
use migration_manager.Prelude.Table.{all}
use migration_manager.Errors.{Error, Result, ok, err}
use migration_manager.Env.{Env}
use migration_manager.Api.Status.{
  MigrationStatus, ImportStage, waiting, idle, final_import, worker_done, finished, error, conflict,
  background, final, status_eq, batch_finished,
}
use migration_manager.Api.Types.{QueueEntry, Window, Batch}
use migration_manager.Window.{ended, empty_window}
use migration_manager.Store.{World, M, ◌>>=◌, ◌>>◌, pure, lift, query, when}
use migration_manager.Store.Transaction.{do_tx}
use migration_manager.Store.Repo.{get_queue_by_batch}
use migration_manager.Batch.Operations.{update_status as update_batch_status}
use migration_manager.Queue.Handler.{remove_from_cache}
use migration_manager.Queue.Operations.{update_status}

abbrev pub is_finished : QueueEntry → Bool
is_finished q = status_eq q.migration_status finished

-- One round of the loop over the batches.
unfoldable pub finish_batch : String → M (Unit {0})
finish_batch name = do
  qs ← query (λ d. ok (get_queue_by_batch name d))
  when (all is_finished qs) (do update_batch_status name batch_finished "Finished"; pure tt)

unfoldable pub finish_batches : List String → M (Unit {0})
unfolding finish_batch
finish_batches [] = pure tt
finish_batches (n ∷ ns) = do finish_batch n; finish_batches ns

-- An entry whose configuration failed, as it was when the task began, and the text of the error.
unfoldable pub mark_conflicts : List (QueueEntry × String) → M (Unit {0})
mark_conflicts [] = pure tt
mark_conflicts ((q, message) ∷ rest) = do
  update_status q.instance_uuid conflict message q.import_stage q.migration_window_name
  mark_conflicts rest

-- The last transaction of `finalizeCompleteInstances`.
unfoldable pub settle : List (QueueEntry × String) → List String → M (Unit {0})
unfolding mark_conflicts finish_batches
settle conflicts names = do_tx (do mark_conflicts conflicts; finish_batches names)

-- What the clients of the source and of the target do for an entry: each may fail.
pub record Clients : Type 0 where
  -- connects to the source, and `PowerOnVM`
  pub power_on : QueueEntry → Result (Unit {0})
  -- connects to the target, and `SetProject`
  pub connect : QueueEntry → Result (Unit {0})
  -- `CleanupVM`, `systemctl stop` and `systemctl restart` on the worker
  pub clean_up : QueueEntry → Result (Unit {0})
  pub stop_worker : QueueEntry → Result (Unit {0})
  pub restart_worker : QueueEntry → Result (Unit {0})
  -- `SetPostMigrationVMConfig`
  pub configure : QueueEntry → Result (Unit {0})
  -- `err.Error()`
  pub text : Error → String

abbrev pub is_final : QueueEntry → Bool
is_final q = status_eq q.migration_status final_import

-- `resetQueueEntry`: an entry in its final import waits for the next window, any other one starts
-- again.
abbrev pub reset_status : QueueEntry → MigrationStatus
reset_status q = if is_final q then idle else waiting

abbrev pub reset_stage : QueueEntry → ImportStage
reset_stage q = if is_final q then final else background

module _ (env : Env) (clients : Clients) where
  unfoldable pub reset_entry : QueueEntry → M (Unit {0})
  reset_entry q = do
    when q.placement.running (lift (clients.power_on q))
    lift (clients.connect q)
    lift (if is_final q then clients.stop_worker q else clients.clean_up q)
    update_status q.instance_uuid (reset_status q)
        "Migration window ended, waiting for next migration window" (reset_stage q) none
    when (is_final q) (lift (clients.restart_worker q))

  -- The steps of `configureMigratedInstances`.
  unfoldable pub configure_steps : QueueEntry → M (Unit {0})
  configure_steps q = do
    lift (clients.connect q)
    lift (clients.configure q)
    update_status q.instance_uuid finished "Finished" q.import_stage none
    pure tt

  -- `RecordPostMigrationRetry`.
  abbrev pub record_retry : ℕ → Map ℕ ℤ → Map ℕ ℤ
  record_retry id c = write (pos 0) id (pos 1) (λ old new. wrap_int (old +ℤ new)) c

  -- The deferred function, after a failure: within the window, another try or the error status.
  unfoldable pub revert : Batch → Window → QueueEntry → Error → World → World
  revert b win q e w =
      if ended env win
      then w
      else if ltb_ℤ (read (pos 0) q.instance_uuid w.retries) b.config.post_migration_retries
      then record w { retries = record_retry q.instance_uuid w.retries }
      else (update_status q.instance_uuid error (clients.text e) background q.migration_window_name
          w).1

  -- `configureMigratedInstances`.
  unfoldable pub configure_migrated : Batch → Window → QueueEntry → M (Unit {0})
  unfolding configure_steps revert
  configure_migrated b win q w =
      let (r, w') = configure_steps q w in
      elim r [ ok u ↦ (ok tt, w') | err e ↦ (err e, revert b win q e w') ]

  -- One entry of the state, with its batch, and its window if it has the name of one.
  pub record Item : Type 0 where
    pub entry : QueueEntry
    pub batch : Batch
    pub window : Option Window

  -- What the task notes of an entry; a conflict has the text of its error.
  pub data Outcome : Type 0 where
    skipped completed : Outcome
    conflicted : String → Outcome

  abbrev pub window_ended : Option Window → Bool
  window_ended none = false
  window_ended (some win) = ended env win

  abbrev pub window_or_empty : Option Window → Window
  window_or_empty none = empty_window
  window_or_empty (some win) = win

  -- An error of the reset is only logged.
  unfoldable pub finish_item : Item → World → Outcome × World
  unfolding reset_entry configure_migrated
  finish_item it w =
      if window_ended it.window
      then (skipped, (reset_entry it.entry w).1)
      else if not (status_eq it.entry.migration_status worker_done)
      then (skipped, w)
      else let (r, w') = configure_migrated it.batch (window_or_empty it.window) it.entry w in
        elim r [ ok u ↦ (completed, w') | err e ↦ (conflicted (clients.text e), w') ]

  -- The conflicts and the completed entries, in the order in which the goroutines come to them.
  abbrev pub note :
      QueueEntry
      → Outcome
      → List (QueueEntry × String) × List ℕ
      → List (QueueEntry × String) × List ℕ
  note q skipped r = r
  note q completed (conflicts, done) = (conflicts, q.instance_uuid ∷ done)
  note q (conflicted message) (conflicts, done) = ((q, message) ∷ conflicts, done)

  unfoldable pub finish_items : List Item → World → (List (QueueEntry × String) × List ℕ) × World
  unfolding finish_item
  finish_items [] w = (([], []), w)
  finish_items (it ∷ its) w =
      let (o, w') = finish_item it w in
      let (noted, w'') = finish_items its w' in (note it.entry o noted, w'')

  abbrev forget : List ℕ → Map ℕ ℕ → Map ℕ ℕ
  forget [] m = m
  forget (id ∷ ids) m = forget ids (remove_from_cache id m)

  -- `finalizeCompleteInstances`, from the state on; `names` are the names of its batches.
  unfoldable pub finalize : List Item → List String → M (Unit {0})
  unfolding finish_items settle remove_from_cache
  finalize items names w =
      let ((conflicts, done), w') = finish_items items w in
      settle conflicts names (record w' { worker_updates = forget done w'.worker_updates })

-- ===== src/Batch/Operations/Reset.antt =====
-- batch_service.go: what a reset of a batch does, and when it is refused.
use migration_manager.Store.Batches.{get_batch-name, update_batch-queue}
use migration_manager.Prelude.{
  String, Bool, true, false, List, [], ◌∷◌, ◌≡◌, refl, inl, inr, arith, Bool-cases,
}
use migration_manager.Prelude.Table.{filter, remove, any}
use migration_manager.Errors.{ok, Result-cases}
use migration_manager.Api.Status.{is_defined}
use migration_manager.Api.Types.{QueueEntry, Batch, Instance}
use migration_manager.Store.{World, ◌>>=◌, ◌>>◌, pure, raise_if, query, exec}
use migration_manager.Store.Transaction.{do_tx, close_tx-ok}
use migration_manager.Store.Repo.{
  get_batch, update_batch, get_queue_by_batch, delete_queue_by_batch, in_batch,
}
use migration_manager.Queue.{is_committed}
use migration_manager.Queue.NextWindow.{get_all_queued}
use migration_manager.Queue.Operations.{delete_all_by_batch}
use migration_manager.Batch.Operations.{
  as_defined, release_all, release_entries, release_entry, reset, reset_found, reset_started,
}

filter-remove-nil {ℓ} : {A : Type ℓ} (p : A → Bool) (xs : List A) → filter p (remove p xs) ≡ []
filter-remove-nil p [] = refl
filter-remove-nil p (x ∷ xs) = elim (Bool-cases (p x)) [
  | inl e ↦ rw e (filter-remove-nil p xs)
  | inr e ↦ rw e (rw e (filter-remove-nil p xs))
]

-- The release of imports changes neither the tables nor the transaction.
release_entries-rest :
    (name : String) (is : List Instance) (qs : List QueueEntry) (w : World)
    → ((release_entries name is qs w).db ≡ w.db) × ((release_entries name is qs w).in_tx ≡ w.in_tx)
unfolding release_entries release_entry
release_entries-rest name is [] w = (refl, refl)
release_entries-rest name is (q ∷ qs) w =
    release_entries-rest name is qs (release_entry name is q w)

reset_started-ok :
    (force : Bool) (b b' : Batch) (w : World)
    → w.in_tx ≡ true
    → (reset_started b.name force b w).0 ≡ ok b'
    → (b' ≡ as_defined b)
      × ((reset_started b.name force b w).1.db.queue ≡ remove (in_batch b.name) w.db.queue)
      × ((reset_started b.name force b w).1.in_tx ≡ true)
      × (any is_committed (get_queue_by_batch b.name w.db) ≡ true → force ≡ true)
unfolding reset_started delete_all_by_batch do_tx ◌>>=◌ ◌>>◌ query raise_if exec release_all pure
    delete_queue_by_batch
reset_started-ok force b b' w inside h =
    let cleared = record w.db { queue = remove (in_batch b.name) w.db.queue } in
    elim (Result-cases (update_batch b.name (as_defined b) cleared)) [
      | inr (x, e) ↦ ground arith
      | inl (d, e) ↦
          let entries = get_queue_by_batch b.name w.db in
          ground (
            arith,
            update_batch-queue (as_defined b) cleared d e,
            release_entries-rest b.name (get_all_queued entries w.db) entries (record w { db = d }),
          )
    ]

reset_body-ok :
    (force : Bool) (b b' : Batch) (w : World)
    → w.in_tx ≡ true
    → get_batch b.name w.db ≡ ok b
    → is_defined b.status ≡ false
    → (◌>>=◌ (query (get_batch b.name)) (λ x. reset_found b.name force x) w).0 ≡ ok b'
    → (b' ≡ as_defined b)
      × ((◌>>=◌ (query (get_batch b.name)) (λ x. reset_found b.name force x) w).1.db.queue
          ≡ remove (in_batch b.name) w.db.queue)
      × (any is_committed (get_queue_by_batch b.name w.db) ≡ true → force ≡ true)
unfolding reset_found ◌>>=◌ query
reset_body-ok force b b' w inside found started h =
    ground (arith, reset_started-ok force b b' w inside)

reset_own :
    (force : Bool) (b b' : Batch) (w : World)
    → w.in_tx ≡ false
    → get_batch b.name w.db ≡ ok b
    → is_defined b.status ≡ false
    → (reset b.name force w).0 ≡ ok b'
    → (b' ≡ as_defined b)
      × ((reset b.name force w).1.db.queue ≡ remove (in_batch b.name) w.db.queue)
      × (any is_committed (get_queue_by_batch b.name w.db) ≡ true → force ≡ true)
unfolding reset do_tx
reset_own force b b' w outside found started h =
    let w1 = record w { in_tx = true } in
    let r = (◌>>=◌ (query (get_batch b.name)) (λ x. reset_found b.name force x) w1) in
    let (done, kept) = close_tx-ok w.db r b' (rw outside at h) in
    let (same, rows, forced) = reset_body-ok force b b' w1 refl found started done in
    (same, rw outside (rw kept rows), forced)

-- When the reset of a batch that has started, outside any transaction, succeeds, the batch is returned
-- as a defined one, its entries have left the queue, every other entry is still there, and if one of the batch's entries
-- was past the point of no return then the reset was forced.
pub reset_clears :
    (name : String) (force : Bool) (b b' : Batch) (w : World)
    → w.in_tx ≡ false
    → get_batch name w.db ≡ ok b
    → is_defined b.status ≡ false
    → (reset name force w).0 ≡ ok b'
    → (b' ≡ as_defined b)
      × ((reset name force w).1.db.queue ≡ remove (in_batch name) w.db.queue)
      × (get_queue_by_batch name (reset name force w).1.db ≡ [])
      × (any is_committed (get_queue_by_batch name w.db) ≡ true → force ≡ true)
unfolding get_queue_by_batch
reset_clears name force b b' w outside found started h =
    let own = get_batch-name name w.db b found in
    let (same, rows, forced) =
      reset_own force b b' w outside (rw (← own) at found) started (rw (← own) at h) in
    let rows' = rw own at rows in
    (same, rows', rw rows' (filter-remove-nil (in_batch name) w.db.queue), rw own at forced)

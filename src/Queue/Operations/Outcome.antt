-- ===== src/Queue/Operations/Outcome.antt =====
-- queue_service.go: what a deletion and a cancellation leave in the queue, and when they are refused.
use migration_manager.Prelude.{
  ℕ, String, Bool, true, false, ◌≡◌, refl, inl, inr, arith, none, ap, sym, ◌∙◌,
}
use migration_manager.Prelude.Table.{remove, find?-remove}
use migration_manager.Errors.{Error, ok, err, not_found, Result-cases}
use migration_manager.Api.Status.{canceled, background, finished, status_eq, is_migration_status}
use migration_manager.Api.Types.{QueueEntry}
use migration_manager.Store.{Db, World, ◌>>=◌, ◌>>◌, query, raise_if, exec, pure}
use migration_manager.Store.Transaction.{do_tx, close_tx}
use migration_manager.Store.Repo.{get_queue_entry, delete_queue_entry, has_uuid, update_queue_entry}
use migration_manager.Store.Rows.{get-update, get_queue_entry-uuid}
use migration_manager.Queue.{is_migrating, is_committed}
use migration_manager.Queue.Operations.{delete_by_uuid, cancel, update_status, with_status}

delete_queue_entry-gone :
    (id : ℕ) (d d' : Db) → delete_queue_entry id d ≡ ok d' → get_queue_entry id d' ≡ err not_found
unfolding delete_queue_entry get_queue_entry
delete_queue_entry-gone id d d' h =
    let rows : d'.queue ≡ remove (has_uuid id) d.queue = ground arith in
    rw rows (rw (find?-remove (has_uuid id) d.queue) refl)

-- A deletion, outside any transaction, that succeeds has found the entry, which was in no migration
-- phase, and a read finds it no more.
pub delete_by_uuid_outcome :
    (id : ℕ) (w : World)
    → w.in_tx ≡ false
    → (delete_by_uuid id w).0 ≡ ok tt
    → (q : QueueEntry) × (get_queue_entry id w.db ≡ ok q)
      × (is_migrating q ≡ false)
      × (get_queue_entry id (delete_by_uuid id w).1.db ≡ err not_found)
unfolding delete_by_uuid do_tx close_tx ◌>>=◌ ◌>>◌ query raise_if exec
delete_by_uuid_outcome id w outside h = elim (Result-cases (get_queue_entry id w.db)) [
  | inr (x, e) ↦ ground arith
  | inl (q, e) ↦ elim (Result-cases (delete_queue_entry id w.db)) [
    | inr (x, f) ↦ ground arith
    | inl (d, f) ↦ (q, e, ground arith, ground (arith, delete_queue_entry-gone id w.db d f))
  ]
]

-- The statement of a cancellation, for an entry that is stored under its UUID.
cancel_write :
    (q : QueueEntry) (d d' : Db)
    → update_queue_entry (with_status canceled q.migration_status_message background none q) d
      ≡ ok d'
    → (e : QueueEntry) × (get_queue_entry q.instance_uuid d' ≡ ok e)
      × (e.migration_status ≡ canceled)
      × (e.import_stage ≡ background)
      × (e.migration_window_name ≡ none)
cancel_write q d d' h =
    let new = with_status canceled q.migration_status_message background none q in
    let (old, _, found, _, _) = get-update new d d' h in
    (record new { id = old.id }, found, refl, refl, refl)

update_status-ok :
    (q : QueueEntry) (m : String) (w : World) (d : Db)
    → w.in_tx ≡ true
    → get_queue_entry q.instance_uuid w.db ≡ ok q
    → update_queue_entry (with_status canceled m background none q) w.db ≡ ok d
    → update_status q.instance_uuid canceled m background none w
      ≡ (ok (with_status canceled m background none q), record w { db = d })
unfolding update_status do_tx ◌>>=◌ ◌>>◌ query raise_if exec pure is_migration_status
update_status-ok q m w d inside found written = ground arith

update_status-err :
    (q : QueueEntry) (m : String) (w : World) (x : Error)
    → w.in_tx ≡ true
    → get_queue_entry q.instance_uuid w.db ≡ ok q
    → update_queue_entry (with_status canceled m background none q) w.db ≡ err x
    → (update_status q.instance_uuid canceled m background none w).0 ≡ err x
unfolding update_status do_tx ◌>>=◌ ◌>>◌ query raise_if exec pure is_migration_status
update_status-err q m w x inside found written = ground arith

-- A cancellation, outside any transaction, that succeeds has found the entry unfinished. It tells
-- whether the entry was past the point of no return, and leaves it stored as canceled, back in the
-- first stage and without a window.
pub cancel_outcome :
    (id : ℕ) (w : World) (q' : QueueEntry) (was_committed : Bool)
    → w.in_tx ≡ false
    → (cancel id w).0 ≡ ok (q', was_committed)
    → (q e : QueueEntry) × (get_queue_entry id w.db ≡ ok q)
      × (status_eq q.migration_status finished ≡ false)
      × (was_committed ≡ is_committed q)
      × (get_queue_entry id (cancel id w).1.db ≡ ok e)
      × (e.migration_status ≡ canceled)
      × (e.import_stage ≡ background)
      × (e.migration_window_name ≡ none)
unfolding cancel do_tx close_tx ◌>>=◌ ◌>>◌ query raise_if pure
cancel_outcome id w q' b outside h = elim (Result-cases (get_queue_entry id w.db)) [
  | inr (x, e) ↦ ground arith
  | inl (q, e) ↦
      let own = get_queue_entry-uuid id w.db q e in
      let found : get_queue_entry q.instance_uuid w.db ≡ ok q =
        ap (λ k. get_queue_entry k w.db) own ∙ e in
      let m = q.migration_status_message in
      let w1 = record w { in_tx = true } in
      elim (Result-cases (update_queue_entry (with_status canceled m background none q) w.db)) [
        | inr (x, f) ↦ ground (arith, update_status-err q m w1 x refl found f)
        | inl (d, f) ↦
            let (new, read, s, t, n) = cancel_write q w.db d f in
            let read' : get_queue_entry id d ≡ ok new =
              ap (λ k. get_queue_entry k d) (sym own) ∙ read in
            let step = update_status-ok q m w1 d refl found f in
            (q, new, e, ground (arith, step), ground (arith, step), ground (arith, step), s, t, n)
      ]
]

-- ===== src/Daemon/Finish/Laws.antt =====
-- workers.go, finalizeCompleteInstances: which batches the daemon finishes.
use migration_manager.Prelude.{
  String, str_eq, eq_iff, Bool, true, false, ◌&&◌, ◌||◌, List, [], ◌∷◌, ◌≡◌, refl, sym, ap, ◌∙◌,
  arith, Bool-cases, Option-cases, inl, inr, ◌⊎◌,
}
use migration_manager.Prelude.Table.{any, all, find?, filter}
use migration_manager.Errors.{Result, ok, err, ok-inj}
use migration_manager.Api.Status.{batch_finished}
use migration_manager.Api.Types.{Batch, QueueEntry}
use mathlib.Core.Path.{subst}
use migration_manager.Store.{Db, M, World, when}
use migration_manager.Store.Runs.{
  Runs, succeeded, Runs-do_tx, Runs-pure, on_query, on_then, on_exec, on_guard,
}
use migration_manager.Store.Repo.{
  get_batch, get_queue_by_batch, update_batch, update_queue_entry, in_batch, has_uuid,
}
use migration_manager.Store.Batches.{get_batch-name, update_batch-reads, update_batch-other}
use migration_manager.Queue.Operations.{update_status as queue_update_status}
use migration_manager.Batch.Operations.{update_status}
use migration_manager.Daemon.Finish.{
  is_finished, finish_batch, finish_batches, mark_conflicts, settle,
}

-- Every entry of the batch is finished.
abbrev pub all_done : Db → String → Bool
all_done d n = all is_finished (get_queue_by_batch n d)

-- What is read of a batch once it is finished.
abbrev pub as_finished : Result Batch → Result Batch
as_finished (ok b) = ok (record b { status = batch_finished; status_message = "Finished" })
as_finished (err e) = err e

abbrev pub finished_if : Bool → Result Batch → Result Batch
finished_if true r = as_finished r
finished_if false r = r

abbrev finished_batch : Batch → Batch
finished_batch b = record b { status = batch_finished; status_message = "Finished" }

-- The statement changes that batch only.
update_batch-effect :
    (name : String) (old : Batch) (d c : Db)
    → get_batch name d ≡ ok old
    → update_batch name (finished_batch old) d ≡ ok c
    → (c.queue ≡ d.queue)
      × ((m : String) → get_batch m c ≡ finished_if (str_eq name m) (get_batch m d))
update_batch-effect name old d c read wrote =
    let named = get_batch-name name d old read in
    let (own, same) = update_batch-reads name (finished_batch old) old d c named read wrote in
    (
      same,
      λ m. elim (Bool-cases (str_eq name m)) [
        | inl hit ↦
            let is_m = (eq_iff name m).0 hit in
            rw hit (
              ap (λ n. get_batch n c) (sym is_m)
              ∙ own
              ∙ ap as_finished (sym read ∙ ap (λ n. get_batch n d) is_m))
        | inr miss ↦ rw miss (update_batch-other name m (finished_batch old) d c named miss wrote)
      ],
    )

update_status-effect :
    (name : String) (d c : Db) (b : Batch)
    → Runs (update_status name batch_finished "Finished") d b c
    → (c.queue ≡ d.queue)
      × ((m : String) → get_batch m c ≡ finished_if (str_eq name m) (get_batch m d))
unfolding update_status
update_status-effect name d c b r = on_query _ (Runs-do_tx _ d c b r) (λ old read t1.
    on_exec _ t1 (λ e wrote t2.
      let at_name =
        ap (λ n. update_batch n (finished_batch old) d) (sym (get_batch-name name d old read))
        ∙ wrote in
      subst
        (λ (z : Db).
          (z.queue ≡ d.queue)
          × ((m : String) → get_batch m z ≡ finished_if (str_eq name m) (get_batch m d)))
        (sym (Runs-pure _ e c b t2).1) (update_batch-effect name old d e read at_name)))

Runs-when_body :
    (t : Bool) (m : M (Unit {0})) (d c : Db) (u : Unit {0})
    → Runs (when t m) d u c
    → ((t ≡ true) × Runs m d u c) ⊎ ((t ≡ false) × (c ≡ d))
unfolding when
Runs-when_body true m d c u r = inl (refl, r)
Runs-when_body false m d c u r = inr (refl, (Runs-pure _ d c u r).1)

-- What a round, or the whole loop, leaves of the tables, by the batches that it finishes.
abbrev Effect : (String → Bool) → Db → Db → Type 0
Effect t d c =
    (c.queue ≡ d.queue) × ((m : String) → get_batch m c ≡ finished_if (t m) (get_batch m d))

-- One round of the loop.
finish_batch-Effect :
    (name : String) (d c : Db) (u : Unit {0})
    → Runs (finish_batch name) d u c
    → Effect (λ m. str_eq name m && all_done d name) d c
unfolding finish_batch
finish_batch-Effect name d c u r = on_query _ r (λ qs read t.
    let same = ok-inj read in
    elim (Runs-when_body (all is_finished qs) _ d c u t) [
      | inl (on, body) ↦
          let done : all_done d name ≡ true = ap (all is_finished) same ∙ on in
          on_then body (λ b e first last.
            let (kept, status) = update_status-effect name d e b first in
            let at_end = (Runs-pure _ e c u last).1 in
            (
              ap (λ (z : Db). z.queue) at_end ∙ kept,
              λ m.
                  ap (get_batch m) at_end
                  ∙ status m
                  ∙ ap (λ x. finished_if x (get_batch m d)) (and_true (str_eq name m) done),
            ))
      | inr (off, stay) ↦
          let left : all_done d name ≡ false = ap (all is_finished) same ∙ off in
          (
            ap (λ (z : Db). z.queue) stay,
            λ m.
                ap (get_batch m) stay
                ∙ ap (λ x. finished_if x (get_batch m d)) (and_false (str_eq name m) left),
          )
    ])
  where
    and_true : (a : Bool) {b : Bool} → b ≡ true → a ≡ (a && b)
    and_true a h = ground arith

    and_false : (a : Bool) {b : Bool} → b ≡ false → false ≡ (a && b)
    and_false a h = ground arith

-- Finishing a batch twice is finishing it once.
finished_if-or :
    (s t : Bool) (r : Result Batch) → finished_if s (finished_if t r) ≡ finished_if (t || s) r
finished_if-or true true (ok b) = refl
finished_if-or true true (err e) = refl
finished_if-or true false r = refl
finished_if-or false true r = refl
finished_if-or false false r = refl

-- The batches that the loop finishes.
abbrev pub finishes : Db → List String → String → Bool
finishes d names m = any (λ n. str_eq n m && all_done d n) names

finishes-same :
    (e d : Db) (ns : List String) (m : String)
    → e.queue ≡ d.queue
    → finishes e ns m ≡ finishes d ns m
unfolding get_queue_by_batch
finishes-same e d ns m kept =
    ap (λ qs. any (λ n. str_eq n m && all is_finished (filter (in_batch n) qs)) ns) kept

finish_batches-Effect :
    (names : List String) (d c : Db) (u : Unit {0})
    → Runs (finish_batches names) d u c
    → Effect (finishes d names) d c
unfolding finish_batches
finish_batches-Effect [] d c u r =
    let stay = (Runs-pure _ d c u r).1 in
    (ap (λ (z : Db). z.queue) stay, λ m. ap (get_batch m) stay)
finish_batches-Effect (n ∷ ns) d c u r = on_then r (λ a e first rest.
    let (kept, one) = finish_batch-Effect n d e a first in
    let (kept', all_of) = finish_batches-Effect ns e c u rest in
    (
      kept' ∙ kept,
      λ m.
          all_of m
          ∙ ap (finished_if (finishes e ns m)) (one m)
          ∙ finished_if-or (finishes e ns m) (str_eq n m && all_done d n) (get_batch m d)
          ∙ ap (λ x. finished_if ((str_eq n m && all_done d n) || x) (get_batch m d))
              (finishes-same e d ns m kept),
    ))

update_queue_entry-batches :
    (q : QueueEntry) (d c : Db)
    → update_queue_entry q d ≡ ok c
    → (m : String) → get_batch m c ≡ get_batch m d
unfolding update_queue_entry get_batch
update_queue_entry-batches q d c h m =
    elim (Option-cases (find? (has_uuid q.instance_uuid) d.queue)) [
      | inl e ↦ ground arith
      | inr (old, e) ↦ ground arith
    ]

-- Marking the conflicts changes no batch.
mark_conflicts-batches :
    (cs : List (QueueEntry × String)) (d c : Db) (u : Unit {0})
    → Runs (mark_conflicts cs) d u c
    → (m : String) → get_batch m c ≡ get_batch m d
unfolding mark_conflicts queue_update_status
mark_conflicts-batches [] d c u r m = ap (get_batch m) (Runs-pure _ d c u r).1
mark_conflicts-batches ((q, message) ∷ rest) d c u r m = on_then r (λ b e first t.
    on_guard _ first (λ known t1. on_query _ (Runs-do_tx _ d e b t1) (λ old read t2.
      on_exec _ t2 (λ f wrote t3.
        mark_conflicts-batches rest e c u t m
        ∙ ap (get_batch m) (Runs-pure _ f e b t3).1
        ∙ update_queue_entry-batches _ d f wrote m))))

-- If the last transaction of `finalizeCompleteInstances` succeeds, then each batch of the task whose
-- entries are all finished, as they stand once the transaction has marked the conflicts, has the
-- status and the message of a finished batch and is otherwise as it was; every other batch is as it
-- was in every field.
pub settle-finishes :
    (conflicts : List (QueueEntry × String)) (names : List String) (w : World) (m : String)
    → (settle conflicts names w).0 ≡ ok tt
    → get_batch m (settle conflicts names w).1.db
      ≡ finished_if (finishes (settle conflicts names w).1.db names m) (get_batch m w.db)
unfolding settle
settle-finishes conflicts names w m h =
    let d' = (settle conflicts names w).1.db in
    on_then (Runs-do_tx _ w.db d' tt (succeeded (settle conflicts names) w tt h)) (λ b e first rest.
      let (kept, status) = finish_batches-Effect names e d' tt rest in
      status m
      ∙ ap (finished_if (finishes e names m)) (mark_conflicts-batches conflicts w.db e b first m)
      ∙ ap (λ x. finished_if x (get_batch m w.db)) (finishes-same e d' names m (sym kept)))

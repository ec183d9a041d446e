-- ===== src/Store/Batches.antt =====
-- The batches table through the statements that read and change it.
use migration_manager.Prelude.{
  String, str_eq, eq_iff, eq_refl, ◌≡◌, arith, Option-cases, inl, inr, true, false,
}
use migration_manager.Prelude.Table.{find?, find?-replace, find?-replace_other, find?-sound}
use migration_manager.Errors.{ok}
use migration_manager.Api.Types.{Batch}
use migration_manager.Store.State.{Db}
use migration_manager.Store.Repo.{get_batch, update_batch, is_batch}

-- A batch that is read by a name has that name.
pub get_batch-name : (name : String) (d : Db) (b : Batch) → get_batch name d ≡ ok b → b.name ≡ name
unfolding get_batch
get_batch-name name d b h = elim (Option-cases (find? (is_batch name) d.batches)) [
  | inl e ↦ ground arith
  | inr (x, e) ↦
      let same : x ≡ b = ground arith in
      (eq_iff b.name name).0 (rw (← same) (find?-sound (is_batch name) d.batches {x = x} e))
]

-- A batch that is replaced under its own name is read back, and the queue is as it was.
pub update_batch-reads :
    (name : String) (b old : Batch) (d d' : Db)
    → b.name ≡ name
    → get_batch name d ≡ ok old
    → update_batch name b d ≡ ok d'
    → (get_batch name d' ≡ ok (record b { id = old.id })) × (d'.queue ≡ d.queue)
unfolding get_batch update_batch
update_batch-reads name b old d d' n g u = elim (Option-cases (find? (is_batch name) d.batches)) [
  | inl e ↦ ground arith
  | inr (x, e) ↦
      let same : x ≡ old = ground arith in
      let own : str_eq b.name name ≡ true = (eq_iff b.name name).1 n in
      ground (arith, find?-replace (is_batch name) (record b { id = x.id }) d.batches {x = x} own e)
]

-- A batch that is replaced under its own name leaves the queue as it was.
pub update_batch-queue :
    (b : Batch) (d d' : Db) → update_batch b.name b d ≡ ok d' → d'.queue ≡ d.queue
unfolding update_batch
update_batch-queue b d d' h = elim (Option-cases (find? (is_batch b.name) d.batches)) [
  | inl e ↦ ground arith
  | inr (old, e) ↦ ground (arith, eq_refl b.name)
]

-- No other batch is changed.
pub update_batch-other :
    (name other : String) (b : Batch) (d d' : Db)
    → b.name ≡ name
    → str_eq name other ≡ false
    → update_batch name b d ≡ ok d'
    → get_batch other d' ≡ get_batch other d
unfolding get_batch update_batch
update_batch-other name other b d d' n apart u =
    elim (Option-cases (find? (is_batch name) d.batches)) [
      | inl e ↦ ground arith
      | inr (x, e) ↦
          let own : str_eq b.name name ≡ true = (eq_iff b.name name).1 n in
          let kept =
            find?-replace_other (is_batch name) (is_batch other) (record b { id = x.id }) d.batches
              (λ y h. rw ((eq_iff y.name name).0 h) apart) (rw n apart) in
          ground arith
    ]

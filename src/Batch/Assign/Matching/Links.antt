-- ===== src/Batch/Assign/Matching/Links.antt =====
-- What the statements on assignments leave of a batch's instances.
use migration_manager.Prelude.{
  ℕ, ◌==◌, String, eq_refl, Bool, not, ◌&&◌, ◌||◌, List, [], ◌∷◌, ◌≡◌, refl, arith, Bool-cases, inl,
  inr,
}
use migration_manager.Prelude.Table.{any, remove, snoc}
use migration_manager.Errors.{ok, ok-inj}
use migration_manager.Store.{Db}
use migration_manager.Store.Repo.{links, assign_batch, unassign_batch, both_exist}

-- The instance is one of the batch's.
abbrev pub is_linked : String → ℕ → Db → Bool
is_linked b id d = any (links b id) d.assigned

any-remove :
    (b : String) (id gone : ℕ) (xs : List (String × ℕ))
    → any (links b id) (remove (links b gone) xs) ≡ (any (links b id) xs && not (gone == id))
any-remove b id gone [] = refl
any-remove b id gone ((c, j) ∷ xs) = ground (arith, any-remove b id gone xs)

any-snoc :
    (b : String) (id new : ℕ) (xs : List (String × ℕ))
    → any (links b id) (snoc xs (b, new)) ≡ (any (links b id) xs || (new == id))
any-snoc b id new [] = rw (eq_refl b) (ground arith)
any-snoc b id new ((c, j) ∷ xs) = ground (arith, any-snoc b id new xs)

pub unassign-linked :
    (b : String) (id gone : ℕ) (d d' : Db)
    → unassign_batch b gone d ≡ ok d'
    → (is_linked b id d' ≡ (is_linked b id d && not (gone == id))) × (d'.instances ≡ d.instances)
unfolding unassign_batch
unassign-linked b id gone d d' h =
    elim (Bool-cases (not (both_exist b gone d && any (links b gone) d.assigned))) [
      | inl e ↦ cc (rw (e, unassign_batch) at h)
      | inr e ↦
          let same = ok-inj (rw (e, unassign_batch) at h) in
          rw (← same) (any-remove b id gone d.assigned, refl)
    ]

pub assign-linked :
    (b : String) (id new : ℕ) (d d' : Db)
    → assign_batch b new d ≡ ok d'
    → is_linked b id d' ≡ (is_linked b id d || (new == id))
unfolding assign_batch
assign-linked b id new d d' h = elim (Bool-cases (not (both_exist b new d))) [
  | inl e ↦ cc (rw (e, assign_batch) at h)
  | inr e ↦ elim (Bool-cases (any (links b new) d.assigned)) [
    | inl k ↦ cc (rw (e, assign_batch, k) at h)
    | inr k ↦
        let same = ok-inj (rw (e, assign_batch, k) at h) in
        rw (← same) (any-snoc b id new d.assigned)
  ]
]

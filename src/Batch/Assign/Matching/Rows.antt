-- ===== src/Batch/Assign/Matching/Rows.antt =====
-- Tests on lists of instances whose UUIDs are not repeated.
use migration_manager.Prelude.{
  ℕ, ◌==◌, Bool, true, ◌&&◌, List, [], ◌∷◌, ◌≡◌, refl, sym, ap, ◌∙◌, arith, Bool-cases, inl, inr,
}
use mathlib.Core.List.{Memᴰ}
use migration_manager.Prelude.Table.{any, filter}
use migration_manager.Api.Types.{Instance}

any-here :
    (q : Instance → Bool) (is : List Instance) (i : Instance)
    → Memᴰ i is
    → q i ≡ true
    → any q is ≡ true
any-here q [] i t h = elim t [ ]
any-here q (x ∷ is) i (Memᴰ.head e) h = let k = rw e at h in ground arith
any-here q (x ∷ is) i (Memᴰ.tail t) h = ground (arith, any-here q is i t h)

any-found :
    (q : Instance → Bool) (is : List Instance)
    → any q is ≡ true
    → (j : Instance) × Memᴰ j is × (q j ≡ true)
any-found q [] h = cc
any-found q (x ∷ is) h = elim (Bool-cases (q x)) [
  | inl e ↦ (x, Memᴰ.head refl, e)
  | inr e ↦ let (j, m, k) = any-found q is (rw e at h) in (j, Memᴰ.tail m, k)
]

-- A test on the only row of a UUID.
pub any-alone :
    (p : Instance → Bool) (is : List Instance) (i : Instance)
    → ((j : Instance) → Memᴰ j is → j.uuid ≡ i.uuid → j ≡ i)
    → Memᴰ i is
    → any (λ j. (j.uuid == i.uuid) && p j) is ≡ p i
any-alone p is i alone t =
    let q = λ (j : Instance). (j.uuid == i.uuid) && p j in
    let self : (i.uuid == i.uuid) ≡ true = ground arith in
    elim (Bool-cases (p i)) [
      | inl e ↦ any-here q is i t (rw self e) ∙ sym e
      | inr e ↦ elim (Bool-cases (any q is)) [
        | inr none_is ↦ none_is ∙ sym e
        | inl some_is ↦
            let (j, m, h) = any-found q is some_is in
            let same = alone j m (ground arith) in
            let pj : p j ≡ true = ground arith in cc (sym e ∙ ap p (sym same) ∙ pj)
      ]
    ]

pub any-filter :
    (p q : Instance → Bool) (id : ℕ) (is : List Instance)
    → any (λ j. (j.uuid == id) && p j) (filter q is) ≡ any (λ j. (j.uuid == id) && (q j && p j)) is
any-filter p q id [] = refl
any-filter p q id (j ∷ is) = ground (arith, any-filter p q id is)

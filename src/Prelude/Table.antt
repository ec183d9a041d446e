-- ===== src/Prelude/Table.antt =====
-- A database table as the list of its rows, and the list functions of the services over it. The
-- rows that a query means are given by a test.
use Prim.Native.Nat.{ℕ, suc}
use mathlib.Core.Path.{◌≡◌, refl}
use mathlib.Core.Bool.{Bool, true, false, not, ◌&&◌, ◌||◌}
use mathlib.Core.Option.{Option, none, some}
use mathlib.Core.List.{List, [], ◌∷◌, Memᴰ}
use native.Mathlib.Omega.{arith}
use mathlib.Core.Logic.{◌⊎◌, inl, inr}
use migration_manager.Prelude.Tests.{Bool-cases, if◌then◌else◌, length}

module _ {ℓ} {A : Type ℓ} where
  -- The first row that passes the test.
  abbrev pub find? : (A → Bool) → List A → Option A
  find? p [] = none
  find? p (x ∷ xs) = if p x then some x else find? p xs

  -- Every row that passes the test, in order.
  abbrev pub filter : (A → Bool) → List A → List A
  filter p [] = []
  filter p (x ∷ xs) = let rest = filter p xs in if p x then x ∷ rest else rest

  -- `slices.ContainsFunc`.
  abbrev pub any : (A → Bool) → List A → Bool
  any p [] = false
  any p (x ∷ xs) = p x || any p xs

  abbrev pub all : (A → Bool) → List A → Bool
  all p [] = true
  all p (x ∷ xs) = p x && all p xs

  abbrev pub count : (A → Bool) → List A → ℕ
  count p [] = 0
  count p (x ∷ xs) = let rest = count p xs in if p x then suc rest else rest

  -- Every row has the property.
  abbrev pub All {κ} : (A → Type κ) → List A → Type κ
  All P [] = Unit
  All P (x ∷ xs) = P x × All P xs

  -- `UPDATE … WHERE`: every row that passes the test becomes `a`.
  abbrev pub replace : (A → Bool) → A → List A → List A
  replace p a [] = []
  replace p a (x ∷ xs) = (if p x then a else x) ∷ replace p a xs

  -- `DELETE … WHERE`.
  abbrev pub remove : (A → Bool) → List A → List A
  remove p = filter (λ x. not (p x))

  -- `xs ++ [x]`: a new row is the last.
  abbrev pub snoc : List A → A → List A
  snoc [] a = a ∷ []
  snoc (x ∷ xs) a = x ∷ snoc xs a

  pub find?-replace :
      (p : A → Bool) (a : A) (xs : List A) {x : A}
      → p a ≡ true
      → find? p xs ≡ some x
      → find? p (replace p a xs) ≡ some a
  find?-replace p a [] h e = cc
  find?-replace p a (y ∷ xs) {x} h e = ground (arith, find?-replace p a xs {x = x} h)

  -- A test that fails on every replaced row, and on the new one, finds what it found.
  pub find?-replace_other :
      (p q : A → Bool) (a : A) (xs : List A)
      → ((x : A) → p x ≡ true → q x ≡ false)
      → q a ≡ false
      → find? q (replace p a xs) ≡ find? q xs
  find?-replace_other p q a [] h e = refl
  find?-replace_other p q a (x ∷ xs) h e = ground (arith, h x, find?-replace_other p q a xs h e)

  pub find?-sound : (p : A → Bool) (xs : List A) {x : A} → find? p xs ≡ some x → p x ≡ true
  find?-sound p [] e = cc
  find?-sound p (y ∷ xs) {x} e = ground (arith, find?-sound p xs {x = x})

  pub length-replace : (p : A → Bool) (a : A) (xs : List A) → length (replace p a xs) ≡ length xs
  length-replace p a [] = refl
  length-replace p a (x ∷ xs) = ground (arith, length-replace p a xs)

  pub find?-remove : (p : A → Bool) (xs : List A) → find? p (remove p xs) ≡ none
  find?-remove p [] = refl
  find?-remove p (x ∷ xs) = ground (arith, find?-remove p xs)

  pub all-filter : (p : A → Bool) (xs : List A) → all p (filter p xs) ≡ true
  all-filter p [] = refl
  all-filter p (x ∷ xs) = ground (arith, all-filter p xs)

  pub find?-Mem : (p : A → Bool) (xs : List A) {x : A} → find? p xs ≡ some x → Memᴰ x xs
  find?-Mem p [] e = cc
  find?-Mem p (y ∷ xs) {x} e = elim (Bool-cases (p y)) [
    | inl hit ↦ let same : x ≡ y = ground arith in Memᴰ.head same
    | inr miss ↦ Memᴰ.tail (find?-Mem p xs {x = x} (ground arith))
  ]

  pub Mem-cons : {x y : A} {xs : List A} → Memᴰ x (y ∷ xs) → (x ≡ y) ⊎ Memᴰ x xs
  Mem-cons (Memᴰ.head e) = inl e
  Mem-cons (Memᴰ.tail m) = inr m

  pub Mem-filter :
      (p : A → Bool) (xs : List A) {x : A} → Memᴰ x (filter p xs) → Memᴰ x xs × (p x ≡ true)
  Mem-filter p [] m = elim m [ ]
  Mem-filter p (y ∷ xs) {x} m = elim (Bool-cases (p y)) [
    | inl hit ↦ elim (Mem-cons (rw hit at m)) [
      | inl e ↦ (Memᴰ.head e, rw e hit)
      | inr t ↦ let (i, u) = Mem-filter p xs {x = x} t in (Memᴰ.tail i, u)
    ]
    | inr miss ↦ let (i, t) = Mem-filter p xs {x = x} (rw miss at m) in (Memᴰ.tail i, t)
  ]

  pub Mem-any : (p : A → Bool) (xs : List A) {x : A} → Memᴰ x xs → p x ≡ true → any p xs ≡ true
  Mem-any p [] m h = elim m [ ]
  Mem-any p (y ∷ xs) {x} m h = elim (Mem-cons m) [
    | inl e ↦ ground arith
    | inr t ↦ ground (arith, Mem-any p xs {x = x} t h)
  ]

  pub any-none_at :
      (p : A → Bool) (xs : List A) {x : A} → any p xs ≡ false → Memᴰ x xs → p x ≡ false
  any-none_at p [] h m = elim m [ ]
  any-none_at p (y ∷ xs) {x} h m = elim (Mem-cons m) [
    | inl e ↦ rw e (ground arith)
    | inr t ↦ any-none_at p xs {x = x} (ground arith) t
  ]

  pub filter-nil : (p : A → Bool) (xs : List A) → All (λ x. p x ≡ false) xs → filter p xs ≡ []
  filter-nil p [] h = refl
  filter-nil p (x ∷ xs) h = rw (h.0) (filter-nil p xs h.1)

  pub find?-none : (p : A → Bool) (xs : List A) → All (λ x. p x ≡ false) xs → find? p xs ≡ none
  find?-none p [] h = refl
  find?-none p (x ∷ xs) h = rw (h.0) (find?-none p xs h.1)

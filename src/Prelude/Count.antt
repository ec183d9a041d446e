-- ===== src/Prelude/Count.antt =====
-- Counting the rows that pass a test, and maps that are filled from a table with distinct keys.
use Prim.Native.Nat.{suc, ◌+◌, ◌≤◌}
use mathlib.Core.Path.{◌≡◌, refl, sym, ap, ◌∙◌}
use mathlib.Core.Bool.{Bool, true, false, not, ◌&&◌, ◌||◌}
use mathlib.Core.Option.{none, some}
use mathlib.Core.List.{List, [], ◌∷◌, ◌++◌, map, Memᴰ, Permᴰ, append_assoc, append-nil}
use native.Mathlib.Omega.{arith}
use mathlib.Core.Logic.{inl, inr}
use migration_manager.Prelude.Tests.{Bool-cases, if◌then◌else◌, length}
use migration_manager.Prelude.Table.{count, filter, all, find?, Mem-cons, any}
use migration_manager.Prelude.Map.{
  Eq, Map, lookup, insert, index, lookup-insert, at_or, at_or-insert, beq_refl,
}

module _ {ℓ} {A : Type ℓ} where
  -- Tests that agree on every row count the same.
  pub count-agree :
      (p q : A → Bool) (xs : List A) → ((x : A) → Memᴰ x xs → p x ≡ q x) → count p xs ≡ count q xs
  count-agree p q [] h = refl
  count-agree p q (x ∷ xs) h =
      ground (arith, h x (Memᴰ.head refl), count-agree p q xs (λ y m. h y (Memᴰ.tail m)))

  pub count-append : (p : A → Bool) (xs ys : List A) → count p (xs ++ ys) ≡ count p xs + count p ys
  count-append p [] ys = omega arith
  count-append p (x ∷ xs) ys = ground (arith, count-append p xs ys)

  pub count-filter :
      (p q : A → Bool) (xs : List A) → count p (filter q xs) ≡ count (λ x. q x && p x) xs
  count-filter p q [] = refl
  count-filter p q (x ∷ xs) = ground (arith, count-filter p q xs)

  pub count-le : (p : A → Bool) (xs : List A) → count p xs ≤ length xs
  count-le p [] = omega arith
  count-le p (x ∷ xs) = ground (arith, count-le p xs)

  pub count-Perm : (p : A → Bool) {xs ys : List A} → Permᴰ xs ys → count p xs ≡ count p ys
  count-Perm p Permᴰ.nil = refl
  count-Perm p (Permᴰ.cons e d) = ground (arith, e, count-Perm p d)
  count-Perm p (Permᴰ.swap e f) = ground (arith, e, f)
  count-Perm p (Permᴰ.trans d e) = count-Perm p d ∙ count-Perm p e

  -- Two tests that no row passes both of.
  pub count-or :
      (p q r : A → Bool) (xs : List A)
      → ((x : A) → (p x && q x) ≡ false)
      → ((x : A) → r x ≡ (p x || q x))
      → count p xs + count q xs ≡ count r xs
  count-or p q r [] apart h = refl
  count-or p q r (x ∷ xs) apart h = ground (arith, apart x, h x, count-or p q r xs apart h)

  pub count-none : (p : A → Bool) (xs : List A) → ((x : A) → p x ≡ false) → count p xs ≡ 0
  count-none p [] h = refl
  count-none p (x ∷ xs) h = ground (arith, h x, count-none p xs h)

  pub count-true : (xs : List A) → count (λ x. true) xs ≡ length xs
  count-true [] = refl
  count-true (x ∷ xs) = ap suc (count-true xs)

  pub filter-none : (p : A → Bool) (xs : List A) → any p xs ≡ false → filter p xs ≡ []
  filter-none p [] h = refl
  filter-none p (x ∷ xs) h = ground (arith, filter-none p xs)

  pub any-none : (p : A → Bool) (xs : List A) → all (λ x. not (p x)) xs ≡ true → any p xs ≡ false
  any-none p [] h = refl
  any-none p (x ∷ xs) h = ground (arith, any-none p xs)

  pub find?-filter :
      (p q : A → Bool) (xs : List A)
      → ((x : A) → p x ≡ true → q x ≡ true)
      → find? p (filter q xs) ≡ find? p xs
  find?-filter p q [] h = refl
  find?-filter p q (x ∷ xs) h = ground (arith, h x, find?-filter p q xs h)

module _ {ℓ κ} {A : Type ℓ} {K : Type κ} ⦃e : Eq K⦄ (key : A → K) where
  -- No other row has this key.
  abbrev pub is_fresh : K → List A → Bool
  is_fresh k xs = all (λ x. not (e.beq (key x) k)) xs

  -- No two rows share a key, as a UNIQUE column has it.
  abbrev pub Distinct : List A → Type 0
  Distinct [] = Unit
  Distinct (x ∷ xs) = (is_fresh (key x) xs ≡ true) × Distinct xs

  pub is_fresh-filter :
      (p : A → Bool) (k : K) (xs : List A) → is_fresh k xs ≡ true → is_fresh k (filter p xs) ≡ true
  is_fresh-filter p k [] h = refl
  is_fresh-filter p k (x ∷ xs) h = ground (arith, is_fresh-filter p k xs)

  pub filter-Distinct : (p : A → Bool) (xs : List A) → Distinct xs → Distinct (filter p xs)
  filter-Distinct p [] h = tt
  filter-Distinct p (x ∷ xs) h = elim (Bool-cases (p x)) [
    | inl hit ↦ rw hit (is_fresh-filter p (key x) xs h.0, filter-Distinct p xs h.1)
    | inr miss ↦ rw miss (filter-Distinct p xs h.1)
  ]

module _ {κ ν} {K : Type κ} {V : Type ν} ⦃e : Eq K⦄ where
  pub insert-absent :
      (k : K) (v : V) (m : Map K V) → lookup k m ≡ none → insert k v m ≡ m ++ (k, v) ∷ []
  insert-absent k v [] h = refl
  insert-absent k v ((j, w) ∷ m) h = ground (arith, insert-absent k v m)

module _ {ℓ κ ν} {A : Type ℓ} {K : Type κ} {V : Type ν} ⦃e : Eq K⦄ (key : A → K)
    (value : A → V) where
  abbrev pub pair : A → K × V
  pair x = (key x, value x)

  is_fresh-lookup :
      (k : K) (v : V) (m : Map K V) (xs : List A)
      → is_fresh key k xs ≡ true
      → ((x : A) → Memᴰ x xs → lookup (key x) m ≡ none)
      → (x : A) → Memᴰ x xs
      → lookup (key x) (insert k v m) ≡ none
  is_fresh-lookup k v m [] f h x i = elim i [ ]
  is_fresh-lookup k v m (y ∷ ys) f h x i = elim (Mem-cons i) [
    | inl same ↦ rw same (
        ground (
          arith,
          lookup-insert k (key y) v m,
          h y (Memᴰ.head refl),
          e.beq_iff k (key y),
          e.beq_iff (key y) k,
        ))
    | inr t ↦ is_fresh-lookup k v m ys (ground arith) (λ z j. h z (Memᴰ.tail j)) x t
  ]

  -- With distinct keys the map is the table, row by row.
  pub index-Distinct :
      (xs : List A) (m : Map K V)
      → Distinct key xs
      → ((x : A) → Memᴰ x xs → lookup (key x) m ≡ none)
      → index key value xs m ≡ m ++ map pair xs
  index-Distinct [] m d h = sym (append-nil m)
  index-Distinct (x ∷ xs) m d h =
      index-Distinct xs (insert (key x) (value x) m) d.1
        (is_fresh-lookup (key x) (value x) m xs d.0 (λ z j. h z (Memᴰ.tail j)))
      ∙ ap (λ z. z ++ map pair xs) (insert-absent (key x) (value x) m (h x (Memᴰ.head refl)))
      ∙ append_assoc m (pair x ∷ []) (map pair xs)

  -- A map that starts empty.
  pub index-pairs : (xs : List A) → Distinct key xs → index key value xs [] ≡ map pair xs
  index-pairs xs d = index-Distinct xs [] d (λ x m. refl)

  pub lookup-pairs :
      (x : A) (xs : List A)
      → Distinct key xs
      → Memᴰ x xs
      → lookup (key x) (map pair xs) ≡ some (value x)
  lookup-pairs x [] d m = elim m [ ]
  lookup-pairs x (y ∷ ys) d m = elim (Mem-cons m) [
    | inl same ↦ rw (same, beq_refl (key y)) refl
    | inr t ↦ rw (other x ys d.0 t) (lookup-pairs x ys d.1 t)
  ]
    where
      other :
          (z : A) (zs : List A)
          → is_fresh key (key y) zs ≡ true
          → Memᴰ z zs
          → e.beq (key y) (key z) ≡ false
      other z [] f i = elim i [ ]
      other z (u ∷ us) f i = elim (Mem-cons i) [
        | inl s ↦ rw s (ground (arith, e.beq_iff (key y) (key u), e.beq_iff (key u) (key y)))
        | inr j ↦ other z us (ground arith) j
      ]

if_same {ℓ} : {A : Type ℓ} (b : Bool) (a : A) → (if b then a else a) ≡ a
if_same true a = refl
if_same false a = refl

-- What a map filled by name finds under a name has that name.
pub name_found {ℓ κ} :
    {V : Type ℓ} {K : Type κ} ⦃e : Eq K⦄ (name : V → K) (zero_value : V) (n : K) (xs : List V)
    (m : Map K V)
    → name (at_or zero_value n (index name (λ x. x) xs m))
      ≡ (if any (λ x. e.beq (name x) n) xs then n else name (at_or zero_value n m))
name_found name z n [] m = refl
name_found ⦃e⦄ name z n (x ∷ xs) m =
    name_found name z n xs (insert (name x) x m) ∙ elim (Bool-cases (e.beq (name x) n)) [
      | inl hit ↦
          let own : name (at_or z n (insert (name x) x m)) ≡ n =
            ap name (at_or-insert z (name x) n x m ∙ rw hit refl) ∙ (e.beq_iff (name x) n).0 hit in
          rw (hit, own) (if_same (any (λ x. e.beq (name x) n) xs) n)
      | inr miss ↦
          let kept : name (at_or z n (insert (name x) x m)) ≡ name (at_or z n m) =
            ap name (at_or-insert z (name x) n x m ∙ rw miss refl) in
          rw (miss, kept) refl
    ]

-- ===== src/IdLock/Invariant/Create.antt =====
-- internal/util/concurrent.go, `IDLock`: the first use of a key keeps the invariant.
use migration_manager.Prelude.{
  ℕ, suc, ◌==◌, String, str_eq, eq_iff, eq_refl, true, false, if◌then◌else◌, List, Option, none,
  some, ◌≡◌, refl, sym, ◌∙◌, arith, Bool-cases, inl, inr, ◌⊎◌,
}
use migration_manager.Prelude.Map.{lookup, insert, string_eq, lookup-insert}
use migration_manager.IdLock.{Locks, write, Position, outside, waiting, inside, at}
use migration_manager.IdLock.Invariant.{
  uses_key, holds, users, count-at, Counts, IsCurrent, Inv, holders-users, All-step, Counts-other,
}

pub some-inj : {A : Type 0} {x y : A} → Path (Option A) (some x) (some y) → x ≡ y
some-inj p = cc

module _ (before after : List Position) (key : String) (l : Locks) where
  abbrev pub created : Locks
  created = record {
    lock_map = insert key l.fresh l.lock_map;
    heap = write l.fresh (record { is_locked = false; uses = 1 }) l.heap;
    fresh = suc l.fresh;
  }

  created-lookup :
      (k : String)
      → lookup k created.lock_map ≡ (if str_eq key k then some l.fresh else lookup k l.lock_map)
  created-lookup k = lookup-insert key k l.fresh l.lock_map

  created-old :
      (k : String) (a : ℕ)
      → str_eq key k ≡ false
      → lookup k created.lock_map ≡ some a
      → lookup k l.lock_map ≡ some a
  created-old k a e n = sym (rw e at (created-lookup k)) ∙ n

  -- A key of the new map is the new key, with the new mutex, or an old one.
  created-cases :
      (k : String) (a : ℕ)
      → lookup k created.lock_map ≡ some a
      → ((key ≡ k) × (a ≡ l.fresh)) ⊎ ((str_eq key k ≡ false) × (lookup k l.lock_map ≡ some a))
  created-cases k a n = elim (Bool-cases (str_eq key k)) [
    | inl e ↦ inl ((eq_iff key k).0 e, some-inj (sym n ∙ rw e at (created-lookup k)))
    | inr e ↦ inr (e, created-old k a e n)
  ]

  module _ (e : lookup key l.lock_map ≡ none) (inv : Inv l (at before outside after)) where
    created-unused :
        (k : String)
        → lookup k created.lock_map ≡ none
        → users k (at before (waiting key l.fresh) after) ≡ 0
    created-unused k n = elim (Bool-cases (str_eq key k)) [
      | inl h ↦ cc (sym n ∙ rw h at (created-lookup k))
      | inr h ↦
          count-at (uses_key k) before after (waiting key l.fresh)
          ∙ rw h (
              sym (count-at (uses_key k) before after outside)
              ∙ inv.unused k (sym (rw h at (created-lookup k)) ∙ n))
    ]

    created-Counts_new : Counts created (at before (waiting key l.fresh) after) key l.fresh
    created-Counts_new =
        let none_before = inv.unused key e in
        let ux = count-at (uses_key key) before after outside in
        let uy = count-at (uses_key key) before after (waiting key l.fresh) in
        let hx = count-at (holds key) before after outside in
        let hy = count-at (holds key) before after (waiting key l.fresh) in
        let few = holders-users key (at before outside after) in
        let same = eq_refl key in
        let fresh_is : (l.fresh == l.fresh) ≡ true = ground arith in
        let u = rw same at uy in
        record {
          uses = rw fresh_is (ground arith);
          used = ground arith;
          locked = λ h. cc (rw fresh_is at h);
          free = λ h. ground arith;
          old = ground arith;
        }

    created-Counts :
        (k : String) (a : ℕ)
        → lookup k created.lock_map ≡ some a
        → Counts created (at before (waiting key l.fresh) after) k a
    created-Counts k a n = elim (created-cases k a n) [
      | inl (h, m) ↦ rw m (rw (← h) created-Counts_new)
      | inr (h, m) ↦
          let c = inv.counts k a m in
          Counts-other l created before after outside (waiting key l.fresh) k a (sym h) refl
            (let o = c.old in ground arith) (ground arith) c
    ]

    created-distinct :
        (j k : String) (a : ℕ)
        → lookup j created.lock_map ≡ some a
        → lookup k created.lock_map ≡ some a
        → j ≡ k
    created-distinct j k a x y = elim (created-cases j a x) [
      | inl (h, m) ↦ elim (created-cases k a y) [
        | inl (h', m') ↦ sym h ∙ h'
        | inr (h', m') ↦ let o = (inv.counts k a m').old in ground arith
      ]
      | inr (h, m) ↦ elim (created-cases k a y) [
        | inl (h', m') ↦ let o = (inv.counts j a m).old in ground arith
        | inr (h', m') ↦ inv.distinct j k a m m'
      ]
    ]

    created-IsCurrent : (p : Position) → IsCurrent l p → IsCurrent created p
    created-IsCurrent outside h = tt
    created-IsCurrent (inside k) h = tt
    created-IsCurrent (waiting k a) h = elim (Bool-cases (str_eq key k)) [
      | inl m ↦ let q = (eq_iff key k).0 m in cc (sym (rw q at e) ∙ h)
      | inr m ↦ created-lookup k ∙ rw m h
    ]

    pub created-Inv : Inv created (at before (waiting key l.fresh) after)
    created-Inv = record {
      unused = created-unused;
      counts = created-Counts;
      distinct = created-distinct;
      current =
          All-step (IsCurrent l) (IsCurrent created) before after outside (waiting key l.fresh)
            created-IsCurrent (created-lookup key ∙ rw (eq_refl key) refl) inv.current;
    }

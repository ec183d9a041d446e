-- ===== src/IdLock/Invariant/Steps.antt =====
-- internal/util/concurrent.go, `IDLock`: each step keeps the invariant.
use migration_manager.Prelude.{
  ℕ, suc, ◌+◌, ◌-◌, ◌==◌, String, str_eq, eq_iff, eq_refl, true, false, List, none, some, ◌≡◌, ◌≢◌,
  refl, sym, ap, ◌∙◌, arith, Bool-cases, Option-cases, inl, inr,
}
use migration_manager.Prelude.Map.{lookup, erase, string_eq, lookup-erase}
use migration_manager.IdLock.{
  RefMutex, Locks, write, enter, acquire, leave, Position, outside, waiting, inside, at,
}
use migration_manager.IdLock.Invariant.{
  uses_key, holds, users, holders, count-at, Counts, IsCurrent, Inv, All-step, All-step_alone,
  All-here, Counts-other,
}
use migration_manager.IdLock.Invariant.Create.{some-inj, created-Inv}

str_eq-false : (j k : String) → str_eq j k ≡ false → j ≢ k
str_eq-false j k e h = let t = (eq_iff j k).1 h in cc

-- A step on the mutex of a key in the map. `m` is what becomes of it.
module _ (before after : List Position) (x y : Position) (key : String) (a0 : ℕ) (m : RefMutex)
    (l : Locks) (e : lookup key l.lock_map ≡ some a0) (inv : Inv l (at before x after))
    (ux : (k : String) → str_eq key k ≡ false → uses_key k x ≡ uses_key k y)
    (hx : (k : String) → str_eq key k ≡ false → holds k x ≡ holds k y) where
  abbrev written : Locks
  written = record l { heap = write a0 m l.heap }

  -- The keys are told apart by their mutexes.
  written-other :
      (k : String) (a : ℕ) → str_eq key k ≡ false → lookup k l.lock_map ≡ some a → (a0 == a) ≡ false
  written-other k a d n = elim (Bool-cases (a0 == a)) [
    | inr h ↦ h
    | inl h ↦
        let same : a0 ≡ a = ground arith in
        elim (str_eq-false key k d (inv.distinct key k a0 e (n ∙ ap some (sym same)))) [ ]
  ]

  written-Counts :
      (l' : Locks)
      → l'.heap ≡ written.heap
      → l'.fresh ≡ l.fresh
      → Counts l' (at before y after) key a0
      → (k : String) (a : ℕ) → lookup k l.lock_map ≡ some a
      → Counts l' (at before y after) k a
  written-Counts l' h f own k a n = elim (Bool-cases (str_eq key k)) [
    | inl s ↦
        let q = (eq_iff key k).0 s in
        let r : a0 ≡ a = some-inj (sym e ∙ rw (← q) at n) in rw (← q) (rw (← r) own)
    | inr s ↦
        let d = written-other k a s n in
        Counts-other l l' before after x y k a (ux k s) (hx k s) (ap (λ g. g a) h ∙ rw d refl)
          (ground arith) (inv.counts k a n)
  ]

  written-unused : (k : String) → lookup k l.lock_map ≡ none → users k (at before y after) ≡ 0
  written-unused k n = elim (Bool-cases (str_eq key k)) [
    | inl s ↦ let q = (eq_iff key k).0 s in cc (sym (rw q at e) ∙ n)
    | inr s ↦
        count-at (uses_key k) before after y
        ∙ rw (← ux k s) (sym (count-at (uses_key k) before after x) ∙ inv.unused k n)
  ]

  IsCurrent-heap : (p : Position) → IsCurrent l p → IsCurrent written p
  IsCurrent-heap outside h = tt
  IsCurrent-heap (waiting k a) h = h
  IsCurrent-heap (inside k) h = tt

  written-Inv :
      Counts written (at before y after) key a0 → IsCurrent l y → Inv written (at before y after)
  written-Inv own here = record {
    unused = written-unused;
    counts = written-Counts written refl refl own;
    distinct = inv.distinct;
    current =
        All-step (IsCurrent l) (IsCurrent written) before after x y (λ p h. IsCurrent-heap p h) here
          inv.current;
  }

  -- The key leaves the map, when no other goroutine uses it.
  module _ (alone : users key before + users key after ≡ 0) (idle : uses_key key y ≡ false) where
    abbrev erased : Locks
    erased = record l { lock_map = erase key l.lock_map; heap = write a0 m l.heap }

    erased-cases :
        (k : String) (a : ℕ)
        → lookup k erased.lock_map ≡ some a
        → (str_eq key k ≡ false) × (lookup k l.lock_map ≡ some a)
    erased-cases k a n = elim (Bool-cases (str_eq key k)) [
      | inl s ↦ cc (sym n ∙ rw s at (lookup-erase key k l.lock_map))
      | inr s ↦ (s, sym (rw s at (lookup-erase key k l.lock_map)) ∙ n)
    ]

    erased-unused : (k : String) → lookup k erased.lock_map ≡ none → users k (at before y after) ≡ 0
    erased-unused k n = elim (Bool-cases (str_eq key k)) [
      | inl s ↦
          let q = (eq_iff key k).0 s in
          rw (← q) (count-at (uses_key key) before after y ∙ rw idle (ground arith))
      | inr s ↦ written-unused k (sym (rw s at (lookup-erase key k l.lock_map)) ∙ n)
    ]

    erased-Counts :
        (k : String) (a : ℕ)
        → lookup k erased.lock_map ≡ some a
        → Counts erased (at before y after) k a
    erased-Counts k a n =
        let (s, o) = erased-cases k a n in
        let d = written-other k a s o in
        Counts-other l erased before after x y k a (ux k s) (hx k s) (rw d refl) (ground arith)
          (inv.counts k a o)

    IsCurrent-erased : (p : Position) → IsCurrent l p → uses_key key p ≡ false → IsCurrent erased p
    IsCurrent-erased outside h u = tt
    IsCurrent-erased (waiting k a) h u =
        let d : str_eq key k ≡ false = ground (arith, eq_iff key k, eq_iff k key) in
        lookup-erase key k l.lock_map ∙ rw d h
    IsCurrent-erased (inside k) h u = tt

    erased-Inv : IsCurrent erased y → Inv erased (at before y after)
    erased-Inv here = record {
      unused = erased-unused;
      counts = erased-Counts;
      distinct = λ j k a n n'. inv.distinct j k a (erased-cases j a n).1 (erased-cases k a n').1;
      current =
          All-step_alone (IsCurrent l) (IsCurrent erased) (uses_key key) before after x y alone
            IsCurrent-erased here inv.current;
    }

module _ (before after : List Position) (key : String) (l : Locks) where
  pub enter-Inv :
      Inv l (at before outside after)
      → Inv (enter key l).1 (at before (waiting key (enter key l).0) after)
  unfolding enter
  enter-Inv inv = elim (Option-cases (lookup key l.lock_map)) [
    | inl e ↦ rw (e, enter) (created-Inv before after key l e inv)
    | inr (a, e) ↦
        let c = inv.counts key a e in
        let new = waiting key a in
        let ux = count-at (uses_key key) before after outside in
        let uy = rw (eq_refl key) at (count-at (uses_key key) before after new) in
        let hx = count-at (holds key) before after outside in
        let hy = count-at (holds key) before after new in
        let m = record (l.heap a) { uses = suc (l.heap a).uses } in
        let hit : (a == a) ≡ true = ground arith in
        rw (e, enter)
          (written-Inv before after outside new key a m l e inv (λ k d. sym d) (λ k d. refl)
            (record {
              uses = rw hit (let q = c.uses in ground arith);
              used = ground arith;
              locked = λ h. let q = c.locked (rw hit at h) in ground arith;
              free = λ h. let q = c.free (rw hit at h) in ground arith;
              old = c.old;
            })
            e)
  ]

  pub acquire-Inv :
      (a : ℕ)
      → (l.heap a).is_locked ≡ false
      → Inv l (at before (waiting key a) after)
      → Inv (acquire a l) (at before (inside key) after)
  unfolding acquire
  acquire-Inv a free inv =
      let e = All-here (IsCurrent l) before after (waiting key a) inv.current in
      let c = inv.counts key a e in
      let ux = count-at (uses_key key) before after (waiting key a) in
      let uy = count-at (uses_key key) before after (inside key) in
      let hx = count-at (holds key) before after (waiting key a) in
      let hy = rw (eq_refl key) at (count-at (holds key) before after (inside key)) in
      let m = record (l.heap a) { is_locked = true } in
      let hit : (a == a) ≡ true = ground arith in
      let none_before = c.free free in
      written-Inv before after (waiting key a) (inside key) key a m l e inv (λ k d. refl)
        (λ k d. sym d)
        (record {
          uses = rw hit (c.uses ∙ ux ∙ sym uy);
          used = rw (uy ∙ sym ux) c.used;
          locked = λ h. ground arith;
          free = λ h. cc (rw hit at h);
          old = c.old;
        })
        tt

  -- The goroutine that holds a key holds its mutex alone, which is locked and in the map.
  pub inside-locked :
      Inv l (at before (inside key) after)
      → (a : ℕ) × (lookup key l.lock_map ≡ some a)
        × Counts l (at before (inside key) after) key a
        × ((l.heap a).is_locked ≡ true)
        × (holders key before + holders key after ≡ 0)
        × (users key (at before (inside key) after) ≡ users key before + users key after + 1)
  inside-locked inv =
      let hx = rw (eq_refl key) at (count-at (holds key) before after (inside key)) in
      let ux = rw (eq_refl key) at (count-at (uses_key key) before after (inside key)) in
      elim (Option-cases (lookup key l.lock_map)) [
        | inl e ↦ let z = inv.unused key e in ground arith
        | inr (a, e) ↦
            let c = inv.counts key a e in
            elim (Bool-cases (l.heap a).is_locked) [
              | inl h ↦ let q = c.locked h in (a, e, c, h, ground arith, ux)
              | inr h ↦ let q = c.free h in ground arith
            ]
      ]

  pub leave-Inv : Inv l (at before (inside key) after) → Inv (leave key l) (at before outside after)
  unfolding leave
  leave-Inv inv =
      let (a, e, c, locked, others, ux) = inside-locked inv in
      let uy = count-at (uses_key key) before after outside in
      let hy = count-at (holds key) before after outside in
      let left = (l.heap a).uses - 1 in
      let m : RefMutex = record { is_locked = false; uses = left } in
      let hit : (a == a) ≡ true = ground arith in
      let u = c.uses in
      elim (Bool-cases (left == 0)) [
        | inl z ↦
            rw (e, leave, z)
              (erased-Inv before after (inside key) outside key a m l e inv (λ k d. d) (λ k d. d)
                (ground arith) refl tt)
        | inr z ↦
            rw (e, leave, z)
              (written-Inv before after (inside key) outside key a m l e inv (λ k d. d) (λ k d. d)
                (record {
                  uses = rw hit (ground arith);
                  used = ground arith;
                  locked = λ h. cc (rw hit at h);
                  free = λ h. ground arith;
                  old = c.old;
                })
                tt)
      ]

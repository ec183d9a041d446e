-- ===== src/IdLock/Safety.antt =====
-- internal/util/concurrent.go, `IDLock`: mutual exclusion for each key, no leftover mutexes.
use migration_manager.Prelude.{
  ℕ, zero, suc, ◌≤◌, String, none, some, ◌≡◌, refl, sym, ◌∙◌, arith, Bool-cases, Option-cases, inl,
  inr,
}
use migration_manager.Prelude.Table.{All}
use migration_manager.Prelude.Map.{lookup, string_eq}
use migration_manager.IdLock.{
  Locks, new_locks, all_outside, System, Step, enters, acquires, leaves, Reach, begin, then,
}
use migration_manager.IdLock.Invariant.{holders, users, Inv, holders-users, IsCurrent}
use migration_manager.IdLock.Invariant.Steps.{enter-Inv, acquire-Inv, leave-Inv}

users-all_outside : (k : String) (n : ℕ) → users k (all_outside n) ≡ 0
users-all_outside k zero = refl
users-all_outside k (suc n) = users-all_outside k n

IsCurrent-all_outside : (l : Locks) (n : ℕ) → All (IsCurrent l) (all_outside n)
IsCurrent-all_outside l zero = tt
IsCurrent-all_outside l (suc n) = (tt, IsCurrent-all_outside l n)

begin-Inv : (n : ℕ) → Inv new_locks (all_outside n)
begin-Inv n = record {
  unused = λ k e. users-all_outside k n;
  counts = λ k a e. cc;
  distinct = λ j k a e. cc;
  current = IsCurrent-all_outside new_locks n;
}

Step-Inv : {s t : System} → Step s t → Inv s.locks s.threads → Inv t.locks t.threads
Step-Inv (enters before after key l) inv = enter-Inv before after key l inv
Step-Inv (acquires before after key a l free) inv = acquire-Inv before after key l a free inv
Step-Inv (leaves before after key l) inv = leave-Inv before after key l inv

pub Reach-Inv : (n : ℕ) {s : System} → Reach n s → Inv s.locks s.threads
Reach-Inv n begin = begin-Inv n
Reach-Inv n (then r x) = Step-Inv x (Reach-Inv n r)

-- In every state that any number of goroutines can reach, each of which unlocks only what it has locked, at
-- most one of them holds the lock of a key, the map has no mutex for a key that no goroutine uses, and
-- the mutex that it has for a key counts the goroutines that use it.
pub Reach-exclusive :
    (n : ℕ) (s : System) (key : String)
    → Reach n s
    → (holders key s.threads ≤ 1)
      × (users key s.threads ≡ 0 → lookup key s.locks.lock_map ≡ none)
      × ((a : ℕ)
          → lookup key s.locks.lock_map ≡ some a
          → (s.locks.heap a).uses ≡ users key s.threads)
Reach-exclusive n s key r =
    let inv = Reach-Inv n r in
    elim (Option-cases (lookup key s.locks.lock_map)) [
      | inl e ↦
          let z = inv.unused key e in
          let few = holders-users key s.threads in (ground arith, λ _. e, λ a h. cc (sym e ∙ h))
      | inr (a, e) ↦
          let c = inv.counts key a e in
          let used = c.used in
          (
            elim (Bool-cases (s.locks.heap a).is_locked) [
              | inl h ↦ let q = c.locked h in ground arith
              | inr h ↦ let q = c.free h in ground arith
            ],
            λ z. ground arith,
            λ b h. (inv.counts key b h).uses,
          )
    ]

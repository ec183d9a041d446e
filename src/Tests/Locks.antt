-- ===== src/Tests/Locks.antt =====
-- The theorems on the locks by key, for two goroutines of which one waits for the other.
use migration_manager.Prelude.{ℕ, String, ◌≤◌, ◌≡◌, refl, [], ◌∷◌, none, some}
use migration_manager.Prelude.Map.{lookup, string_eq}
use migration_manager.IdLock.{
  Locks, System, new_locks, outside, waiting, inside, enter, acquire, Reach, begin, then, enters,
  acquires,
}
use migration_manager.IdLock.Invariant.{holders, users}
use migration_manager.IdLock.Safety.{Reach-exclusive}
use migration_manager.IdLock.Progress.{Drains, work, Reach-Drains}

-- The first goroutine has come in and holds the lock, the second waits for it.
abbrev first_in : Locks
first_in = acquire 0 (enter "batch" new_locks).1

abbrev contended : System
contended = record {
  locks = (enter "batch" first_in).1;
  threads = inside "batch" ∷ waiting "batch" (enter "batch" first_in).0 ∷ [];
}

contended-Reach : Reach 2 contended
unfolding enter
contended-Reach =
    then
      (then (then begin (enters [] (outside ∷ []) "batch" new_locks))
        (acquires [] (outside ∷ []) "batch" 0 (enter "batch" new_locks).1 refl))
      (enters (inside "batch" ∷ []) [] "batch" first_in)

Reach-exclusive_example :
    (holders "batch" contended.threads ≤ 1)
    × (users "batch" contended.threads ≡ 0 → lookup "batch" contended.locks.lock_map ≡ none)
    × ((a : ℕ)
        → lookup "batch" contended.locks.lock_map ≡ some a
        → (contended.locks.heap a).uses ≡ users "batch" contended.threads)
Reach-exclusive_example = Reach-exclusive 2 contended "batch" contended-Reach

Reach-Drains_example :
    (t : System) × Drains contended t
    × (work t.threads ≡ 0)
    × ((key : String) → lookup key t.locks.lock_map ≡ none)
Reach-Drains_example = Reach-Drains 2 contended contended-Reach

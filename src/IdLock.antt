-- ===== src/IdLock.antt =====
-- internal/util/concurrent.go, `IDLock`: a mutex for each key, which is there only while it is used.
-- A section under `accessLock` never waits for anything else, so it is one step here; the lock of
-- the key's own mutex comes after it, and is a step that has to wait until the mutex is free.
pub mod Invariant
pub mod Safety
pub mod Progress
use migration_manager.Prelude.{
  ℕ, zero, suc, String, ◌-◌, ◌==◌, Bool, true, false, if◌then◌else◌, List, [], ◌∷◌, ◌++◌, none,
  some, ◌≡◌,
}
use migration_manager.Prelude.Map.{Map, lookup, insert, erase, string_eq}

-- `refMutex`.
pub record RefMutex : Type 0 where
  pub is_locked : Bool
  pub uses : ℕ

-- `IDLock`: the map from keys to mutexes, which are objects on the heap; `fresh` is the next address.
pub record Locks : Type 0 where
  pub lock_map : Map String ℕ
  pub heap : ℕ → RefMutex
  pub fresh : ℕ

-- `*a = m`.
abbrev pub write : ℕ → RefMutex → (ℕ → RefMutex) → ℕ → RefMutex
write a m h b = if a == b then m else h b

-- The section of `Lock` under `accessLock`: the mutex of the key, with one more use.
unfoldable pub enter : String → Locks → ℕ × Locks
enter key l = elim (lookup key l.lock_map) [
  | some a ↦
      (a, record l { heap = write a (record (l.heap a) { uses = suc (l.heap a).uses }) l.heap })
  | none ↦ (
    l.fresh,
    record {
      lock_map = insert key l.fresh l.lock_map;
      heap = write l.fresh (record { is_locked = false; uses = 1 }) l.heap;
      fresh = suc l.fresh;
    },
  )
]

-- `lock.Lock()` on a free mutex.
unfoldable pub acquire : ℕ → Locks → Locks
acquire a l = record l { heap = write a (record (l.heap a) { is_locked = true }) l.heap }

-- `Unlock`.
unfoldable pub leave : String → Locks → Locks
leave key l = elim (lookup key l.lock_map) [
  | none ↦ l
  | some a ↦
      let left = (l.heap a).uses - 1 in
      record l {
        lock_map = if left == 0 then erase key l.lock_map else l.lock_map;
        heap = write a (record { is_locked = false; uses = left }) l.heap;
      }
]

-- Where a goroutine is: outside, in `Lock` with the mutex at an address, or after it.
pub data Position : Type 0 where
  outside : Position
  waiting : String → ℕ → Position
  inside : String → Position

pub record System : Type 0 where
  pub locks : Locks
  pub threads : List Position

abbrev pub at : List Position → Position → List Position → List Position
at before p after = before ++ (p ∷ after)

-- One step of one goroutine; each unlocks only what it has locked.
pub data Step : System → System → Type 0 where
  enters :
      (before after : List Position) (key : String) (l : Locks)
      → Step
          (record { locks = l; threads = at before outside after })
          (record {
            locks = (enter key l).1;
            threads = at before (waiting key (enter key l).0) after;
          })
  acquires :
      (before after : List Position) (key : String) (a : ℕ) (l : Locks)
      → (l.heap a).is_locked ≡ false
      → Step
          (record { locks = l; threads = at before (waiting key a) after })
          (record { locks = acquire a l; threads = at before (inside key) after })
  leaves :
      (before after : List Position) (key : String) (l : Locks)
      → Step
          (record { locks = l; threads = at before (inside key) after })
          (record { locks = leave key l; threads = at before outside after })

-- `NewIDLock`.
abbrev pub new_locks : Locks
new_locks = record { lock_map = []; heap = λ a. record { is_locked = false; uses = 0 }; fresh = 0 }

abbrev pub all_outside : ℕ → List Position
all_outside zero = []
all_outside (suc n) = outside ∷ all_outside n

-- What any number of goroutines can reach.
pub data Reach (n : ℕ) : System → Type 0 where
  begin : Reach n (record { locks = new_locks; threads = all_outside n })
  then : {s t : System} → Reach n s → Step s t → Reach n t

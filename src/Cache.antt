-- ===== src/Cache.antt =====
-- internal/util/concurrent.go: the in-memory cache, a map behind a lock. Every method holds the lock
-- for its whole body, so a method is one step on the map. The counters of running imports that the
-- source, target and batch services keep in such caches are in Cache/Counters.
pub mod Counters
pub mod Laws
use migration_manager.Prelude.{Option, none, some}
use migration_manager.Prelude.Map.{Eq, Map, lookup, insert, erase}

module _ {K V : Type 0} ⦃e : Eq K⦄ where
  -- `Cache.Read`: a missing key reads as the zero value, and `false`.
  unfoldable pub read : V → K → Map K V → V
  read zero_value k c = elim (lookup k c) [ none ↦ zero_value | some v ↦ v ]

  -- `Cache.Write` with a function of the old value and the new one.
  unfoldable pub write : V → K → V → (V → V → V) → Map K V → Map K V
  unfolding read
  write zero_value k v f c = insert k (f (read zero_value k c) v) c

  -- `Cache.Write` with no function.
  unfoldable pub put : K → V → Map K V → Map K V
  put k v c = insert k v c

  -- `Cache.Delete`.
  unfoldable pub delete : K → Map K V → Map K V
  delete k c = erase k c

  -- `Cache.Replace`: a nil map is refused and the cache is as it was.
  unfoldable pub replace : Option (Map K V) → Map K V → Option (Map K V)
  replace none c = none
  replace (some initial) c = some initial

-- ===== src/Store/State.antt =====
-- The state of a running manager, and the monad of the service calls. A failed call keeps what it
-- has written: only a transaction takes back, and only what it wrote to the database.
use migration_manager.Prelude.{ℕ, String, Bool, true, false, List, Option}
use migration_manager.Prelude.Map.{Map}
use migration_manager.Prelude.Int.{ℤ}
use migration_manager.Errors.{Error, Result, ok, err}
use migration_manager.Api.Types.{
  QueueEntry, Batch, Window, Instance, Source, Target, Network, Warning,
}
use migration_manager.Cache.Counters.{Counters}

-- The tables; `assigned` is `instance_batches`, and `next_id` is the next row id. `window_ids` is the
-- column `migration_window_id` of the queue, by the instance of the entry; where no entry of the
-- instance is in the queue, it means nothing.
pub record Db : Type 0 where
  pub queue : List QueueEntry
  pub batches : List Batch
  pub windows : List Window
  pub window_ids : Map ℕ (Option ℤ)
  pub instances : List Instance
  pub assigned : List (String × ℕ)
  pub sources : List Source
  pub targets : List Target
  pub networks : List Network
  pub warnings : List Warning
  pub next_id : ℕ

-- The caches of the services; `worker_updates` is the handler's, of the last sign of life of a worker,
-- and `retries` the instance service's, of the failed configurations after an import.
-- `in_tx` says that the context carries a transaction, `commits` that the database will accept the
-- next commit.
pub record World : Type 0 where
  pub db : Db
  pub source_imports : Counters
  pub target_imports : Counters
  pub target_creations : Counters
  pub batch_imports : Counters
  pub worker_updates : Map ℕ ℕ
  pub retries : Map ℕ ℤ
  pub in_tx : Bool
  pub commits : Bool

abbrev pub M : Type 0 → Type 0
M A = World → Result A × World

infixl 5 ◌>>=◌ ◌>>◌
unfoldable pub ◌>>=◌ : {A B : Type 0} → M A → (A → M B) → M B
◌>>=◌ m f w = let (r, w') = m w in elim r [ ok a ↦ f a w' | err e ↦ (err e, w') ]

unfoldable pub ◌>>◌ : {A B : Type 0} → M A → M B → M B
unfolding ◌>>=◌
m >> k = m >>= (λ _. k)

unfoldable pub pure : {A : Type 0} → A → M A
pure a w = (ok a, w)

unfoldable pub raise : {A : Type 0} → Error → M A
raise e w = (err e, w)

-- `if c { return e }`.
unfoldable pub raise_if : Bool → Error → M (Unit {0})
raise_if true e w = (err e, w)
raise_if false e w = (ok tt, w)

-- A check that needs no state.
unfoldable pub lift : {A : Type 0} → Result A → M A
lift r w = (r, w)

-- A SELECT.
unfoldable pub query : {A : Type 0} → (Db → Result A) → M A
query q w = (q w.db, w)

-- A statement that changes the database.
unfoldable pub exec : (Db → Result Db) → M (Unit {0})
exec s w = elim (s w.db) [ ok d ↦ (ok tt, record w { db = d }) | err e ↦ (err e, w) ]

-- `if c { action }`.
unfoldable pub when : Bool → M (Unit {0}) → M (Unit {0})
when true m = m
when false m = pure tt

-- ===== src/Daemon/Resume.antt =====
-- cmd/migration-managerd/internal/api/sync.go, syncActiveBatches: when the daemon starts, it counts
-- again the imports that were running when it stopped.
pub mod Correct
pub mod Counts
pub mod Reads
pub mod Recount
use migration_manager.Prelude.{ℕ, String, List, [], ◌∷◌, ◌++◌, Option, none, some}
use migration_manager.Prelude.Int.{pos, ◌+ℤ◌, wrap_int}
use migration_manager.Prelude.Map.{Map, nat_eq, string_eq, at_or, insert}
use migration_manager.Errors.{ok, err, failed}
use migration_manager.Env.{Env}
use migration_manager.Api.Status.{
  MigrationStatus, idle, background_import, creating, final_import, post_import, worker_done, error,
  is_running,
}
use migration_manager.Api.Types.{QueueEntry}
use migration_manager.Cache.{replace}
use migration_manager.Cache.Counters.{Counters}
use migration_manager.Store.{World, M, ◌>>=◌, ◌>>◌}
use migration_manager.Store.Transaction.{do_tx}
use migration_manager.Queue.Handler.{
  MigrationState, BatchMigrationState, get_migration_state, source_in, target_in,
}

-- The five maps that the loop fills.
pub record Tally : Type 0 where
  pub from_source : Counters
  pub to_target : Counters
  pub by_batch : Counters
  pub creating_on : Counters
  pub workers : Map ℕ ℕ

-- `m[k] = m[k] + 1`.
abbrev pub bump : String → Counters → Counters
bump k m = insert k (wrap_int (at_or (pos 0) k m +ℤ pos 1)) m

-- One round of the two loops: the state of a batch, and one of its entries under its key.
abbrev pub Round : Type 0
Round = MigrationState × ℕ × QueueEntry

abbrev pub source_of : MigrationState → ℕ → String
source_of s id = (source_in id s).name

abbrev pub target_of : MigrationState → ℕ → String
target_of s id = (target_in id s).name

abbrev pub importing : MigrationState → ℕ → Tally → Tally
importing s id t = record t {
  from_source = bump (source_of s id) t.from_source;
  to_target = bump (target_of s id) t.to_target;
}

abbrev pub alive : ℕ → ℕ → Tally → Tally
alive now id t = record t { workers = insert id now t.workers }

-- The `switch` on the status.
abbrev pub tally_by : ℕ → MigrationState → ℕ → MigrationStatus → Tally → Tally
tally_by now s id idle t = alive now id t
tally_by now s id worker_done t = alive now id t
tally_by now s id post_import t = alive now id t
tally_by now s id error t = alive now id t
tally_by now s id background_import t =
    let counted = importing s id t in
    alive now id (record counted { by_batch = bump s.batch.name counted.by_batch })
tally_by now s id final_import t = alive now id (importing s id t)
tally_by now s id creating t = record t { creating_on = bump (target_of s id) t.creating_on }
tally_by now s id _ t = t

unfoldable pub tally : ℕ → List Round → Tally → Tally
tally now [] t = t
tally now ((s, id, q) ∷ rounds) t = tally now rounds (tally_by now s id q.migration_status t)

-- The rounds in the order of the tables.
abbrev pub rounds_in : MigrationState → Map ℕ QueueEntry → List Round
rounds_in s [] = []
rounds_in s ((id, q) ∷ qs) = (s, id, q) ∷ rounds_in s qs

abbrev pub rounds_of : BatchMigrationState → List Round
rounds_of [] = []
rounds_of ((_, s) ∷ states) = rounds_in s s.queue_entries ++ rounds_of states

abbrev pub empty_tally : Tally
empty_tally = record {
  from_source = [];
  to_target = [];
  by_batch = [];
  creating_on = [];
  workers = [];
}

-- A cache after `Replace`, and the world that has it.
abbrev init : {A : Type 0} → Option A → (A → World) → M (Unit {0})
init none store w = (err (failed "Cache is nil"), w)
init (some c) store w = (ok tt, store c)

-- `InitImportCache` of the three services, `InitCreateCache`, and `InitWorkerCache`.
unfoldable pub init_source_imports : Option Counters → M (Unit {0})
unfolding replace
init_source_imports m w = init (replace m w.source_imports) (λ c. record w { source_imports = c }) w

unfoldable pub init_target_imports : Option Counters → M (Unit {0})
unfolding replace
init_target_imports m w = init (replace m w.target_imports) (λ c. record w { target_imports = c }) w

unfoldable pub init_target_creations : Option Counters → M (Unit {0})
unfolding replace
init_target_creations m w =
    init (replace m w.target_creations) (λ c. record w { target_creations = c }) w

unfoldable pub init_batch_imports : Option Counters → M (Unit {0})
unfolding replace
init_batch_imports m w = init (replace m w.batch_imports) (λ c. record w { batch_imports = c }) w

unfoldable pub init_worker_cache : Option (Map ℕ ℕ) → M (Unit {0})
unfolding replace
init_worker_cache m w = init (replace m w.worker_updates) (λ c. record w { worker_updates = c }) w

unfoldable pub store_tally : Tally → M (Unit {0})
unfolding init_source_imports init_target_imports init_target_creations init_batch_imports
store_tally t = do
  init_source_imports (some t.from_source)
  init_target_imports (some t.to_target)
  init_target_creations (some t.creating_on)
  init_batch_imports (some t.by_batch)
  init_worker_cache (some t.workers)

-- `syncActiveBatches`. The loops go through Go maps: `order` is the order they happen to take.
unfoldable pub sync_active_batches : Env → (List Round → List Round) → M (Unit {0})
unfolding get_migration_state tally store_tally
sync_active_batches env order = do
  states ← do_tx (get_migration_state is_running (background_import ∷ final_import ∷ creating ∷ []))
  store_tally (tally env.now (order (rounds_of states)) empty_tally)

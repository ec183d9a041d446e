-- ===== src/Queue/Handler.antt =====
-- internal/queue/handler.go: the handler that gathers, for the daemon's tasks, what there is to know
-- of the batches in migration, and keeps the time of each worker's last update.
pub mod Laws
use migration_manager.Prelude.{ℕ, String, Bool, List, [], ◌∷◌, Option, none, some, is_some}
use migration_manager.Prelude.Int.{pos}
use migration_manager.Prelude.Map.{Map, nat_eq, string_eq, lookup, at_or, insert, index, copy}
use migration_manager.Prelude.Table.{filter}
use migration_manager.Errors.{ok}
use migration_manager.Api.Status.{MigrationStatus, BatchStatus}
use migration_manager.Api.Types.{QueueEntry, Batch, Window, Instance, Source, Target}
use migration_manager.Cache.{put, read, delete}
use migration_manager.Store.{Db, M, query}
use migration_manager.Store.Transaction.{do_tx}
use migration_manager.Store.Repo.{get_queue_by_state, get_batches_by_state, get_windows_by_batch}
use migration_manager.Queue.NextWindow.{get_all_queued}

-- `MigrationState` and `BatchMigrationState`.
pub record MigrationState : Type 0 where
  pub batch : Batch
  pub windows : Map String Window
  pub targets : Map ℕ Target
  pub queue_entries : Map ℕ QueueEntry
  pub instances : Map ℕ Instance
  pub sources : Map ℕ Source

abbrev pub BatchMigrationState : Type 0
BatchMigrationState = Map String MigrationState

-- `Queue`.
unfoldable pub queue_of : BatchMigrationState → Map ℕ QueueEntry
queue_of [] = []
queue_of ((_, s) ∷ states) = copy s.queue_entries (queue_of states)

-- `RecordWorkerUpdate`, `LastWorkerUpdate` and `RemoveFromCache`.
unfoldable pub record_worker_update : ℕ → ℕ → Map ℕ ℕ → Map ℕ ℕ
unfolding put
record_worker_update now id c = put id now c

unfoldable pub last_worker_update : ℕ → Map ℕ ℕ → ℕ
unfolding read
last_worker_update id c = read 0 id c

unfoldable pub remove_from_cache : ℕ → Map ℕ ℕ → Map ℕ ℕ
unfolding delete
remove_from_cache id c = delete id c

-- `queueMap`: the entries by batch, and by instance.
abbrev pub by_batch :
    List QueueEntry → Map String (Map ℕ QueueEntry) → Map String (Map ℕ QueueEntry)
by_batch [] m = m
by_batch (q ∷ qs) m =
    by_batch qs (insert q.batch_name (insert q.instance_uuid q (at_or [] q.batch_name m)) m)

-- `batchMap`: the batches with an entry.
abbrev pub with_entries : Map String (Map ℕ QueueEntry) → List Batch → List Batch
with_entries queue bs = filter (λ (b : Batch). is_some (lookup b.name queue)) bs

-- The zero values of Go.
abbrev pub no_source : Source
no_source = record { id = pos 0; name = ""; source_type = ""; properties = "" }

abbrev pub no_target : Target
no_target = record { id = pos 0; name = ""; target_type = ""; properties = "" }

-- `state.Sources[id]` and `state.Targets[id]`.
abbrev pub source_in : ℕ → MigrationState → Source
source_in id s = at_or no_source id s.sources

abbrev pub target_in : ℕ → MigrationState → Target
target_in id s = at_or no_target id s.targets

-- What one instance adds to the state of a batch.
module _ (sources : Map String Source) (targets : Map String Target) where
  abbrev pub add_target : ℕ → QueueEntry → Map ℕ Target → Map ℕ Target
  add_target id q m = elim (lookup q.placement.target_name targets) [
    | none ↦ m
    | some t ↦ insert id t m
  ]

  abbrev pub add_if_queued : Instance → Option QueueEntry → MigrationState → MigrationState
  add_if_queued i none s = s
  add_if_queued i (some q) s = record s {
    instances = insert i.uuid i s.instances;
    sources = insert i.uuid (at_or no_source i.source sources) s.sources;
    targets = add_target i.uuid q s.targets;
  }

  abbrev pub add_instance : Instance → MigrationState → MigrationState
  add_instance i s = add_if_queued i (lookup i.uuid s.queue_entries) s

  abbrev pub add_instances : List Instance → MigrationState → MigrationState
  add_instances [] s = s
  add_instances (i ∷ is) s = add_instances is (add_instance i s)

-- `windowsByBatch`, of one batch.
abbrev pub windows_of : Db → String → Map String Window
windows_of d b = index (λ (w : Window). w.name) (λ w. w) (get_windows_by_batch b d) []

abbrev pub blank : Db → Map String (Map ℕ QueueEntry) → Batch → MigrationState
blank d queue b = record {
  batch = b;
  windows = windows_of d b.name;
  queue_entries = at_or [] b.name queue;
  instances = [];
  sources = [];
  targets = [];
}

-- What the tables say of the batches and the entries in the given states.
unfoldable pub gather_state : (BatchStatus → Bool) → List MigrationStatus → Db → BatchMigrationState
gather_state p ss d =
    let entries = get_queue_by_state ss d in
    let queue = by_batch entries [] in
    let sources = index (λ (s : Source). s.name) (λ s. s) d.sources [] in
    let targets = index (λ (t : Target). t.name) (λ t. t) d.targets [] in
    let instances = get_all_queued entries d in
    index (λ (b : Batch). b.name) (λ b. add_instances sources targets instances (blank d queue b))
      (with_entries queue (get_batches_by_state p d)) []

-- `GetMigrationState`.
unfoldable pub get_migration_state :
    (BatchStatus → Bool) → List MigrationStatus → M BatchMigrationState
get_migration_state p ss = do_tx (query (λ d. ok (gather_state p ss d)))

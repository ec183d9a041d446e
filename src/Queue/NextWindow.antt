-- ===== src/Queue/NextWindow.antt =====
-- queue_service.go, GetNextWindow: the migration window that a queue entry may use next.
pub mod Choice
pub mod Limit
use migration_manager.Prelude.{
  ℕ, suc, String, str_eq, Bool, false, not, ◌&&◌, ◌||◌, ◌==◌, if◌then◌else◌, List, [], ◌∷◌, reverse,
  Option, none, some, is_empty,
}
use migration_manager.Prelude.Int.{pos, ltb_ℤ, leb_ℤ, eqb_ℤ}
use migration_manager.Prelude.Table.{find?, filter, any, count}
use migration_manager.Errors.{Result, ok, err, failed, http_not_found, not_permitted, ◌>>=◌}
use migration_manager.Env.{Env}
use migration_manager.Api.Status.{idle, final_import, post_import, worker_done, status_eq}
use migration_manager.Api.Types.{QueueEntry, Window, Batch, BatchConstraint, Instance}
use migration_manager.Window.{ended, get_earliest}
use migration_manager.Store
use migration_manager.Store.{Db, M, lift, query}
use migration_manager.Store.Transaction.{do_tx}
use migration_manager.Store.Repo.{
  get_queue_by_batch_and_state, get_windows_by_batch, get_instances_by_uuids, get_batch,
  get_all_queue,
}

-- `batchService.GetByName`.
unfoldable pub get_batch_by_name : String → Db → Result Batch
get_batch_by_name name d =
    if str_eq name "" then err (not_permitted "Batch name cannot be empty") else get_batch name d

-- `instanceService.GetAllQueued`.
unfoldable pub get_all_queued : List QueueEntry → Db → List Instance
get_all_queued qs d = if is_empty qs then [] else get_instances_by_uuids qs d

-- The entry is assigned to the window of this name.
abbrev pub has_window : String → QueueEntry → Bool
has_window n q = elim q.migration_window_name [ none ↦ false | some m ↦ str_eq m n ]

-- `windowsInUse[name]`: the entries that are assigned to a window of this name.
unfoldable pub windows_in_use : List QueueEntry → String → ℕ
windows_in_use all n = count (has_window n) all

-- The window is not at capacity, or is the entry's own.
abbrev pub is_available : QueueEntry → List QueueEntry → Window → Bool
is_available q all w =
    eqb_ℤ w.capacity (pos 0)
    || ltb_ℤ (pos (windows_in_use all w.name)) w.capacity
    || has_window w.name q

-- What the transaction reads: entries, windows, instances and the batch.
pub record Gathered : Type 0 where
  pub entries : List QueueEntry
  pub windows : List Window
  pub instances : List Instance
  pub batch : Batch

unfoldable pub gather : QueueEntry → Db → Result Gathered
unfolding get_batch_by_name
gather q d =
    let entries =
      get_queue_by_batch_and_state q.batch_name
        (idle ∷ final_import ∷ post_import ∷ worker_done ∷ []) d in
    do
      batch ← get_batch_by_name q.batch_name d
      ok (record {
        entries = entries;
        windows = filter (is_available q (get_all_queue d)) (get_windows_by_batch q.batch_name d);
        instances = get_all_queued entries d;
        batch = batch;
      })

-- `MatchesCriteria`, with an error of the expression language as an error.
abbrev pub matches_criteria : Env → Instance → String → Result Bool
matches_criteria env i e = elim (env.matches i e) [
  | none ↦ err (failed "Failed to match expression")
  | some b ↦ ok b
]

-- The first constraint of the list that the instance matches.
unfoldable pub first_match : Env → Instance → List BatchConstraint → Result (Option BatchConstraint)
first_match env i [] = ok none
first_match env i (c ∷ cs) =
    let rest = first_match env i cs in
    do match ← matches_criteria env i c.include_expression; if match then ok (some c) else rest

-- The constraint of the entry's own instance; the list is reversed, so the last added comes first.
unfoldable pub find_constraint :
    Env → QueueEntry → List Instance → Batch → Result (Option BatchConstraint)
unfolding first_match
find_constraint env q is b = elim (find? (λ (i : Instance). i.uuid == q.instance_uuid) is) [
  | none ↦ ok none
  | some i ↦ first_match env i (reverse b.constraints)
]

-- `statusMap[id] == IDLE`; of two entries of one instance the last would count.
abbrev pub is_idle_in : List QueueEntry → ℕ → Bool
is_idle_in [] id = false
is_idle_in (e ∷ es) id =
    let rest = is_idle_in es id in
    if any (λ (x : QueueEntry). x.instance_uuid == id) es
    then rest
    else (e.instance_uuid == id) && status_eq e.migration_status idle

-- The instances that match the constraint, less the other idle ones.
unfoldable pub count_matches :
    Env → QueueEntry → List QueueEntry → String → List Instance → Result ℕ
count_matches env q es e [] = ok 0
count_matches env q es e (i ∷ is) =
    let rest = count_matches env q es e is in
    if is_idle_in es i.uuid && not (i.uuid == q.instance_uuid)
    then rest
    else do match ← matches_criteria env i e; n ← rest; ok (if match then suc n else n)

-- `constraint.MaxConcurrentInstances == 0 || numMatches <= constraint.MaxConcurrentInstances`.
abbrev pub within_limit : BatchConstraint → ℕ → Bool
within_limit c n =
    eqb_ℤ c.max_concurrent_instances (pos 0) || leb_ℤ (pos n) c.max_concurrent_instances

-- The choice by the constraint that matches the instance, if there is one.
unfoldable pub by_constraint : Env → QueueEntry → Gathered → Option BatchConstraint → Result Window
by_constraint env q g none = get_earliest env (pos 0) g.windows
by_constraint env q g (some c) = do
  n ← count_matches env q g.entries c.include_expression g.instances
  if within_limit c n
      then get_earliest env c.min_instance_boot_time g.windows
      else err (http_not_found "Not assigning migration window for instance, maximum limit reached")

-- The entry's own window, if it has not ended.
unfoldable pub assigned_window : Env → QueueEntry → List Window → Option Window
assigned_window env q ws = find? (λ (w : Window). has_window w.name q && not (ended env w)) ws

-- What follows the transaction.
unfoldable pub choose : Env → QueueEntry → Gathered → Result Window
unfolding assigned_window find_constraint by_constraint
choose env q g = elim (assigned_window env q g.windows) [
  | some w ↦ ok w
  | none ↦ find_constraint env q g.instances g.batch >>= by_constraint env q g
]

-- `GetNextWindow`.
unfoldable pub get_next_window : Env → QueueEntry → M Window
unfolding choose gather
get_next_window env q = Store.◌>>=◌ (do_tx (query (gather q))) (λ g. lift (choose env q g))

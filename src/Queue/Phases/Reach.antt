-- ===== src/Queue/Phases/Reach.antt =====
-- queue_service.go, `StartBatchByName` and the finish task of the daemon: the phases over a sequence of
-- calls. The service's lock and the database's transactions make the calls follow one another.
use migration_manager.Prelude.{ℕ, String, Option, List, [], ◌∷◌}
use migration_manager.Prelude.Table.{All}
use migration_manager.Env.{Env}
use migration_manager.Api.Types.{QueueEntry, WorkerResponse, Placement, Instance}
use migration_manager.Store.{World}
use migration_manager.Queue.Phases.{InPhase, IsPhased, AllPhased}
use migration_manager.Queue.Operations.{
  create_entry, cancel, update_placement, delete_by_uuid, update_status, delete_all_by_batch,
}
use migration_manager.Queue.WorkerUpdate.{process_worker_update}
use migration_manager.Queue.WorkerCommand.{new_worker_command}
use migration_manager.Queue.Phases.Operations.{
  process_worker_update-Keeps, cancel-Keeps, update_placement-Keeps, delete_by_uuid-Keeps,
  create_entry-Keeps, update_status-Keeps, delete_all_by_batch-Keeps,
}
use migration_manager.Api.Status.{MigrationStatus, ImportStage}
use migration_manager.Daemon.Finish.{Clients, Item, finalize}
use migration_manager.Queue.Phases.Finish.{finalize-Keeps}
use migration_manager.Queue.Phases.Starts.{start-Keeps, retry-Keeps}
use migration_manager.Batch.Start.{start}
use migration_manager.Queue.Retry.{retry}
use migration_manager.Queue.Phases.Commands.{new_worker_command-Keeps}

-- A call of the queue service, by a worker, a user, a task of the daemon or another service; the start
-- of a batch, and the task that finishes what the workers have done. `set_status` is
-- `UpdateStatusByUUID`.
pub data Call : Type 0 where
  create : QueueEntry → Call
  next_command : Env → String → ℕ → Call
  worker_update : ℕ → ℕ → WorkerResponse → Call
  cancel_entry delete_entry : ℕ → Call
  place : ℕ → Placement → Call
  start_batch : Env → (List Instance → List Instance) → String → Call
  retry_entry : Env → ℕ → Call
  set_status : ℕ → MigrationStatus → String → ImportStage → Option String → Call
  delete_entries : String → Call
  finish : (env : Env) (clients : Clients) → List (Item env clients) → List String → Call

-- What a call makes of the world; its result goes to the caller.
unfoldable pub perform : Call → World → World
perform (create q) w = (create_entry q w).1
perform (next_command env default id) w = (new_worker_command env default id w).1
perform (worker_update now id r) w = (process_worker_update now id r w).1
perform (cancel_entry id) w = (cancel id w).1
perform (delete_entry id) w = (delete_by_uuid id w).1
perform (place id p) w = (update_placement id p w).1
perform (start_batch env order name) w = (start env order name w).1
perform (retry_entry env id) w = (retry env id w).1
perform (set_status id s m t n) w = (update_status id s m t n w).1
perform (delete_entries b) w = (delete_all_by_batch b w).1
perform (finish env clients items names) w = (finalize env clients items names w).1

unfoldable pub perform_all : List Call → World → World
perform_all [] w = w
perform_all (c ∷ cs) w = perform_all cs (perform c w)

-- A new entry is created in a status that fits its stage, and `UpdateStatusByUUID`, which takes any
-- pair, is called with a status that fits the stage.
abbrev pub IsGoodCall : Call → Type 0
IsGoodCall (create q) = IsPhased q
IsGoodCall (set_status id s m t n) = InPhase s t
IsGoodCall _ = Unit

perform-AllPhased :
    (c : Call) (w : World) → IsGoodCall c → AllPhased w.db → AllPhased (perform c w).db
unfolding perform
perform-AllPhased (create q) w g p = (create_entry-Keeps q g).run w p
perform-AllPhased (next_command env default id) w g p =
    (new_worker_command-Keeps env default id).run w p
perform-AllPhased (worker_update now id r) w g p = (process_worker_update-Keeps now id r).run w p
perform-AllPhased (cancel_entry id) w g p = (cancel-Keeps id).run w p
perform-AllPhased (delete_entry id) w g p = (delete_by_uuid-Keeps id).run w p
perform-AllPhased (place id x) w g p = (update_placement-Keeps id x).run w p
perform-AllPhased (start_batch env order name) w g p = (start-Keeps env order name).run w p
perform-AllPhased (retry_entry env id) w g p = (retry-Keeps env id).run w p
perform-AllPhased (set_status id s m t n) w g p = (update_status-Keeps id s m t n g).run w p
perform-AllPhased (delete_entries b) w g p = (delete_all_by_batch-Keeps b).run w p
perform-AllPhased (finish env clients items names) w g p =
    (finalize-Keeps env clients items names).run w p

-- If every stored entry is in phase at first, and so are every entry that a call asks to create and
-- every pair of status and stage that a call asks `UpdateStatusByUUID` to set, then after any sequence
-- of the calls of `Call`, in any order and whether they succeed or not, every stored entry is still
-- in phase: a background import is in the background stage, a final import in a stage before
-- completion, and post-import tasks, or a finished worker, in the complete stage.
pub perform_all-AllPhased :
    (cs : List Call) (w : World)
    → All IsGoodCall cs
    → AllPhased w.db
    → AllPhased (perform_all cs w).db
unfolding perform_all
perform_all-AllPhased [] w g p = p
perform_all-AllPhased (c ∷ cs) w g p =
    perform_all-AllPhased cs (perform c w) g.1 (perform-AllPhased c w g.0 p)

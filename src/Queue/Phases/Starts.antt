-- ===== src/Queue/Phases/Starts.antt =====
-- batch_service.go, `StartBatchByName`, and queue_service.go, `RetryByUUID`: the entries that start a
-- migration are in phase.
use migration_manager.Prelude.{
  ℕ, String, Bool, true, false, if◌then◌else◌, not, ◌&&◌, List, [], ◌∷◌, Option, none, some, arith,
}
use migration_manager.Prelude.Table.{All}
use mathlib.Core.Path.{subst, sym}
use migration_manager.Store.Batches.{update_batch-queue}
use migration_manager.Env.{Env}
use migration_manager.Api.Status.{conflict, background}
use migration_manager.Api.Types.{Batch, Instance, Network, Placement, QueueEntry, Window}
use migration_manager.Instance.{DisabledReason, disabled_reason}
use migration_manager.Store.{exec}
use migration_manager.Store.Keeps.{keeps_rules, Keeps, exec-Keeps, pure-Keeps, then-Keeps}
use migration_manager.Store.Repo.{update_batch, update_queue_entry}
use migration_manager.Queue.Phases.{InPhase, IsPhased, AllPhased}
use migration_manager.Queue.Phases.Operations.{create_entry-Keeps, exec_update-Keeps}
use migration_manager.Queue.Retry.{retry, retried}
use migration_manager.Batch.Start.{
  check_status, new_entry, queue_instance, queue_instances, start, started,
}

check_status-InPhase : (r : Option DisabledReason) → InPhase (check_status r).0 background
check_status-InPhase none = ground arith
check_status-InPhase (some r) = ground arith

initial-InPhase :
    (r : Option DisabledReason) (c : Bool) (m : String)
    → InPhase (if c then (conflict, m) else check_status r).0 background
initial-InPhase r true m = ground arith
initial-InPhase r false m = check_status-InPhase r

new_entry-IsPhased :
    (env : Env) (b : Batch) (name : String) (i : Instance) (p : Placement) (match : Bool)
    → IsPhased (new_entry env b name i p match)
new_entry-IsPhased env b name i p match =
    initial-InPhase (disabled_reason env i b.config.restriction_overrides)
      (not match && not b.defaults.force_conflict_resolution) _

module _ (env : Env) (b : Batch) (name : String) (nets : List Network) (ws : List Window) where
  queue_instance-Keeps : (i : Instance) → Keeps AllPhased (queue_instance env b name nets ws i)
  unfolding queue_instance
  queue_instance-Keeps i = search (keeps_rules, create_entry-Keeps, new_entry-IsPhased) depth 12

  queue_instances-Keeps :
      (is : List Instance) → Keeps AllPhased (queue_instances env b name nets ws is)
  unfolding queue_instances
  queue_instances-Keeps [] = pure-Keeps tt
  queue_instances-Keeps (i ∷ is) =
      then-Keeps _ _ (queue_instance-Keeps i) (queue_instances-Keeps is)

exec-started-Keeps :
    (env : Env) (b : Batch) → Keeps AllPhased (exec (update_batch b.name (started env b)))
exec-started-Keeps env b =
    exec-Keeps _
      (λ d d' all h. subst (All IsPhased) (sym (update_batch-queue (started env b) d d' h)) all)

pub start-Keeps :
    (env : Env) (order : List Instance → List Instance) (name : String)
    → Keeps AllPhased (start env order name)
unfolding start
start-Keeps env order name =
    search (keeps_rules, queue_instances-Keeps, exec-started-Keeps) depth 16

retry_write-Keeps :
    (env : Env) (b : Batch) (i : Instance) (p : Placement) (q : QueueEntry)
    → Keeps AllPhased (exec (update_queue_entry (retried env b i p q)))
retry_write-Keeps env b i p q =
    exec_update-Keeps (retried env b i p q)
      (check_status-InPhase (disabled_reason env i b.config.restriction_overrides))

pub retry-Keeps : (env : Env) (id : ℕ) → Keeps AllPhased (retry env id)
unfolding retry
retry-Keeps env id = search (keeps_rules, retry_write-Keeps) depth 16

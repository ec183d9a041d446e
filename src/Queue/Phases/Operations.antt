-- ===== src/Queue/Phases/Operations.antt =====
-- queue_service.go: every operation of the queue service keeps the phases of the stored entries.
use migration_manager.Prelude.{ℕ, Bool, not, String, arith, Option}
use migration_manager.Api.Status.{MigrationStatus, canceled, ImportStage, background}
use migration_manager.Api.Types.{QueueEntry, WorkerResponse, Placement, Instance}
use mathlib.Core.Path.{subst}
use migration_manager.Errors.{ok-inj}
use migration_manager.Store
use migration_manager.Store.{Db, M, query, exec}
use migration_manager.Store.Keeps.{keeps_rules, Keeps, exec-Keeps, bind_query-Keeps, do_tx-Keeps}
use migration_manager.Store.Rows.{
  All-filter, update-All, create-All, delete-All, get_queue_entry-All,
}
use migration_manager.Store.Repo.{
  get_queue_entry, update_queue_entry, create_queue_entry, delete_queue_entry,
  delete_queue_by_batch, in_batch,
}
use migration_manager.Queue.Phases.{InPhase, IsPhased, AllPhased, link-IsPhased}
use migration_manager.Queue.Operations.{
  with_status, update_status, update_placement, delete_by_uuid, cancel, create_entry,
  delete_all_by_batch,
}
use migration_manager.Queue.WorkerUpdate.{
  respond, process, process_worker_update, release_in, release_imports,
}

-- The response of a worker keeps the entry's phase.
respond-IsPhased :
    (now : ℕ) (r : WorkerResponse) (q : QueueEntry) → IsPhased q → IsPhased (respond now r q)
unfolding respond
respond-IsPhased now r q h = ground arith

-- A write of an entry in phase.
pub exec_update-Keeps :
    (q : QueueEntry) → IsPhased q → Keeps AllPhased (Store.exec (update_queue_entry q))
exec_update-Keeps q h =
    exec-Keeps (update_queue_entry q)
      (λ d d' all e. update-All IsPhased link-IsPhased q d d' h all e)

exec-respond-Keeps :
    (now : ℕ) (r : WorkerResponse) (q : QueueEntry)
    → IsPhased q
    → Keeps AllPhased (exec (update_queue_entry (respond now r q)))
exec-respond-Keeps now r q h = exec_update-Keeps (respond now r q) (respond-IsPhased now r q h)

exec_placement-Keeps :
    (q : QueueEntry) (p : Placement)
    → IsPhased q
    → Keeps AllPhased (exec (update_queue_entry (record q { placement = p })))
exec_placement-Keeps q p h = exec_update-Keeps (record q { placement = p }) h

exec_delete-Keeps : (id : ℕ) → Keeps AllPhased (exec (delete_queue_entry id))
exec_delete-Keeps id = exec-Keeps (delete_queue_entry id) (delete-All IsPhased id)

exec_create-Keeps : (q : QueueEntry) → IsPhased q → Keeps AllPhased (exec (create_queue_entry q))
exec_create-Keeps q h =
    exec-Keeps (create_queue_entry q)
      (λ d d' all e. create-All IsPhased link-IsPhased q d d' h all e)

release-Keeps : (i : Instance) (q : QueueEntry) (b : Bool) → Keeps AllPhased (release_in i q b)
unfolding release_in release_imports
release-Keeps i q b = record { run = λ w p. p }

-- A read of the entry, and then a call that keeps the invariant when the entry is in phase.
read_entry-Keeps :
    {B : Type 0} (id : ℕ) (f : QueueEntry → M B)
    → ((q : QueueEntry) → IsPhased q → Keeps AllPhased (f q))
    → Keeps AllPhased (Store.◌>>=◌ (query (get_queue_entry id)) f)
read_entry-Keeps id f h =
    bind_query-Keeps (get_queue_entry id) f
      (λ d q all e w same. (h q (get_queue_entry-All IsPhased id d q all e)).run w (rw same all))

-- A worker's response keeps the phases.
pub process_worker_update-Keeps :
    (now id : ℕ) (r : WorkerResponse) → Keeps AllPhased (process_worker_update now id r)
unfolding process_worker_update
process_worker_update-Keeps now id r = do_tx-Keeps (process now id r) (
    read_entry-Keeps id _ (λ q h. search (keeps_rules, release-Keeps, exec-respond-Keeps) depth 12))

-- A change of status to one that fits the stage.
pub update_status-Keeps :
    (id : ℕ) (s : MigrationStatus) (m : String) (t : ImportStage) (n : Option String)
    → InPhase s t
    → Keeps AllPhased (update_status id s m t n)
unfolding update_status
update_status-Keeps id s m t n h =
    let write : (q : QueueEntry)
        → Keeps AllPhased (exec (update_queue_entry (with_status s m t n q))) =
      λ q. exec_update-Keeps (with_status s m t n q) h in
    search (keeps_rules, write) depth 12

canceled-InPhase : InPhase canceled background
canceled-InPhase = ground arith

pub cancel-Keeps : (id : ℕ) → Keeps AllPhased (cancel id)
unfolding cancel
cancel-Keeps id = search (keeps_rules, update_status-Keeps, canceled-InPhase) depth 12

pub update_placement-Keeps : (id : ℕ) (p : Placement) → Keeps AllPhased (update_placement id p)
unfolding update_placement
update_placement-Keeps id p =
    do_tx-Keeps _
      (read_entry-Keeps id _ (λ q h. search (keeps_rules, exec_placement-Keeps) depth 12))

pub delete_by_uuid-Keeps : (id : ℕ) → Keeps AllPhased (delete_by_uuid id)
unfolding delete_by_uuid
delete_by_uuid-Keeps id = search (keeps_rules, exec_delete-Keeps) depth 12

pub create_entry-Keeps : (q : QueueEntry) → IsPhased q → Keeps AllPhased (create_entry q)
unfolding create_entry
create_entry-Keeps q h = search (keeps_rules, exec_create-Keeps) depth 12

exec_delete_all-Keeps : (b : String) → Keeps AllPhased (exec (delete_queue_by_batch b))
unfolding delete_queue_by_batch
exec_delete_all-Keeps b = exec-Keeps (delete_queue_by_batch b) (λ d d' all e.
    subst (λ (x : Db). AllPhased x) (ok-inj e)
      (All-filter IsPhased (λ q. not (in_batch b q)) d.queue all))

pub delete_all_by_batch-Keeps : (b : String) → Keeps AllPhased (delete_all_by_batch b)
unfolding delete_all_by_batch
delete_all_by_batch-Keeps b = search (keeps_rules, exec_delete_all-Keeps) depth 12

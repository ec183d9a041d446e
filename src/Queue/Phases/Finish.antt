-- ===== src/Queue/Phases/Finish.antt =====
-- cmd/migration-managerd/internal/api/workers.go, finalizeCompleteInstances with what it calls: the
-- entries that it resets, finishes or marks stay in phase.
use migration_manager.Prelude.{
  if◌then◌else◌, String, Bool, not, true, false, List, [], ◌∷◌, arith, Bool-cases, inl, inr,
}
use migration_manager.Prelude.Table.{All}
use mathlib.Core.Path.{subst, sym}
use migration_manager.Errors.{Error, Result, ok, err}
use migration_manager.Env.{Env}
use migration_manager.Api.Status.{
  ImportStage, background, conflict, finished, error, worker_done, status_eq, BatchStatus,
}
use migration_manager.Window.{ended}
use migration_manager.Api.Types.{Batch, QueueEntry, Window}
use migration_manager.Store.{World, exec}
use migration_manager.Store.Batches.{update_batch-queue}
use migration_manager.Store.Keeps.{
  keeps_rules, Keeps, exec-Keeps, pure-Keeps, then-Keeps, do_tx-Keeps,
}
use migration_manager.Store.Repo.{update_batch}
use migration_manager.Batch.Operations.{update_status as update_batch_status}
use migration_manager.Queue.Phases.{InPhase, IsPhased, AllPhased}
use migration_manager.Queue.Phases.Operations.{update_status-Keeps}
use migration_manager.Daemon.Finish.{
  Clients, Item, Outcome, skipped, completed, conflicted, reset_status, reset_stage, reset_entry,
  configure_steps, revert, configure_migrated, finish_item, finish_items, finish_batch,
  finish_batches, mark_conflicts, settle, finalize, is_final, window_ended, window_or_empty,
}

conflict-InPhase : (t : ImportStage) → InPhase conflict t
conflict-InPhase t = ground arith

finished-InPhase : (t : ImportStage) → InPhase finished t
finished-InPhase t = ground arith

error-InPhase : InPhase error background
error-InPhase = ground arith

reset-InPhase : (q : QueueEntry) → InPhase (reset_status q) (reset_stage q)
reset-InPhase q = elim (Bool-cases (is_final q)) [
  | inl e ↦ rw e (ground arith)
  | inr e ↦ rw e (ground arith)
]

abbrev with_batch_status : BatchStatus → String → Batch → Batch
with_batch_status s m b = record b { status = s; status_message = m }

exec-batch-Keeps :
    (b : Batch) (s : BatchStatus) (m : String)
    → Keeps AllPhased (exec (update_batch b.name (with_batch_status s m b)))
exec-batch-Keeps b s m = exec-Keeps _ (λ d d' all h.
    subst (All IsPhased) (sym (update_batch-queue (with_batch_status s m b) d d' h)) all)

-- Both branches have the property.
branches : {A : Type 0} (P : A → Type 0) (b : Bool) (x y : A) → P x → P y → P (if b then x else y)
branches P true x y p q = p
branches P false x y p q = q

mark_conflicts-Keeps : (cs : List (QueueEntry × String)) → Keeps AllPhased (mark_conflicts cs)
unfolding mark_conflicts
mark_conflicts-Keeps [] = pure-Keeps tt
mark_conflicts-Keeps ((q, message) ∷ cs) =
    then-Keeps _ _
      (update_status-Keeps q.instance_uuid conflict message q.import_stage q.migration_window_name
        (conflict-InPhase q.import_stage))
      (mark_conflicts-Keeps cs)

batch_status-Keeps :
    (name : String) (s : BatchStatus) (m : String) → Keeps AllPhased (update_batch_status name s m)
unfolding update_batch_status
batch_status-Keeps name s m = search (keeps_rules, exec-batch-Keeps) depth 12

finish_batch-Keeps : (name : String) → Keeps AllPhased (finish_batch name)
unfolding finish_batch
finish_batch-Keeps name = search (keeps_rules, batch_status-Keeps) depth 12

finish_batches-Keeps : (names : List String) → Keeps AllPhased (finish_batches names)
unfolding finish_batches
finish_batches-Keeps [] = pure-Keeps tt
finish_batches-Keeps (n ∷ ns) = then-Keeps _ _ (finish_batch-Keeps n) (finish_batches-Keeps ns)

settle-Keeps :
    (cs : List (QueueEntry × String)) (names : List String) → Keeps AllPhased (settle cs names)
unfolding settle
settle-Keeps cs names =
    do_tx-Keeps _ (then-Keeps _ _ (mark_conflicts-Keeps cs) (finish_batches-Keeps names))

module _ (env : Env) (clients : Clients) where
  reset_entry-Keeps : (q : QueueEntry) → Keeps AllPhased (reset_entry env clients q)
  unfolding reset_entry
  reset_entry-Keeps q = search (keeps_rules, update_status-Keeps, reset-InPhase) depth 16

  configure_steps-Keeps : (q : QueueEntry) → Keeps AllPhased (configure_steps env clients q)
  unfolding configure_steps
  configure_steps-Keeps q = search (keeps_rules, update_status-Keeps, finished-InPhase) depth 16

  revert-Keeps :
      (b : Batch) (win : Window) (q : QueueEntry) (e : Error) (w : World)
      → AllPhased w.db
      → AllPhased (revert env clients b win q e w).db
  unfolding revert
  revert-Keeps b win q e w p =
      let kept = branches (λ (v : World). AllPhased v.db) in
      let failed =
        (update_status-Keeps q.instance_uuid error (clients.text e) background
            q.migration_window_name error-InPhase).run
          w p in
      kept (ended env win) w _ p (kept _ _ _ p failed)

  configure_migrated-Keeps :
      (b : Batch) (win : Window) (q : QueueEntry)
      → Keeps AllPhased (configure_migrated env clients b win q)
  unfolding configure_migrated
  configure_migrated-Keeps b win q = record {
    run = λ w p. go (configure_steps env clients q w) ((configure_steps-Keeps q).run w p);
  }
    where
      reverted : Result (Unit {0}) × World → Result (Unit {0}) × World
      reverted (r, w) = elim r [
        | ok u ↦ (ok tt, w)
        | err e ↦ (err e, revert env clients b win q e w)
      ]

      go : (r : Result (Unit {0}) × World) → AllPhased r.1.db → AllPhased (reverted r).1.db
      go (ok u, w) p = p
      go (err e, w) p = revert-Keeps b win q e w p

  finish_item-Keeps :
      (it : Item env clients) (w : World)
      → AllPhased w.db
      → AllPhased (finish_item env clients it w).1.db
  unfolding finish_item
  finish_item-Keeps it w p =
      let kept = branches (λ (v : Outcome env clients × World). AllPhased v.1.db) in
      let configured =
        configure_migrated env clients it.batch (window_or_empty env clients it.window) it.entry
          w in
      let done =
        (configure_migrated-Keeps it.batch (window_or_empty env clients it.window) it.entry).run w
          p in
      let late = not (status_eq it.entry.migration_status worker_done) in
      kept (window_ended env clients it.window) (skipped, (reset_entry env clients it.entry w).1)
        (if late then (skipped, w) else outcome configured) ((reset_entry-Keeps it.entry).run w p)
        (kept late (skipped, w) (outcome configured) p (noted configured done))
    where
      outcome : Result (Unit {0}) × World → Outcome env clients × World
      outcome (r, w) = elim r [ ok u ↦ (completed, w) | err e ↦ (conflicted (clients.text e), w) ]

      noted : (r : Result (Unit {0}) × World) → AllPhased r.1.db → AllPhased (outcome r).1.db
      noted (ok u, w) p = p
      noted (err e, w) p = p

  finish_items-Keeps :
      (its : List (Item env clients)) (w : World)
      → AllPhased w.db
      → AllPhased (finish_items env clients its w).1.db
  unfolding finish_items
  finish_items-Keeps [] w p = p
  finish_items-Keeps (it ∷ its) w p = finish_items-Keeps its _ (finish_item-Keeps it w p)

  pub finalize-Keeps :
      (items : List (Item env clients)) (names : List String)
      → Keeps AllPhased (finalize env clients items names)
  unfolding finalize
  finalize-Keeps items names = record {
    run = λ w p. (settle-Keeps _ names).run _ (finish_items-Keeps items w p);
  }

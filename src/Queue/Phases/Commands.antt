-- ===== src/Queue/Phases/Commands.antt =====
-- queue_service.go: the next worker command keeps the phases of the stored entries.
use migration_manager.Prelude.{
  ℕ, Bool, String, ◌≡◌, refl, arith, Option, none, some, Bool-cases, Option-cases, inl, inr, ◌∙◌,
  ap,
}
use migration_manager.Env.{Env}
use migration_manager.Errors.{Result, ok, err, Result-cases, is_http_not_found}
use migration_manager.Api.Status.{MigrationStatus, idle, status_eq, ImportStage, WorkerCommandType}
use migration_manager.Api.Types.{QueueEntry, Instance, Source, Batch, Window}
use migration_manager.Store.{World, pure, ◌>>=◌}
use migration_manager.Store.Keeps.{Keeps, keeps_rules, bind_post-Keeps, lift-Keeps}
use migration_manager.Queue.NextWindow.{get_next_window}
use migration_manager.Queue.Phases.{InPhase, AllPhased, idle-eq}
use migration_manager.Queue.Phases.Operations.{update_status-Keeps}
use migration_manager.Queue.WorkerCommand.{
  Plan, issue, hold, stay, sync_plan, window_plan, try_next_window, record_in, record_imports,
  carry_out, make_plan, start_command, next_command, restart_command, new_worker_command, or_failed,
  gets,
}
use migration_manager.Queue.WorkerCommand.Decision.{
  command_for, sync_plan-InPhase, window_plan-InPhase,
}

get_next_window-Keeps : (env : Env) (q : QueueEntry) → Keeps AllPhased (get_next_window env q)
unfolding get_next_window
get_next_window-Keeps env q = search keeps_rules depth 8

try_next_window-Keeps : (env : Env) (q : QueueEntry) → Keeps AllPhased (try_next_window env q)
unfolding try_next_window
try_next_window-Keeps env q = record {
  run = λ w p. go w ((get_next_window-Keeps env q).run w p) (get_next_window env q w).0 refl;
}
  where
    go :
        (w : World)
        → AllPhased (get_next_window env q w).1.db
        → (r : Result Window) → (get_next_window env q w).0 ≡ r
        → AllPhased (try_next_window env q w).1.db
    go w p (ok v) e = rw (e, try_next_window) p
    go w p (err x) e = elim (Bool-cases (is_http_not_found x)) [
      | inl y ↦ rw (e, try_next_window) (rw y p)
      | inr n ↦ rw (e, try_next_window) (rw n p)
    ]

record_in-Keeps :
    (i : Instance) (q : QueueEntry) (b : Batch) (s : MigrationStatus)
    → Keeps AllPhased (record_in i q b s)
unfolding record_in record_imports
record_in-Keeps i q b s = record { run = λ w p. p }

-- A plan whose status fits its stage and its command.
pub IsPlanned : Plan → Type 0
IsPlanned p =
    (c : WorkerCommandType) (s : MigrationStatus) (m : String) (t : ImportStage) (n : Option String)
    → p ≡ issue c s m t n
    → InPhase s t × (c ≡ command_for s)

make_plan-IsPlanned :
    (env : Env) (i : Instance) (q : QueueEntry) (b : Batch) (x y z : Bool)
    → q.migration_status ≡ idle
    → (w : World) (p : Plan) → (make_plan env i q b x y z w).0 ≡ ok p
    → IsPlanned p
unfolding make_plan IsPlanned ◌>>=◌ pure
make_plan-IsPlanned env i q b x y z was_idle w p h c s m t n e =
    elim (Option-cases (sync_plan q i x y z)) [
      | inr (r, f) ↦
          let same : r ≡ p = ground arith in
          sync_plan-InPhase q i x y z was_idle (rw same at f ∙ ap some e)
      | inl f ↦ elim (Result-cases (try_next_window env q w).0) [
        | inl (v, g) ↦
            let same : window_plan env q i b z v ≡ p = ground arith in
            window_plan-InPhase q i env b z v was_idle (same ∙ e)
        | inr (u, g) ↦ ground arith
      ]
    ]

idle-InPhase : (t : ImportStage) → InPhase idle t
idle-InPhase t = ground arith

carry_out-Keeps :
    (i : Instance) (q : QueueEntry) (b : Batch) (p : Plan)
    → q.migration_status ≡ idle
    → IsPlanned p
    → Keeps AllPhased (carry_out i q b p)
unfolding carry_out IsPlanned
carry_out-Keeps i q b stay was_idle h = search keeps_rules
carry_out-Keeps i q b (hold n) was_idle h =
    let fits : InPhase q.migration_status q.import_stage =
      rw was_idle (idle-InPhase q.import_stage) in
    search (keeps_rules, update_status-Keeps, fits) depth 10
carry_out-Keeps i q b (issue c s m t n) was_idle h =
    let fits = (h c s m t n refl).0 in
    search (keeps_rules, record_in-Keeps, update_status-Keeps, fits) depth 10

make_plan-Keeps :
    (env : Env) (i : Instance) (q : QueueEntry) (b : Batch) (x y z : Bool)
    → Keeps AllPhased (make_plan env i q b x y z)
unfolding make_plan
make_plan-Keeps env i q b x y z = elim (Option-cases (sync_plan q i x y z)) [
  | inr (p, f) ↦ rw (f, make_plan) (search keeps_rules)
  | inl f ↦ rw (f, make_plan) (search (keeps_rules, try_next_window-Keeps) depth 8)
]

planned-Keeps :
    (env : Env) (i : Instance) (q : QueueEntry) (b : Batch) (x y z : Bool)
    → q.migration_status ≡ idle
    → Keeps AllPhased (make_plan env i q b x y z >>= (λ p. carry_out i q b p))
planned-Keeps env i q b x y z was_idle =
    bind_post-Keeps IsPlanned (make_plan env i q b x y z) (λ p. carry_out i q b p)
      (make_plan-IsPlanned env i q b x y z was_idle) (make_plan-Keeps env i q b x y z)
      (λ p h. carry_out-Keeps i q b p was_idle h)

or_failed-Keeps : {A : Type 0} (o : Option A) → Keeps AllPhased (or_failed o)
unfolding or_failed
or_failed-Keeps none = search keeps_rules
or_failed-Keeps (some a) = search keeps_rules

gets-Keeps : {A : Type 0} (f : World → A) → Keeps AllPhased (gets f)
unfolding gets
gets-Keeps f = record { run = λ w p. p }

start_command-Keeps :
    (env : Env) (i : Instance) (q : QueueEntry) (s : Source)
    → q.migration_status ≡ idle
    → Keeps AllPhased (start_command env i q s)
unfolding start_command
start_command-Keeps env i q s was_idle =
    search (keeps_rules, or_failed-Keeps, gets-Keeps, planned-Keeps) depth 20

next_command-Keeps :
    (env : Env) (i : Instance) (q : QueueEntry) (s : Source)
    → Keeps AllPhased (next_command env i q s)
unfolding next_command
next_command-Keeps env i q s = elim (Bool-cases (status_eq q.migration_status idle)) [
  | inl e ↦ rw e (start_command-Keeps env i q s (idle-eq q.migration_status e))
  | inr e ↦ rw e (lift-Keeps (restart_command q))
]

-- The next worker command keeps the phases.
pub new_worker_command-Keeps :
    (env : Env) (default : String) (id : ℕ) → Keeps AllPhased (new_worker_command env default id)
unfolding new_worker_command
new_worker_command-Keeps env default id = search (keeps_rules, next_command-Keeps) depth 20

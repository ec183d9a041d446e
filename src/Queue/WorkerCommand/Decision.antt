-- ===== src/Queue/WorkerCommand/Decision.antt =====
-- queue_service.go: what the decision on the next worker command may be.
use migration_manager.Prelude.{◌≡◌, refl, ◌⊎◌, Bool, true, false, String, Option, none, some, arith}
use migration_manager.Env.{Env}
use migration_manager.Api.Status.{
  MigrationStatus, idle, background_import, final_import, post_import, ImportStage, complete,
  WorkerCommandType, idle_command, import_disks, finalize_import, post_import_command,
  unknown_command,
}
use migration_manager.Api.Types.{QueueEntry, Window, Batch, Instance}
use migration_manager.Window.{begun, is_empty_window}
use migration_manager.Queue.Phases.{InPhase}
use migration_manager.Queue.WorkerCommand.{issue, window_plan, sync_plan}

-- The command that a worker works on while its entry has the status.
abbrev pub command_for : MigrationStatus → WorkerCommandType
command_for idle = idle_command
command_for background_import = import_disks
command_for final_import = finalize_import
command_for post_import = post_import_command
command_for _ = unknown_command

module _ (q : QueueEntry) (i : Instance) {c : WorkerCommandType} {s : MigrationStatus} {m : String}
    {t : ImportStage} {n : Option String} where
  pub sync_plan-InPhase :
      (source target batch : Bool)
      → q.migration_status ≡ idle
      → sync_plan q i source target batch ≡ some (issue c s m t n)
      → InPhase s t × (c ≡ command_for s)
  unfolding sync_plan
  sync_plan-InPhase source target batch was_idle h = (ground arith, ground arith)

  pub window_plan-InPhase :
      (env : Env) (b : Batch) (batch : Bool) (w : Option Window)
      → q.migration_status ≡ idle
      → window_plan env q i b batch w ≡ issue c s m t n
      → InPhase s t × (c ≡ command_for s)
  unfolding window_plan
  window_plan-InPhase env b batch w was_idle h = (ground arith, ground arith)

-- The final import, and the tasks after it, are only planned in a window that has begun, and those
-- tasks only once the import is complete. The window is assigned to the entry, unless it is empty.
pub window_plan-begun :
    (env : Env) (q : QueueEntry) (i : Instance) (b : Batch) (batch : Bool) (w : Option Window)
    (c : WorkerCommandType) (s : MigrationStatus) (m : String) (t : ImportStage) (n : Option String)
    → window_plan env q i b batch w ≡ issue c s m t n
    → (c ≡ finalize_import) ⊎ (c ≡ post_import_command)
    → (v : Window) × (w ≡ some v)
      × (begun env v ≡ true)
      × (is_empty_window v ≡ false → n ≡ some v.name)
      × (c ≡ post_import_command → q.import_stage ≡ complete)
unfolding window_plan
window_plan-begun env q i b batch none c s m t n h k = ground arith
window_plan-begun env q i b batch (some v) c s m t n h k =
    (v, refl, ground arith, ground arith, ground arith)

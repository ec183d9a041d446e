-- ===== src/Queue/Phases.antt =====
-- queue_model.go: how the status and the import stage of a queue entry go together, and how the
-- predicates on its phase do. Phases/Operations has the operations that keep this.
pub mod Operations
pub mod Commands
pub mod Starts
pub mod Finish
pub mod Reach
use migration_manager.Prelude.{true, false, ◌≡◌, ◌≢◌, arith, ◌↔◌, ◌⊎◌}
use migration_manager.Prelude.Table.{All}
use migration_manager.Prelude.Int.{ℤ}
use migration_manager.Api.Status.{
  MigrationStatus, idle, background_import, final_import, post_import, worker_done, status_eq,
  ImportStage, background, complete, stage_eq,
}
use migration_manager.Api.Types.{QueueEntry}
use migration_manager.Store.{Db}
use migration_manager.Store.Repo.{link_window}
use migration_manager.Queue.{is_committed, is_migrating, status_before_placement}

-- A background import is done in the background stage, the final import before the stage is complete,
-- and what follows it after.
pub record InPhase (s : MigrationStatus) (t : ImportStage) : Type 0 where
  pub syncing : s ≡ background_import → t ≡ background
  pub finalizing : s ≡ final_import → t ≢ complete
  pub after_import : s ≡ post_import → t ≡ complete
  pub done : s ≡ worker_done → t ≡ complete

abbrev pub IsPhased : QueueEntry → Type 0
IsPhased q = InPhase q.migration_status q.import_stage

abbrev pub AllPhased : Db → Type 0
AllPhased d = All IsPhased d.queue

pub link-IsPhased :
    (q : QueueEntry) (i : ℤ) (d : Db) → IsPhased q → IsPhased (record (link_window d q) { id = i })
link-IsPhased q i d h = h

pub idle-eq : (s : MigrationStatus) → status_eq s idle ≡ true → s ≡ idle
idle-eq s h = ground arith

pub background-eq : (s : ImportStage) → stage_eq s background ≡ true → s ≡ background
background-eq s h = ground arith

pub complete-eq : (s : ImportStage) → stage_eq s complete ≡ true → s ≡ complete
complete-eq s h = ground arith

pub complete-ne : (s : ImportStage) → stage_eq s complete ≡ false → s ≢ complete
complete-ne s h e = cc (rw e at h)

-- An entry without a final placement is never past the point of no return. Of the entries in the
-- migration phase, those are past it that are in the final import, or later, or idle after it.
pub committed_phases :
    (q : QueueEntry)
    → (status_before_placement q ≡ true → is_committed q ≡ false)
      × (is_migrating q ≡ true
          → (is_committed q ≡ true) ↔ (
              (q.migration_status ≡ final_import)
              ⊎ (q.migration_status ≡ post_import)
              ⊎ (q.migration_status ≡ worker_done)
              ⊎ (q.migration_status ≡ idle) × (q.import_stage ≡ complete)))
unfolding status_before_placement is_committed is_migrating
committed_phases q = (ground arith, λ m. (λ h. ground arith, λ h. ground arith))

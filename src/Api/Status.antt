-- ===== src/Api/Status.antt =====
-- The string-typed states of shared/api/queue.go, batch.go and worker.go. A Go string of such a type
-- that is none of the declared constants is `other`, so validation has something to refuse.
use migration_manager.Prelude.{ℕ, String, str_eq, Bool, true, false, ◌&&◌, ◌==◌}

-- `MigrationStatusType`.
pub data MigrationStatus : Type 0 where
  blocked waiting waiting_import creating background_import idle : MigrationStatus
  final_import post_import worker_done finished error canceled conflict : MigrationStatus
  other : String → MigrationStatus

-- `MigrationStatusType.Validate` returns no error.
unfoldable pub is_migration_status : MigrationStatus → Bool
is_migration_status canceled = true
is_migration_status background_import = true
is_migration_status blocked = true
is_migration_status waiting = true
is_migration_status waiting_import = true
is_migration_status creating = true
is_migration_status error = true
is_migration_status final_import = true
is_migration_status post_import = true
is_migration_status finished = true
is_migration_status idle = true
is_migration_status worker_done = true
is_migration_status conflict = true
is_migration_status (other _) = false

-- The text of a status, as it stands in the database and in status messages.
unfoldable pub status_text : MigrationStatus → String
status_text blocked = "Blocked"
status_text waiting = "Waiting"
status_text waiting_import = "Waiting for other instances to finish importing"
status_text creating = "Creating new VM"
status_text background_import = "Performing background import tasks"
status_text idle = "Idle"
status_text final_import = "Performing final import tasks"
status_text post_import = "Performing post-import tasks"
status_text worker_done = "Worker tasks complete"
status_text finished = "Finished"
status_text error = "Error"
status_text canceled = "Canceled"
status_text conflict = "Conflict"
status_text (other s) = s

abbrev status_tag : MigrationStatus → ℕ
status_tag blocked = 0
status_tag waiting = 1
status_tag waiting_import = 2
status_tag creating = 3
status_tag background_import = 4
status_tag idle = 5
status_tag final_import = 6
status_tag post_import = 7
status_tag worker_done = 8
status_tag finished = 9
status_tag error = 10
status_tag canceled = 11
status_tag conflict = 12
status_tag (other _) = 13

-- The texts of two statuses that are no declared constants.
abbrev status_rest : MigrationStatus → MigrationStatus → Bool
status_rest (other s) (other t) = str_eq s t
status_rest _ _ = true

-- `==` on statuses.
abbrev pub status_eq : MigrationStatus → MigrationStatus → Bool
status_eq a b = status_tag a == status_tag b && status_rest a b

-- `ImportStage` of internal/migration/queue_model.go.
pub data ImportStage : Type 0 where
  background final complete : ImportStage
  other_stage : String → ImportStage

-- `ImportStage.Validate` returns no error.
unfoldable pub is_import_stage : ImportStage → Bool
is_import_stage background = true
is_import_stage final = true
is_import_stage complete = true
is_import_stage (other_stage _) = false

abbrev stage_tag : ImportStage → ℕ
stage_tag background = 0
stage_tag final = 1
stage_tag complete = 2
stage_tag (other_stage _) = 3

abbrev stage_rest : ImportStage → ImportStage → Bool
stage_rest (other_stage s) (other_stage t) = str_eq s t
stage_rest _ _ = true

-- `==` on import stages.
abbrev pub stage_eq : ImportStage → ImportStage → Bool
stage_eq a b = stage_tag a == stage_tag b && stage_rest a b

-- `BatchStatusType`.
pub data BatchStatus : Type 0 where
  defined running stopped batch_finished batch_error : BatchStatus
  other_batch : String → BatchStatus

-- `BatchStatusType.Validate` returns no error.
unfoldable pub is_batch_status : BatchStatus → Bool
is_batch_status defined = true
is_batch_status batch_error = true
is_batch_status batch_finished = true
is_batch_status running = true
is_batch_status stopped = true
is_batch_status (other_batch _) = false

-- `== BATCHSTATUS_DEFINED` and the like.
abbrev pub is_defined : BatchStatus → Bool
is_defined defined = true
is_defined _ = false

abbrev pub is_running : BatchStatus → Bool
is_running running = true
is_running _ = false

abbrev pub is_batch_finished : BatchStatus → Bool
is_batch_finished batch_finished = true
is_batch_finished _ = false

abbrev pub is_batch_error : BatchStatus → Bool
is_batch_error batch_error = true
is_batch_error _ = false

-- `WorkerResponseType`; an `int` that is no declared constant is `other_response`.
pub data WorkerResponseType : Type 0 where
  unknown_response running_response success_response failed_response : WorkerResponseType
  other_response : ℕ → WorkerResponseType

abbrev pub is_running_response : WorkerResponseType → Bool
is_running_response running_response = true
is_running_response _ = false

-- `WorkerCommandType`.
pub data WorkerCommandType : Type 0 where
  unknown_command idle_command import_disks finalize_import post_import_command : WorkerCommandType

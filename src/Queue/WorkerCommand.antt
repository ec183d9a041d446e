-- ===== src/Queue/WorkerCommand.antt =====
-- queue_service.go, NewWorkerCommandByInstanceUUID: what the worker of an instance is told to do next.
-- The decisions are functions of what has been read; `start_command` reads, decides and records.
pub mod Decision
pub mod Limits
use migration_manager.Prelude.{
  ℕ, ◌+◌, String, str_eq, Bool, true, false, not, ◌&&◌, ◌||◌, if◌then◌else◌, leb, ltb, ◌==◌, Option,
  none, some,
}
use migration_manager.Prelude.Int.{ℤ, pos, pos_part, neg_part, ltb_ℤ, leb_ℤ}
use migration_manager.Errors.{Result, ok, err, failed, not_permitted, is_http_not_found}
use migration_manager.Env.{Env}
use migration_manager.Api.Status.{
  MigrationStatus, idle, background_import, final_import, post_import, waiting_import, status_eq,
  status_text, ImportStage, background, final, complete, stage_eq, is_running_response,
  WorkerCommandType, idle_command, import_disks, finalize_import, post_import_command,
}
use migration_manager.Api.Types.{QueueEntry, Window, Batch, Instance, Source, Target, WorkerCommand}
use migration_manager.Instance.{apply, get_architecture, supports_background_import}
use migration_manager.Instance.Os.{get_os_type, get_distribution}
use migration_manager.Window.{begun, is_empty_window}
use migration_manager.Cache.Counters.{get_cached_imports, record_active_import}
use migration_manager.Store.{Db, World, M, ◌>>=◌, ◌>>◌, pure, raise, raise_if, lift, query, when}
use migration_manager.Store.Transaction.{do_tx}
use migration_manager.Store.Repo.{get_queue_entry, get_instance, get_source, get_target}
use migration_manager.Queue.NextWindow.{get_batch_by_name, get_next_window}
use migration_manager.Queue.Operations.{update_status}

-- What a command changes: the command, and the entry's new status, message, stage and window; or
-- the worker is left idle and, if it has just connected, the message says that it waits.
pub data Plan : Type 0 where
  issue : WorkerCommandType → MigrationStatus → String → ImportStage → Option String → Plan
  hold : Option String → Plan
  stay : Plan

-- The reply to a worker that reports that it still runs, after a restart.
unfoldable pub restart_command : QueueEntry → Result WorkerCommandType
restart_command q = elim q.migration_status [
  | background_import ↦ ok import_disks
  | final_import ↦ ok finalize_import
  | post_import ↦ ok post_import_command
  | _ ↦ err (not_permitted "Unable to restart worker for instance")
]

-- `limit > 0 && limit <= running`.
abbrev pub limit_reached : ℤ → ℤ → Bool
limit_reached limit running = ltb_ℤ (pos 0) limit && leb_ℤ limit running

-- `queueEntry.ImportStage == IMPORTSTAGE_BACKGROUND && …SupportsBackgroundImport()`.
abbrev pub should_background_sync : QueueEntry → Instance → Bool
should_background_sync q i =
    stage_eq q.import_stage background && supports_background_import i.properties

-- Whether the background sync is due again before the window begins. `Time.Sub` stops at the largest
-- duration, which changes none of these comparisons.
unfoldable pub resync_due : Env → QueueEntry → Batch → Option Window → Bool
resync_due env q b window =
    let i = b.config.background_sync_interval in
    let limit = b.config.final_background_sync_limit in
    let last = q.last_background_sync in
    (leb (last + pos_part i) (env.now + neg_part i)
      && elim window [ none ↦ true | some w ↦ ltb (env.now + pos_part i) (w.start + neg_part i) ])
    || elim window [
      | none ↦ false
      | some w ↦
          ltb (w.start + neg_part i) (last + pos_part i)
          && leb (env.now + pos_part limit) (w.start + neg_part limit)
    ]

-- The last part of the decision: the final import and what comes after it wait for the window.
unfoldable pub window_plan : Env → QueueEntry → Instance → Batch → Bool → Option Window → Plan
unfolding resync_due
window_plan env q i b batch_reached window =
    if elim window [ none ↦ false | some w ↦ begun env w ]
    then (let name : Option String = elim window [
      | none ↦ q.migration_window_name
      | some w ↦ if is_empty_window w then q.migration_window_name else some w.name
    ] in
        if stage_eq q.import_stage complete
        then issue post_import_command post_import (status_text post_import) q.import_stage name
        else issue finalize_import final_import (status_text final_import) q.import_stage name)
    else if not (stage_eq q.import_stage final)
        || not (supports_background_import i.properties)
        || (q.last_background_sync == 0)
    then hold q.migration_window_name
    else if batch_reached
    then issue idle_command q.migration_status (status_text waiting_import) q.import_stage
        q.migration_window_name
    else if resync_due env q b window
    then issue import_disks background_import (status_text background_import) background
        q.migration_window_name
    else stay

-- The first part: the import limits, and the first background sync. `none` leaves it to the window.
unfoldable pub sync_plan : QueueEntry → Instance → Bool → Bool → Bool → Option Plan
sync_plan q i source_reached target_reached batch_reached =
    if target_reached || source_reached || (should_background_sync q i && batch_reached)
    then some (
        issue idle_command q.migration_status (status_text waiting_import) q.import_stage
          q.migration_window_name)
    else if should_background_sync q i
    then some (
        issue import_disks background_import (status_text background_import) q.import_stage
          q.migration_window_name)
    else none

-- `GetNextWindow`, where not to find a window is no failure.
unfoldable pub try_next_window : Env → QueueEntry → M (Option Window)
try_next_window env q w =
    let (r, w') = get_next_window env q w in
    elim r [
      | ok v ↦ (ok (some v), w')
      | err e ↦ if is_http_not_found e then (ok none, w') else (err e, w')
    ]

-- The counters after a command: the source's and the target's for a status other than idle and
-- post-import, the batch's for a background import.
unfoldable pub record_imports : Instance → QueueEntry → Batch → MigrationStatus → World → World
record_imports i q b status w =
    let imports = not (status_eq status idle) && not (status_eq status post_import) in
    record w {
      source_imports =
          if imports then record_active_import i.source w.source_imports else w.source_imports;
      target_imports =
          if imports
          then record_active_import q.placement.target_name w.target_imports
          else w.target_imports;
      batch_imports =
          if status_eq status background_import
          then record_active_import b.name w.batch_imports
          else w.batch_imports;
    }

unfoldable pub record_in : Instance → QueueEntry → Batch → MigrationStatus → M (Unit {0})
record_in i q b status w = (ok tt, record_imports i q b status w)

-- Carries a plan out: the counters first, then the entry, if anything about it has changed.
unfoldable pub carry_out : Instance → QueueEntry → Batch → Plan → M WorkerCommandType
carry_out i q b stay = pure idle_command
carry_out i q b (hold name) = do
  when (str_eq q.migration_status_message "Waiting for worker to connect") (do
    update_status i.uuid q.migration_status "Waiting for migration window" q.import_stage name
    pure tt)
  pure idle_command
carry_out i q b (issue command status message stage name) = do
  record_in i q b status
  when
      (not (status_eq status q.migration_status)
        || not (str_eq message q.migration_status_message)
        || not (stage_eq stage q.import_stage))
      (do update_status i.uuid status message stage name; pure tt)
  pure command

-- JSON properties that do not parse are an error.
unfoldable pub or_failed : {A : Type 0} → Option A → M A
or_failed none = raise (failed "Failed to get properties")
or_failed (some a) = pure a

-- `sourceService.GetByName` and `targetService.GetByName`.
unfoldable pub get_source_by_name : String → Db → Result Source
get_source_by_name n d =
    if str_eq n "" then err (not_permitted "Source name cannot be empty") else get_source n d

unfoldable pub get_target_by_name : String → Db → Result Target
get_target_by_name n d =
    if str_eq n "" then err (not_permitted "Target name cannot be empty") else get_target n d

-- A counter of the world.
unfoldable pub gets : {A : Type 0} → (World → A) → M A
gets f w = (ok (f w), w)

-- The plan for an idle entry.
unfoldable pub make_plan : Env → Instance → QueueEntry → Batch → Bool → Bool → Bool → M Plan
make_plan env i q b source_reached target_reached batch_reached =
    elim (sync_plan q i source_reached target_reached batch_reached) [
      | some p ↦ pure p
      | none ↦ do window ← try_next_window env q; pure (window_plan env q i b batch_reached window)
    ]

-- The command for an idle entry.
unfoldable pub start_command : Env → Instance → QueueEntry → Source → M WorkerCommandType
start_command env i q s = do
  source_limit ← or_failed (env.source_import_limit s.properties)
  t ← query (get_target_by_name q.placement.target_name)
  target_limit ← or_failed (env.target_import_limit t.properties)
  b ← query (get_batch_by_name q.batch_name)
  source_running ← gets (λ w. get_cached_imports s.name w.source_imports)
  target_running ← gets (λ w. get_cached_imports t.name w.target_imports)
  batch_running ← gets (λ w. get_cached_imports b.name w.batch_imports)
  p ←
      make_plan env i q b (limit_reached source_limit source_running)
        (limit_reached target_limit target_running)
        (limit_reached b.defaults.sync_limit batch_running)
  carry_out i q b p

-- The reply to the worker, before its command is known.
abbrev pub worker_command : String → Env → Instance → Source → WorkerCommandType → WorkerCommand
worker_command default env i s c = record {
  command = c;
  location = i.properties.location;
  source_type = s.source_type;
  source = s;
  distro = (get_distribution env i true).0;
  distro_version = (get_distribution env i true).1;
  os_type = get_os_type env i true;
  architecture = get_architecture default i;
}

-- An idle entry starts something; for another one the worker has been restarted.
unfoldable pub next_command : Env → Instance → QueueEntry → Source → M WorkerCommandType
next_command env i q s =
    if status_eq q.migration_status idle then start_command env i q s else lift (restart_command q)

-- The body of the transaction.
unfoldable pub new_command : Env → String → ℕ → M WorkerCommand
new_command env default id = do
  q ← query (get_queue_entry id)
  stored ← query (get_instance id)
  raise_if
      (not (status_eq q.migration_status idle) && not (is_running_response q.last_worker_status))
      (not_permitted "Instance isn't idle")
  s ← query (get_source_by_name stored.source)
  let i = record stored { properties = apply stored.overrides.configurable stored.properties }
  command ← next_command env i q s
  pure (worker_command default env i s command)

-- `NewWorkerCommandByInstanceUUID`. The lock makes the calls follow one another.
unfoldable pub new_worker_command : Env → String → ℕ → M WorkerCommand
unfolding new_command
new_worker_command env default id = do_tx (new_command env default id)

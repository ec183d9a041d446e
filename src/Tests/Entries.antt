-- ===== src/Tests/Entries.antt =====
-- The theorems on queue entries and commands at concrete entries.
use migration_manager.Prelude.{
  ◌≡◌, refl, ◌↔◌, ◌⊎◌, inl, true, false, List, [], ◌∷◌, none, some, arith,
}
use migration_manager.Prelude.Int.{pos, ◌≤ℤ◌}
use mathlib.Core.List.{Memᴰ}
use migration_manager.Prelude.Table.{All, count}
use migration_manager.Errors.{ok, err, not_found}
use migration_manager.Api.Status.{
  idle, blocked, final_import, post_import, worker_done, status_text, background, final, complete,
  import_disks, finalize_import, post_import_command, is_migration_status, canceled, status_eq,
  finished,
}
use migration_manager.Api.Types.{QueueEntry, Window}
use migration_manager.Instance.{supports_background_import}
use migration_manager.Window.{
  empty_window, begun, ended, is_empty_window, get_earliest, earliest_from, fits_duration, locked,
  validate,
}
use migration_manager.Cache.Counters.{get_cached_imports}
use migration_manager.Store
use migration_manager.Store.{World, query, lift, exec, raise_if, when, pure, ◌>>=◌, ◌>>◌}
use migration_manager.Store.Transaction.{do_tx, close_tx}
use migration_manager.Store.Repo.{
  get_queue_entry, get_instance, update_queue_entry, get_queue_by_batch_and_state,
  get_windows_by_batch, get_instances_by_uuids, get_batch, get_target, delete_queue_entry,
}
use migration_manager.Queue.{is_committed, is_migrating, status_before_placement}
use migration_manager.Queue.NextWindow.{
  Gathered, gather, choose, get_next_window, assigned_window, find_constraint, first_match,
  by_constraint, count_matches, windows_in_use, is_available, get_batch_by_name, get_all_queued,
}
use migration_manager.Queue.NextWindow.Limit.{takes_place}
use migration_manager.Queue.NextWindow.Choice.{
  get_next_window_sound, choose-within_limit, choose_at_capacity, IsOffered, IsUsable,
}
use migration_manager.Queue.WorkerUpdate.{respond, process, release_in, release_imports}
use migration_manager.Queue.WorkerUpdate.Laws.{respond-committed, post_import-releases}
use migration_manager.Queue.WorkerCommand.{
  issue, make_plan, sync_plan, window_plan, start_command, or_failed, gets, get_target_by_name,
  carry_out, record_in, record_imports,
}
use migration_manager.Queue.WorkerCommand.Decision.{window_plan-begun}
use migration_manager.Queue.WorkerCommand.Limits.{start_command-IsBelow, IsBelow}
use migration_manager.Queue.Phases.{AllPhased, InPhase, committed_phases}
use migration_manager.Queue.Phases.Reach.{
  Call, create, next_command, worker_update, cancel_entry, set_status, perform_all,
  perform_all-AllPhased,
}
use migration_manager.Queue.Operations.{update_status, delete_by_uuid, cancel, with_status}
use migration_manager.Queue.Operations.Outcome.{delete_by_uuid_outcome, cancel_outcome}
use migration_manager.Tests.{
  source_0, target_0, env_0, window_0, make_entry, make_batch, make_world, constraint_0, instance_0,
  success,
}

abbrev fresh : QueueEntry
fresh = make_entry 1 idle background none

abbrev synced : QueueEntry
synced = make_entry 1 idle final none

abbrev importing : QueueEntry
importing = make_entry 1 final_import final (some "night")

abbrev closing : QueueEntry
closing = make_entry 1 post_import complete (some "night")

abbrev world : World
world = make_world (synced ∷ []) (window_0 ∷ []) []

abbrev calls : List Call
calls =
    create fresh
    ∷ next_command env_0 "x86_64" 1
    ∷ worker_update 1001 1 success
    ∷ next_command env_0 "x86_64" 1
    ∷ cancel_entry 1
    ∷ set_status 1 blocked "Blocked" final none
    ∷ []

fresh-InPhase : InPhase idle background
fresh-InPhase = record {
  syncing = λ e. cc;
  finalizing = λ e. cc;
  after_import = λ e. cc;
  done = λ e. cc;
}

blocked-InPhase : InPhase blocked final
blocked-InPhase = ground arith

perform_all-AllPhased_example : AllPhased (perform_all calls (make_world [] (window_0 ∷ []) [])).db
perform_all-AllPhased_example =
    perform_all-AllPhased calls (make_world [] (window_0 ∷ []) [])
      (fresh-InPhase, (tt, (tt, (tt, (tt, (blocked-InPhase, tt)))))) tt

night-next : (get_next_window env_0 synced world).0 ≡ ok window_0
unfolding get_next_window do_tx close_tx query lift Store.◌>>=◌ gather choose assigned_window
    find_constraint first_match by_constraint get_batch_by_name get_batch get_all_queued
    get_queue_by_batch_and_state get_windows_by_batch get_instances_by_uuids windows_in_use
    get_earliest earliest_from fits_duration locked ended validate
night-next = refl

get_next_window_sound_example :
    ((get_next_window env_0 synced world).1.db ≡ world.db)
    × ((window_0 ≡ empty_window)
        ⊎ (IsOffered synced world.db window_0 × IsUsable env_0 synced window_0))
get_next_window_sound_example = get_next_window_sound env_0 synced world window_0 night-next

respond-committed_example : is_committed (respond 1001 success importing) ≡ true
unfolding is_committed
respond-committed_example = respond-committed 1001 success importing (λ e. cc) refl

committed_phases_example :
    (status_before_placement importing ≡ true → is_committed importing ≡ false)
    × (is_migrating importing ≡ true
        → (is_committed importing ≡ true) ↔ (
            (final_import ≡ final_import)
            ⊎ (final_import ≡ post_import)
            ⊎ (final_import ≡ worker_done)
            ⊎ (final_import ≡ idle) × (final ≡ complete)))
committed_phases_example = committed_phases importing

abbrev limited : Gathered
limited = record {
  entries = synced ∷ [];
  windows = window_0 ∷ [];
  instances = instance_0 ∷ [];
  batch = make_batch (constraint_0 ∷ []);
}

limited-unassigned : assigned_window env_0 synced limited.windows ≡ none
unfolding assigned_window
limited-unassigned = refl

limited-constraint :
    find_constraint env_0 synced limited.instances limited.batch ≡ ok (some constraint_0)
unfolding find_constraint first_match
limited-constraint = refl

limited-chosen : choose env_0 synced limited ≡ ok window_0
unfolding choose assigned_window find_constraint first_match by_constraint count_matches
    get_earliest earliest_from fits_duration locked ended validate
limited-chosen = refl

choose-within_limit_example :
    (pos (count (takes_place env_0 synced limited.entries "true") limited.instances) ≤ℤ pos 2)
    × (((limited.windows ≡ []) × (window_0 ≡ empty_window))
        ⊎ (Memᴰ window_0 limited.windows
            × (fits_duration env_0 constraint_0.min_instance_boot_time window_0 ≡ true)))
choose-within_limit_example =
    choose-within_limit env_0 synced limited constraint_0 window_0 limited-unassigned
      limited-constraint limited-chosen (λ e. cc) (refl, tt)

-- Another entry has taken the only place of the window.
abbrev full : World
full = make_world (synced ∷ make_entry 2 final_import final (some "night") ∷ []) (window_0 ∷ []) []

abbrev full_gathered : Gathered
full_gathered = record {
  entries = full.db.queue;
  windows = [];
  instances = instance_0 ∷ [];
  batch = make_batch [];
}

full-gather : gather synced full.db ≡ ok full_gathered
unfolding gather get_batch_by_name get_batch get_all_queued get_queue_by_batch_and_state
    get_windows_by_batch get_instances_by_uuids windows_in_use
full-gather = refl

full-windows :
    All (λ w. is_available synced full.db.queue w ≡ false) (get_windows_by_batch "batch" full.db)
unfolding get_windows_by_batch windows_in_use
full-windows = (refl, tt)

full-unlimited : find_constraint env_0 synced full_gathered.instances full_gathered.batch ≡ ok none
unfolding find_constraint first_match
full-unlimited = refl

choose_at_capacity_example :
    (choose env_0 synced full_gathered ≡ ok empty_window) × (begun env_0 empty_window ≡ true)
choose_at_capacity_example =
    choose_at_capacity env_0 synced full.db full_gathered full-gather full-windows full-unlimited

abbrev ending : World
ending = make_world (closing ∷ []) (window_0 ∷ []) []

ending-entry : get_queue_entry 1 ending.db ≡ ok closing
unfolding get_queue_entry
ending-entry = refl

ending-instance : get_instance 1 ending.db ≡ ok instance_0
unfolding get_instance
ending-instance = refl

ending-imports : get_cached_imports "source" ending.source_imports ≡ pos 1
unfolding get_cached_imports
ending-imports = refl

ending-processed : (process 1001 1 success ending).0 ≡ ok (respond 1001 success closing)
unfolding process release_in release_imports ◌>>=◌ ◌>>◌ query raise_if when exec pure is_migrating
    get_queue_entry get_instance update_queue_entry respond
ending-processed = refl

closing-done : (respond 1001 success closing).migration_status ≡ worker_done
unfolding respond
closing-done = refl

post_import-releases_example :
    (get_cached_imports "source" (process 1001 1 success ending).1.source_imports ≡ pos 0)
    × ((respond 1001 success closing).migration_status ≡ worker_done)
    × ((record_imports instance_0 closing (make_batch []) post_import ending).source_imports
        ≡ ending.source_imports)
post_import-releases_example =
    post_import-releases 1001 1 success ending ending closing (respond 1001 success closing)
      instance_0 (make_batch []) 0 refl ending-entry refl ending-instance ending-imports
      (omega arith) ending-processed

-- The instance has been synchronised, and its window is open.
final_plan :
    window_plan env_0 synced instance_0 (make_batch []) false (some window_0)
    ≡ issue finalize_import final_import (status_text final_import) final (some "night")
unfolding window_plan begun is_empty_window
final_plan = refl

window_plan-begun_example :
    (v : Window) × (some window_0 ≡ some v)
    × (begun env_0 v ≡ true)
    × (is_empty_window v ≡ false → some "night" ≡ some v.name)
    × (finalize_import ≡ post_import_command → final ≡ complete)
window_plan-begun_example =
    window_plan-begun env_0 synced instance_0 (make_batch []) false (some window_0) finalize_import
      final_import (status_text final_import) final (some "night") final_plan (inl refl)

abbrev starting : World
starting = make_world (fresh ∷ []) (window_0 ∷ []) []

starting-target : get_target_by_name "target" starting.db ≡ ok target_0
unfolding get_target_by_name get_target
starting-target = refl

starting-batch : get_batch_by_name "batch" starting.db ≡ ok (make_batch [])
unfolding get_batch_by_name get_batch
starting-batch = refl

-- One import runs where two may, and the next command is to import the disks.
starting-command : (start_command env_0 instance_0 fresh source_0 starting).0 ≡ ok import_disks
unfolding start_command or_failed gets query pure ◌>>=◌ ◌>>◌ get_target_by_name get_target
    get_batch_by_name get_batch make_plan sync_plan supports_background_import carry_out record_in
    record_imports when exec raise_if update_status do_tx close_tx get_queue_entry
    update_queue_entry is_migration_status get_cached_imports
starting-command = refl

start_command-IsBelow_example :
    IsBelow (pos 2) (get_cached_imports "source" starting.source_imports)
    × IsBelow (pos 2) (get_cached_imports "target" starting.target_imports)
    × (import_disks ≡ import_disks
        → IsBelow (pos 0) (get_cached_imports "batch" starting.batch_imports))
start_command-IsBelow_example =
    start_command-IsBelow env_0 instance_0 fresh source_0 target_0 (make_batch []) starting (pos 2)
      (pos 2) import_disks refl starting-target refl starting-batch starting-command (inl refl)

-- An entry that has been canceled may be deleted.
abbrev canceled_world : World
canceled_world = make_world (make_entry 1 canceled background none ∷ []) (window_0 ∷ []) []

canceled-deleted : (delete_by_uuid 1 canceled_world).0 ≡ ok tt
unfolding delete_by_uuid do_tx close_tx query raise_if exec ◌>>=◌ ◌>>◌ get_queue_entry
    delete_queue_entry is_migrating
canceled-deleted = refl

delete_by_uuid_outcome_example :
    (q : QueueEntry) × (get_queue_entry 1 canceled_world.db ≡ ok q)
    × (is_migrating q ≡ false)
    × (get_queue_entry 1 (delete_by_uuid 1 canceled_world).1.db ≡ err not_found)
delete_by_uuid_outcome_example = delete_by_uuid_outcome 1 canceled_world refl canceled-deleted

abbrev closing_world : World
closing_world = make_world (closing ∷ []) (window_0 ∷ []) []

abbrev closing_canceled : QueueEntry
closing_canceled = with_status canceled "" background none closing

closing-canceled : (cancel 1 closing_world).0 ≡ ok (closing_canceled, true)
unfolding cancel update_status do_tx close_tx query raise_if exec pure ◌>>=◌ ◌>>◌ get_queue_entry
    update_queue_entry is_migration_status is_committed
closing-canceled = refl

cancel_outcome_example :
    (q e : QueueEntry) × (get_queue_entry 1 closing_world.db ≡ ok q)
    × (status_eq q.migration_status finished ≡ false)
    × (true ≡ is_committed q)
    × (get_queue_entry 1 (cancel 1 closing_world).1.db ≡ ok e)
    × (e.migration_status ≡ canceled)
    × (e.import_stage ≡ background)
    × (e.migration_window_name ≡ none)
cancel_outcome_example = cancel_outcome 1 closing_world closing_canceled true refl closing-canceled

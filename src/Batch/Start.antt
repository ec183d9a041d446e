-- ===== src/Batch/Start.antt =====
-- batch_service.go, `StartBatchByName`, and the initial checks of an instance, which `RetryByUUID` of
-- queue_service.go repeats: every instance of the batch that is in no queue gets an entry.
pub mod Entries
use migration_manager.Prelude.{
  String, str_eq, Bool, not, ◌&&◌, if◌then◌else◌, List, [], ◌∷◌, Option, none, some, is_empty,
}
use migration_manager.Prelude.Int.{pos}
use migration_manager.Prelude.Table.{filter, any}
use migration_manager.Errors.{ok, failed, not_permitted}
use migration_manager.Env.{Env}
use migration_manager.Api.Status.{
  MigrationStatus, waiting, blocked, conflict, background, unknown_response, running,
}
use migration_manager.Api.Types.{Batch, Instance, Network, Placement, QueueEntry, Window}
use migration_manager.Instance.{DisabledReason, disabled_reason, disabled_message}
use migration_manager.Window.{has_valid_window}
use migration_manager.Network.{filter_used_networks}
use migration_manager.Store.{M, ◌>>=◌, ◌>>◌, pure, raise_if, lift, query, exec}
use migration_manager.Store.Transaction.{do_tx}
use migration_manager.Store.Repo.{
  has_uuid, update_batch, get_instances_by_batch, get_windows_by_batch, get_all_networks,
  get_all_queue,
}
use migration_manager.Queue.NextWindow.{get_batch_by_name, matches_criteria}
use migration_manager.Queue.Operations.{create_entry}
use migration_manager.Batch.{can_start}
use migration_manager.Batch.Placement.{determine_placement}

-- The status and its message after the initial checks: an instance with a reason against it is blocked.
abbrev pub check_status : Option DisabledReason → MigrationStatus × String
check_status none = (waiting, "Performing initial migration checks")
check_status (some r) = (blocked, disabled_message r)

abbrev pub checked : Env → Batch → Instance → MigrationStatus × String
checked env b i = check_status (disabled_reason env i b.config.restriction_overrides)

-- The status and its message, where `match` says that the instance matches the batch's expression.
abbrev pub initial_status : Env → Batch → Instance → Bool → MigrationStatus × String
initial_status env b i match =
    if not match && not b.defaults.force_conflict_resolution
    then (conflict, "Instance no longer matches batch expression")
    else checked env b i

abbrev pub new_entry : Env → Batch → String → Instance → Placement → Bool → QueueEntry
new_entry env b name i p match =
    let (status, message) = initial_status env b i match in
    record {
      id = pos 0;
      instance_uuid = i.uuid;
      batch_name = name;
      secret_token = env.random_uuid i.uuid;
      import_stage = background;
      migration_status = status;
      migration_status_message = message;
      last_worker_status = unknown_response;
      last_background_sync = 0;
      migration_window_name = none;
      placement = p;
    }

-- One round of the loop over the instances.
unfoldable pub queue_instance :
    Env → Batch → String → List Network → List Window → Instance → M QueueEntry
queue_instance env b name nets ws i = do
  p ← lift (determine_placement env i (filter_used_networks nets (i ∷ [])) b ws)
  match ← lift (matches_criteria env i b.include_expression)
  create_entry (new_entry env b name i p match)

unfoldable pub queue_instances :
    Env → Batch → String → List Network → List Window → List Instance → M (Unit {0})
queue_instances env b name nets ws [] = pure tt
queue_instances env b name nets ws (i ∷ is) = do
  queue_instance env b name nets ws i
  queue_instances env b name nets ws is

-- The instances of the batch without a queue entry.
abbrev pub unqueued : List QueueEntry → List Instance → List Instance
unqueued qs is = filter (λ (i : Instance). not (any (has_uuid i.uuid) qs)) is

abbrev pub started : Env → Batch → Batch
started env b = record b { start_date = env.now; status = running; status_message = "Running" }

-- `StartBatchByName`. The loop goes through a Go map: `order` is the order it happens to take.
unfoldable pub start : Env → (List Instance → List Instance) → String → M Batch
start env order name = do
  raise_if (str_eq name "") (not_permitted "Batch name cannot be empty")
  do_tx (do
    b ← query (get_batch_by_name name)
    raise_if (not (can_start b)) (not_permitted "Cannot start batch in its current state")
    ws ← query (λ d. ok (get_windows_by_batch name d))
    lift (has_valid_window env ws)
    nets ← query (λ d. ok (get_all_networks d))
    qs ← query (λ d. ok (get_all_queue d))
    is ← query (λ d. ok (get_instances_by_batch b.name d))
    raise_if (is_empty (unqueued qs is)) (failed "Cannot start batch with no instances")
    queue_instances env b name nets ws (order (unqueued qs is))
    exec (update_batch b.name (started env b))
    pure (started env b))

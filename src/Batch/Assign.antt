-- ===== src/Batch/Assign.antt =====
-- batch_service.go: which instances a batch has, and the operations that create, update and delete a
-- batch.
pub mod Matching
use migration_manager.Prelude.{
  ℕ, ◌==◌, String, str_eq, Bool, not, ◌&&◌, ◌||◌, if◌then◌else◌, List, [], ◌∷◌,
}
use migration_manager.Prelude.Int.{pos}
use migration_manager.Prelude.Table.{any}
use migration_manager.Errors.{Result, ok, err, failed, not_permitted, not_found}
use migration_manager.Env.{Env}
use migration_manager.Api.Status.{defined, is_defined, is_running}
use migration_manager.Api.Types.{Batch, Instance}
use migration_manager.Store.{World, M, ◌>>=◌, ◌>>◌, pure, raise_if, lift, query, exec, when}
use migration_manager.Store.Transaction.{do_tx}
use migration_manager.Store.Repo.{
  get_batch, get_instances_by_batch, update_batch, create_batch, delete_batch, assign_batch,
  unassign_batch,
}
use migration_manager.Queue.NextWindow.{matches_criteria}
use migration_manager.Instance.Service.{remove_from_queue}
use migration_manager.Batch.{validate}
use migration_manager.Batch.Running.{can_update_running}

-- The loop over the instances of the batch: those that no longer match leave it. The result is
-- `assignedInstances`.
unfoldable pub keep_matching : Env → Batch → List Instance → M (List ℕ)
keep_matching env b [] = pure []
keep_matching env b (i ∷ is) = do
  match ← lift (matches_criteria env i b.include_expression)
  when (not match) (exec (unassign_batch b.name i.uuid))
  rest ← keep_matching env b is
  pure (if match then i.uuid ∷ rest else rest)

-- The loop over all instances: those that match and are not in the batch join it.
unfoldable pub add_matching : Env → Batch → List ℕ → List Instance → M (Unit {0})
add_matching env b kept [] = pure tt
add_matching env b kept (i ∷ is) = do
  match ← lift (matches_criteria env i b.include_expression)
  when (match && not (any (λ id. id == i.uuid) kept)) (exec (assign_batch b.name i.uuid))
  add_matching env b kept is

-- `if err != nil && !errors.Is(err, ErrNotFound) { return err }`.
abbrev forgive : Result (Unit {0}) × World → Result (Unit {0}) × World
forgive (err not_found, w) = (ok tt, w)
forgive r = r

unfoldable pub unqueue_all : List Instance → M (Unit {0})
unqueue_all [] = pure tt
unqueue_all (i ∷ is) = (λ w. forgive (remove_from_queue i.uuid w)) >> unqueue_all is

-- `UpdateInstancesAssignedToBatch`.
unfoldable pub update_instances_assigned : Env → Batch → M (Unit {0})
update_instances_assigned env b = do
  raise_if (not (is_defined b.status))
      (not_permitted "Cannot update batch: Currently in a migration phase")
  do_tx (do
    own ← query (λ d. ok (get_instances_by_batch b.name d))
    kept ← keep_matching env b own
    all ← query (λ d. ok d.instances)
    add_matching env b kept all
    when env.testing_mode (unqueue_all all))

-- `scriptlet.BatchPlacementSet`, after the transaction.
abbrev load_scriptlet : Env → Batch → M (Unit {0})
load_scriptlet env b =
    raise_if (not (env.loads_scriptlet b.config.placement_scriptlet b.name))
      (failed "Failed to load placement scriptlet")

-- `Create`.
unfoldable pub create : Env → Batch → M Batch
create env b = do
  lift (validate env b)
  new ← do_tx (do
    n ← query (λ d. ok d.next_id)
    exec (create_batch b)
    update_instances_assigned env (record b { id = pos n })
    pure (record b { id = pos n }))
  when (not (str_eq b.config.placement_scriptlet "")) (load_scriptlet env b)
  pure new

-- In testing mode an updated batch starts afresh.
abbrev pub refreshed : Env → Batch → Batch
refreshed env b =
    if env.testing_mode
    then record b { status = defined; status_message = "Defined"; start_date = 0 }
    else b

-- Whether the update may change what the batch has: it is defined, or this is a test.
abbrev pub is_open : Env → Batch → Bool
is_open env old = is_defined old.status || env.testing_mode

-- The body of the transaction of `Update`, after the old batch is read; it says whether the script
-- is a new one.
unfoldable pub update_found : Env → String → Batch → Batch → M Bool
update_found env name b old = do
  when (not (is_open env old)) (query (can_update_running env b old))
  exec (update_batch name b)
  when (is_open env old) (update_instances_assigned env b)
  pure (
      is_open env old
      && not (str_eq old.config.placement_scriptlet b.config.placement_scriptlet)
      && not (str_eq b.config.placement_scriptlet ""))

-- `Update`.
unfoldable pub update : Env → String → Batch → M (Unit {0})
update env name b = do
  lift (validate env (refreshed env b))
  load ← do_tx (do old ← query (get_batch name); update_found env name (refreshed env b) old)
  when load (load_scriptlet env (refreshed env b))

unfoldable pub unassign_all : String → List Instance → M (Unit {0})
unassign_all name [] = pure tt
unassign_all name (i ∷ is) = exec (unassign_batch name i.uuid) >> unassign_all name is

-- `DeleteByName`.
unfoldable pub delete_by_name : String → M (Unit {0})
delete_by_name name = do
  raise_if (str_eq name "") (not_permitted "Batch name cannot be empty")
  do_tx (do
    old ← query (get_batch name)
    raise_if (is_running old.status)
        (not_permitted "Cannot delete batch: Currently in a migration phase")
    own ← query (λ d. ok (get_instances_by_batch old.name d))
    unassign_all name own
    exec (delete_batch name))

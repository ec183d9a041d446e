-- ===== src/Tests/Batches.antt =====
-- The theorems on batches at a concrete batch.
use migration_manager.Store
use migration_manager.Store.Repo
use migration_manager.Prelude.{◌≡◌, refl, true, [], ◌∷◌, none, some}
use migration_manager.Prelude.Table.{any, remove, All}
use mathlib.Core.List.{Memᴰ}
use migration_manager.Batch.Assign.{update_instances_assigned}
use migration_manager.Batch.Assign.Matching.Links.{is_linked}
use migration_manager.Batch.Assign.Matching.{update_instances_assigned_exact}
use migration_manager.Api.Types.{Instance, Batch}
use migration_manager.Tests.{
  instance_0, env_0, make_batch, make_entry, make_world, constraint_0, window_0,
}
use migration_manager.Api.Status.{defined, idle, final_import, background, final, is_batch_status}
use migration_manager.Errors.{ok}
use migration_manager.Store.{World, ◌>>=◌, ◌>>◌, query, raise_if, exec, pure}
use migration_manager.Store.Transaction.{do_tx, close_tx}
use migration_manager.Store.Repo.{
  get_batch, update_batch, get_queue_by_batch, get_instances_by_batch, delete_queue_by_batch,
  in_batch,
}
use migration_manager.Queue.{is_committed, status_before_placement}
use migration_manager.Queue.Operations.{delete_all_by_batch}
use migration_manager.Batch.{
  validate, validate_names, validate_networks, validate_constraints, validate_config,
}
use migration_manager.Batch.Valid.{IsConfigured, Distinct, IsConstraint, validate-IsConfigured}
use migration_manager.Batch.Operations.{
  as_defined, reset, reset_found, reset_started, release_all, release_entries, release_entry,
}
use migration_manager.Batch.Operations.Reset.{reset_clears}
use migration_manager.Batch.Running.{
  IsFixed, can_update_running, can_update_running-IsFixed, constraints_to_check, add_new,
  check_constraints, check_instances, check_settings,
}
use migration_manager.Batch.Running.Constraints.{
  Unknown, IsUncommitted, can_update_running_removal, can_update_running-IsUncommitted,
}

abbrev limited : Batch
limited = make_batch (constraint_0 ∷ [])

limited-valid : validate env_0 limited ≡ ok tt
unfolding validate validate_names validate_networks validate_constraints validate_config
    is_batch_status
limited-valid = refl

validate-IsConfigured_example :
    IsConfigured env_0 limited × Distinct limited.constraints × All IsConstraint limited.constraints
validate-IsConfigured_example = validate-IsConfigured env_0 limited limited-valid

abbrev committed : World
committed = make_world (make_entry 1 final_import final none ∷ []) (window_0 ∷ []) []

abbrev unlimited : Batch
unlimited = make_batch []

committed-batch : get_batch "batch" committed.db ≡ ok unlimited
unfolding get_batch
committed-batch = refl

committed-reset : (reset "batch" true committed).0 ≡ ok (as_defined unlimited)
unfolding reset do_tx close_tx ◌>>=◌ ◌>>◌ query raise_if exec pure get_batch reset_found
    reset_started delete_all_by_batch delete_queue_by_batch update_batch release_all release_entries
    release_entry get_queue_by_batch is_committed
committed-reset = refl

reset_clears_example :
    (as_defined unlimited ≡ as_defined unlimited)
    × ((reset "batch" true committed).1.db.queue ≡ remove (in_batch "batch") committed.db.queue)
    × (get_queue_by_batch "batch" (reset "batch" true committed).1.db ≡ [])
    × (any is_committed (get_queue_by_batch "batch" committed.db) ≡ true → true ≡ true)
reset_clears_example =
    reset_clears "batch" true unlimited (as_defined unlimited) committed refl committed-batch refl
      committed-reset

-- The entry of the batch has passed the point of no return, and its instance matches the constraint.
abbrev guarded : World
guarded = make_world (make_entry 1 final_import final none ∷ []) (window_0 ∷ []) (constraint_0 ∷ [])

removal-settings : check_settings (get_queue_by_batch "batch" guarded.db) unlimited limited ≡ ok tt
unfolding check_settings get_queue_by_batch status_before_placement
removal-settings = refl

can_update_running_removal_example : can_update_running env_0 unlimited limited guarded.db ≡ ok tt
can_update_running_removal_example =
    can_update_running_removal env_0 unlimited limited guarded.db tt removal-settings

can_update_running-IsFixed_example :
    IsFixed (get_queue_by_batch "batch" guarded.db) limited unlimited
can_update_running-IsFixed_example =
    can_update_running-IsFixed env_0 unlimited limited guarded.db refl
      can_update_running_removal_example

-- An entry that has not.
abbrev free : World
free = make_world (make_entry 1 idle background none ∷ []) (window_0 ∷ []) []

free-added : can_update_running env_0 limited unlimited free.db ≡ ok tt
unfolding can_update_running constraints_to_check add_new check_constraints check_instances
    check_settings get_queue_by_batch get_instances_by_batch status_before_placement is_committed
free-added = refl

can_update_running-IsUncommitted_example :
    All
      (λ c.
        Unknown [] c
        → IsUncommitted env_0
            (get_queue_by_batch "batch" free.db)
            (get_instances_by_batch "batch" free.db)
            c.include_expression)
      (constraint_0 ∷ [])
can_update_running-IsUncommitted_example =
    can_update_running-IsUncommitted env_0 limited unlimited free.db refl free-added

-- A defined batch that matches every instance, and has none yet.
abbrev undecided : Batch
undecided = record unlimited { status = defined }

abbrev unassigned : World
unassigned = record committed {
  db = record committed.db { batches = undecided ∷ []; assigned = [] };
}

assigned-now : (update_instances_assigned env_0 undecided unassigned).0 ≡ ok tt
unfolding update_instances_assigned ◌>>◌ raise_if do_tx query
    migration_manager.Batch.Assign.keep_matching get_instances_by_batch pure
    migration_manager.Batch.Assign.add_matching Store.lift Store.when exec Repo.assign_batch
assigned-now = refl

alone : (j : Instance) → Memᴰ j unassigned.db.instances → j.uuid ≡ 1 → j ≡ instance_0
alone j (Memᴰ.head e) same = e
alone j (Memᴰ.tail m) same = elim m [ ]

update_instances_assigned_exact_example :
    some true
    ≡ some (is_linked "batch" 1 (update_instances_assigned env_0 undecided unassigned).1.db)
update_instances_assigned_exact_example =
    update_instances_assigned_exact env_0 undecided unassigned tt instance_0 refl (Memᴰ.head refl)
      alone assigned-now

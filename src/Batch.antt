-- ===== src/Batch.antt =====
-- internal/migration/batch_model.go: when a batch can start, and its validation. The operations of
-- batch_service.go are in the children, and so are the proofs.
pub mod Valid
pub mod Operations
pub mod Running
pub mod Assign
pub mod Placement
pub mod Start
use migration_manager.Prelude.{
  String, str_eq, Bool, true, false, not, ◌&&◌, ◌||◌, ◌==◌, List, [], ◌∷◌,
}
use migration_manager.Prelude.Int.{pos, ltb_ℤ, leb_ℤ, eqb_ℤ}
use migration_manager.Prelude.Table.{any}
use migration_manager.Errors.{Result, ok, validation, refuse_if, ◌>>=◌, ◌>>◌}
use migration_manager.Env.{Env}
use migration_manager.Api.Status.{
  BatchStatus, defined, stopped, batch_error, is_batch_status, is_defined,
}
use migration_manager.Api.Types.{NetworkPlacement, MigrationNetwork, BatchConstraint, Batch}

-- `Batch.CanStart`.
abbrev pub can_start_status : BatchStatus → Bool
can_start_status defined = true
can_start_status batch_error = true
can_start_status stopped = true
can_start_status _ = false

unfoldable pub can_start : Batch → Bool
can_start b = can_start_status b.status

-- `ValidNICType` and `NetworkPlacement.Validate` of shared/api/network.go return no error.
abbrev pub is_nic_type : String → Bool
is_nic_type t = str_eq t "managed" || str_eq t "bridged" || str_eq t "physical"

unfoldable pub is_network_placement : NetworkPlacement → Bool
is_network_placement n =
    not (
      not (str_eq n.nic_type "physical")
      && not (str_eq n.nic_type "bridged")
      && not (str_eq n.vlan_id ""))
    && is_nic_type n.nic_type

-- `existingTargets[target][project]`, as the networks that the loop has seen.
abbrev pub same_project : MigrationNetwork → MigrationNetwork → Bool
same_project n m = str_eq n.target m.target && str_eq n.target_project m.target_project

-- The loop over the migration networks.
unfoldable pub validate_networks :
    Env → List MigrationNetwork → List MigrationNetwork → Result (Unit {0})
validate_networks env seen [] = ok tt
validate_networks env seen (n ∷ ns) =
    let rest = validate_networks env (n ∷ seen) ns in
    do
      refuse_if (not (env.is_api_name n.target)) (validation "Invalid migration network target")
      refuse_if (not (env.is_api_name n.target_project))
          (validation "Invalid migration network target project")
      refuse_if (not (env.is_api_name n.config.network))
          (validation "Invalid target migration network name")
      refuse_if (not (is_network_placement n.config))
          (validation "Invalid target migration network")
      refuse_if (any (same_project n) seen) (validation "More than one migration network defined")
      rest

-- The loop over the constraints; `seen` has the expressions before. Each round checks the name and
-- the expression of the batch.
unfoldable pub validate_constraints :
    Env → Batch → List String → List BatchConstraint → Result (Unit {0})
validate_constraints env b seen [] = ok tt
validate_constraints env b seen (c ∷ cs) =
    let rest = validate_constraints env b (c.include_expression ∷ seen) cs in
    do
      refuse_if (not (env.is_api_name b.name)) (validation "Invalid constraint name")
      refuse_if (any (str_eq c.include_expression) seen)
          (validation "Include expression cannot be used more than once")
      refuse_if (not (env.compiles b.include_expression))
          (validation "Invalid constraint include expression")
      refuse_if (ltb_ℤ c.max_concurrent_instances (pos 0))
          (validation "Max concurrent instances must not be negative")
      refuse_if
          (not (eqb_ℤ c.min_instance_boot_time (pos 0)) && leb_ℤ c.min_instance_boot_time (pos 0))
          (validation "Minimum boot time must be greater than 0")
      rest

-- What follows the constraints in `Batch.Validate`.
unfoldable pub validate_config : Env → Batch → Result (Unit {0})
validate_config env b = do
  refuse_if (is_defined b.status && not (b.start_date == 0))
      (validation "Cannot set start time before batch has started")
  refuse_if
      (not (str_eq b.config.placement_scriptlet "")
        && not (env.is_scriptlet b.config.placement_scriptlet b.name))
      (validation "Invalid placement scriptlet")
  refuse_if (leb_ℤ b.config.background_sync_interval (pos 0))
      (validation "Invalid background sync interval")
  refuse_if (leb_ℤ b.config.final_background_sync_limit (pos 0))
      (validation "Invalid final background sync limit")
  refuse_if (ltb_ℤ b.config.background_sync_interval b.config.final_background_sync_limit)
      (validation "Final background sync limit cannot be greater than the sync interval")

-- What comes before the migration networks.
unfoldable pub validate_names : Env → Batch → Result (Unit {0})
validate_names env b = do
  refuse_if (ltb_ℤ b.id (pos 0)) (validation "Invalid batch, id can not be negative")
  refuse_if (not (env.is_api_name b.name)) (validation "Invalid batch name")
  refuse_if (not (env.is_api_name b.defaults.target)) (validation "Invalid default target")
  refuse_if (not (env.is_api_name b.defaults.target_project))
      (validation "Invalid default target project")
  refuse_if (not (env.is_api_name b.defaults.storage_pool))
      (validation "Invalid default storage pool")

-- `Batch.Validate`.
unfoldable pub validate : Env → Batch → Result (Unit {0})
unfolding validate_names validate_networks validate_constraints validate_config
validate env b = do
  validate_names env b
  validate_networks env [] b.defaults.migration_network
  refuse_if (not (is_batch_status b.status)) (validation "Invalid status")
  refuse_if (not (env.compiles b.include_expression)) (validation "Invalid include expression")
  refuse_if (ltb_ℤ b.config.post_migration_retries (pos 0))
      (validation "Post-migration retry count must be larger than 0")
  validate_constraints env b [] b.constraints
  validate_config env b

-- ===== src/Batch/Running.antt =====
-- batch_service.go, canUpdateRunningBatch: which changes a batch allows once it has started.
pub mod Constraints
use migration_manager.Prelude.{
  ℕ, String, str_eq, Bool, true, false, not, ◌&&◌, ◌||◌, if◌then◌else◌, List, [], ◌∷◌, ◌≡◌, Option,
  none, some, arith, eq_iff,
}
use migration_manager.Prelude.Int.{eqb_ℤ}
use migration_manager.Prelude.Table.{any, snoc}
use migration_manager.Errors.{Result, ok, not_permitted, refuse_if, ◌>>=◌, ◌>>◌}
use migration_manager.Env.{Env}
use migration_manager.Api.Status.{conflict, status_eq, is_defined}
use migration_manager.Api.Types.{QueueEntry, MigrationNetwork, BatchConstraint, Batch, Instance}
use migration_manager.Store.{Db}
use migration_manager.Store.Repo.{has_uuid, get_queue_by_batch, get_instances_by_batch}
use migration_manager.Queue.{is_committed, status_before_placement}
use migration_manager.Queue.NextWindow.{matches_criteria}

-- `==` on constraints.
abbrev pub constraint_eq : BatchConstraint → BatchConstraint → Bool
constraint_eq a b =
    str_eq a.name b.name
    && str_eq a.description b.description
    && str_eq a.include_expression b.include_expression
    && eqb_ℤ a.max_concurrent_instances b.max_concurrent_instances
    && eqb_ℤ a.min_instance_boot_time b.min_instance_boot_time

-- `==` on migration networks.
abbrev pub network_eq : MigrationNetwork → MigrationNetwork → Bool
network_eq a b =
    str_eq a.config.network b.config.network
    && str_eq a.config.nic_type b.config.nic_type
    && str_eq a.config.vlan_id b.config.vlan_id
    && str_eq a.target b.target
    && str_eq a.target_project b.target_project

-- `slices.Equal`.
abbrev pub equal {ℓ} : {A : Type ℓ} → (A → A → Bool) → List A → List A → Bool
equal eq [] [] = true
equal eq [] (y ∷ ys) = false
equal eq (x ∷ xs) [] = false
equal eq (x ∷ xs) (y ∷ ys) = eq x y && equal eq xs ys

-- The loop that adds the new constraints to the old ones.
unfoldable pub add_new : List BatchConstraint → List BatchConstraint → List BatchConstraint
add_new checks [] = checks
add_new checks (c ∷ cs) =
    if any (λ x. constraint_eq x c) checks then add_new checks cs else add_new (snoc checks c) cs

-- `constraintsToCheck`.
unfoldable pub constraints_to_check : Batch → Batch → List BatchConstraint
constraints_to_check old new =
    if equal constraint_eq old.constraints new.constraints
    then []
    else add_new old.constraints new.constraints

-- `queueMap[id]`: of two entries of one instance the last counts.
abbrev pub entry_of : ℕ → List QueueEntry → Option QueueEntry
entry_of id [] = none
entry_of id (q ∷ qs) =
    let rest = entry_of id qs in
    elim rest [ some x ↦ some x | none ↦ if has_uuid id q then some q else none ]

abbrev pub is_committed_in : List QueueEntry → ℕ → Bool
is_committed_in qs id = elim (entry_of id qs) [ none ↦ false | some q ↦ is_committed q ]

-- The loop over the instances, for the expression of one constraint.
unfoldable pub check_instances : Env → List QueueEntry → String → List Instance → Result (Unit {0})
check_instances env qs e [] = ok tt
check_instances env qs e (i ∷ is) =
    let rest = check_instances env qs e is in
    do
      match ← matches_criteria env i e
      refuse_if (match && is_committed_in qs i.uuid)
          (not_permitted "Matching constraint cannot be modified for committed queue entry")
      rest

-- The loop over the constraints, along with the old ones that are at the same index.
unfoldable pub check_constraints :
    Env
    → List QueueEntry
    → List Instance
    → List BatchConstraint
    → List BatchConstraint
    → Result (Unit {0})
check_constraints env qs is old [] = ok tt
check_constraints env qs is [] (c ∷ cs) =
    let rest = check_constraints env qs is [] cs in
    do check_instances env qs c.include_expression is; rest
check_constraints env qs is (o ∷ os) (c ∷ cs) =
    let rest = check_constraints env qs is os cs in
    if constraint_eq o c then rest else (do check_instances env qs c.include_expression is; rest)

-- The settings that may not change at all, and the placement script, which may while no entry waits
-- for its placement.
unfoldable pub check_settings : List QueueEntry → Batch → Batch → Result (Unit {0})
check_settings qs new old = do
  refuse_if (not (str_eq old.name new.name)) (not_permitted "Cannot rename running batch")
  refuse_if
      (not (str_eq old.defaults.storage_pool new.defaults.storage_pool)
        || not (str_eq old.defaults.target new.defaults.target)
        || not (str_eq old.defaults.target_project new.defaults.target_project)
        || not (equal network_eq old.defaults.migration_network new.defaults.migration_network))
      (not_permitted "Cannot modify placement of running batch")
  refuse_if
      (not (str_eq old.config.placement_scriptlet new.config.placement_scriptlet)
        && any (λ q. status_before_placement q && not (status_eq q.migration_status conflict)) qs)
      (not_permitted "Cannot modify placement scriptlet of batch")
  refuse_if (not (str_eq old.include_expression new.include_expression))
      (not_permitted "Cannot modify include expression of running batch")

-- `canUpdateRunningBatch`.
unfoldable pub can_update_running : Env → Batch → Batch → Db → Result (Unit {0})
unfolding constraints_to_check check_constraints check_settings
can_update_running env new old d = if is_defined old.status then ok tt else (do
  check_constraints env (get_queue_by_batch old.name d) (get_instances_by_batch old.name d)
      old.constraints (constraints_to_check old new)
  check_settings (get_queue_by_batch old.name d) new old)

-- What a started batch keeps through an update: its name, its placement but for the script, and the
-- expression that chooses its instances. The script changes only while every entry without a final
-- placement is in conflict.
pub record IsFixed (qs : List QueueEntry) (old new : Batch) : Type 0 where
  pub name : old.name ≡ new.name
  pub target : old.defaults.target ≡ new.defaults.target
  pub target_project : old.defaults.target_project ≡ new.defaults.target_project
  pub storage_pool : old.defaults.storage_pool ≡ new.defaults.storage_pool
  pub include_expression : old.include_expression ≡ new.include_expression
  pub scriptlet :
      any (λ q. status_before_placement q && not (status_eq q.migration_status conflict)) qs ≡ true
      → old.config.placement_scriptlet ≡ new.config.placement_scriptlet

check_settings-IsFixed :
    (qs : List QueueEntry) (old new : Batch)
    → check_settings qs new old ≡ ok tt
    → IsFixed qs old new
unfolding check_settings
check_settings-IsFixed qs old new h = record {
  name = (eq_iff old.name new.name).0 (ground arith);
  target = (eq_iff old.defaults.target new.defaults.target).0 (ground arith);
  target_project =
      (eq_iff old.defaults.target_project new.defaults.target_project).0 (ground arith);
  storage_pool = (eq_iff old.defaults.storage_pool new.defaults.storage_pool).0 (ground arith);
  include_expression = (eq_iff old.include_expression new.include_expression).0 (ground arith);
  scriptlet = λ waiting.
      (eq_iff old.config.placement_scriptlet new.config.placement_scriptlet).0 (ground arith);
}

-- A change to a batch that has started is accepted only if it keeps what `IsFixed` lists.
pub can_update_running-IsFixed :
    (env : Env) (new old : Batch) (d : Db)
    → is_defined old.status ≡ false
    → can_update_running env new old d ≡ ok tt
    → IsFixed (get_queue_by_batch old.name d) old new
unfolding can_update_running
can_update_running-IsFixed env new old d started h =
    check_settings-IsFixed (get_queue_by_batch old.name d) old new (ground arith)

-- ===== src/Batch/Valid.antt =====
-- batch_model.go: what `Batch.Validate` accepts.
use migration_manager.Prelude.{
  String, str_eq, Bool, true, false, List, [], ◌∷◌, ◌≡◌, ◌≢◌, ◌⊎◌, inl, inr, arith, eq_iff, ◌||◌,
}
use migration_manager.Prelude.Int.{pos, ◌≤ℤ◌, ◌<ℤ◌}
use migration_manager.Prelude.Table.{any, All}
use migration_manager.Errors.{ok, Result-cases}
use migration_manager.Env.{Env}
use migration_manager.Api.Status.{is_batch_status, is_defined}
use migration_manager.Api.Types.{BatchConstraint, Batch}
use migration_manager.Batch.{
  validate, validate_names, validate_config, validate_networks, validate_constraints,
}

-- The numbers of a constraint: 0 stands for no limit, and for no least time.
abbrev pub IsConstraint : BatchConstraint → Type 0
IsConstraint c =
    (pos 0 ≤ℤ c.max_concurrent_instances)
    × ((c.min_instance_boot_time ≡ pos 0) ⊎ (pos 0 <ℤ c.min_instance_boot_time))

-- No two constraints of the list have the same expression.
abbrev pub Distinct : List BatchConstraint → Type 0
Distinct [] = Unit
Distinct (c ∷ cs) =
    All (λ (x : BatchConstraint). x.include_expression ≢ c.include_expression) cs × Distinct cs

-- The expressions of the list are none of those seen.
abbrev Unseen : List String → List BatchConstraint → Type 0
Unseen seen cs = All (λ (c : BatchConstraint). any (str_eq c.include_expression) seen ≡ false) cs

or-false : (x y : Bool) → (x || y) ≡ false → (x ≡ false) × (y ≡ false)
or-false x y h = (ground arith, ground arith)

str_eq-ne : (x y : String) → str_eq x y ≡ false → x ≢ y
str_eq-ne x y h e = cc (h, (eq_iff x y).1 e)

Unseen-ne :
    (e : String) (seen : List String) (cs : List BatchConstraint)
    → Unseen (e ∷ seen) cs
    → All (λ (c : BatchConstraint). c.include_expression ≢ e) cs × Unseen seen cs
Unseen-ne e seen [] h = (tt, tt)
Unseen-ne e seen (c ∷ cs) h =
    let (ne, rest) = Unseen-ne e seen cs h.1 in
    let (differs, unseen) =
      or-false (str_eq c.include_expression e) (any (str_eq c.include_expression) seen) h.0 in
    ((str_eq-ne c.include_expression e differs, ne), (unseen, rest))

validate_constraints-Distinct :
    (env : Env) (b : Batch) (seen : List String) (cs : List BatchConstraint)
    → validate_constraints env b seen cs ≡ ok tt
    → Distinct cs × Unseen seen cs × All IsConstraint cs
unfolding validate_constraints
validate_constraints-Distinct env b seen [] h = (tt, tt, tt)
validate_constraints-Distinct env b seen (c ∷ cs) h =
    let (distinct, unseen, limits) =
      validate_constraints-Distinct env b (c.include_expression ∷ seen) cs (ground arith) in
    let (ne, unseen') = Unseen-ne c.include_expression seen cs unseen in
    ((ne, distinct), (ground arith, unseen'), (ground arith, limits))

-- What is checked of a batch besides its constraints.
pub record IsConfigured (env : Env) (b : Batch) : Type 0 where
  pub id_nonneg : pos 0 ≤ℤ b.id
  pub named : env.is_api_name b.name ≡ true
  pub known_status : is_batch_status b.status ≡ true
  pub compiles : env.compiles b.include_expression ≡ true
  pub retries_nonneg : pos 0 ≤ℤ b.config.post_migration_retries
  pub unstarted : is_defined b.status ≡ true → b.start_date ≡ 0
  pub scriptlet :
      str_eq b.config.placement_scriptlet "" ≡ false
      → env.is_scriptlet b.config.placement_scriptlet b.name ≡ true
  pub limit_pos : pos 0 <ℤ b.config.final_background_sync_limit
  pub limit_within : b.config.final_background_sync_limit ≤ℤ b.config.background_sync_interval

-- `Batch.Validate` returns no error only for a batch whose settings are as in `IsConfigured`, and
-- whose constraints have different expressions and limits that are not negative.
pub validate-IsConfigured :
    (env : Env) (b : Batch)
    → validate env b ≡ ok tt
    → IsConfigured env b × Distinct b.constraints × All IsConstraint b.constraints
unfolding validate validate_names validate_config
validate-IsConfigured env b h =
    elim (Result-cases (validate_networks env [] b.defaults.migration_network)) [
      | inr (_, e) ↦ ground arith
      | inl (_, e) ↦ elim (Result-cases (validate_constraints env b [] b.constraints)) [
        | inr (_, f) ↦ ground arith
        | inl (_, f) ↦
            let (distinct, _, limits) = validate_constraints-Distinct env b [] b.constraints f in
            (ground arith, distinct, limits)
      ]
    ]

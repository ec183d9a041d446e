-- ===== src/Batch/Running/Constraints.antt =====
-- batch_service.go, canUpdateRunningBatch: which changes of the constraints it lets pass.
use migration_manager.Prelude.{
  String, true, false, List, [], ◌∷◌, ◌++◌, ◌≡◌, refl, inl, inr, some, ◌||◌, arith, eq_refl, eq_iff,
  Bool-cases, if◌then◌else◌, ◌∙◌,
}
use mathlib.Core.Path.{subst}
use migration_manager.Prelude.Table.{any, snoc, All}
use migration_manager.Errors.{ok}
use migration_manager.Env.{Env}
use migration_manager.Api.Status.{is_defined}
use migration_manager.Api.Types.{QueueEntry, BatchConstraint, Batch, Instance}
use migration_manager.Store.{Db}
use migration_manager.Store.Repo.{get_queue_by_batch, get_instances_by_batch}
use migration_manager.Batch.Running.{
  constraint_eq, equal, add_new, constraints_to_check, is_committed_in, check_instances,
  check_constraints, check_settings, can_update_running,
}

All-map {ℓ κ μ} :
    {A : Type ℓ} {P : A → Type κ} {Q : A → Type μ} (xs : List A)
    → ((x : A) → P x → Q x)
    → All P xs
    → All Q xs
All-map [] f h = tt
All-map {P = P} {Q = Q} (x ∷ xs) f h = (f x h.0, All-map {P = P} {Q = Q} xs f h.1)

-- The constraint is one of the list.
abbrev pub Known : List BatchConstraint → BatchConstraint → Type 0
Known cs c = any (λ x. constraint_eq x c) cs ≡ true

abbrev pub Unknown : List BatchConstraint → BatchConstraint → Type 0
Unknown cs c = any (λ x. constraint_eq x c) cs ≡ false

constraint_eq_refl : (c : BatchConstraint) → constraint_eq c c ≡ true
constraint_eq_refl c =
    ground (arith, eq_refl c.name, eq_refl c.description, eq_refl c.include_expression)

constraint_eq-expression :
    (a b : BatchConstraint) → constraint_eq a b ≡ true → a.include_expression ≡ b.include_expression
constraint_eq-expression a b h = (eq_iff a.include_expression b.include_expression).0 (ground arith)

add_new-Known : (old cs : List BatchConstraint) → All (Known old) cs → add_new old cs ≡ old
unfolding add_new
add_new-Known old [] h = refl
add_new-Known old (c ∷ cs) h = rw h.0 (add_new-Known old cs h.1)

check_constraints-same :
    (env : Env) (qs : List QueueEntry) (is : List Instance) (cs : List BatchConstraint)
    → check_constraints env qs is cs cs ≡ ok tt
unfolding check_constraints
check_constraints-same env qs is [] = refl
check_constraints-same env qs is (c ∷ cs) =
    rw (constraint_eq_refl c) (check_constraints-same env qs is cs)

-- An update of a batch that has started, and whose settings may change so, passes whenever all of its
-- constraints are old ones: no entry that is past the point of no return keeps a constraint from
-- being removed.
pub can_update_running_removal :
    (env : Env) (new old : Batch) (d : Db)
    → All (Known old.constraints) new.constraints
    → check_settings (get_queue_by_batch old.name d) new old ≡ ok tt
    → can_update_running env new old d ≡ ok tt
unfolding can_update_running constraints_to_check check_constraints
can_update_running_removal env new old d known settings =
    let qs = get_queue_by_batch old.name d in
    let is = get_instances_by_batch old.name d in
    elim (Bool-cases (equal constraint_eq old.constraints new.constraints)) [
      | inl e ↦ rw e (ground arith)
      | inr e ↦
          rw
            (
              e,
              add_new-Known old.constraints new.constraints known,
              check_constraints-same env qs is old.constraints,
            )
            (ground arith)
    ]

-- The constraints that `add_new` appends.
abbrev fresh : List BatchConstraint → List BatchConstraint → List BatchConstraint
fresh checks [] = []
fresh checks (c ∷ cs) =
    if any (λ x. constraint_eq x c) checks then fresh checks cs else c ∷ fresh (snoc checks c) cs

snoc-append :
    (xs : List BatchConstraint) (c : BatchConstraint) (ys : List BatchConstraint)
    → snoc xs c ++ ys ≡ xs ++ (c ∷ ys)
snoc-append [] c ys = refl
snoc-append (x ∷ xs) c ys = rw (snoc-append xs c ys) refl

append-nil : (xs : List BatchConstraint) → xs ≡ xs ++ []
append-nil [] = refl
append-nil (x ∷ xs) = rw (← append-nil xs) refl

add_new-fresh : (old cs : List BatchConstraint) → add_new old cs ≡ old ++ fresh old cs
unfolding add_new
add_new-fresh old [] = append-nil old
add_new-fresh old (c ∷ cs) = elim (Bool-cases (any (λ x. constraint_eq x c) old)) [
  | inl e ↦ rw e (add_new-fresh old cs)
  | inr e ↦ rw e (rw (add_new-fresh (snoc old c) cs) (snoc-append old c (fresh (snoc old c) cs)))
]

any-snoc :
    (c x : BatchConstraint) (xs : List BatchConstraint)
    → any (λ y. constraint_eq y x) (snoc xs c)
      ≡ (any (λ y. constraint_eq y x) xs || constraint_eq c x)
any-snoc c x [] = ground arith
any-snoc c x (y ∷ ys) = rw (any-snoc c x ys) (ground arith)

-- What holds of the expressions that are appended holds of every new constraint that is unknown.
fresh-All {ℓ} :
    (P : String → Type ℓ) (old cs : List BatchConstraint)
    → All (λ (c : BatchConstraint). P c.include_expression) (fresh old cs)
    → All (λ c. Unknown old c → P c.include_expression) cs
fresh-All P old [] h = tt
fresh-All P old (c ∷ cs) h = elim (Bool-cases (any (λ x. constraint_eq x c) old)) [
  | inl e ↦ ((λ u. cc), fresh-All P old cs (rw e at h))
  | inr e ↦
      let (first, rest) = rw e at h in
      (
        (λ u. first),
        All-map {P = λ x. Unknown (snoc old c) x → P x.include_expression} cs
            (λ x f u. elim (Bool-cases (constraint_eq c x)) [
              | inl same ↦ subst P (constraint_eq-expression c x same) first
              | inr differs ↦ f (any-snoc c x old ∙ rw (u, differs) refl)
            ])
            (fresh-All P (snoc old c) cs rest),
      )
]

equal-Known : (xs ys : List BatchConstraint) → equal constraint_eq xs ys ≡ true → All (Known xs) ys
equal-Known [] [] h = tt
equal-Known [] (y ∷ ys) h = cc
equal-Known (x ∷ xs) [] h = tt
equal-Known (x ∷ xs) (y ∷ ys) h = (
  ground arith,
  All-map {P = Known xs} ys (λ z k. rw k (ground arith)) (equal-Known xs ys (ground arith)),
)

-- No instance that matches the expression has an entry past the point of no return.
abbrev pub IsUncommitted : Env → List QueueEntry → List Instance → String → Type 0
IsUncommitted env qs is e =
    All (λ (i : Instance). env.matches i e ≡ some true → is_committed_in qs i.uuid ≡ false) is

check_instances-IsUncommitted :
    (env : Env) (qs : List QueueEntry) (e : String) (is : List Instance)
    → check_instances env qs e is ≡ ok tt
    → IsUncommitted env qs is e
unfolding check_instances
check_instances-IsUncommitted env qs e [] h = tt
check_instances-IsUncommitted env qs e (i ∷ is) h =
    ((λ m. ground arith), check_instances-IsUncommitted env qs e is (ground arith))

check_constraints-All :
    (env : Env) (qs : List QueueEntry) (is : List Instance) (cs : List BatchConstraint)
    → check_constraints env qs is [] cs ≡ ok tt
    → All (λ (c : BatchConstraint). IsUncommitted env qs is c.include_expression) cs
unfolding check_constraints
check_constraints-All env qs is [] h = tt
check_constraints-All env qs is (c ∷ cs) h = (
  check_instances-IsUncommitted env qs c.include_expression is (ground arith),
  check_constraints-All env qs is cs (ground arith),
)

check_constraints-append :
    (env : Env) (qs : List QueueEntry) (is : List Instance) (old cs : List BatchConstraint)
    → check_constraints env qs is old (old ++ cs) ≡ check_constraints env qs is [] cs
unfolding check_constraints
check_constraints-append env qs is [] cs = refl
check_constraints-append env qs is (c ∷ old) cs =
    rw (constraint_eq_refl c) (check_constraints-append env qs is old cs)

-- When an update of a batch that has started is accepted, no constraint is new in it whose
-- expression matches an instance with an entry past the point of no return.
pub can_update_running-IsUncommitted :
    (env : Env) (new old : Batch) (d : Db)
    → is_defined old.status ≡ false
    → can_update_running env new old d ≡ ok tt
    → All
        (λ c.
          Unknown old.constraints c
          → IsUncommitted env
              (get_queue_by_batch old.name d)
              (get_instances_by_batch old.name d)
              c.include_expression)
        new.constraints
unfolding can_update_running constraints_to_check
can_update_running-IsUncommitted env new old d started h =
    let qs = get_queue_by_batch old.name d in
    let is = get_instances_by_batch old.name d in
    elim (Bool-cases (equal constraint_eq old.constraints new.constraints)) [
      | inl e ↦
          All-map {P = Known old.constraints} new.constraints (λ c k u. cc)
            (equal-Known old.constraints new.constraints e)
      | inr e ↦
          let passed : check_constraints env qs is old.constraints
                (add_new old.constraints new.constraints)
              ≡ ok tt =
            ground arith in
          fresh-All (IsUncommitted env qs is) old.constraints new.constraints (
            check_constraints-All env qs is (fresh old.constraints new.constraints) (
              rw
                (
                  add_new-fresh old.constraints new.constraints,
                  check_constraints-append env qs is old.constraints,
                )
                at passed))
    ]

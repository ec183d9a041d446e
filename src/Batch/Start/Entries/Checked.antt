-- ===== src/Batch/Start/Entries/Checked.antt =====
-- batch_service.go, `StartBatchByName`: one new entry, by the checks that it went through.
use migration_manager.Prelude.{
  String, Bool, true, false, if◌then◌else◌, ◌&&◌, List, [], ◌∷◌, ◌++◌, ◌≡◌, ◌↔◌, ◌⊎◌, refl, sym, ap,
  ◌∙◌, arith, none, some, inl, inr, not, Option-cases, Bool-cases,
}
use migration_manager.Prelude.Table.{any, snoc}
use migration_manager.Errors.{ok-inj, ok}
use migration_manager.Env.{Env}
use migration_manager.Api.Status.{waiting, conflict, background}
use migration_manager.Api.Types.{Batch, Instance, QueueEntry}
use migration_manager.Instance.{DisabledReason, disabled_reason}
use migration_manager.Store.{Db}
use migration_manager.Store.Repo.{create_queue_entry, is_batch, has_uuid, is_instance, link_window}
use migration_manager.Queue
use migration_manager.Queue.NextWindow.{matches_criteria}
use migration_manager.Batch.{pos}
use migration_manager.Batch.Start.{check_status, Option}

-- A new entry after the initial checks: it waits if nothing is against the instance, and is in
-- conflict if the instance does not match its batch and the batch does not overrule that.
pub record IsChecked (env : Env) (b : Batch) (name : String) (i : Instance) (q : QueueEntry)
    : Type 0 where
  pub instance_uuid : q.instance_uuid ≡ i.uuid
  pub batch_name : q.batch_name ≡ name
  pub stage : q.import_stage ≡ background
  pub window : q.migration_window_name ≡ none
  pub valid : Queue.validate q ≡ ok tt
  pub cleared : (q.migration_status ≡ waiting) ↔ (
      (disabled_reason env i b.config.restriction_overrides ≡ none)
      × ((env.matches i b.include_expression ≡ some true)
          ⊎ (b.defaults.force_conflict_resolution ≡ true)))
  pub conflicting : (q.migration_status ≡ conflict) ↔ (
      (env.matches i b.include_expression ≡ some false)
      × (b.defaults.force_conflict_resolution ≡ false))

-- One entry for each instance, in the same order.
abbrev pub Pairs : (Instance → QueueEntry → Type 0) → List Instance → List QueueEntry → Type 0
Pairs R [] [] = Unit
Pairs R (i ∷ is) (q ∷ qs) = R i q × Pairs R is qs
Pairs R _ _ = ⊥

pub matches_criteria-eq :
    (env : Env) (i : Instance) (e : String) (m : Bool)
    → matches_criteria env i e ≡ ok m
    → env.matches i e ≡ some m
matches_criteria-eq env i e m h = elim (Option-cases (env.matches i e)) [
  | inl k ↦ cc (rw (k, matches_criteria) at h)
  | inr (x, k) ↦ k ∙ ap some (ok-inj (rw (k, matches_criteria) at h))
]

-- The status for each outcome of the checks.
pub status_cases :
    (r : Option DisabledReason) (match force : Bool) (m : String)
    → let s = (if not match && not force then (conflict, m) else check_status r).0 in
      ((s ≡ waiting) ↔ ((r ≡ none) × ((some match ≡ some true) ⊎ (force ≡ true))))
      × ((s ≡ conflict) ↔ ((some match ≡ some false) × (force ≡ false)))
status_cases none true true m = ((λ h. (refl, inl refl), λ h. refl), (λ h. cc, λ h. cc))
status_cases none true false m = ((λ h. (refl, inl refl), λ h. refl), (λ h. cc, λ h. cc))
status_cases none false true m = ((λ h. (refl, inr refl), λ h. refl), (λ h. cc, λ h. cc))
status_cases none false false m = ((λ h. cc, λ h. ground arith), (λ h. (refl, refl), λ h. refl))
status_cases (some x) true true m = ((λ h. cc, λ h. cc), (λ h. cc, λ h. cc))
status_cases (some x) true false m = ((λ h. cc, λ h. cc), (λ h. cc, λ h. cc))
status_cases (some x) false true m = ((λ h. cc, λ h. cc), (λ h. cc, λ h. cc))
status_cases (some x) false false m = ((λ h. cc, λ h. cc), (λ h. (refl, refl), λ h. refl))

snoc-append : (qs : List QueueEntry) (q : QueueEntry) → snoc qs q ≡ qs ++ (q ∷ [])
snoc-append [] q = refl
snoc-append (x ∷ qs) q = ap (λ r. x ∷ r) (snoc-append qs q)

-- A new row is the last, and nothing else of these tables changes.
pub create_queue_entry-appends :
    (q : QueueEntry) (d d' : Db)
    → create_queue_entry q d ≡ ok d'
    → (d'.queue ≡ d.queue ++ (record (link_window d q) { id = pos d.next_id } ∷ []))
      × (d'.batches ≡ d.batches)
unfolding create_queue_entry
create_queue_entry-appends q d d' e =
    let new = record (link_window d q) { id = pos d.next_id } in
    elim (Bool-cases (
      not
        (any (is_instance q.instance_uuid) d.instances && any (is_batch q.batch_name) d.batches))) [
          | inl k ↦ cc (rw (k, create_queue_entry) at e)
          | inr k ↦ elim (Bool-cases (any (has_uuid q.instance_uuid) d.queue)) [
            | inl l ↦ cc (rw (k, create_queue_entry, l) at e)
            | inr l ↦
                let h = rw (k, create_queue_entry, l) at e in
                (
                  sym (ap (λ (x : Db). x.queue) (ok-inj h)) ∙ snoc-append d.queue new,
                  sym (ap (λ (x : Db). x.batches) (ok-inj h)),
                )
          ]
        ]

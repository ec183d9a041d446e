-- ===== src/Batch/Assign/Matching.antt =====
-- batch_service.go, `UpdateInstancesAssignedToBatch`: the batch has the instances that match it.
mod Rows
pub mod Links
use migration_manager.Prelude.{
  ℕ, ◌==◌, Bool, true, false, not, ◌&&◌, ◌||◌, List, [], ◌∷◌, none, some, ◌≡◌, refl, sym, ap, ◌∙◌,
  arith, inl, inr, ◌⊎◌, if◌then◌else◌,
}
use mathlib.Core.Path.{subst}
use mathlib.Core.List.{Memᴰ}
use migration_manager.Prelude.Table.{any, filter}
use migration_manager.Errors.{Result, ok, ok-inj}
use migration_manager.Env.{Env}
use migration_manager.Api.Types.{Batch, Instance}
use migration_manager.Store.{Db, World, exec, when}
use migration_manager.Store.Runs.{
  Runs, succeeded, Runs-do_tx, Runs-exec, Runs-pure, on_bind, on_then, on_lift, on_query, on_guard,
}
use migration_manager.Store.Repo.{assign_batch, unassign_batch, get_instances_by_batch}
use migration_manager.Batch.Start.Entries.Checked.{matches_criteria-eq}
use migration_manager.Batch.Assign.{
  unqueue_all, keep_matching, add_matching, update_instances_assigned,
}
use migration_manager.Batch.Assign.Matching.Rows.{any-alone, any-filter}
use migration_manager.Batch.Assign.Matching.Links.{is_linked, unassign-linked, assign-linked}

-- `MatchesCriteria`, where it gives an answer.
abbrev pub is_match : Env → Batch → Instance → Bool
is_match env b i = elim (env.matches i b.include_expression) [ none ↦ false | some m ↦ m ]

is_match-eq :
    (env : Env) (b : Batch) (i : Instance) (m : Bool)
    → env.matches i b.include_expression ≡ some m
    → is_match env b i ≡ m
is_match-eq env b i m e = rw (e, is_match) refl

Runs-when :
    (t : Bool) (f : Db → Result Db) (d d' : Db) (u : Unit {0})
    → Runs (when t (exec f)) d u d'
    → ((t ≡ true) × (f d ≡ ok d')) ⊎ ((t ≡ false) × (d' ≡ d))
unfolding when
Runs-when true f d d' u r = inl (refl, Runs-exec f d d' u r)
Runs-when false f d d' u r = inr (refl, (Runs-pure _ d d' u r).1)

-- The equations of one round, on the tests alone.
kept_step :
    (before mid rest same m hit : Bool) {after : Bool}
    → hit ≡ m
    → mid ≡ (before && not (same && not m))
    → after ≡ (mid && not rest)
    → after ≡ (before && not ((same && not hit) || rest))
kept_step before mid rest same m hit {after} h k l = ground arith

module _ (env : Env) (b : Batch) (id : ℕ) where
  ids_step :
      (rest : List ℕ) (others : Bool) (uuid : ℕ) (m hit : Bool)
      → hit ≡ m
      → any (λ x. x == id) rest ≡ others
      → any (λ x. x == id) (if m then uuid ∷ rest else rest) ≡ (((uuid == id) && hit) || others)
  ids_step rest others uuid true hit h k = ground arith
  ids_step rest others uuid false hit h k = ground arith

  after_unassign :
      (i : Instance) (m : Bool) (d c : Db) (u : Unit {0})
      → Runs (when (not m) (exec (unassign_batch b.name i.uuid))) d u c
      → (is_linked b.name id c ≡ (is_linked b.name id d && not ((i.uuid == id) && not m)))
        × (c.instances ≡ d.instances)
  after_unassign i m d c u w = elim (Runs-when (not m) (unassign_batch b.name i.uuid) d c u w) [
    | inl (t, f) ↦ let (l, s) = unassign-linked b.name id i.uuid d c f in (l ∙ ground arith, s)
    | inr (t, same) ↦ rw same (ground arith, refl)
  ]

  -- The instance of this UUID, which does not match.
  abbrev leaves_it : Instance → Bool
  leaves_it i = (i.uuid == id) && not (is_match env b i)

  abbrev stays_in : Instance → Bool
  stays_in i = (i.uuid == id) && is_match env b i

  record Kept (is : List Instance) (d d' : Db) (kept : List ℕ) : Type 0 where
    linked : is_linked b.name id d' ≡ (is_linked b.name id d && not (any leaves_it is))
    ids : any (λ x. x == id) kept ≡ any stays_in is
    same : d'.instances ≡ d.instances

  keep_matching-Kept :
      (is : List Instance) (d d' : Db) (kept : List ℕ)
      → Runs (keep_matching env b is) d kept d'
      → Kept is d d' kept
  unfolding keep_matching when
  keep_matching-Kept [] d d' kept r =
      let (e, same) = Runs-pure _ d d' kept r in
      rw e (rw same (record { linked = ground arith; ids = refl; same = refl }))
  keep_matching-Kept (i ∷ is) d d' kept r = on_lift r (λ m e t1. on_then t1 (λ u c w t2.
      on_bind t2 (λ rest c' loop t3.
        let ih = keep_matching-Kept is c c' rest loop in
        let (ids, last) = Runs-pure _ c' d' kept t3 in
        let hit = is_match-eq env b i m (matches_criteria-eq env i _ m e) in
        let (linked, same) = after_unassign i m d c u w in
        rw ids (
          rw last (record {
            linked =
                kept_step (is_linked b.name id d) _ (any leaves_it is) (i.uuid == id) m _ hit linked
                  ih.linked;
            ids = ids_step rest (any stays_in is) i.uuid m _ hit ih.ids;
            same = ih.same ∙ same;
          })))))

  -- The instance of this UUID joins the batch.
  abbrev joins : List ℕ → Instance → Bool
  joins kept i = (i.uuid == id) && (is_match env b i && not (any (λ x. x == i.uuid) kept))

  after_assign :
      (i : Instance) (t : Bool) (d c : Db) (u : Unit {0})
      → Runs (when t (exec (assign_batch b.name i.uuid))) d u c
      → is_linked b.name id c ≡ (is_linked b.name id d || ((i.uuid == id) && t))
  after_assign i t d c u w = elim (Runs-when t (assign_batch b.name i.uuid) d c u w) [
    | inl (e, f) ↦ assign-linked b.name id i.uuid d c f ∙ ground arith
    | inr (e, same) ↦ rw same (ground arith)
  ]

  add_matching-linked :
      (kept : List ℕ) (is : List Instance) (d d' : Db) (u : Unit {0})
      → Runs (add_matching env b kept is) d u d'
      → is_linked b.name id d' ≡ (is_linked b.name id d || any (joins kept) is)
  unfolding add_matching
  add_matching-linked kept [] d d' u r =
      let (_, same) = Runs-pure _ d d' u r in rw same (ground arith)
  add_matching-linked kept (i ∷ is) d d' u r = on_lift r (λ m e t1. on_then t1 (λ v c w loop.
      let hit = is_match-eq env b i m (matches_criteria-eq env i _ m e) in
      let one = after_assign i (m && not (any (λ x. x == i.uuid) kept)) d c v w in
      let rest = add_matching-linked kept is c d' u loop in rest ∙ rw hit (rw one (ground arith))))

-- Where the loop succeeds, every instance has an answer.
add_matching-answers :
    (env : Env) (b : Batch) (kept : List ℕ) (is : List Instance) (d d' : Db) (u : Unit {0})
    {i : Instance}
    → Runs (add_matching env b kept is) d u d'
    → Memᴰ i is
    → env.matches i b.include_expression ≡ some (is_match env b i)
unfolding add_matching
add_matching-answers env b kept [] d d' u r t = elim t [ ]
add_matching-answers env b kept (x ∷ is) d d' u {i} r (Memᴰ.head q) = on_lift r (λ m e t1.
    let answer = matches_criteria-eq env x _ m e in
    rw q (answer ∙ ap some (sym (is_match-eq env b x m answer))))
add_matching-answers env b kept (x ∷ is) d d' u {i} r (Memᴰ.tail t) =
    on_lift r (λ m e t1.
      on_then t1 (λ v c w loop. add_matching-answers env b kept is c d' u {i = i} loop t))

-- The outcome for one instance, on the tests alone.
outcome : (linked m : Bool) → ((linked && not (linked && not m)) || (m && not (linked && m))) ≡ m
outcome true true = refl
outcome true false = refl
outcome false true = refl
outcome false false = refl

-- If the instances of a batch are updated, outside testing mode, and no two rows have the UUID of an
-- instance, then the expression of the batch has an answer for the instance, and the answer is whether the
-- instance is one of the batch's afterwards.
pub update_instances_assigned_exact :
    (env : Env) (b : Batch) (w : World) (u : Unit {0}) (i : Instance)
    → env.testing_mode ≡ false
    → Memᴰ i w.db.instances
    → ((j : Instance) → Memᴰ j w.db.instances → j.uuid ≡ i.uuid → j ≡ i)
    → (update_instances_assigned env b w).0 ≡ ok u
    → env.matches i b.include_expression
      ≡ some (is_linked b.name i.uuid (update_instances_assigned env b w).1.db)
unfolding update_instances_assigned get_instances_by_batch when
update_instances_assigned_exact env b w u i live t alone h =
    on_guard _ (succeeded (update_instances_assigned env b) w u h) (λ _ body.
      on_query _ (Runs-do_tx _ w.db _ u body) (λ own read t1. on_bind t1 (λ kept c first t2.
        on_query _ t2 (λ all reread t3. on_then t3 (λ v c' second t4.
          let d = w.db in
          let q = λ (j : Instance). is_linked b.name j.uuid d in
          let k = keep_matching-Kept env b i.uuid own d c kept first in
          let mine : own ≡ filter q d.instances = sym (ok-inj read) in
          let everyone : all ≡ d.instances = sym (ok-inj reread) ∙ k.same in
          let left : any (leaves_it env b i.uuid) own ≡ (q i && not (is_match env b i)) =
            ap (any (leaves_it env b i.uuid)) mine
            ∙ any-filter (λ j. not (is_match env b j)) q i.uuid d.instances
            ∙ any-alone (λ j. q j && not (is_match env b j)) d.instances i alone t in
          let stayed : any (stays_in env b i.uuid) own ≡ (q i && is_match env b i) =
            ap (any (stays_in env b i.uuid)) mine
            ∙ any-filter (is_match env b) q i.uuid d.instances
            ∙ any-alone (λ j. q j && is_match env b j) d.instances i alone t in
          let joined : any (joins env b i.uuid kept) all
              ≡ (is_match env b i && not (any (λ x. x == i.uuid) kept)) =
            ap (any (joins env b i.uuid kept)) everyone
            ∙ any-alone (λ j. is_match env b j && not (any (λ x. x == j.uuid) kept)) d.instances i
                alone t in
          let linked = add_matching-linked env b i.uuid kept all c c' v second in
          let ids = k.ids ∙ stayed in
          let final =
            linked
            ∙ rw joined (rw ids (rw (k.linked) (rw left (outcome (q i) (is_match env b i))))) in
          let rest =
            subst
              (λ x. Runs (when x (unqueue_all all)) c' u (update_instances_assigned env b w).1.db)
              live t4 in
          let (_, last) = Runs-pure _ c' _ u rest in
          add_matching-answers env b kept all c c' v {i = i} second
            (subst (Memᴰ i) (sym everyone) t)
          ∙ ap some (sym (ap (is_linked b.name i.uuid) last ∙ final)))))))

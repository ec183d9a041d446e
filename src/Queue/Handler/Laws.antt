-- ===== src/Queue/Handler/Laws.antt =====
-- What the maps of a gathered state hold, read off the tables.
use migration_manager.Prelude.{
  ℕ, String, eq_iff, Bool, true, false, ◌||◌, ◌==◌, if◌then◌else◌, List, [], ◌∷◌, Option, none,
  some, is_some, ◌≡◌, refl, sym, ap, ◌∙◌, arith, Bool-cases, Option-cases, inl, inr,
}
use migration_manager.Prelude.Map.{
  Map, nat_eq, string_eq, lookup, at_or, insert, index, lookup-insert, at_or-insert, ==_iff,
}
use migration_manager.Prelude.Table.{find?, filter, any}
use migration_manager.Prelude.Count.{Distinct, is_fresh}
use migration_manager.Api.Types.{QueueEntry, Instance, Source, Target}
use migration_manager.Store.Repo.{in_batch, is_instance}
use migration_manager.Queue.Handler.{
  MigrationState, by_batch, add_target, add_if_queued, add_instance, add_instances, no_source,
  no_target, source_in, target_in, get_migration_state, gather_state,
}
use migration_manager.Errors.{ok, err, failed}
use migration_manager.Store.{World, M, query}
use migration_manager.Store.Transaction.{do_tx, close_tx, do_tx_nested}
use migration_manager.Api.Status.{BatchStatus, MigrationStatus}

-- The map of one batch's entries.
pub at_or-by_batch :
    (b : String) (qs : List QueueEntry) (m : Map String (Map ℕ QueueEntry))
    → at_or [] b (by_batch qs m)
      ≡ index (λ (q : QueueEntry). q.instance_uuid) (λ q. q) (filter (in_batch b) qs) (at_or [] b m)
at_or-by_batch b [] m = refl
at_or-by_batch b (q ∷ qs) m =
    let entries = insert q.instance_uuid q (at_or [] q.batch_name m) in
    at_or-by_batch b qs (insert q.batch_name entries m) ∙ elim (Bool-cases (in_batch b q)) [
      | inl hit ↦ rw hit (
          ap (index (λ (q : QueueEntry). q.instance_uuid) (λ q. q) (filter (in_batch b) qs))
            (own hit))
      | inr miss ↦ rw miss (
          ap (index (λ (q : QueueEntry). q.instance_uuid) (λ q. q) (filter (in_batch b) qs))
            (at_or-insert [] q.batch_name b entries m ∙ rw miss refl))
    ]
  where
    own :
        in_batch b q ≡ true
        → at_or [] b (insert q.batch_name (insert q.instance_uuid q (at_or [] q.batch_name m)) m)
          ≡ insert q.instance_uuid q (at_or [] b m)
    own hit =
        let same = (eq_iff q.batch_name b).0 hit in
        at_or-insert [] q.batch_name b (insert q.instance_uuid q (at_or [] q.batch_name m)) m
        ∙ rw hit (ap (λ z. insert q.instance_uuid q (at_or [] z m)) same)

-- The batches that the map has are those with an entry.
pub lookup-by_batch :
    (b : String) (qs : List QueueEntry) (m : Map String (Map ℕ QueueEntry))
    → is_some (lookup b (by_batch qs m)) ≡ (is_some (lookup b m) || any (in_batch b) qs)
lookup-by_batch b [] m = ground arith
lookup-by_batch b (q ∷ qs) m = ground (
  arith,
  lookup-by_batch b qs (insert q.batch_name (insert q.instance_uuid q (at_or [] q.batch_name m)) m),
  lookup-insert q.batch_name b (insert q.instance_uuid q (at_or [] q.batch_name m)) m,
)

module _ (sources : Map String Source) (targets : Map String Target) where
  add_if_queued-batch :
      (i : Instance) (o : Option QueueEntry) (s : MigrationState)
      → (add_if_queued sources targets i o s).batch ≡ s.batch
  add_if_queued-batch i none s = refl
  add_if_queued-batch i (some q) s = refl

  add_if_queued-entries :
      (i : Instance) (o : Option QueueEntry) (s : MigrationState)
      → (add_if_queued sources targets i o s).queue_entries ≡ s.queue_entries
  add_if_queued-entries i none s = refl
  add_if_queued-entries i (some q) s = refl

  pub add_instances-batch :
      (is : List Instance) (s : MigrationState)
      → (add_instances sources targets is s).batch ≡ s.batch
  add_instances-batch [] s = refl
  add_instances-batch (i ∷ is) s =
      add_instances-batch is (add_instance sources targets i s)
      ∙ add_if_queued-batch i (lookup i.uuid s.queue_entries) s

  pub add_instances-entries :
      (is : List Instance) (s : MigrationState)
      → (add_instances sources targets is s).queue_entries ≡ s.queue_entries
  add_instances-entries [] s = refl
  add_instances-entries (i ∷ is) s =
      add_instances-entries is (add_instance sources targets i s)
      ∙ add_if_queued-entries i (lookup i.uuid s.queue_entries) s

  module _ (id : ℕ) where
    add_target-other :
        (u : ℕ) (r : QueueEntry) (m : Map ℕ Target)
        → (u == id) ≡ false
        → at_or no_target id (add_target sources targets u r m) ≡ at_or no_target id m
    add_target-other u r m miss = elim (Option-cases (lookup r.placement.target_name targets)) [
      | inl e ↦ rw (e, add_target) refl
      | inr (t, e) ↦ rw (e, add_target) (at_or-insert no_target u id t m ∙ rw miss refl)
    ]

    add_target-own :
        (u : ℕ) (r : QueueEntry) (m : Map ℕ Target)
        → (u == id) ≡ true
        → at_or no_target id m ≡ no_target
        → at_or no_target id (add_target sources targets u r m)
          ≡ at_or no_target r.placement.target_name targets
    add_target-own u r m hit new = elim (Option-cases (lookup r.placement.target_name targets)) [
      | inl e ↦
          let kept : at_or no_target id (add_target sources targets u r m) ≡ no_target =
            rw (e, add_target) new in
          let absent : at_or no_target r.placement.target_name targets ≡ no_target =
            rw (e, at_or) refl in
          kept ∙ sym absent
      | inr (t, e) ↦
          let put : at_or no_target id (add_target sources targets u r m) ≡ t =
            rw (e, add_target) (at_or-insert no_target u id t m ∙ rw hit refl) in
          let named : at_or no_target r.placement.target_name targets ≡ t = rw (e, at_or) refl in
          put ∙ sym named
    ]

    -- An instance with another UUID changes nothing of what is found under this one.
    add_if_queued-other :
        (i : Instance) (o : Option QueueEntry) (s : MigrationState)
        → is_instance id i ≡ false
        → (source_in id (add_if_queued sources targets i o s) ≡ source_in id s)
          × (target_in id (add_if_queued sources targets i o s) ≡ target_in id s)
    add_if_queued-other i none s miss = (refl, refl)
    add_if_queued-other i (some r) s miss = (
      at_or-insert no_source i.uuid id (at_or no_source i.source sources) s.sources ∙ rw miss refl,
      add_target-other i.uuid r s.targets miss,
    )

    add_instances-other :
        (is : List Instance) (s : MigrationState)
        → is_fresh (λ (i : Instance). i.uuid) id is ≡ true
        → (source_in id (add_instances sources targets is s) ≡ source_in id s)
          × (target_in id (add_instances sources targets is s) ≡ target_in id s)
    add_instances-other [] s f = (refl, refl)
    add_instances-other (i ∷ is) s f =
        let o = lookup i.uuid s.queue_entries in
        let (a, b) = add_instances-other is (add_instance sources targets i s) (ground arith) in
        let (c, e) = add_if_queued-other i o s (ground arith) in (a ∙ c, b ∙ e)

    -- The instance itself brings the source that it names, and the target that the entry's
    -- placement names.
    add_if_queued-own :
        (i : Instance) (q : QueueEntry) (s : MigrationState)
        → is_instance id i ≡ true
        → target_in id s ≡ no_target
        → (source_in id (add_if_queued sources targets i (some q) s)
            ≡ at_or no_source i.source sources)
          × (target_in id (add_if_queued sources targets i (some q) s)
              ≡ at_or no_target q.placement.target_name targets)
    add_if_queued-own i q s hit new = (
      at_or-insert no_source i.uuid id (at_or no_source i.source sources) s.sources ∙ rw hit refl,
      add_target-own i.uuid q s.targets hit new,
    )

    module _ (q : QueueEntry) where
      -- What the state of the entry's batch has for the entry: the source that its instance names,
      -- and the target that its placement names.
      pub found_in :
          (is : List Instance) (s : MigrationState)
          → Distinct (λ (i : Instance). i.uuid) is
          → lookup id s.queue_entries ≡ some q
          → target_in id s ≡ no_target
          → (source_in id (add_instances sources targets is s) ≡ elim (find? (is_instance id) is) [
            | none ↦ source_in id s
            | some i ↦ at_or no_source i.source sources
          ])
            × (target_in id (add_instances sources targets is s)
                ≡ elim (find? (is_instance id) is) [
                  | none ↦ no_target
                  | some i ↦ at_or no_target q.placement.target_name targets
                ])
      found_in [] s d has new = (refl, new)
      found_in (i ∷ is) s d has new = elim (Bool-cases (is_instance id i)) [
        | inl hit ↦
            let same = (==_iff i.uuid id).0 hit in
            let found = ap (λ u. lookup u s.queue_entries) same ∙ has in
            let (a, b) =
              add_instances-other is (add_instance sources targets i s) (rw same at d.0) in
            let (c, e) = add_if_queued-own i q s hit new in
            rw hit (
              a ∙ ap (λ o. source_in id (add_if_queued sources targets i o s)) found ∙ c,
              b ∙ ap (λ o. target_in id (add_if_queued sources targets i o s)) found ∙ e,
            )
        | inr miss ↦
            let o = lookup i.uuid s.queue_entries in
            let (c, e) = add_if_queued-other i o s miss in
            let (a, b) =
              found_in is (add_instance sources targets i s) d.1
                (ap (lookup id) (add_if_queued-entries i o s) ∙ has) (e ∙ new) in
            rw miss (
              a
                  ∙ ap
                      (λ z. elim (find? (is_instance id) is) [
                        | none ↦ z
                        | some j ↦ at_or no_source j.source sources
                      ])
                      c,
              b,
            )
      ]

-- Reading the state, inside a transaction or not, changes nothing of the world.
do_tx-reads :
    {A : Type 0} (m : M A) (a : A) (w : World)
    → w.commits ≡ true
    → ((v : World) → v.db ≡ w.db → v.commits ≡ true → m v ≡ (ok a, v))
    → do_tx m w ≡ (ok a, w)
unfolding do_tx close_tx
do_tx-reads m a w commits reads = elim (Bool-cases w.in_tx) [
  | inl e ↦ do_tx_nested m w e ∙ reads w refl commits
  | inr e ↦
      let same : (record w { in_tx = false }) ≡ w = ap (λ b. record w { in_tx = b }) (sym e) in
      ap (λ b. if b then m w else close_tx w.db (m (record w { in_tx = true }))) e
      ∙ ap (close_tx w.db) (reads (record w { in_tx = true }) refl commits)
      ∙ ap
          (λ b.
            if b
            then (ok a, record w { in_tx = false })
            else (err (failed "Failed commit transaction"), record w { in_tx = false }))
          commits
      ∙ ap (λ v. (ok a, v)) same
]

pub get_migration_state_reads :
    (p : BatchStatus → Bool) (ss : List MigrationStatus) (w : World)
    → w.commits ≡ true
    → do_tx (get_migration_state p ss) w ≡ (ok (gather_state p ss w.db), w)
unfolding get_migration_state query
get_migration_state_reads p ss w commits =
    do_tx-reads (get_migration_state p ss) (gather_state p ss w.db) w commits (λ v e c.
      do_tx-reads (query (λ d. ok (gather_state p ss d))) (gather_state p ss w.db) v c
        (λ u f g. ap (λ d. (ok (gather_state p ss d), u)) (f ∙ e)))

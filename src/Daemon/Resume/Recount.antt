-- ===== src/Daemon/Resume/Recount.antt =====
-- The rounds of the loop are the entries of the running batches, each once.
use mathlib.Core.List.{Memᴰ}
use migration_manager.Prelude.{
  ℕ, eq_iff, Bool, false, ◌&&◌, ◌||◌, ◌+◌, List, [], ◌∷◌, map, ◌≡◌, refl, ◌∙◌, sym, ap, arith,
  is_some, Bool-cases, inl, inr, is_empty,
}
use migration_manager.Prelude.Map.{nat_eq, string_eq, lookup, index}
use migration_manager.Prelude.Table.{count, filter, any}
use migration_manager.Prelude.Count.{
  Distinct, count-none, any-none, count-filter, filter-none, count-or, filter-Distinct, index-pairs,
  count-agree, count-append,
}
use migration_manager.Api.Status.{MigrationStatus, is_running}
use migration_manager.Api.Types.{QueueEntry, Batch, Instance, Source, Target}
use migration_manager.Store.{Db}
use migration_manager.Store.Repo.{
  in_batch, is_batch, get_queue_by_state, get_batches_by_state, any_status,
}
use migration_manager.Queue.NextWindow.{get_all_queued}
use migration_manager.Queue.Handler.{
  MigrationState, BatchMigrationState, by_batch, with_entries, add_instances, blank, gather_state,
}
use migration_manager.Queue.Handler.Laws.{at_or-by_batch, lookup-by_batch, add_instances-entries}
use migration_manager.Daemon.Resume.{Round, rounds_in, rounds_of}

-- Rows that the tables cannot hold twice.
pub record IsKeyed (d : Db) : Type 0 where
  pub entries : Distinct (λ (q : QueueEntry). q.instance_uuid) d.queue
  pub batches : Distinct (λ (b : Batch). b.name) d.batches
  pub instances : Distinct (λ (i : Instance). i.uuid) d.instances

count-rounds_in :
    (f : Round → Bool) (s : MigrationState) (qs : List QueueEntry)
    → count f (rounds_in s (map (λ (q : QueueEntry). (q.instance_uuid, q)) qs))
      ≡ count (λ q. f (s, q.instance_uuid, q)) qs
count-rounds_in f s [] = refl
count-rounds_in f s (q ∷ qs) = ground (arith, count-rounds_in f s qs)

-- The entries of some batches, one batch after the other.
abbrev in_all : (QueueEntry → Bool) → List QueueEntry → List Batch → ℕ
in_all g qs [] = 0
in_all g qs (b ∷ bs) = count g (filter (in_batch b.name) qs) + in_all g qs bs

-- A batch without entries adds nothing.
in_all-with_entries :
    (g : QueueEntry → Bool) (qs : List QueueEntry) (bs : List Batch)
    → in_all g qs (with_entries (by_batch qs []) bs) ≡ in_all g qs bs
in_all-with_entries g qs [] = refl
in_all-with_entries g qs (b ∷ bs) =
    let queue = by_batch qs [] in
    elim (Bool-cases (is_some (lookup b.name queue))) [
      | inl hit ↦
          rw hit (ap (λ n. count g (filter (in_batch b.name) qs) + n) (in_all-with_entries g qs bs))
      | inr miss ↦
          let empty =
            filter-none (in_batch b.name) qs (sym (lookup-by_batch b.name qs []) ∙ miss) in
          rw (miss, empty) (omega (arith, in_all-with_entries g qs bs))
    ]

-- Batches with distinct names share no entry.
in_all-any :
    (g : QueueEntry → Bool) (qs : List QueueEntry) (bs : List Batch)
    → Distinct (λ (b : Batch). b.name) bs
    → in_all g qs bs ≡ count (λ q. any (is_batch q.batch_name) bs && g q) qs
in_all-any g qs [] d = sym (count-none (λ q. false && g q) qs (λ q. refl))
in_all-any g qs (b ∷ bs) d =
    ap (λ n. n + in_all g qs bs) (count-filter g (in_batch b.name) qs)
    ∙ ap (λ n. count (λ q. in_batch b.name q && g q) qs + n) (in_all-any g qs bs d.1)
    ∙ count-or (λ q. in_batch b.name q && g q) (λ q. any (is_batch q.batch_name) bs && g q)
        (λ q. any (is_batch q.batch_name) (b ∷ bs) && g q) qs apart either
  where
    apart :
        (q : QueueEntry)
        → ((in_batch b.name q && g q) && (any (is_batch q.batch_name) bs && g q)) ≡ false
    apart q = elim (Bool-cases (in_batch b.name q)) [
      | inl hit ↦
          let same = (eq_iff q.batch_name b.name).0 hit in
          ground (arith, any-none (is_batch q.batch_name) bs (rw same d.0))
      | inr miss ↦ rw miss refl
    ]

    either :
        (q : QueueEntry)
        → (any (is_batch q.batch_name) (b ∷ bs) && g q)
          ≡ ((in_batch b.name q && g q) || (any (is_batch q.batch_name) bs && g q))
    either q = ground (arith, eq_iff q.batch_name b.name, eq_iff b.name q.batch_name)

module _ (d : Db) (ss : List MigrationStatus) where
  abbrev pub entries_of : List QueueEntry
  entries_of = get_queue_by_state ss d

  -- The state that the loop sees of a batch.
  abbrev pub state_of : Batch → MigrationState
  state_of b =
      add_instances (index (λ (s : Source). s.name) (λ s. s) d.sources [])
        (index (λ (t : Target). t.name) (λ t. t) d.targets []) (get_all_queued entries_of d)
        (blank d (by_batch entries_of []) b)

  abbrev pub own_entries : Batch → List QueueEntry
  own_entries b = filter (in_batch b.name) entries_of

  abbrev pub running_batches : List Batch
  running_batches = get_batches_by_state is_running d

  abbrev pub states : BatchMigrationState
  states = gather_state is_running ss d

  pub entries-Distinct : IsKeyed d → Distinct (λ (q : QueueEntry). q.instance_uuid) entries_of
  unfolding get_queue_by_state
  entries-Distinct k = elim (Bool-cases (is_empty ss)) [
    | inl e ↦ rw e k.entries
    | inr e ↦
        rw e
          (filter-Distinct (λ (q : QueueEntry). q.instance_uuid) (any_status ss) d.queue k.entries)
  ]

  pub own-Distinct :
      IsKeyed d → (b : Batch) → Distinct (λ (q : QueueEntry). q.instance_uuid) (own_entries b)
  own-Distinct k b =
      filter-Distinct (λ (q : QueueEntry). q.instance_uuid) (in_batch b.name) entries_of
        (entries-Distinct k)

  -- The map of a batch's entries, row by row.
  pub blank-entries :
      IsKeyed d
      → (b : Batch)
      → (blank d (by_batch entries_of []) b).queue_entries
        ≡ map (λ (q : QueueEntry). (q.instance_uuid, q)) (own_entries b)
  blank-entries k b =
      at_or-by_batch b.name entries_of []
      ∙ index-pairs (λ (q : QueueEntry). q.instance_uuid) (λ q. q) (own_entries b)
          (own-Distinct k b)

  state_of-entries :
      IsKeyed d
      → (b : Batch)
      → (state_of b).queue_entries ≡ map (λ (q : QueueEntry). (q.instance_uuid, q)) (own_entries b)
  state_of-entries k b =
      add_instances-entries (index (λ (s : Source). s.name) (λ s. s) d.sources [])
        (index (λ (t : Target). t.name) (λ t. t) d.targets []) (get_all_queued entries_of d)
        (blank d (by_batch entries_of []) b)
      ∙ blank-entries k b

  count-rounds_of :
      (f : Round → Bool) (g : QueueEntry → Bool)
      → IsKeyed d
      → ((b : Batch) (q : QueueEntry)
          → Memᴰ q (own_entries b)
          → f (state_of b, q.instance_uuid, q) ≡ g q)
      → (bs : List Batch)
      → count f (rounds_of (map (λ (b : Batch). (b.name, state_of b)) bs)) ≡ in_all g entries_of bs
  count-rounds_of f g k reads [] = refl
  count-rounds_of f g k reads (b ∷ bs) =
      count-append f (rounds_in (state_of b) (state_of b).queue_entries)
        (rounds_of (map (λ (b : Batch). (b.name, state_of b)) bs))
      ∙ ap (λ n. n + count f (rounds_of (map (λ (b : Batch). (b.name, state_of b)) bs)))
          (ap (λ m. count f (rounds_in (state_of b) m)) (state_of-entries k b)
            ∙ count-rounds_in f (state_of b) (own_entries b)
            ∙ count-agree (λ q. f (state_of b, q.instance_uuid, q)) g (own_entries b) (reads b))
      ∙ ap (λ n. count g (own_entries b) + n) (count-rounds_of f g k reads bs)

  -- A count over the rounds is one over the entries of the running batches.
  pub count-states :
      (f : Round → Bool) (g : QueueEntry → Bool)
      → IsKeyed d
      → ((b : Batch) (q : QueueEntry)
          → Memᴰ q (own_entries b)
          → f (state_of b, q.instance_uuid, q) ≡ g q)
      → count f (rounds_of states)
        ≡ count (λ q. any (is_batch q.batch_name) running_batches && g q) entries_of
  unfolding gather_state get_batches_by_state
  count-states f g k reads =
      let named = with_entries (by_batch entries_of []) running_batches in
      let running =
        filter-Distinct (λ (b : Batch). b.name) (λ b. is_running b.status) d.batches k.batches in
      let distinct =
        filter-Distinct (λ (b : Batch). b.name)
          (λ b. is_some (lookup b.name (by_batch entries_of []))) running_batches running in
      ap (λ m. count f (rounds_of m)) (index-pairs (λ (b : Batch). b.name) state_of named distinct)
      ∙ count-rounds_of f g k reads named
      ∙ in_all-with_entries g entries_of running_batches
      ∙ in_all-any g entries_of running_batches running

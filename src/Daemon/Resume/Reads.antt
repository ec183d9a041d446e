-- ===== src/Daemon/Resume/Reads.antt =====
-- Which source, target and batch the loop finds for an entry.
use mathlib.Core.List.{Memᴰ}
use migration_manager.Prelude.{
  String, str_eq, eq_iff, Bool, true, false, ◌&&◌, List, [], ◌∷◌, ◌≡◌, ◌≢◌, refl, ◌∙◌, sym, ap,
  is_some, Option, none, some, Bool-cases, Option-cases, is_empty,
}
use migration_manager.Prelude.Map.{==_iff, beq_refl, nat_eq, string_eq, lookup, at_or, index}
use migration_manager.Prelude.Table.{find?, any, Mem-filter, Mem-any}
use migration_manager.Prelude.Count.{
  lookup-pairs, find?-filter, name_found, Distinct, filter-Distinct,
}
use migration_manager.Api.Status.{MigrationStatus}
use migration_manager.Api.Types.{QueueEntry, Batch, Instance, Source, Target}
use migration_manager.Store.{Db}
use migration_manager.Store.Repo.{in_batch, is_instance, has_uuid, get_instances_by_uuids}
use migration_manager.Queue.NextWindow.{get_all_queued}
use migration_manager.Queue.Handler.{no_source, no_target, blank, by_batch, source_in, target_in}
use migration_manager.Queue.Handler.Laws.{found_in, add_instances-batch}
use migration_manager.Daemon.Resume.{source_of, target_of}
use migration_manager.Daemon.Resume.Recount.{
  IsKeyed, entries_of, state_of, own_entries, own-Distinct, blank-entries,
}
use mathlib.Core.Logic.{inl, inr}

abbrev pub instance_of : Db → QueueEntry → Option Instance
instance_of d q = find? (is_instance q.instance_uuid) d.instances

-- The entry's instance is stored, and comes from this source.
abbrev pub is_from : Db → String → QueueEntry → Bool
is_from d n q = elim (instance_of d q) [ none ↦ false | some i ↦ str_eq i.source n ]

-- The entry's instance is stored, and is placed on this target.
abbrev pub is_to : Db → String → QueueEntry → Bool
is_to d n q = is_some (instance_of d q) && str_eq q.placement.target_name n

unnamed : (n : String) → n ≢ "" → str_eq "" n ≡ false
unnamed n named = elim (Bool-cases (str_eq "" n)) [
  | inl e ↦ absurd (named (sym ((eq_iff "" n).0 e)))
  | inr e ↦ e
]

any-nonempty : {A : Type 0} (p : A → Bool) (xs : List A) → any p xs ≡ true → is_empty xs ≡ false
any-nonempty p [] h = cc
any-nonempty p (x ∷ xs) h = refl

-- The name that a map filled by name gives for `w` is `n` just where `w` is, if `n` is a name there.
name_read :
    {V : Type 0} (name : V → String) (zero_value : V) (xs : List V) (w n : String)
    → name zero_value ≡ ""
    → n ≢ ""
    → any (λ x. str_eq (name x) n) xs ≡ true
    → str_eq (name (at_or zero_value w (index name (λ x. x) xs []))) n ≡ str_eq w n
name_read name z xs w n blank named stored =
    ap (λ x. str_eq x n) (name_found name z w xs [])
    ∙ elim (Bool-cases (any (λ x. str_eq (name x) w) xs)) [
      | inl hit ↦ rw hit refl
      | inr miss ↦ rw (miss, blank) (unnamed n named ∙ sym (other miss))
    ]
  where
    other : any (λ x. str_eq (name x) w) xs ≡ false → str_eq w n ≡ false
    other miss = elim (Bool-cases (str_eq w n)) [
      | inl e ↦
          let same = (eq_iff w n).0 e in
          let hit = ap (λ v. any (λ x. str_eq (name x) v) xs) same ∙ stored in cc
      | inr e ↦ e
    ]

module _ (d : Db) (ss : List MigrationStatus) (k : IsKeyed d) (b : Batch) (q : QueueEntry)
    (m : Memᴰ q (own_entries d ss b)) where
  -- The instances of the queued entries have this entry's.
  queued_instance :
      find? (is_instance q.instance_uuid) (get_all_queued (entries_of d ss) d) ≡ instance_of d q
  unfolding get_all_queued get_instances_by_uuids
  queued_instance =
      let (own, in_it) = Mem-filter (in_batch b.name) (entries_of d ss) m in
      let some_entry : any (has_uuid q.instance_uuid) (entries_of d ss) ≡ true =
        Mem-any (has_uuid q.instance_uuid) (entries_of d ss) own (beq_refl q.instance_uuid) in
      let filled = any-nonempty (has_uuid q.instance_uuid) (entries_of d ss) some_entry in
      rw filled (
        find?-filter (is_instance q.instance_uuid)
          (λ (i : Instance). any (has_uuid i.uuid) (entries_of d ss)) d.instances
          (λ i e.
            ap (λ u. any (has_uuid u) (entries_of d ss)) ((==_iff i.uuid q.instance_uuid).0 e)
            ∙ some_entry))

  queued-Distinct : Distinct (λ (i : Instance). i.uuid) (get_all_queued (entries_of d ss) d)
  unfolding get_all_queued get_instances_by_uuids
  queued-Distinct = elim (Bool-cases (is_empty (entries_of d ss))) [
    | inl e ↦ rw e tt
    | inr e ↦ rw e (
        filter-Distinct (λ (i : Instance). i.uuid) (λ i. any (has_uuid i.uuid) (entries_of d ss))
          d.instances k.instances)
  ]

  has_entry :
      lookup q.instance_uuid (blank d (by_batch (entries_of d ss) []) b).queue_entries ≡ some q
  has_entry =
      ap (lookup q.instance_uuid) (blank-entries d ss k b)
      ∙ lookup-pairs (λ (q : QueueEntry). q.instance_uuid) (λ q. q) q (own_entries d ss b)
          (own-Distinct d ss k b) m

  found :
      (source_in q.instance_uuid (state_of d ss b) ≡ elim (instance_of d q) [
        | none ↦ no_source
        | some i ↦ at_or no_source i.source (index (λ (s : Source). s.name) (λ s. s) d.sources [])
      ])
      × (target_in q.instance_uuid (state_of d ss b) ≡ elim (instance_of d q) [
        | none ↦ no_target
        | some i ↦
            at_or no_target q.placement.target_name
              (index (λ (t : Target). t.name) (λ t. t) d.targets [])
      ])
  found = rw queued_instance at (
      found_in (index (λ (s : Source). s.name) (λ s. s) d.sources [])
        (index (λ (t : Target). t.name) (λ t. t) d.targets []) q.instance_uuid q
        (get_all_queued (entries_of d ss) d) (blank d (by_batch (entries_of d ss) []) b)
        queued-Distinct has_entry refl)

  pub batch_read : (n : String) → str_eq (state_of d ss b).batch.name n ≡ str_eq q.batch_name n
  batch_read n =
      let (own, in_it) = Mem-filter (in_batch b.name) (entries_of d ss) m in
      ap (λ (c : Batch). str_eq c.name n)
        (add_instances-batch (index (λ (s : Source). s.name) (λ s. s) d.sources [])
          (index (λ (t : Target). t.name) (λ t. t) d.targets [])
          (get_all_queued (entries_of d ss) d) (blank d (by_batch (entries_of d ss) []) b))
      ∙ ap (λ x. str_eq x n) (sym ((eq_iff q.batch_name b.name).0 in_it))

  pub source_read :
      (n : String)
      → n ≢ ""
      → any (λ (s : Source). str_eq s.name n) d.sources ≡ true
      → str_eq (source_of (state_of d ss b) q.instance_uuid) n ≡ is_from d n q
  source_read n named stored =
      ap (λ (s : Source). str_eq s.name n) found.0 ∙ elim (Option-cases (instance_of d q)) [
        | inl e ↦ rw (e, is_from) (unnamed n named)
        | inr (i, e) ↦
            rw (e, is_from)
              (name_read (λ (s : Source). s.name) no_source d.sources i.source n refl named stored)
      ]

  pub target_read :
      (n : String)
      → n ≢ ""
      → any (λ (t : Target). str_eq t.name n) d.targets ≡ true
      → str_eq (target_of (state_of d ss b) q.instance_uuid) n ≡ is_to d n q
  target_read n named stored =
      ap (λ (t : Target). str_eq t.name n) found.1 ∙ elim (Option-cases (instance_of d q)) [
        | inl e ↦ rw e (unnamed n named)
        | inr (i, e) ↦ rw e (
            name_read (λ (t : Target). t.name) no_target d.targets q.placement.target_name n refl
              named stored)
      ]

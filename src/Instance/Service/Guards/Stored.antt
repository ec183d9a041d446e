-- ===== src/Instance/Service/Guards/Stored.antt =====
-- What the statements on instances leave in the tables.
use migration_manager.Prelude.{ℕ, true, List, Option, none, some, ◌≡◌, refl, sym, ap, ◌∙◌, arith}
use migration_manager.Prelude.Table.{find?, replace, find?-replace, find?-sound, find?-remove}
use migration_manager.Errors.{Result, failed, not_found, ok, err, ok-inj}
use migration_manager.Api.Types.{Instance, Source}
use migration_manager.Store.{Db}
use migration_manager.Store.Repo.{
  or_not_found, read_instance, get_instance, is_instance, get_source, is_source, with_row,
  update_instance, delete_instance, has_uuid, get_queue_entry,
}

module _ (id : ℕ) (d : Db) (i : Instance) where
  joined :
      (x : Instance) (r : Option Source)
      → or_not_found (elim r [ none ↦ none | some s ↦ some (with_row x.id s x) ]) ≡ ok i
      → (s : Source) × (r ≡ some s) × (i ≡ with_row x.id s x)
  joined x none h = cc
  joined x (some s) h = (s, refl, sym (ok-inj h))

  found_row :
      (o : Option Instance)
      → or_not_found (elim o [ none ↦ none | some x ↦ read_instance d.sources x ]) ≡ ok i
      → (x : Instance) × (s : Source) × (o ≡ some x)
        × (find? (is_source x.source) d.sources ≡ some s)
        × (i ≡ with_row x.id s x)
  found_row none h = cc
  found_row (some x) h =
      let (s, f, same) = joined x (find? (is_source x.source) d.sources) h in (x, s, refl, f, same)

  -- The rows that a read has joined.
  get_instance-rows :
      get_instance id d ≡ ok i
      → (x : Instance) × (s : Source) × (find? (is_instance id) d.instances ≡ some x)
        × (find? (is_source x.source) d.sources ≡ some s)
        × (i ≡ with_row x.id s x)
  unfolding get_instance
  get_instance-rows h = found_row (find? (is_instance id) d.instances) h

abbrev rewritten : Instance → Instance → Source → Db → Db
rewritten i x s d = record d {
  instances = replace (is_instance i.uuid) (with_row x.id s i) d.instances;
}

module _ (i : Instance) (d d' : Db) where
  written :
      (o : Option Instance) (r : Option Source)
      → elim o [
        | none ↦ err not_found
        | some x ↦ elim r [
          | none ↦ err (failed "Update \"instances\" entry failed")
          | some s ↦ ok (rewritten i x s d)
        ]
      ]
        ≡ ok d'
      → (x : Instance) × (s : Source) × (o ≡ some x) × (r ≡ some s) × (rewritten i x s d ≡ d')
  written none r h = cc
  written (some x) none h = cc
  written (some x) (some s) h = (x, s, refl, refl, ok-inj h)

  -- What an update that succeeds has found and written.
  update_instance-rows :
      update_instance i d ≡ ok d'
      → (x : Instance) × (s : Source) × (find? (is_instance i.uuid) d.instances ≡ some x)
        × (find? (is_source i.source) d.sources ≡ some s)
        × (rewritten i x s d ≡ d')
  unfolding update_instance
  update_instance-rows h =
      written (find? (is_instance i.uuid) d.instances) (find? (is_source i.source) d.sources) h

pub get_instance-uuid : (id : ℕ) (d : Db) (i : Instance) → get_instance id d ≡ ok i → i.uuid ≡ id
get_instance-uuid id d i h =
    let (x, s, e, f, same) = get_instance-rows id d i h in
    let own = find?-sound (is_instance id) d.instances {x = x} e in rw same (ground arith)

-- A read has the type of the instance's source.
pub get_instance-type :
    (id : ℕ) (d : Db) (i : Instance) (s : Source)
    → get_instance id d ≡ ok i
    → get_source i.source d ≡ ok s
    → s.source_type ≡ i.source_type
unfolding get_source
get_instance-type id d i s h g =
    let (x, t, e, f, same) = get_instance-rows id d i h in
    let named = rw (ap (λ (j : Instance). j.source) same, f) at g in
    ap (λ (j : Source). j.source_type) (sym (ok-inj named))
    ∙ sym (ap (λ (j : Instance). j.source_type) same)

pub get_instance-same :
    (id : ℕ) (c d : Db)
    → d.instances ≡ c.instances
    → d.sources ≡ c.sources
    → get_instance id d ≡ get_instance id c
unfolding get_instance
get_instance-same id c d e f = ap (λ is. reads is d.sources) e ∙ ap (reads c.instances) f
  where
    reads : List Instance → List Source → Result Instance
    reads is ss =
        or_not_found
          (elim (find? (is_instance id) is) [ none ↦ none | some i ↦ read_instance ss i ])

-- An instance that is updated is read back with the type of its source, and the queue is as it was.
pub update_instance-reads :
    (i old : Instance) (d d' : Db)
    → get_instance i.uuid d ≡ ok old
    → update_instance i d ≡ ok d'
    → (s : Source) × (get_source i.source d ≡ ok s)
      × (get_instance i.uuid d' ≡ ok (with_row old.id s i))
      × (d'.queue ≡ d.queue)
      × (d'.batches ≡ d.batches)
unfolding get_instance get_source
update_instance-reads i old d d' g u =
    let (x, t, e, _, same) = get_instance-rows i.uuid d old g in
    let (y, s, f, found, new) = update_instance-rows i d d' u in
    let own : is_instance i.uuid (with_row y.id s i) ≡ true = ground arith in
    let rows = find?-replace (is_instance i.uuid) (with_row y.id s i) d.instances {x = y} own f in
    let kept : y.id ≡ old.id =
      ap (λ (o : Option Instance). elim o [ none ↦ y.id | some z ↦ z.id ]) (sym f ∙ e)
      ∙ ap (λ (j : Instance). j.id) (sym same) in
    let read : get_instance i.uuid (rewritten i y s d) ≡ ok (with_row y.id s i) =
      ap (λ o. or_not_found (elim o [ none ↦ none | some z ↦ read_instance d.sources z ])) rows
      ∙ ap (λ r. or_not_found (elim r [ none ↦ none | some z ↦ some (with_row y.id z i) ])) found in
    (
      s,
      ap or_not_found found,
      ap (get_instance i.uuid) (sym new) ∙ read ∙ ap (λ n. ok (with_row n s i)) kept,
      ap (λ (z : Db). z.queue) (sym new),
      ap (λ (z : Db). z.batches) (sym new),
    )

pub delete_instance-removes :
    (id : ℕ) (d d' : Db)
    → delete_instance id d ≡ ok d'
    → (get_instance id d' ≡ err not_found) × (get_queue_entry id d' ≡ err not_found)
unfolding delete_instance get_instance get_queue_entry
delete_instance-removes id d d' h =
    ground (arith, find?-remove (is_instance id) d.instances, find?-remove (has_uuid id) d.queue)

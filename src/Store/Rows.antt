-- ===== src/Store/Rows.antt =====
-- The rows of the queue table through the statements that change it.
use migration_manager.Prelude.{
  ℕ, Bool, not, ◌≡◌, ◌≢◌, refl, List, [], ◌∷◌, some, Option-cases, Bool-cases, inl, inr, arith,
  Option, none, ap, ◌∙◌,
}
use migration_manager.Prelude.Table.{
  find?, filter, replace, remove, snoc, All, find?-replace, find?-sound, find?-replace_other,
}
use migration_manager.Errors.{ok}
use migration_manager.Api.Types.{QueueEntry}
use migration_manager.Prelude.Int.{ℤ, pos}
use migration_manager.Prelude.Map.{insert, lookup, lookup-insert, beq_refl, nat_eq}
use migration_manager.Store.State.{Db}
use migration_manager.Store.Links.{shown_window, link_window-name}
use migration_manager.Store.Repo.{
  get_queue_entry, update_queue_entry, create_queue_entry, delete_queue_entry, has_uuid,
  link_window, window_id, window_id_of,
}

module _ (P : QueueEntry → Type 0) where
  All-replace :
      (p : QueueEntry → Bool) (a : QueueEntry) (xs : List QueueEntry)
      → P a
      → All P xs
      → All P (replace p a xs)
  All-replace p a [] h all = tt
  All-replace p a (x ∷ xs) h (px, all) = elim (Bool-cases (p x)) [
    | inl e ↦ rw e (h, All-replace p a xs h all)
    | inr e ↦ rw e (px, All-replace p a xs h all)
  ]

  pub All-filter : (p : QueueEntry → Bool) (xs : List QueueEntry) → All P xs → All P (filter p xs)
  All-filter p [] all = tt
  All-filter p (x ∷ xs) (px, all) = elim (Bool-cases (p x)) [
    | inl e ↦ rw e (px, All-filter p xs all)
    | inr e ↦ rw e (All-filter p xs all)
  ]

  All-snoc : (a : QueueEntry) (xs : List QueueEntry) → P a → All P xs → All P (snoc xs a)
  All-snoc a [] h all = (h, tt)
  All-snoc a (x ∷ xs) h (px, all) = (px, All-snoc a xs h all)

  pub All-find? :
      (p : QueueEntry → Bool) (xs : List QueueEntry) {a : QueueEntry}
      → All P xs
      → find? p xs ≡ some a
      → P a
  All-find? p [] all e = cc
  All-find? p (x ∷ xs) {a} (px, all) e = elim (Bool-cases (p x)) [
    | inl hit ↦ let same : a ≡ x = ground arith in rw same px
    | inr miss ↦ All-find? p xs {a = a} all (ground arith)
  ]

  pub get_queue_entry-All :
      (id : ℕ) (d : Db) (q : QueueEntry) → All P d.queue → get_queue_entry id d ≡ ok q → P q
  unfolding get_queue_entry
  get_queue_entry-All id d q all h = elim (Option-cases (find? (has_uuid id) d.queue)) [
    | inl e ↦ ground arith
    | inr (x, e) ↦
        let same : q ≡ x = ground arith in rw same (All-find? (has_uuid id) d.queue all e)
  ]

  -- A property of rows that looks neither at the row id nor at the window survives each statement.
  module _
      (blind : (q : QueueEntry) (i : ℤ) (d : Db)
        → P q
        → P (record (link_window d q) { id = i })) where
    pub update-All :
        (q : QueueEntry) (d d' : Db)
        → P q
        → All P d.queue
        → update_queue_entry q d ≡ ok d'
        → All P d'.queue
    unfolding update_queue_entry
    update-All q d d' h all e = elim (Option-cases (find? (has_uuid q.instance_uuid) d.queue)) [
      | inl f ↦ ground arith
      | inr (old, f) ↦
          let new = record (link_window d q) { id = old.id } in
          let rows : d'.queue ≡ replace (has_uuid q.instance_uuid) new d.queue = ground arith in
          rw rows (All-replace (has_uuid q.instance_uuid) new d.queue (blind q old.id d h) all)
    ]

    pub create-All :
        (q : QueueEntry) (d d' : Db)
        → P q
        → All P d.queue
        → create_queue_entry q d ≡ ok d'
        → All P d'.queue
    unfolding create_queue_entry
    create-All q d d' h all e =
        let new = record (link_window d q) { id = pos d.next_id } in
        let rows : d'.queue ≡ snoc d.queue new = ground arith in
        rw rows (All-snoc new d.queue (blind q (pos d.next_id) d h) all)

  pub delete-All :
      (id : ℕ) (d d' : Db) → All P d.queue → delete_queue_entry id d ≡ ok d' → All P d'.queue
  unfolding delete_queue_entry
  delete-All id d d' all e =
      let rows : d'.queue ≡ remove (has_uuid id) d.queue = ground arith in
      rw rows (All-filter (λ q. not (has_uuid id q)) d.queue all)

-- The entry that a read by UUID returns has that UUID.
pub get_queue_entry-uuid :
    (id : ℕ) (d : Db) (q : QueueEntry) → get_queue_entry id d ≡ ok q → q.instance_uuid ≡ id
unfolding get_queue_entry
get_queue_entry-uuid id d q h = elim (Option-cases (find? (has_uuid id) d.queue)) [
  | inl e ↦ ground arith
  | inr (x, e) ↦ ground (arith, find?-sound (has_uuid id) d.queue {x = x} e)
]

get-update_same :
    (q : QueueEntry) (d d' : Db)
    → update_queue_entry q d ≡ ok d'
    → (old : QueueEntry) × (get_queue_entry q.instance_uuid d ≡ ok old)
      × (get_queue_entry q.instance_uuid d' ≡ ok (record (link_window d q) { id = old.id }))
unfolding update_queue_entry get_queue_entry
get-update_same q d d' h = elim (Option-cases (find? (has_uuid q.instance_uuid) d.queue)) [
  | inl f ↦ ground arith
  | inr (old, f) ↦
      let new = record (link_window d q) { id = old.id } in
      let rows : d'.queue ≡ replace (has_uuid q.instance_uuid) new d.queue = ground arith in
      (
        old,
        rw f refl,
        rw rows (rw (find?-replace (has_uuid q.instance_uuid) new d.queue (ground arith) f) refl),
      )
]

-- The new row refers to the window that was found.
refers-update :
    (q : QueueEntry) (d d' : Db)
    → update_queue_entry q d ≡ ok d'
    → window_id_of q.instance_uuid d'.window_ids ≡ window_id d q
unfolding update_queue_entry
refers-update q d d' h = elim (Option-cases (find? (has_uuid q.instance_uuid) d.queue)) [
  | inl f ↦ ground arith
  | inr (old, f) ↦
      let ids : d'.window_ids ≡ insert q.instance_uuid (window_id d q) d.window_ids =
        ground arith in
      let found : lookup q.instance_uuid d'.window_ids ≡ some (window_id d q) =
        ap (lookup q.instance_uuid) ids
        ∙ lookup-insert q.instance_uuid q.instance_uuid (window_id d q) d.window_ids
        ∙ rw (beq_refl q.instance_uuid) refl in
      ap (λ (o : Option (Option ℤ)). elim o [ none ↦ none | some i ↦ i ]) found
]

get-update_other :
    (q : QueueEntry) (id : ℕ) (d d' : Db)
    → update_queue_entry q d ≡ ok d'
    → id ≢ q.instance_uuid
    → get_queue_entry id d' ≡ get_queue_entry id d
unfolding update_queue_entry get_queue_entry
get-update_other q id d d' h ne = elim (Option-cases (find? (has_uuid q.instance_uuid) d.queue)) [
  | inl f ↦ ground arith
  | inr (old, f) ↦
      let new = record (link_window d q) { id = old.id } in
      let rows : d'.queue ≡ replace (has_uuid q.instance_uuid) new d.queue = ground arith in
      rw rows (
        rw
          (find?-replace_other (has_uuid q.instance_uuid) (has_uuid id) new d.queue
            (λ x e. ground arith) (ground arith))
          refl)
]

-- After an update of a queue entry that succeeds there was a row to update. A read finds the new entry
-- under the id of the old one, and with the new entry's window if some batch, its own or another, has
-- a window of that name, and without a window otherwise. The row refers to the window that was found,
-- and a read of any other instance finds what it found before.
pub get-update :
    (q : QueueEntry) (d d' : Db)
    → update_queue_entry q d ≡ ok d'
    → (old : QueueEntry) × (get_queue_entry q.instance_uuid d ≡ ok old)
      × (get_queue_entry q.instance_uuid d'
          ≡ ok (record q {
            id = old.id;
            migration_window_name = shown_window d q.migration_window_name;
          }))
      × (window_id_of q.instance_uuid d'.window_ids ≡ window_id d q)
      × ((id : ℕ) → id ≢ q.instance_uuid → get_queue_entry id d' ≡ get_queue_entry id d)
get-update q d d' h =
    let (old, found, stored) = get-update_same q d d' h in
    (
      old,
      found,
      stored
          ∙ ap (λ n. ok (record q { id = old.id; migration_window_name = n }))
              (link_window-name d q),
      refers-update q d d' h,
      λ id ne. get-update_other q id d d' h ne,
    )

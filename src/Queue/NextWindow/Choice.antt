-- ===== src/Queue/NextWindow/Choice.antt =====
-- queue_service.go: which window `GetNextWindow` may return.
use migration_manager.Prelude.{
  ◌≡◌, refl, ◌≢◌, ◌⊎◌, inl, inr, true, false, not, ◌&&◌, List, [], ◌∷◌, Option, none, some, arith,
  Bool-cases, Option-cases, ◌∙◌,
}
use migration_manager.Prelude.Int.{ℤ, pos, ◌≤ℤ◌}
use migration_manager.Prelude.Count.{Distinct}
use migration_manager.Prelude.Map.{nat_eq}
use migration_manager.Prelude.Table.{
  count, filter, All, find?-Mem, find?-sound, Mem-filter, filter-nil,
}
use mathlib.Core.List.{Memᴰ}
use migration_manager.Errors.{ok, Result-cases}
use migration_manager.Env.{Env}
use migration_manager.Api.Types.{QueueEntry, Window, BatchConstraint}
use migration_manager.Window.{ended, get_earliest, empty_window, begun, fits_duration}
use migration_manager.Window.Earliest.{get_earliest_sound}
use migration_manager.Store.Transaction.{do_tx, do_tx-query}
use migration_manager.Store.{Db, World, query, ◌>>=◌, lift}
use migration_manager.Store.Repo.{get_windows_by_batch, get_all_queue}
use migration_manager.Queue.NextWindow.Limit.{takes_place, count_matches-takes, within_limit-le}
use migration_manager.Queue.NextWindow.{
  Gathered, gather, choose, assigned_window, find_constraint, by_constraint, count_matches,
  within_limit, is_available, has_window, get_next_window, get_batch_by_name,
}

-- A window of the list that fits some duration, or no restriction when the list is empty.
abbrev pub IsEarliest : Env → Gathered → Window → Type 0
IsEarliest env g w =
    ((g.windows ≡ []) × (w ≡ empty_window))
    ⊎ ((d : ℤ) × Memᴰ w g.windows × (fits_duration env d w ≡ true))

get_earliest-fits :
    (env : Env) (d : ℤ) (g : Gathered) (w : Window)
    → get_earliest env d g.windows ≡ ok w
    → ((g.windows ≡ []) × (w ≡ empty_window)) ⊎ (Memᴰ w g.windows × (fits_duration env d w ≡ true))
unfolding get_earliest
get_earliest-fits env d g w h = go g.windows refl h
  where
    go :
        (ws : List Window)
        → g.windows ≡ ws
        → get_earliest env d ws ≡ ok w
        → ((g.windows ≡ []) × (w ≡ empty_window))
          ⊎ (Memᴰ w g.windows × (fits_duration env d w ≡ true))
    go [] e h = inl (e, ground arith)
    go (v ∷ ws) e h =
        let (m, f, _) = get_earliest_sound env d (v ∷ ws) w (λ x. cc) h in inr (rw e m, f)

get_earliest-IsEarliest :
    (env : Env) (d : ℤ) (g : Gathered) (w : Window)
    → get_earliest env d g.windows ≡ ok w
    → IsEarliest env g w
get_earliest-IsEarliest env d g w h = elim (get_earliest-fits env d g w h) [
  | inl empty ↦ inl empty
  | inr (m, f) ↦ inr (d, m, f)
]

by_constraint-IsEarliest :
    (env : Env) (q : QueueEntry) (g : Gathered) (c : Option BatchConstraint) (w : Window)
    → by_constraint env q g c ≡ ok w
    → IsEarliest env g w
unfolding by_constraint
by_constraint-IsEarliest env q g none w h = get_earliest-IsEarliest env (pos 0) g w h
by_constraint-IsEarliest env q g (some c) w h =
    elim (Result-cases (count_matches env q g.entries c.include_expression g.instances)) [
      | inr (x, e) ↦ ground arith
      | inl (n, e) ↦ elim (Bool-cases (within_limit c n)) [
        | inl fits ↦ get_earliest-IsEarliest env c.min_instance_boot_time g w (ground arith)
        | inr over ↦ ground arith
      ]
    ]

-- The window of a choice is the entry's own, which has not ended, or one that fits, or there was
-- none to choose from.
pub choose_sound :
    (env : Env) (q : QueueEntry) (g : Gathered) (w : Window)
    → choose env q g ≡ ok w
    → (Memᴰ w g.windows × (has_window w.name q ≡ true) × (ended env w ≡ false)) ⊎ IsEarliest env g w
unfolding choose assigned_window
choose_sound env q g w h = elim (Option-cases (assigned_window env q g.windows)) [
  | inl e ↦ elim (Result-cases (find_constraint env q g.instances g.batch)) [
    | inl (c, f) ↦ inr (by_constraint-IsEarliest env q g c w (ground arith))
    | inr (x, f) ↦ ground arith
  ]
  | inr (v, e) ↦
      let same : v ≡ w = ground arith in
      let found = rw same at e in
      let test =
        find?-sound (λ (x : Window). has_window x.name q && not (ended env x)) g.windows found in
      inl (find?-Mem _ g.windows found, ground arith, ground arith)
]

-- Where the constraint that matches an entry's instance has a limit other than 0, and no instance has
-- two entries, an entry with no window of its own gets one only if the instances that match the
-- constraint, and are the entry's own or have an entry that is no longer idle, are together within
-- the limit. The window then has room for the boot time of the constraint, or there is none to choose
-- from and it is the empty one.
pub choose-within_limit :
    (env : Env) (q : QueueEntry) (g : Gathered) (c : BatchConstraint) (w : Window)
    → assigned_window env q g.windows ≡ none
    → find_constraint env q g.instances g.batch ≡ ok (some c)
    → choose env q g ≡ ok w
    → c.max_concurrent_instances ≢ pos 0
    → Distinct (λ (x : QueueEntry). x.instance_uuid) g.entries
    → (pos (count (takes_place env q g.entries c.include_expression) g.instances)
        ≤ℤ c.max_concurrent_instances)
      × (((g.windows ≡ []) × (w ≡ empty_window))
          ⊎ (Memᴰ w g.windows × (fits_duration env c.min_instance_boot_time w ≡ true)))
unfolding choose by_constraint
choose-within_limit env q g c w unassigned found h limited one =
    elim (Result-cases (count_matches env q g.entries c.include_expression g.instances)) [
      | inr (x, e) ↦ ground arith
      | inl (n, e) ↦
          let places =
            count_matches-takes env q g.entries c.include_expression g.instances n one e in
          let fits : within_limit c n ≡ true = ground arith in
          let earliest : get_earliest env c.min_instance_boot_time g.windows ≡ ok w =
            ground arith in
          (
            within_limit-le c n _ limited fits places,
            get_earliest-fits env c.min_instance_boot_time g w earliest,
          )
    ]

gather-windows :
    (q : QueueEntry) (d : Db) (g : Gathered)
    → gather q d ≡ ok g
    → g.windows ≡ filter (is_available q (get_all_queue d)) (get_windows_by_batch q.batch_name d)
unfolding gather
gather-windows q d g h = elim (Result-cases (get_batch_by_name q.batch_name d)) [
  | inl (b, e) ↦ ground arith
  | inr (x, e) ↦ ground arith
]

-- When every window of the batch is at capacity, and no constraint matches, the entry is not told
-- to wait: it gets the empty window, which has always begun.
pub choose_at_capacity :
    (env : Env) (q : QueueEntry) (d : Db) (g : Gathered)
    → gather q d ≡ ok g
    → All (λ w. is_available q d.queue w ≡ false) (get_windows_by_batch q.batch_name d)
    → find_constraint env q g.instances g.batch ≡ ok none
    → (choose env q g ≡ ok empty_window) × (begun env empty_window ≡ true)
unfolding choose by_constraint get_earliest begun assigned_window
choose_at_capacity env q d g h full free =
    let nothing : g.windows ≡ [] =
      gather-windows q d g h
      ∙ filter-nil (is_available q d.queue) (get_windows_by_batch q.batch_name d) full in
    (rw (nothing, free) (ground arith), refl)

-- The windows to choose from are those of the batch that are available.
Mem-gathered :
    (q : QueueEntry) (d : Db) (g : Gathered) (v : Window)
    → gather q d ≡ ok g
    → Memᴰ v g.windows
    → Memᴰ v (get_windows_by_batch q.batch_name d) × (is_available q d.queue v ≡ true)
Mem-gathered q d g v e m =
    Mem-filter (is_available q d.queue) (get_windows_by_batch q.batch_name d)
      (rw (gather-windows q d g e) at m)

-- What the entry may do with the window.
abbrev pub IsUsable : Env → QueueEntry → Window → Type 0
IsUsable env q v =
    ((has_window v.name q ≡ true) × (ended env v ≡ false))
    ⊎ ((d : ℤ) × (fits_duration env d v ≡ true))

-- The window is one of the entry's batch, and below its capacity or the entry's own.
abbrev pub IsOffered : QueueEntry → Db → Window → Type 0
IsOffered q d v = Memᴰ v (get_windows_by_batch q.batch_name d) × (is_available q d.queue v ≡ true)

choose-IsOffered :
    (env : Env) (q : QueueEntry) (d : Db) (g : Gathered) (v : Window)
    → gather q d ≡ ok g
    → choose env q g ≡ ok v
    → (v ≡ empty_window) ⊎ (IsOffered q d v × IsUsable env q v)
choose-IsOffered env q d g v e h = elim (choose_sound env q g v h) [
  | inl (m, own, open_still) ↦ inr (Mem-gathered q d g v e m, inl (own, open_still))
  | inr (inl (_, none_left)) ↦ inl none_left
  | inr (inr (t, m, fits)) ↦ inr (Mem-gathered q d g v e m, inr (t, fits))
]

-- What `GetNextWindow` returns is the empty window, or a window of the entry's batch that is below its
-- capacity or the entry's own, and that is the entry's own and has not ended or fits some duration.
-- The tables are not changed.
pub get_next_window_sound :
    (env : Env) (q : QueueEntry) (w : World) (v : Window)
    → (get_next_window env q w).0 ≡ ok v
    → ((get_next_window env q w).1.db ≡ w.db)
      × ((v ≡ empty_window) ⊎ (IsOffered q w.db v × IsUsable env q v))
unfolding get_next_window ◌>>=◌ lift
get_next_window_sound env q w v h = elim (Result-cases (do_tx (query (gather q)) w).0) [
  | inr (x, e) ↦ ground arith
  | inl (g, e) ↦
      let (same, read) = do_tx-query (gather q) w in
      let chosen : choose env q g ≡ ok v = ground arith in
      (ground arith, choose-IsOffered env q w.db g v (read g e) chosen)
]

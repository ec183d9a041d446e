-- ===== src/Store/Links.antt =====
-- queue.mapper.go, the subselect of `queueEntryCreate` and `queueEntryUpdate`: which window an entry has
-- after a write.
use migration_manager.Prelude.{
  String, eq_iff, Bool, true, false, if◌then◌else◌, ◌≡◌, refl, List, Option, none, some,
  Option-cases, Bool-cases, inl, inr, arith, [], ◌∷◌,
}
use migration_manager.Prelude.Table.{find?, any, find?-sound}
use migration_manager.Api.Types.{QueueEntry, Batch, Window}
use migration_manager.Store.State.{Db}
use migration_manager.Store.Repo.{window_named, is_window, link_window}

-- Some batch has a window of this name.
abbrev pub is_window_anywhere : String → Db → Bool
is_window_anywhere n d = any (λ (b : Batch). any (is_window n b.name) d.windows) d.batches

-- The name that the entry has for its window once it is written.
abbrev pub shown_window : Db → Option String → Option String
shown_window d none = none
shown_window d (some n) = if is_window_anywhere n d then some n else none

find?-any {ℓ} :
    {A : Type ℓ} (p : A → Bool) (xs : List A)
    → any p xs ≡ elim (find? p xs) [ none ↦ false | some x ↦ true ]
find?-any p [] = refl
find?-any p (x ∷ xs) = elim (Bool-cases (p x)) [ inl e ↦ rw e refl | inr e ↦ rw e (find?-any p xs) ]

window_named-name :
    (n : String) (d : Db)
    → elim (window_named n d) [ none ↦ none | some w ↦ some w.name ]
      ≡ (if is_window_anywhere n d then some n else none)
unfolding window_named
window_named-name n d =
    let has = λ (b : Batch). any (is_window n b.name) d.windows in
    elim (Option-cases (find? has d.batches)) [
      | inl e ↦ rw (find?-any has d.batches, e) refl
      | inr (b, e) ↦ elim (Option-cases (find? (is_window n b.name) d.windows)) [
        | inl f ↦
            let there = find?-sound has d.batches {x = b} e in
            cc (there, find?-any (is_window n b.name) d.windows, f)
        | inr (w, f) ↦
            let own = find?-sound (is_window n b.name) d.windows {x = w} f in
            let same : w.name ≡ n = ground (arith, eq_iff w.name n) in
            rw (find?-any has d.batches, e, f, same) refl
      ]
    ]

pub link_window-name :
    (d : Db) (q : QueueEntry)
    → (link_window d q).migration_window_name ≡ shown_window d q.migration_window_name
link_window-name d q = go q.migration_window_name
  where
    go :
        (o : Option String)
        → elim (elim o as (λ _. Option Window) [ none ↦ none | some n ↦ window_named n d ]) [
          | none ↦ none
          | some w ↦ some w.name
        ]
          ≡ shown_window d o
    go none = refl
    go (some n) = window_named-name n d

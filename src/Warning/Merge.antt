-- ===== src/Warning/Merge.antt =====
-- internal/migration/warning_service.go, `Emit`: one warning for each subject, with the messages of all.
use migration_manager.Prelude.{
  ℕ, String, str_eq, eq_refl, Bool, true, false, not, ◌&&◌, ◌||◌, List, [], ◌∷◌, ◌++◌, ◌≡◌, refl,
  sym, ap, ◌∙◌, Bool-cases, inl, inr, arith, eq_iff,
}
use mathlib.Core.List.{Memᴰ}
use migration_manager.Prelude.Int.{pos}
use migration_manager.Prelude.Table.{any, filter, remove, snoc}
use migration_manager.Errors.{ok, ok-inj}
use migration_manager.Api.Types.{Warning, WarningScope}
use migration_manager.Store.{Db, World}
use migration_manager.Store.Runs.{
  succeeded, Runs-do_tx, Runs-pure, on_check, on_query, on_guard, on_exec,
}
use migration_manager.Store.Repo.{
  get_warnings_by_scope, selects, same_subject, collides, upsert_warning,
}
use migration_manager.Warning.{contains_text, merge_messages, merge, is_ambiguous, scope_of, emit}

any-append : (p : String → Bool) (xs ys : List String) → any p (xs ++ ys) ≡ (any p xs || any p ys)
any-append p [] ys = refl
any-append p (x ∷ xs) ys = ground (arith, any-append p xs ys)

any-filter-not :
    (p q : String → Bool) (xs : List String) (b : Bool)
    → ((x : String) → p x ≡ true → q x ≡ b)
    → (any p (filter (λ x. not (q x)) xs) || b) ≡ (any p xs || b)
any-filter-not p q [] b h = refl
any-filter-not p q (x ∷ xs) b h = ground (arith, h x, any-filter-not p q xs b h)

-- The merged messages are those of both.
contains-merge_messages :
    (old new : List String) (m : String)
    → contains_text (merge_messages old new) m ≡ (contains_text old m || contains_text new m)
unfolding merge_messages
contains-merge_messages old new m =
    any-append (str_eq m) (filter (λ x. not (contains_text new x)) old) new
    ∙ any-filter-not (str_eq m) (contains_text new) old (contains_text new m)
        (λ x e. ap (contains_text new) (sym ((eq_iff m x).0 e)))

filter-snoc :
    (p : Warning → Bool) (xs : List Warning) (x : Warning)
    → p x ≡ true
    → filter p xs ≡ []
    → filter p (snoc xs x) ≡ x ∷ []
filter-snoc p [] x h e = rw h refl
filter-snoc p (y ∷ xs) x h e = elim (Bool-cases (p y)) [
  | inl k ↦ cc (rw k at e)
  | inr k ↦ rw k (filter-snoc p xs x h (rw k at e))
]

filter-remove :
    (p q : Warning → Bool) (xs : List Warning)
    → ((x : Warning) → p x ≡ true → q x ≡ true)
    → filter p (remove q xs) ≡ []
filter-remove p q [] h = refl
filter-remove p q (x ∷ xs) h = ground (arith, h x, filter-remove p q xs h)

Mem-snoc : (xs : List Warning) (x y : Warning) → Memᴰ y xs → Memᴰ y (snoc xs x)
Mem-snoc [] x y m = elim m [ ]
Mem-snoc (z ∷ xs) x y (Memᴰ.head e) = Memᴰ.head e
Mem-snoc (z ∷ xs) x y (Memᴰ.tail m) = Memᴰ.tail (Mem-snoc xs x y m)

Mem-remove :
    (q : Warning → Bool) (xs : List Warning) (x : Warning)
    → q x ≡ false
    → Memᴰ x xs
    → Memᴰ x (remove q xs)
Mem-remove q [] x h m = elim m [ ]
Mem-remove q (y ∷ xs) x h (Memᴰ.head e) = rw (rw e at h) (Memᴰ.head e)
Mem-remove q (y ∷ xs) x h (Memᴰ.tail m) = elim (Bool-cases (q y)) [
  | inl k ↦ rw k (Mem-remove q xs x h m)
  | inr k ↦ rw k (Memᴰ.tail (Mem-remove q xs x h m))
]

-- Some warning has the message.
abbrev pub has_message : String → List Warning → Bool
has_message m ws = any (λ (w : Warning). contains_text w.messages m) ws

merge-messages :
    (now : ℕ) (w : Warning) (olds : List Warning) (m : String)
    → is_ambiguous olds ≡ false
    → contains_text (merge now w olds).messages m
      ≡ (has_message m olds || contains_text w.messages m)
unfolding merge
merge-messages now w [] m h = refl
merge-messages now w (old ∷ []) m h =
    contains-merge_messages old.messages w.messages m ∙ ground arith
merge-messages now w (v ∷ x ∷ ws) m h = cc

-- The rows after the statement that stores a warning.
module _ (w : Warning) (k : ℕ) (ws : List Warning) where
  abbrev stored : Warning
  stored = record w { id = pos k }

  stored-alone :
      filter (λ v. same_subject v stored) (snoc (remove (collides w) ws) stored) ≡ stored ∷ []
  stored-alone =
      filter-snoc (λ v. same_subject v stored) (remove (collides w) ws) stored
        (rw (eq_refl w.warning_type, eq_refl w.scope, eq_refl w.entity_type, eq_refl w.entity) refl)
        (filter-remove (λ v. same_subject v stored) (collides w) ws (λ x e. rw e (or_true _)))
    where
      or_true : (b : Bool) → (b || true) ≡ true
      or_true b = ground arith

  stored-others :
      (v : Warning)
      → Memᴰ v ws
      → collides stored v ≡ false
      → Memᴰ v (snoc (remove (collides w) ws) stored)
  stored-others v m h = Mem-snoc _ stored v (Mem-remove (collides w) ws v h m)

get_warnings-selects :
    (s : WarningScope) (t : String) (d : Db) (ws : List Warning)
    → get_warnings_by_scope s t d ≡ ok ws
    → filter (selects s t) d.warnings ≡ ws
unfolding get_warnings_by_scope
get_warnings-selects s t d ws h =
    elim (Bool-cases (str_eq t "" || (str_eq s.entity_type "" && not (str_eq s.entity "")))) [
      | inl e ↦ cc (rw (e, get_warnings_by_scope) at h)
      | inr e ↦ ok-inj (rw (e, get_warnings_by_scope) at h)
    ]

-- If a warning is recorded, outside or inside a transaction, then the stored one is afterwards the only one of its
-- type, scope and entity, it has exactly the messages of the recorded one and of those that were selected by its type and scope before,
-- and every warning that differs from it in UUID and in type, scope or entity is still stored.
pub emit_merges :
    (now : ℕ) (w r : Warning) (s : World)
    → (emit now w s).0 ≡ ok r
    → (filter (λ v. same_subject v r) (emit now w s).1.db.warnings ≡ r ∷ [])
      × ((m : String)
          → contains_text r.messages m ≡ (
              has_message m (filter (selects (scope_of w) w.warning_type) s.db.warnings)
              || contains_text w.messages m))
      × ((v : Warning)
          → Memᴰ v s.db.warnings
          → collides r v ≡ false
          → Memᴰ v (emit now w s).1.db.warnings)
unfolding emit upsert_warning
emit_merges now w r s h = on_check (succeeded (emit now w) s r h) (λ valid t.
    on_query _ (Runs-do_tx _ s.db _ r t) (λ olds read t1. on_guard _ t1 (λ single t2.
      on_query _ t2 (λ n next t3. on_exec _ t3 (λ c write t4.
        let (same, last) = Runs-pure _ c _ r t4 in
        let rows = ap (λ (d : Db). d.warnings) (last ∙ sym (ok-inj write)) in
        let k = s.db.next_id in
        let chosen = get_warnings-selects (scope_of w) w.warning_type s.db olds read in
        let kept = ap (λ i. record (merge now w olds) { id = pos i }) (ok-inj next) in
        let own : r ≡ stored (merge now w olds) k s.db.warnings = same ∙ sym kept in
        let msgs = λ (m : String). merge-messages now w olds m single in
        rw own (
          rw rows (
            stored-alone (merge now w olds) k s.db.warnings,
            λ m. msgs m ∙ ap (λ l. has_message m l || contains_text w.messages m) (sym chosen),
            λ v m e. stored-others (merge now w olds) k s.db.warnings v m e,
          )))))))

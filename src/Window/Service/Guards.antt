-- ===== src/Window/Service/Guards.antt =====
-- internal/migration/window_service.go: what the windows of queue entries are protected from.
use migration_manager.Prelude.{
  String, Bool, true, false, not, ◌&&◌, ◌||◌, ◌==◌, ◌≤◌, ◌≡◌, ◌⊎◌, refl, inl, inr, List, [], ◌∷◌,
  Option, none, some, arith, ltb,
}
use mathlib.Core.Path.{subst}
use mathlib.Core.List.{Memᴰ}
use migration_manager.Prelude.Int.{pos, ltb_ℤ, eqb_ℤ}
use migration_manager.Prelude.Map.{Map, lookup, string_eq}
use migration_manager.Errors.{failed, Error, refuse_if, ◌>>◌, Result, ok, err, ok-inj}
use migration_manager.Env.{Env}
use migration_manager.Api.Types.{QueueEntry, Window}
use migration_manager.Store.{World}
use migration_manager.Store.Runs.{succeeded, Runs-do_tx, on_check, on_query}
use migration_manager.Store.Repo.{get_queue_by_batch, get_windows_by_batch}
use migration_manager.Window.Service.{
  by_name, check_window, check_found, check_entry, check_entries, validate_all, replace_by_batch,
}

-- The new window starts no later, has room for as many instances, and ends no earlier, if it ends at
-- all and so did the old one.
pub record Widens (old new : Window) : Type 0 where
  pub starts : new.start ≤ old.start
  pub ends : (new.end ≡ 0) ⊎ (old.end ≤ new.end)
  pub room :
      (eqb_ℤ new.capacity (pos 0) ≡ true)
      ⊎ ((eqb_ℤ old.capacity (pos 0) ≡ false) × (ltb_ℤ new.capacity old.capacity ≡ false))

refused-not :
    {C : Type 0} (b : Bool) (e : Error) (k : Result C) (x : C)
    → (refuse_if b e >> k) ≡ ok x
    → (b ≡ false) × (k ≡ ok x)
refused-not true e k x h = cc
refused-not false e k x h = (refl, h)

checked-first : (r k : Result (Unit {0})) → (r >> k) ≡ ok tt → (r ≡ ok tt) × (k ≡ ok tt)
checked-first (ok tt) k h = (refl, h)
checked-first (err e) k h = cc

check_window-Widens : (old new : Window) → check_window old new ≡ ok tt → Widens old new
check_window-Widens old new h =
    let late = ltb old.start new.start in
    let short = not (new.end == 0) && ltb new.end old.end in
    let small =
      not (eqb_ℤ new.capacity (pos 0))
      && (ltb_ℤ new.capacity old.capacity || eqb_ℤ old.capacity (pos 0)) in
    let third = refuse_if small (failed "Window capacity cannot be reduced") in
    let second = refuse_if short (failed "Window end time cannot be reduced") >> third in
    let (a, h1) = refused-not late (failed "Window start time cannot be increased") second tt h in
    let (b, h2) = refused-not short (failed "Window end time cannot be reduced") third tt h1 in
    let c = last small (failed "Window capacity cannot be reduced") h2 in
    record {
      starts = ground arith;
      ends = ground arith;
      room = room_cases (eqb_ℤ new.capacity (pos 0)) (ltb_ℤ new.capacity old.capacity) _ c;
    }
  where
    last : (b : Bool) (e : Error) → refuse_if b e ≡ ok tt → b ≡ false
    last true e h = cc
    last false e h = refl

    room_cases :
        (x y z : Bool) → (not x && (y || z)) ≡ false → (x ≡ true) ⊎ ((z ≡ false) × (y ≡ false))
    room_cases true y z h = inl refl
    room_cases false false false h = inr (refl, refl)
    room_cases false false true h = cc
    room_cases false true z h = cc

check_found-Widens :
    (old : Window) (new : Option Window)
    → check_found (some old) new ≡ ok tt
    → (n : Window) × (new ≡ some n) × Widens old n
check_found-Widens old none h = cc
check_found-Widens old (some n) h = (n, refl, check_window-Widens old n h)

check_entries-Mem :
    (olds news : Map String Window) (qs : List QueueEntry) {q : QueueEntry}
    → check_entries olds news qs ≡ ok tt
    → Memᴰ q qs
    → check_entry olds news q ≡ ok tt
unfolding check_entries
check_entries-Mem olds news [] h m = elim m [ ]
check_entries-Mem olds news (x ∷ qs) {q} h (Memᴰ.head e) =
    rw e (checked-first (check_entry olds news x) _ h).0
check_entries-Mem olds news (x ∷ qs) {q} h (Memᴰ.tail m) =
    check_entries-Mem olds news qs {q = q} (checked-first (check_entry olds news x) _ h).1 m

check_entry-Widens :
    (olds news : Map String Window) (q : QueueEntry) (n : String) (old : Window)
    → q.migration_window_name ≡ some n
    → lookup n olds ≡ some old
    → check_entry olds news q ≡ ok tt
    → (w : Window) × (lookup n news ≡ some w) × Widens old w
check_entry-Widens olds news q n old e l h = check_found-Widens old (lookup n news) (rw (e, l) at h)

-- If the windows of a batch are replaced, outside or inside a transaction, then the new windows
-- were valid, and for each entry of the batch that is assigned to one of the batch's windows the new windows have
-- one of the same name, which starts no later, ends no earlier than the old one where it ends, and has
-- no less capacity.
pub replace_by_batch-Widens :
    (env : Env) (order : List Window → List Window) (batch : String) (ws : List Window) (w : World)
    (u : Unit {0})
    → (replace_by_batch env order batch ws w).0 ≡ ok u
    → (validate_all env ws ≡ ok tt)
      × ((q : QueueEntry) (n : String) (old : Window)
          → Memᴰ q (get_queue_by_batch batch w.db)
          → q.migration_window_name ≡ some n
          → lookup n (by_name [] (get_windows_by_batch batch w.db)) ≡ some old
          → (new : Window) × (lookup n (by_name [] ws) ≡ some new) × Widens old new)
unfolding replace_by_batch
replace_by_batch-Widens env order batch ws w u h =
    on_check (succeeded (replace_by_batch env order batch ws) w u h) (λ valid t.
      on_query _ (Runs-do_tx _ w.db _ u t) (λ olds read t1. on_query _ t1 (λ qs queued t2.
        on_check t2 (λ passed t3. (
          valid,
          λ q n old m e l.
              check_entry-Widens (by_name [] olds) (by_name [] ws) q n old e
                (subst (λ x. lookup n (by_name [] x) ≡ some old) (ok-inj read) l)
                (check_entries-Mem _ _ qs {q = q} passed (subst (Memᴰ q) (ok-inj queued) m)),
        )))))

-- ===== src/Window/Service.antt =====
-- internal/migration/window_service.go: the operations on the windows of a batch.
pub mod Guards
use migration_manager.Prelude.{
  String, str_eq, Bool, true, false, not, ◌&&◌, ◌||◌, ◌==◌, List, [], ◌∷◌, Option, none, some,
  is_some, ltb,
}
use migration_manager.Prelude.Int.{pos, ltb_ℤ, eqb_ℤ}
use migration_manager.Prelude.Table.{any}
use migration_manager.Prelude.Map.{Map, lookup, insert, string_eq}
use migration_manager.Errors.{Result, ok, failed, refuse_if, ◌>>=◌, ◌>>◌}
use migration_manager.Env.{Env}
use migration_manager.Api.Types.{QueueEntry, Window}
use migration_manager.Window.{validate}
use migration_manager.Store
use migration_manager.Store.{M, pure, raise_if, lift, query, exec, when}
use migration_manager.Store.Transaction.{do_tx}
use migration_manager.Store.Repo.{
  get_queue_by_batch, get_windows_by_batch, create_window, update_window, delete_window,
}

-- `q.GetWindowName()` is this name.
abbrev pub is_assigned : String → QueueEntry → Bool
is_assigned n q = elim q.migration_window_name [ none ↦ false | some m ↦ str_eq m n ]

-- `DeleteByNameAndBatch`.
unfoldable pub delete_by_name_and_batch : String → String → M (Unit {0})
delete_by_name_and_batch name batch = do_tx (
    Store.◌>>=◌ (query (λ d. ok (get_queue_by_batch batch d))) (λ qs.
      Store.◌>>◌
        (raise_if (any (is_assigned name) qs)
          (failed "Cannot delete migration window because it is assigned to queue entry"))
        (exec (delete_window name batch))))

-- A map from the names: of two windows of one name the last counts.
abbrev pub by_name : Map String Window → List Window → Map String Window
by_name m [] = m
by_name m (w ∷ ws) = by_name (insert w.name w m) ws

-- The first loop, which validates.
unfoldable pub validate_all : Env → List Window → Result (Unit {0})
validate_all env [] = ok tt
validate_all env (w ∷ ws) = let rest = validate_all env ws in do validate env w; rest

-- What an assigned window must not lose.
abbrev pub check_window : Window → Window → Result (Unit {0})
check_window old new = do
  refuse_if (ltb old.start new.start) (failed "Window start time cannot be increased")
  refuse_if (not (new.end == 0) && ltb new.end old.end) (failed "Window end time cannot be reduced")
  refuse_if
      (not (eqb_ℤ new.capacity (pos 0))
        && (ltb_ℤ new.capacity old.capacity || eqb_ℤ old.capacity (pos 0)))
      (failed "Window capacity cannot be reduced")

-- The check for one entry, by its old window and its new one.
abbrev pub check_found : Option Window → Option Window → Result (Unit {0})
check_found none new = ok tt
check_found (some old) none = refuse_if true (failed "Window cannot be removed or renamed")
check_found (some old) (some new) = check_window old new

abbrev pub check_entry : Map String Window → Map String Window → QueueEntry → Result (Unit {0})
check_entry olds news q = elim q.migration_window_name [
  | none ↦ ok tt
  | some n ↦ check_found (lookup n olds) (lookup n news)
]

unfoldable pub check_entries :
    Map String Window → Map String Window → List QueueEntry → Result (Unit {0})
check_entries olds news [] = ok tt
check_entries olds news (q ∷ qs) =
    let rest = check_entries olds news qs in do check_entry olds news q; rest

-- `==` on windows.
abbrev pub window_eq : Window → Window → Bool
window_eq v w =
    eqb_ℤ v.id w.id
    && str_eq v.name w.name
    && (v.start == w.start)
    && (v.end == w.end)
    && (v.lockout == w.lockout)
    && str_eq v.batch w.batch
    && eqb_ℤ v.capacity w.capacity

abbrev pub in_batch_of : String → Window → Window
in_batch_of batch w = record w { batch = batch }

-- The round for an old window.
unfoldable pub replace_old : Map String Window → String → Window → M (Unit {0})
replace_old news batch old = elim (lookup old.name news) [
  | none ↦ exec (delete_window old.name old.batch)
  | some new ↦
      when (not (window_eq (record old { id = new.id }) (in_batch_of batch new)))
        (exec (update_window (in_batch_of batch new)))
]

unfoldable pub replace_olds : Map String Window → String → List Window → M (Unit {0})
replace_olds news batch [] = pure tt
replace_olds news batch (w ∷ ws) =
    Store.◌>>◌ (replace_old news batch w) (replace_olds news batch ws)

unfoldable pub create_all : Map String Window → String → List Window → M (Unit {0})
create_all olds batch [] = pure tt
create_all olds batch (w ∷ ws) =
    Store.◌>>◌
      (when (not (is_some (lookup w.name olds))) (exec (create_window (in_batch_of batch w))))
      (create_all olds batch ws)

abbrev pub values : Map String Window → List Window
values [] = []
values ((n, w) ∷ m) = w ∷ values m

-- `ReplaceByBatch`. The last loop goes through a Go map: `order` is the order it happens to take.
unfoldable pub replace_by_batch :
    Env → (List Window → List Window) → String → List Window → M (Unit {0})
replace_by_batch env order batch ws =
    let news = by_name [] ws in
    Store.◌>>◌ (lift (validate_all env ws)) (
      do_tx (
        Store.◌>>=◌ (query (λ d. ok (get_windows_by_batch batch d))) (λ old.
          let olds = by_name [] old in
          Store.◌>>=◌ (query (λ d. ok (get_queue_by_batch batch d))) (λ qs.
            Store.◌>>◌ (lift (check_entries olds news qs)) (
              Store.◌>>◌ (replace_olds news batch old)
                (create_all olds batch (order (values news))))))))

-- `Update`.
unfoldable pub update : Env → Window → M (Unit {0})
update env w = Store.◌>>◌ (lift (validate env w)) (exec (update_window w))

-- `Create`.
unfoldable pub create : Env → Window → M Window
create env w = Store.◌>>◌ (lift (validate env w)) (
    Store.◌>>=◌ (query (λ d. ok d.next_id))
      (λ n. Store.◌>>◌ (exec (create_window w)) (pure (record w { id = pos n }))))

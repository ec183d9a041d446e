-- ===== src/Store/Repo/Windows.antt =====
-- internal/migration/repo/sqlite/migration_window.go: the statements on windows.
use migration_manager.Prelude.{
  suc, String, str_eq, Bool, not, ◌&&◌, ◌==◌, if◌then◌else◌, List, [], ◌∷◌, none, some, ◌||◌, ltb,
}
use migration_manager.Prelude.Int.{pos}
use migration_manager.Prelude.Table.{find?, filter, any, replace, remove, snoc}
use migration_manager.Errors.{Result, ok, err, failed, not_found, constraint_violation}
use migration_manager.Api.Types.{QueueEntry, Window}
use migration_manager.Store.State.{Db}
use migration_manager.Store.Repo.Keys.{is_batch, is_window, refers_to}

-- `ORDER BY migration_windows.start`; windows that start together come in the order of their rows.
unfoldable pub insert_by_start : Window → List Window → List Window
insert_by_start w [] = w ∷ []
insert_by_start w (v ∷ vs) =
    let rest = insert_by_start w vs in if ltb v.start w.start then v ∷ rest else w ∷ v ∷ vs

unfoldable pub sort_by_start : List Window → List Window
unfolding insert_by_start
sort_by_start [] = []
sort_by_start (w ∷ ws) = insert_by_start w (sort_by_start ws)

-- Windows of a batch.
unfoldable pub get_windows_by_batch : String → Db → List Window
unfolding sort_by_start
get_windows_by_batch b d = sort_by_start (filter (λ w. str_eq w.batch b) d.windows)

-- Windows are unique by name, and by times, within their batch.
abbrev pub same_times : Window → Window → Bool
same_times v w =
    (v.start == w.start) && (v.end == w.end) && (v.lockout == w.lockout) && str_eq v.batch w.batch

-- `Create` of a window.
unfoldable pub create_window : Window → Db → Result Db
create_window w d =
    if not (any (is_batch w.batch) d.batches)
    then err (failed "Failed to create \"migration_windows\" entry")
    else if any (λ v. is_window w.name w.batch v || same_times w v) d.windows
    then err constraint_violation
    else ok (record d {
      windows = snoc d.windows (record w { id = pos d.next_id });
      next_id = suc d.next_id;
    })

-- `Update` of a window, by its name and batch: the row keeps its id.
unfoldable pub update_window : Window → Db → Result Db
update_window w d = elim (find? (is_window w.name w.batch) d.windows) [
  | none ↦ err not_found
  | some old ↦
      if any (λ v. not (is_window w.name w.batch v) && same_times w v) d.windows
      then err constraint_violation
      else ok (record d {
        windows = replace (is_window w.name w.batch) (record w { id = old.id }) d.windows;
      })
]

-- The foreign key of the queue keeps a window that an entry refers to, in whatever batch it is.
abbrev pub is_referred : Db → List QueueEntry → Window → Bool
is_referred d qs w = any (refers_to d.window_ids w) qs

-- `DeleteByNameAndBatch`.
unfoldable pub delete_window : String → String → Db → Result Db
delete_window n b d =
    if not (any (is_window n b) d.windows)
    then err not_found
    else if any (λ w. is_window n b w && is_referred d d.queue w) d.windows
    then err (failed "Delete \"migration_windows\"")
    else ok (record d { windows = remove (is_window n b) d.windows })

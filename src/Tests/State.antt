-- ===== src/Tests/State.antt =====
-- The theorems on the tables, the transactions and the counters at a concrete state.
use migration_manager.Prelude.{ℕ, ◌≡◌, ◌≢◌, refl, true, false, List, [], ◌∷◌, none, some, arith}
use migration_manager.Prelude.Int.{pos}
use migration_manager.Errors.{ok, err, not_found}
use migration_manager.Api.Status.{idle, background, post_import, complete}
use migration_manager.Api.Types.{QueueEntry}
use migration_manager.Cache.Counters.{get_cached_imports}
use migration_manager.Cache.Counters.Laws.{Call, record_call, remove_call, run, run-expected}
use migration_manager.Store.{Db, World, M, ◌>>◌, ◌>>=◌, exec}
use migration_manager.Store.Repo.{
  delete_queue_entry, get_queue_entry, update_queue_entry, link_window, window_id, window_id_of,
  window_named,
}
use migration_manager.Store.Transaction.{do_tx, close_tx, do_tx_atomic}
use migration_manager.Store.Links.{shown_window}
use migration_manager.Store.Rows.{get-update}
use migration_manager.Tests.{make_entry, make_batch, make_world, window_0}

abbrev entry : QueueEntry
entry = make_entry 1 idle background none

abbrev world : World
world = make_world (entry ∷ []) (window_0 ∷ []) []

-- It deletes the entry, and then fails to find it.
abbrev delete_twice : M (Unit {0})
delete_twice = exec (delete_queue_entry 1) >> exec (delete_queue_entry 1)

delete_twice-fails : (do_tx delete_twice world).0 ≡ err not_found
unfolding do_tx close_tx exec ◌>>◌ ◌>>=◌ delete_queue_entry
delete_twice-fails = refl

do_tx_atomic_example :
    ((do_tx delete_twice world).1.db ≡ world.db)
    × ((do_tx delete_twice world).1.in_tx ≡ false)
    × ((do_tx delete_twice world).1.source_imports
        ≡ (delete_twice (record world { in_tx = true })).1.source_imports)
    × ((do_tx delete_twice world).1.target_imports
        ≡ (delete_twice (record world { in_tx = true })).1.target_imports)
do_tx_atomic_example = do_tx_atomic delete_twice world not_found refl delete_twice-fails

-- The entry once its import is complete, and the tables with it.
abbrev later : QueueEntry
later = make_entry 1 post_import complete (some "night")

-- The window is of another batch, and the entry has it all the same.
abbrev elsewhere : Db
elsewhere = record world.db {
  batches = make_batch [] ∷ record (make_batch []) { name = "other" } ∷ [];
  windows = record window_0 { batch = "other" } ∷ [];
}

abbrev updated : Db
updated = record elsewhere { queue = later ∷ []; window_ids = (1, some window_0.id) ∷ [] }

update_later : update_queue_entry later elsewhere ≡ ok updated
unfolding update_queue_entry window_named
update_later = refl

links_elsewhere : (link_window elsewhere later).migration_window_name ≡ some "night"
unfolding window_named
links_elsewhere = refl

get-update_example :
    (old : QueueEntry) × (get_queue_entry 1 elsewhere ≡ ok old)
    × (get_queue_entry 1 updated
        ≡ ok (record later {
          id = old.id;
          migration_window_name = shown_window elsewhere (some "night");
        }))
    × (window_id_of 1 updated.window_ids ≡ window_id elsewhere later)
    × ((id : ℕ) → id ≢ 1 → get_queue_entry id updated ≡ get_queue_entry id elsewhere)
get-update_example = get-update later elsewhere updated update_later

abbrev calls : List Call
calls =
    record_call "source" ∷ record_call "other" ∷ remove_call "source" ∷ remove_call "source" ∷ []

one_import : get_cached_imports "source" world.source_imports ≡ pos 1
unfolding get_cached_imports
one_import = refl

run-expected_example : get_cached_imports "source" (run calls world.source_imports) ≡ pos 0
run-expected_example = run-expected "source" calls world.source_imports 1 (omega arith) one_import

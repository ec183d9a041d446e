-- ===== src/Store/Repo/Batches.antt =====
-- internal/migration/repo/sqlite/batch.go: the statements on batches and on the instances assigned to
-- them.
use migration_manager.Prelude.{
  ℕ, suc, String, str_eq, Bool, not, ◌&&◌, ◌==◌, if◌then◌else◌, List, none, some, map,
}
use migration_manager.Prelude.Int.{pos}
use migration_manager.Prelude.Table.{find?, filter, any, replace, remove, snoc}
use migration_manager.Errors.{Result, ok, err, failed, not_found, constraint_violation}
use migration_manager.Api.Status.{BatchStatus}
use migration_manager.Api.Types.{Batch, Window}
use migration_manager.Store.State.{Db}
use migration_manager.Store.Repo.Keys.{or_not_found, in_batch, is_batch, is_instance, refers_to}

-- Batches: `GetByName`, and `Update`, which keeps the id. The other tables refer to the batch by its
-- id, so that a new name is theirs too.
unfoldable pub get_batch : String → Db → Result Batch
get_batch n d = or_not_found (find? (is_batch n) d.batches)

unfoldable pub update_batch : String → Batch → Db → Result Db
update_batch n b d = elim (find? (is_batch n) d.batches) [
  | none ↦ err not_found
  | some old ↦
      if str_eq b.name n
      then ok (record d { batches = replace (is_batch n) (record b { id = old.id }) d.batches })
      else if any (is_batch b.name) d.batches
      then err constraint_violation
      else ok (record d {
        batches = replace (is_batch n) (record b { id = old.id }) d.batches;
        queue = map (λ q. if in_batch n q then record q { batch_name = b.name } else q) d.queue;
        windows = map (λ w. if str_eq w.batch n then record w { batch = b.name } else w) d.windows;
        assigned = map (λ a. if str_eq a.0 n then (b.name, a.1) else a) d.assigned;
      })
]

-- `Create` of a batch.
unfoldable pub create_batch : Batch → Db → Result Db
create_batch b d =
    if any (is_batch b.name) d.batches
    then err constraint_violation
    else ok (record d {
      batches = snoc d.batches (record b { id = pos d.next_id });
      next_id = suc d.next_id;
    })

-- An entry of another batch refers to a window of the batch.
abbrev pub is_held : String → Db → Bool
is_held n d =
    any
      (λ (w : Window).
        str_eq w.batch n && any (refers_to d.window_ids w) (remove (in_batch n) d.queue))
      d.windows

-- `DeleteByName` of a batch: its entries, its windows and its instances' assignments go with it.
unfoldable pub delete_batch : String → Db → Result Db
delete_batch n d =
    if not (any (is_batch n) d.batches)
    then err not_found
    else if is_held n d
    then err (failed "Delete \"batches\"")
    else ok (record d {
      batches = remove (is_batch n) d.batches;
      queue = remove (in_batch n) d.queue;
      windows = remove (λ (w : Window). str_eq w.batch n) d.windows;
      assigned = remove (λ a. str_eq a.0 n) d.assigned;
    })

-- `AssignBatch` and `UnassignBatch`.
abbrev pub links : String → ℕ → String × ℕ → Bool
links b id a = str_eq a.0 b && (a.1 == id)

abbrev pub both_exist : String → ℕ → Db → Bool
both_exist b id d = any (is_batch b) d.batches && any (is_instance id) d.instances

unfoldable pub assign_batch : String → ℕ → Db → Result Db
assign_batch b id d =
    if not (both_exist b id d)
    then err not_found
    else if any (links b id) d.assigned
    then err constraint_violation
    else ok (record d { assigned = snoc d.assigned (b, id) })

unfoldable pub unassign_batch : String → ℕ → Db → Result Db
unassign_batch b id d =
    if not (both_exist b id d && any (links b id) d.assigned)
    then err not_found
    else ok (record d { assigned = remove (links b id) d.assigned })

unfoldable pub get_batches_by_state : (BatchStatus → Bool) → Db → List Batch
get_batches_by_state p d = filter (λ b. p b.status) d.batches

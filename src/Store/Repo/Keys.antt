-- ===== src/Store/Repo/Keys.antt =====
-- internal/migration/repo/sqlite: the tests that find a row by its key.
use migration_manager.Prelude.{ℕ, String, str_eq, Bool, false, ◌&&◌, ◌==◌, Option, none, some}
use migration_manager.Prelude.Int.{ℤ, eqb_ℤ}
use migration_manager.Prelude.Map.{Map, lookup, nat_eq}
use migration_manager.Errors.{Result, ok, err, not_found}
use migration_manager.Api.Types.{QueueEntry, Batch, Window, Instance}

-- `WHERE … = ?`, and `ErrNotFound` when there is no such row.
abbrev pub or_not_found : {A : Type 0} → Option A → Result A
or_not_found none = err not_found
or_not_found (some a) = ok a

abbrev pub has_uuid : ℕ → QueueEntry → Bool
has_uuid id q = q.instance_uuid == id

abbrev pub in_batch : String → QueueEntry → Bool
in_batch b q = str_eq q.batch_name b

abbrev pub is_batch : String → Batch → Bool
is_batch n b = str_eq b.name n

abbrev pub is_instance : ℕ → Instance → Bool
is_instance id i = i.uuid == id

-- The column `migration_window_id` of the entry of an instance.
abbrev pub window_id_of : ℕ → Map ℕ (Option ℤ) → Option ℤ
window_id_of id m = elim (lookup id m) [ none ↦ none | some i ↦ i ]

-- The row of a queue entry refers to the window.
abbrev pub refers_to : Map ℕ (Option ℤ) → Window → QueueEntry → Bool
refers_to m w q = elim (window_id_of q.instance_uuid m) [ none ↦ false | some i ↦ eqb_ℤ i w.id ]

abbrev pub is_window : String → String → Window → Bool
is_window n b w = str_eq w.name n && str_eq w.batch b

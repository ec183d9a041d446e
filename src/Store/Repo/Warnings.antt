-- ===== src/Store/Repo/Warnings.antt =====
-- internal/migration/repo/sqlite/warning.go: the statements on warnings.
use migration_manager.Prelude.{
  ℕ, suc, String, str_eq, Bool, not, ◌&&◌, ◌==◌, if◌then◌else◌, List, none, some, ◌||◌,
}
use migration_manager.Prelude.Int.{pos}
use migration_manager.Prelude.Table.{find?, filter, any, replace, remove, snoc}
use migration_manager.Errors.{Result, ok, err, failed, not_found, constraint_violation}
use migration_manager.Api.Types.{Warning, WarningScope}
use migration_manager.Store.State.{Db}
use migration_manager.Store.Repo.Keys.{or_not_found}

-- Warnings: by UUID, and those of a type that a scope selects.
abbrev pub is_warning : ℕ → Warning → Bool
is_warning id w = w.uuid == id

unfoldable pub get_warning : ℕ → Db → Result Warning
get_warning id d = or_not_found (find? (is_warning id) d.warnings)

-- The filter that `GetByScopeAndType` makes of a scope.
abbrev pub selects : WarningScope → String → Warning → Bool
selects s t w =
    str_eq w.warning_type t
    && (str_eq s.scope "" || str_eq w.scope s.scope)
    && (str_eq s.entity_type ""
        || (str_eq w.entity_type s.entity_type && (str_eq s.entity "" || str_eq w.entity s.entity)))

unfoldable pub get_warnings_by_scope : WarningScope → String → Db → Result (List Warning)
get_warnings_by_scope s t d =
    if str_eq t "" || (str_eq s.entity_type "" && not (str_eq s.entity ""))
    then err (failed "Invalid scope. Requires warning type and entity type")
    else ok (filter (selects s t) d.warnings)

-- Two rows that the UNIQUE columns do not allow beside each other.
abbrev pub same_subject : Warning → Warning → Bool
same_subject v w =
    str_eq v.warning_type w.warning_type
    && str_eq v.scope w.scope
    && str_eq v.entity_type w.entity_type
    && str_eq v.entity w.entity

abbrev pub collides : Warning → Warning → Bool
collides w v = is_warning w.uuid v || same_subject v w

-- `Upsert`: `INSERT OR REPLACE` removes the rows that the new one collides with.
unfoldable pub upsert_warning : Warning → Db → Result Db
upsert_warning w d = ok (record d {
  warnings = snoc (remove (collides w) d.warnings) (record w { id = pos d.next_id });
  next_id = suc d.next_id;
})

-- `Update`, by UUID: the row keeps its id.
unfoldable pub update_warning : ℕ → Warning → Db → Result Db
update_warning id w d = elim (find? (is_warning id) d.warnings) [
  | none ↦ err not_found
  | some old ↦
      if any (λ v. not (is_warning id v) && collides w v) d.warnings
      then err constraint_violation
      else ok
          (record d { warnings = replace (is_warning id) (record w { id = old.id }) d.warnings })
]

-- `DeleteByUUID` of a warning.
unfoldable pub delete_warning : ℕ → Db → Result Db
delete_warning id d =
    if any (is_warning id) d.warnings
    then ok (record d { warnings = remove (is_warning id) d.warnings })
    else err not_found

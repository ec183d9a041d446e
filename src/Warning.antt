-- ===== src/Warning.antt =====
-- internal/migration/warning_service.go and warning_model.go, and `WarningScope` of
-- shared/api/warning.go: warnings are merged by what they are about, and stale ones are removed.
pub mod Merge
use migration_manager.Prelude.{
  ℕ, String, str_eq, Bool, true, false, not, ◌&&◌, ◌||◌, ◌==◌, if◌then◌else◌, List, [], ◌∷◌, ◌++◌,
  is_empty,
}
use migration_manager.Prelude.Int.{pos, eqb_ℤ, ◌+ℤ◌, wrap_int}
use migration_manager.Prelude.Table.{any, filter}
use migration_manager.Errors.{Result, ok, failed, validation, refuse_if, ◌>>=◌, ◌>>◌}
use migration_manager.Api.Types.{Warning, WarningScope}
use migration_manager.Store
use migration_manager.Store.{M, pure, lift, query, exec, when}
use migration_manager.Store.Transaction.{do_tx}
use migration_manager.Store.Repo.{
  get_warning, get_warnings_by_scope, upsert_warning, update_warning, delete_warning,
}

-- `Warning.Validate`.
unfoldable pub validate : Warning → Result (Unit {0})
validate w = do
  refuse_if (w.uuid == 0) (validation "Warning has invalid UUID")
  refuse_if (str_eq w.warning_type "") (validation "Warning cannot have empty type")
  refuse_if (str_eq w.scope "") (validation "Warning cannot have empty scope")
  refuse_if (str_eq w.entity_type "") (validation "Warning cannot have empty entity type")
  refuse_if (str_eq w.entity "") (validation "Warning cannot have empty entity")
  refuse_if (str_eq w.status "") (validation "Warning cannot have empty status")
  refuse_if (is_empty w.messages) (validation "Warning cannot have empty message")
  refuse_if (eqb_ℤ w.count (pos 0)) (validation "Warning count is 0")

-- `WarningScope.Match`.
unfoldable pub scope_match : WarningScope → Warning → Bool
scope_match s w =
    (str_eq s.entity "" || str_eq s.entity w.entity)
    && (str_eq s.entity_type "" || str_eq s.entity_type w.entity_type)
    && str_eq s.scope w.scope

-- `slices.Contains`.
abbrev pub contains_text : List String → String → Bool
contains_text ms m = any (str_eq m) ms

-- The old messages that are not repeated, and then the new ones.
unfoldable pub merge_messages : List String → List String → List String
merge_messages old new = filter (λ m. not (contains_text new m)) old ++ new

-- The warning that is stored: merged with the one before, or new.
unfoldable pub merge : ℕ → Warning → List Warning → Warning
unfolding merge_messages
merge now w [] = record w { first_seen_date = now; last_seen_date = now; updated_date = now }
merge now w (old ∷ _) = record w {
  uuid = old.uuid;
  count = wrap_int (w.count +ℤ old.count);
  first_seen_date = old.first_seen_date;
  last_seen_date = old.updated_date;
  messages = merge_messages old.messages w.messages;
  updated_date = now;
}

abbrev pub is_ambiguous : List Warning → Bool
is_ambiguous (v ∷ w ∷ _) = true
is_ambiguous _ = false

abbrev pub scope_of : Warning → WarningScope
scope_of w = record { scope = w.scope; entity_type = w.entity_type; entity = w.entity }

-- `Emit`.
unfoldable pub emit : ℕ → Warning → M Warning
emit now w = Store.◌>>◌ (lift (validate w)) (
    do_tx (
      Store.◌>>=◌ (query (get_warnings_by_scope (scope_of w) w.warning_type)) (λ olds.
        Store.◌>>◌ (Store.raise_if (is_ambiguous olds) (failed "Invalid warning state for scope")) (
          Store.◌>>=◌ (query (λ d. ok d.next_id)) (λ n.
            Store.◌>>◌ (exec (upsert_warning (merge now w olds)))
              (pure (record (merge now w olds) { id = pos n })))))))

-- `messagesByType[warning.Type][msg]`.
abbrev pub is_current : WarningScope → List Warning → String → String → Bool
is_current s news t m =
    any (λ w. scope_match s w && str_eq w.warning_type t && contains_text w.messages m) news

-- `slices.Equal`.
abbrev pub texts_equal : List String → List String → Bool
texts_equal [] [] = true
texts_equal (x ∷ xs) (y ∷ ys) = str_eq x y && texts_equal xs ys
texts_equal _ _ = false

-- The round for one warning of the scope.
unfoldable pub prune : WarningScope → List Warning → Warning → M (Unit {0})
unfolding scope_match
prune s news w =
    let seen = filter (is_current s news w.warning_type) w.messages in
    when (scope_match s w) (
      if is_empty seen
      then exec (delete_warning w.uuid)
      else when (not (texts_equal w.messages seen))
          (exec (update_warning w.uuid (record w { messages = seen }))))

unfoldable pub prune_all : WarningScope → List Warning → List Warning → M (Unit {0})
prune_all s news [] = pure tt
prune_all s news (w ∷ ws) = Store.◌>>◌ (prune s news w) (prune_all s news ws)

-- `RemoveStale`.
unfoldable pub remove_stale : WarningScope → List Warning → M (Unit {0})
remove_stale s news = do_tx (Store.◌>>=◌ (query (λ d. ok d.warnings)) (λ ws. prune_all s news ws))

-- `UpdateStatusByUUID`.
unfoldable pub update_status : ℕ → ℕ → String → M Warning
update_status now id status = do_tx (
    Store.◌>>=◌ (query (get_warning id)) (λ old.
      let new = record old {
        status = status;
        last_seen_date = old.updated_date;
        updated_date = now;
      } in
      Store.◌>>◌ (exec (update_warning new.uuid new)) (pure new)))

-- `DeleteByUUID` and `Update`.
unfoldable pub delete_by_uuid : ℕ → M (Unit {0})
delete_by_uuid id = exec (delete_warning id)

unfoldable pub update : ℕ → Warning → M (Unit {0})
update id w = exec (update_warning id w)

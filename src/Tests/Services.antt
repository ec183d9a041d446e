-- ===== src/Tests/Services.antt =====
-- The theorems on the services of instances, windows and warnings at a concrete installation.
use migration_manager.Store
use migration_manager.Store.Transaction
use migration_manager.Store.Repo
use migration_manager.Prelude.{
  ℕ, String, ◌≡◌, ◌≢◌, ◌⊎◌, refl, true, false, ◌||◌, [], ◌∷◌, some, none,
}
use mathlib.Core.List.{Memᴰ}
use migration_manager.Prelude.Table.{filter}
use migration_manager.Prelude.Map.{lookup, string_eq}
use migration_manager.Prelude.Int.{pos}
use migration_manager.Errors.{ok, err, not_found}
use migration_manager.Api.Status.{idle, background, is_running, is_batch_error}
use migration_manager.Api.Types.{
  Instance, InstanceOverride, Batch, QueueEntry, Source, Warning, Window,
}
use migration_manager.Store.{World}
use migration_manager.Store.Repo.{
  get_instance, get_queue_entry, get_batches_by_instance, get_queue_by_batch, get_windows_by_batch,
  selects, same_subject, collides,
}
use migration_manager.Instance.{disabled_reason}
use migration_manager.Instance.Valid
use migration_manager.Instance.Service
use migration_manager.Instance.Service.{update, update_override, delete_by_uuid}
use migration_manager.Instance.Service.Guards.{
  SameWorker, update_guarded, delete_guarded, update_override-SameWorker,
}
use migration_manager.Window.Service.{by_name, validate_all, replace_by_batch}
use migration_manager.Window.Service.Guards.{Widens, replace_by_batch-Widens}
use migration_manager.Warning.{contains_text, emit, merge, scope_of}
use migration_manager.Warning.Merge.{has_message, emit_merges}
use migration_manager.Tests.{env_0, instance_0, make_entry, make_world, make_window, window_0}

-- The instance is blocked in its running batch, since its migration is disabled.
abbrev disabled : Instance
disabled = record instance_0 {
  overrides = record instance_0.overrides { disable_migration = true };
}

abbrev blocked_world : World
blocked_world =
    let w = make_world (make_entry 1 idle background none ∷ []) [] [] in
    record w { db = record w.db { instances = disabled ∷ [] } }

abbrev renamed : Instance
renamed = record disabled { properties = record disabled.properties { description = "new" } }

disabled-found : get_instance 1 blocked_world.db ≡ ok disabled
unfolding get_instance
disabled-found = refl

renamed-updated : (update env_0 renamed false blocked_world).0 ≡ ok tt
unfolding update Store.◌>>◌ Store.lift Valid.validate Transaction.do_tx Store.query get_instance
    Store.when Service.check_unpinned Store.raise_if get_batches_by_instance disabled_reason
    Store.exec Repo.update_instance
renamed-updated = refl

update_guarded_example :
    (s : Source) × (Repo.get_source "source" blocked_world.db ≡ ok s)
    × (Valid.validate env_0 renamed ≡ ok tt)
    × ((b : Batch)
        → Memᴰ b (get_batches_by_instance 1 blocked_world.db)
        → (is_running b.status ≡ true) ⊎ (is_batch_error b.status ≡ true)
        → disabled_reason env_0 disabled b.config.restriction_overrides ≢ none)
    × (get_instance 1 (update env_0 renamed false blocked_world).1.db
        ≡ ok (Repo.with_row renamed.id s renamed))
    × ((update env_0 renamed false blocked_world).1.db.queue ≡ blocked_world.db.queue)
update_guarded_example =
    update_guarded env_0 renamed disabled blocked_world tt disabled-found renamed-updated

disabled-deleted : (delete_by_uuid env_0 1 blocked_world).0 ≡ ok tt
unfolding delete_by_uuid Transaction.do_tx Store.◌>>=◌ Store.query get_instance Store.◌>>◌
    Store.raise_if get_batches_by_instance disabled_reason Store.exec Repo.delete_instance
disabled-deleted = refl

delete_guarded_example :
    ((b : Batch)
      → Memᴰ b (get_batches_by_instance 1 blocked_world.db)
      → disabled_reason env_0 disabled b.config.restriction_overrides ≢ none)
    × (get_instance 1 (delete_by_uuid env_0 1 blocked_world).1.db ≡ err not_found)
    × (get_queue_entry 1 (delete_by_uuid env_0 1 blocked_world).1.db ≡ err not_found)
delete_guarded_example =
    delete_guarded env_0 1 disabled blocked_world tt disabled-found disabled-deleted

-- The instance of an idle entry, and overrides that have it started afterwards.
abbrev queued_world : World
queued_world = make_world (make_entry 1 idle background none ∷ []) [] []

abbrev to_start : InstanceOverride
to_start = record instance_0.overrides { started_after_migration = true }

queued-found : get_instance 1 queued_world.db ≡ ok instance_0
unfolding get_instance
queued-found = refl

to_start-stored : (update_override env_0 1 to_start queued_world).0 ≡ ok tt
unfolding update_override Transaction.do_tx Store.◌>>=◌ Store.query get_instance Service.override_as
    Store.◌>>◌ Store.raise_if update Store.lift Valid.validate Store.when Store.pure Store.exec
    Repo.update_instance Repo.update_queue_entry
to_start-stored = refl

update_override-SameWorker_example :
    (j : Instance) × (get_instance 1 (update_override env_0 1 to_start queued_world).1.db ≡ ok j)
    × (j.overrides ≡ to_start)
    × SameWorker env_0 j instance_0
    × (false ≡ false → to_start.disable_migration ≡ false)
update_override-SameWorker_example =
    update_override-SameWorker env_0 1 to_start instance_0 (make_entry 1 idle background none)
      queued_world tt queued-found refl refl to_start-stored

-- An entry has a window, which is made to start earlier.
abbrev assigned_world : World
assigned_world = make_world (make_entry 1 idle background (some "night") ∷ []) (window_0 ∷ []) []

abbrev earlier : Window
earlier = make_window "night" 400 100000000000 (pos 2)

windows-replaced :
    (replace_by_batch env_0 (λ ws. ws) "batch" (earlier ∷ []) assigned_world).0 ≡ ok tt
unfolding replace_by_batch Store.◌>>◌ Store.lift validate_all migration_manager.Window.validate
    Transaction.do_tx Store.query migration_manager.Window.Service.check_entries get_queue_by_batch
    get_windows_by_batch migration_manager.Window.Service.replace_olds
    migration_manager.Window.Service.replace_old Store.when Store.exec Repo.update_window Store.pure
    migration_manager.Window.Service.create_all
windows-replaced = refl

replace_by_batch-Widens_example :
    (validate_all env_0 (earlier ∷ []) ≡ ok tt)
    × ((q : QueueEntry) (n : String) (old : Window)
        → Memᴰ q (get_queue_by_batch "batch" assigned_world.db)
        → q.migration_window_name ≡ some n
        → lookup n (by_name [] (get_windows_by_batch "batch" assigned_world.db)) ≡ some old
        → (new : Window) × (lookup n (by_name [] (earlier ∷ [])) ≡ some new) × Widens old new)
replace_by_batch-Widens_example =
    replace_by_batch-Widens env_0 (λ ws. ws) "batch" (earlier ∷ []) assigned_world tt
      windows-replaced

-- A warning of a source that was recorded before, and comes again with another message.
abbrev make_warning : ℕ → String → Warning
make_warning id m = record {
  id = pos 8;
  uuid = id;
  warning_type = "InstanceImportFailed";
  scope = "sync";
  entity_type = "source";
  entity = "source";
  status = "new";
  first_seen_date = 100;
  last_seen_date = 100;
  updated_date = 100;
  messages = m ∷ [];
  count = pos 1;
}

abbrev warned : World
warned =
    let w = make_world [] [] [] in
    record w { db = record w.db { warnings = make_warning 5 "first" ∷ [] } }

abbrev merged : Warning
merged = merge 1000 (make_warning 6 "second") (make_warning 5 "first" ∷ [])

warning-emitted : (emit 1000 (make_warning 6 "second") warned).0 ≡ ok merged
unfolding emit Store.◌>>◌ Store.lift migration_manager.Warning.validate Transaction.do_tx
    Store.query Repo.get_warnings_by_scope Store.raise_if Store.exec Repo.upsert_warning Store.pure
    merge
warning-emitted = refl

emit_merges_example :
    (filter (λ v. same_subject v merged) (emit 1000 (make_warning 6 "second") warned).1.db.warnings
      ≡ merged ∷ [])
    × ((m : String)
        → contains_text merged.messages m ≡ (
            has_message m (
              filter
                (selects (scope_of (make_warning 6 "second")) "InstanceImportFailed")
                warned.db.warnings)
            || contains_text ("second" ∷ []) m))
    × ((v : Warning)
        → Memᴰ v warned.db.warnings
        → collides merged v ≡ false
        → Memᴰ v (emit 1000 (make_warning 6 "second") warned).1.db.warnings)
emit_merges_example = emit_merges 1000 (make_warning 6 "second") merged warned warning-emitted

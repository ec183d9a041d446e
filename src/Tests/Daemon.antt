-- ===== src/Tests/Daemon.antt =====
-- The theorems on the daemon's tasks at a concrete state.
use migration_manager.Store
use migration_manager.Store.Transaction
use migration_manager.Store.Repo
use mathlib.Core.List.Permᴰ
use mathlib.Core.List.{Memᴰ}
use migration_manager.Prelude.{
  ℕ, String, ◌≡◌, ◌≢◌, eq_iff, str_eq, refl, true, false, [], ◌∷◌, none, arith,
}
use migration_manager.Prelude.Int.{pos}
use migration_manager.Errors.{ok, err, not_found, failed}
use migration_manager.Api.Status.{
  background_import, finished, complete, background, batch_finished, worker_done, conflict,
}
use migration_manager.Cache.Counters.{get_cached_imports}
use migration_manager.Store.{World}
use migration_manager.Store.Repo.{
  get_batches_by_state, get_batch, get_batches_by_instance, get_source, comes_from,
}
use migration_manager.Daemon.Resume.{sync_active_batches}
use migration_manager.Daemon.Resume.Counts.{is_importing, is_background, is_creating}
use migration_manager.Daemon.Resume.Recount.{IsKeyed}
use migration_manager.Daemon.Resume.Reads.{is_from, is_to}
use migration_manager.Daemon.Resume.Correct.{number, sync_active_batches_recounts}
use migration_manager.Tests.{env_0, make_entry, make_world, instance_0, make_batch}
use migration_manager.Sources.{delete_source_by_name, get_uuids_by_source, is_active}
use migration_manager.Sources.Removal.{delete_source_by_name_guarded}
use migration_manager.Prelude.Table.{any}
use migration_manager.Cache.{write}
use migration_manager.Daemon.Finish.{settle, finalize, Clients}
use migration_manager.Daemon.Finish.Laws.{settle-finishes, finishes, finished_if}
use migration_manager.Instance.Updates.{apply_updates}
use migration_manager.Instance.Updates.Laws.{apply_updates_takes, apply_updates_unchanged}
use migration_manager.Api.Types.{Instance, Batch, QueueEntry}
use migration_manager.Store.Repo.{get_queue_entry}

-- One instance is in its background import when the daemon stops.
abbrev stopped : World
stopped = make_world (make_entry 1 background_import background none ∷ []) [] []

stopped-IsKeyed : IsKeyed stopped.db
stopped-IsKeyed = record { entries = (refl, tt); batches = (refl, tt); instances = (refl, tt) }

abbrev source_text : String
source_text = "source"

abbrev target_text : String
target_text = "target"

source_named : source_text ≢ ""
source_named e = let h = (eq_iff source_text "").1 e in cc

target_named : target_text ≢ ""
target_named e = let h = (eq_iff target_text "").1 e in cc

sync_active_batches_recounts_example :
    let w' = (sync_active_batches env_0 (λ rs. rs) stopped).1 in
    ((sync_active_batches env_0 (λ rs. rs) stopped).0 ≡ ok tt)
    × (w'.db ≡ stopped.db)
    × (get_cached_imports "source" w'.source_imports
        ≡ number stopped.db is_importing (is_from stopped.db "source"))
    × (get_cached_imports "target" w'.target_imports
        ≡ number stopped.db is_importing (is_to stopped.db "target"))
    × (get_cached_imports "target" w'.target_creations
        ≡ number stopped.db is_creating (is_to stopped.db "target"))
    × (get_cached_imports "batch" w'.batch_imports
        ≡ number stopped.db is_background (λ q. str_eq q.batch_name "batch"))
sync_active_batches_recounts_example =
    sync_active_batches_recounts env_0 (λ rs. rs) stopped "source" "target" "batch" stopped-IsKeyed
      (λ rs. Permᴰ.refl rs) (omega arith) refl source_named refl target_named refl

one_is_counted : number stopped.db is_importing (is_from stopped.db "source") ≡ pos 1
unfolding get_batches_by_state
one_is_counted = refl

-- The batch's only entry is finished, or it is not.
abbrev over : World
over = make_world (make_entry 1 finished complete none ∷ []) [] []

over-settles : (settle [] ("batch" ∷ []) over).0 ≡ ok tt
unfolding settle Transaction.do_tx Store.◌>>◌ Store.pure Store.query Store.when
    Repo.get_queue_by_batch migration_manager.Batch.Operations.update_status get_batch Store.exec
    Repo.update_batch
over-settles = refl

settle-finishes_example :
    get_batch "batch" (settle [] ("batch" ∷ []) over).1.db
    ≡ finished_if
        (finishes (settle [] ("batch" ∷ []) over).1.db ("batch" ∷ []) "batch")
        (get_batch "batch" over.db)
settle-finishes_example = settle-finishes [] ("batch" ∷ []) over "batch" over-settles

abbrev stored : Instance
stored = record instance_0 {
  properties = record instance_0.properties {
    configurable = record instance_0.properties.configurable { architecture = "x86_64" };
  };
}

-- A source that reports the instance as it is stored, and one that reports it switched off.
abbrev switched_off : Instance
switched_off = record stored { properties = record stored.properties { running = false } }

apply_updates_takes_example :
    let j = (apply_updates env_0 stored switched_off).0 in
    (j.properties.location ≡ stored.properties.location)
    × (j.properties.background_import ≡ stored.properties.background_import)
    × (j.properties.running ≡ false)
    × (j.properties.uuid ≡ stored.properties.uuid)
    × (j.properties.configurable.config ≡ stored.properties.configurable.config)
    × (j.uuid ≡ stored.uuid)
    × (j.source ≡ stored.source)
    × (j.overrides ≡ stored.overrides)
apply_updates_takes_example = apply_updates_takes env_0 stored switched_off

nothing_new : (apply_updates env_0 stored stored).1 ≡ false
unfolding apply_updates
nothing_new = refl

apply_updates_unchanged_example :
    ((apply_updates env_0 stored stored).0 ≡ stored)
    × (stored.properties.location ≡ stored.properties.location)
    × (stored.properties.background_import ≡ stored.properties.background_import)
    × (stored.properties.running ≡ stored.properties.running)
apply_updates_unchanged_example = apply_updates_unchanged env_0 stored stored nothing_new

-- A source whose only instance is disabled, and in a batch that is over.
abbrev ended_batch : Batch
ended_batch = record (make_batch []) { status = batch_finished }

abbrev disabled : Instance
disabled = record instance_0 {
  overrides = record instance_0.overrides { disable_migration = true };
}

abbrev retired : World
retired = record over {
  db = record over.db { batches = ended_batch ∷ []; instances = disabled ∷ [] };
}

retired-deletes : (delete_source_by_name env_0 "source" retired).0 ≡ ok tt
unfolding delete_source_by_name Store.◌>>◌ Store.raise_if Transaction.do_tx Store.query get_source
    get_uuids_by_source get_batches_by_instance Store.pure
    migration_manager.Instance.Service.delete_by_uuid Repo.get_instance
    migration_manager.Instance.disabled_reason Store.exec Repo.delete_instance Store.when
    Repo.delete_source
retired-deletes = refl

delete_source_by_name_guarded_example :
    (get_source "source" (delete_source_by_name env_0 "source" retired).1.db ≡ err not_found)
    × (any (comes_from "source") (delete_source_by_name env_0 "source" retired).1.db.instances
        ≡ false)
    × ((id : ℕ) (b : Batch)
        → Memᴰ id (get_uuids_by_source "source" retired.db)
        → Memᴰ b (get_batches_by_instance id retired.db)
        → is_active b ≡ false)
delete_source_by_name_guarded_example =
    delete_source_by_name_guarded env_0 "source" retired retired-deletes

-- The target refuses the configuration of an instance whose worker is done.
abbrev refusing : Clients
refusing = record {
  power_on = λ q. ok tt;
  connect = λ q. ok tt;
  clean_up = λ q. ok tt;
  stop_worker = λ q. ok tt;
  restart_worker = λ q. ok tt;
  configure = λ q. err (failed "refused");
  text = λ e. "refused";
}

abbrev done_entry : QueueEntry
done_entry = make_entry 1 worker_done complete none

abbrev configuring : World
configuring = make_world (done_entry ∷ []) [] []

abbrev after_refusal : World
after_refusal =
    (finalize env_0 refusing
      (record { entry = done_entry; batch = make_batch []; window = none } ∷ []) ("batch" ∷ [])
      configuring).1

-- One of the five tries is counted, but the entry is in conflict, where no other try takes place.
refused_once : after_refusal.retries ≡ (1, pos 1) ∷ []
unfolding get_queue_entry finalize Transaction.do_tx Store.◌>>◌ Store.lift
    migration_manager.Window.ended migration_manager.Cache.read
    migration_manager.Queue.Operations.update_status Store.raise_if
    migration_manager.Api.Status.is_migration_status Store.query Store.exec Repo.update_queue_entry
    Store.pure Store.when Repo.get_queue_by_batch write
refused_once = refl

refused_conflicts :
    get_queue_entry 1 after_refusal.db
    ≡ ok (record done_entry { migration_status = conflict; migration_status_message = "refused" })
unfolding get_queue_entry finalize Transaction.do_tx Store.◌>>◌ Store.lift
    migration_manager.Window.ended migration_manager.Cache.read
    migration_manager.Queue.Operations.update_status Store.raise_if
    migration_manager.Api.Status.is_migration_status Store.query Store.exec Repo.update_queue_entry
    Store.pure Store.when Repo.get_queue_by_batch
refused_conflicts = refl

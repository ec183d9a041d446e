-- ===== src/Daemon/Resume/Correct.antt =====
-- cmd/migration-managerd/internal/api/sync.go, syncActiveBatches: the counters after a restart.
use mathlib.Core.List.{Memᴰ, Permᴰ}
use migration_manager.Prelude.{
  ℕ, String, str_eq, Bool, true, ◌&&◌, ◌+◌, ◌<◌, List, [], ◌∷◌, ◌≡◌, ◌≢◌, refl, ◌∙◌, sym, ap, arith,
  length,
}
use migration_manager.Prelude.Int.{ℤ, pos, int_limit}
use migration_manager.Prelude.Map.{string_eq, at_or}
use migration_manager.Prelude.Table.{any, count}
use migration_manager.Prelude.Count.{count-Perm, count-true, count-le, count-agree, count-filter}
use migration_manager.Errors.{ok}
use migration_manager.Env.{Env}
use migration_manager.Api.Status.{
  MigrationStatus, background_import, final_import, creating, is_running,
}
use migration_manager.Api.Types.{QueueEntry, Batch, Source, Target}
use migration_manager.Cache.Counters.{get_cached_imports}
use migration_manager.Store.{World, Db, ◌>>=◌, ◌>>◌}
use migration_manager.Store.Repo.{is_batch, get_batches_by_state, any_status, get_queue_by_state}
use migration_manager.Queue.Handler.Laws.{get_migration_state_reads}
use migration_manager.Store.Transaction.{do_tx}
use migration_manager.Store.Runs.{bind_after}
use mathlib.Core.Path.{subst}
use migration_manager.Queue.Handler.{get_migration_state, gather_state}
use migration_manager.Daemon.Resume.{
  Round, Tally, tally, rounds_of, empty_tally, sync_active_batches, store_tally, init_worker_cache,
}
use migration_manager.Daemon.Resume.Counts.{
  Counter, Obeys, counts, tally-counts, sources, targets, batches, creations, is_importing,
  is_background, is_creating, sources-Obeys, targets-Obeys, batches-Obeys, creations-Obeys,
}
use migration_manager.Daemon.Resume.Recount.{IsKeyed, states, state_of, own_entries, count-states}
use migration_manager.Daemon.Resume.Reads.{is_from, is_to, batch_read, source_read, target_read}

-- The statuses that are counted again.
abbrev resumed : List MigrationStatus
resumed = background_import ∷ final_import ∷ creating ∷ []

-- The entry's batch is running.
abbrev pub in_running : Db → QueueEntry → Bool
in_running d q = any (is_batch q.batch_name) (get_batches_by_state is_running d)

-- The entries of running batches in such a status that pass a test.
abbrev pub number : Db → (MigrationStatus → Bool) → (QueueEntry → Bool) → ℤ
number d active its =
    pos (count (λ q. in_running d q && (active q.migration_status && its q)) d.queue)

zero_plus : (n : ℕ) → 0 + n ≡ n
zero_plus n = omega arith

is_importing-resumed :
    (q : QueueEntry) → is_importing q.migration_status ≡ true → any_status resumed q ≡ true
is_importing-resumed q h = ground arith

is_background-resumed :
    (q : QueueEntry) → is_background q.migration_status ≡ true → any_status resumed q ≡ true
is_background-resumed q h = ground arith

is_creating-resumed :
    (q : QueueEntry) → is_creating q.migration_status ≡ true → any_status resumed q ≡ true
is_creating-resumed q h = ground arith

abbrev recounted : Env → (List Round → List Round) → Db → Tally
recounted env order d = tally env.now (order (rounds_of (states d resumed))) empty_tally

module _ (env : Env) (order : List Round → List Round) (d : Db) (k : IsKeyed d)
    (permutes : (rs : List Round) → Permᴰ (order rs) rs) (small : length d.queue < int_limit) where
  few_rounds : 0 + length (order (rounds_of (states d resumed))) < int_limit
  unfolding get_queue_by_state
  few_rounds =
      let every = count-states d resumed (λ r. true) (λ q. true) k (λ b q m. refl) in
      omega (
        arith,
        small,
        every,
        count-true (order (rounds_of (states d resumed))),
        count-Perm (λ r. true) (permutes (rounds_of (states d resumed))),
        count-filter (λ q. in_running d q && true) (any_status resumed) d.queue,
        count-le (λ q. any_status resumed q && (in_running d q && true)) d.queue,
      )

  -- One of the counters, by what it says of an entry of a batch.
  counter_total :
      (c : Counter) (name : String) (its : QueueEntry → Bool)
      → Obeys c
      → ((q : QueueEntry) → c.active q.migration_status ≡ true → any_status resumed q ≡ true)
      → at_or (pos 0) name (c.project empty_tally) ≡ pos 0
      → ((b : Batch) (q : QueueEntry)
          → Memᴰ q (own_entries d resumed b)
          → str_eq (c.key (state_of d resumed b) q.instance_uuid) name ≡ its q)
      → at_or (pos 0) name (c.project (recounted env order d))
        ≡ pos (count (λ q. in_running d q && (c.active q.migration_status && its q)) d.queue)
  unfolding get_queue_by_state
  counter_total c name its law reach start reads =
      tally-counts c name law env.now (order (rounds_of (states d resumed))) empty_tally 0
        few_rounds start
      ∙ ap pos (
          zero_plus (count (counts c name) (order (rounds_of (states d resumed))))
          ∙ count-Perm (counts c name) (permutes (rounds_of (states d resumed)))
          ∙ count-states d resumed (counts c name) (λ q. c.active q.migration_status && its q) k
              (λ b q m. ap (λ x. c.active q.migration_status && x) (reads b q m))
          ∙ count-filter (λ q. in_running d q && (c.active q.migration_status && its q))
              (any_status resumed) d.queue
          ∙ count-agree
              (λ q.
                any_status resumed q && (in_running d q && (c.active q.migration_status && its q)))
              (λ q. in_running d q && (c.active q.migration_status && its q)) d.queue
              (λ q m. ground (arith, reach q)))

sync_active_batches_run :
    (env : Env) (order : List Round → List Round) (w : World)
    → w.commits ≡ true
    → sync_active_batches env order w ≡ (
      ok tt,
      record w {
        source_imports = (recounted env order w.db).from_source;
        target_imports = (recounted env order w.db).to_target;
        target_creations = (recounted env order w.db).creating_on;
        batch_imports = (recounted env order w.db).by_batch;
        worker_updates = (recounted env order w.db).workers;
      },
    )
unfolding sync_active_batches ◌>>=◌ store_tally ◌>>◌ do_tx init_worker_cache
sync_active_batches_run env order w commits =
    bind_after (do_tx (get_migration_state is_running resumed))
      (λ states. store_tally (tally env.now (order (rounds_of states)) empty_tally))
      (gather_state is_running resumed w.db) w w
      (get_migration_state_reads is_running resumed w commits)

-- If the next commit is accepted, and the tables hold no entry, batch or instance twice, then
-- `syncActiveBatches` succeeds and changes no table, whatever order Go's maps take, and what the
-- caches held before does not matter. Afterwards the counter of a stored source is the number of
-- entries of running batches in a background or final import whose instance comes from it; that of a
-- stored target is the number of those that are placed on it, and its counter of creations the number
-- that are being created on it; and the counter of a batch is the number of its background imports.
-- This asks for fewer than 2 ^ 63 entries, and that the names of the source and the target are not
-- empty.
pub sync_active_batches_recounts :
    (env : Env) (order : List Round → List Round) (w : World) (s t b : String)
    → IsKeyed w.db
    → ((rs : List Round) → Permᴰ (order rs) rs)
    → length w.db.queue < int_limit
    → w.commits ≡ true
    → s ≢ ""
    → any (λ (x : Source). str_eq x.name s) w.db.sources ≡ true
    → t ≢ ""
    → any (λ (x : Target). str_eq x.name t) w.db.targets ≡ true
    → let w' = (sync_active_batches env order w).1 in
      ((sync_active_batches env order w).0 ≡ ok tt)
      × (w'.db ≡ w.db)
      × (get_cached_imports s w'.source_imports ≡ number w.db is_importing (is_from w.db s))
      × (get_cached_imports t w'.target_imports ≡ number w.db is_importing (is_to w.db t))
      × (get_cached_imports t w'.target_creations ≡ number w.db is_creating (is_to w.db t))
      × (get_cached_imports b w'.batch_imports
          ≡ number w.db is_background (λ q. str_eq q.batch_name b))
unfolding get_cached_imports
sync_active_batches_recounts env order w s t b k permutes small commits s_named s_in t_named t_in =
    subst
      (λ r.
        (r.0 ≡ ok tt)
        × (r.1.db ≡ w.db)
        × (get_cached_imports s r.1.source_imports ≡ number w.db is_importing (is_from w.db s))
        × (get_cached_imports t r.1.target_imports ≡ number w.db is_importing (is_to w.db t))
        × (get_cached_imports t r.1.target_creations ≡ number w.db is_creating (is_to w.db t))
        × (get_cached_imports b r.1.batch_imports
            ≡ number w.db is_background (λ q. str_eq q.batch_name b)))
      (sym (sync_active_batches_run env order w commits))
      (
        refl,
        refl,
        counter_total env order w.db k permutes small sources s (is_from w.db s) sources-Obeys
            is_importing-resumed refl (λ c q m. source_read w.db resumed k c q m s s_named s_in),
        counter_total env order w.db k permutes small targets t (is_to w.db t) targets-Obeys
            is_importing-resumed refl (λ c q m. target_read w.db resumed k c q m t t_named t_in),
        counter_total env order w.db k permutes small creations t (is_to w.db t) creations-Obeys
            is_creating-resumed refl (λ c q m. target_read w.db resumed k c q m t t_named t_in),
        counter_total env order w.db k permutes small batches b (λ q. str_eq q.batch_name b)
            batches-Obeys is_background-resumed refl (λ c q m. batch_read w.db resumed k c q m b),
      )

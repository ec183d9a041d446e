-- ===== src/Instance/Service/Guards.antt =====
-- internal/migration/instance_service.go: what an instance that takes part in a migration is protected
-- from, and what its changes leave alone.
mod Stored
use migration_manager.Prelude.{
  ℕ, String, str_eq, eq_iff, Bool, true, false, not, ◌||◌, ◌≡◌, ◌≢◌, refl, sym, ap, ◌∙◌, ◌⊎◌, inl,
  inr, none, some, Option-cases, Bool-cases, arith,
}
use mathlib.Core.List.{Memᴰ}
use mathlib.Core.Path.{subst}
use migration_manager.Prelude.Table.{any, find?, any-none_at}
use migration_manager.Errors.{ok-inj, not_found, ok, err}
use migration_manager.Env.{Env}
use migration_manager.Api.Status.{is_running, is_batch_error, status_eq, canceled}
use migration_manager.Api.Types.{Instance, InstanceOverride, Batch, QueueEntry, Source}
use migration_manager.Store.{Db, World, exec, when}
use migration_manager.Store.Runs.{
  Runs, succeeded, Runs-do_tx, Runs-exec, on_then, on_check, on_query, on_guard, Runs-raise_if,
  Runs-pure,
}
use migration_manager.Store.Repo.{
  get_instance, get_source, with_row, update_instance, get_batches_by_instance, has_uuid,
  get_queue_entry, update_queue_entry,
}
use migration_manager.Instance
use migration_manager.Instance.{disabled_reason, get_name, get_architecture}
use migration_manager.Instance.Os.{get_os_type, get_distribution}
use migration_manager.Instance.Valid.{validate}
use migration_manager.Instance.Service.{
  is_migratable, pins, check_unpinned, update, changes_os, override_as, update_override,
  delete_by_uuid,
}
use migration_manager.Instance.Service.Guards.Stored.{
  get_instance-uuid, get_instance-type, get_instance-same, update_instance-reads,
  delete_instance-removes,
}

pins-blocked :
    (env : Env) (old : Instance) (b : Batch)
    → pins env old b ≡ false
    → (is_running b.status ≡ true) ⊎ (is_batch_error b.status ≡ true)
    → disabled_reason env old b.config.restriction_overrides ≢ none
pins-blocked env old b h (inl r) e = cc (rw (r, e) at h)
pins-blocked env old b h (inr r) e = elim (Bool-cases (is_running b.status)) [
  | inl k ↦ cc (rw (k, e) at h)
  | inr k ↦ cc (rw (k, r, e) at h)
]

-- If an update that may not change a migrating instance succeeds, outside or inside a transaction, then the new instance
-- is valid, in each batch of the instance that runs or has failed there was a reason for which the old
-- instance could not be migrated, and what is stored is the new instance, with the row's id and with
-- the type of the source that it names, whatever type the caller gave it. The queue is as it was.
pub update_guarded :
    (env : Env) (i old : Instance) (w : World) (u : Unit {0})
    → get_instance i.uuid w.db ≡ ok old
    → (update env i false w).0 ≡ ok u
    → (s : Source) × (get_source i.source w.db ≡ ok s)
      × (validate env i ≡ ok tt)
      × ((b : Batch)
          → Memᴰ b (get_batches_by_instance old.uuid w.db)
          → (is_running b.status ≡ true) ⊎ (is_batch_error b.status ≡ true)
          → disabled_reason env old b.config.restriction_overrides ≢ none)
      × (get_instance i.uuid (update env i false w).1.db ≡ ok (with_row old.id s i))
      × ((update env i false w).1.db.queue ≡ w.db.queue)
unfolding update check_unpinned when
update_guarded env i old w u found h = on_check (succeeded (update env i false) w u h) (λ valid t.
    on_query _ (Runs-do_tx _ w.db _ u t) (λ x read t1. on_then t1 (λ v c checked t2.
      on_query _ checked (λ bs members t3.
        let same : x ≡ old = ok-inj (sym read ∙ found) in
        let (free, kept) = Runs-raise_if _ _ w.db c v t3 in
        let write =
          subst (λ d. update_instance i d ≡ ok (update env i false w).1.db) kept
            (Runs-exec _ c _ u t2) in
        let (s, typed, stored, rows, _) = update_instance-reads i old w.db _ found write in
        let all = subst (λ l. any (pins env x) l ≡ false) (sym (ok-inj members)) free in
        (
          s,
          typed,
          valid,
          λ b m started.
              pins-blocked env old b
                (subst (λ y. pins env y b ≡ false) same
                  (any-none_at (pins env x) _ {x = b} all
                    (subst (λ y. Memᴰ b (get_batches_by_instance y.uuid w.db)) (sym same) m)))
                started,
          stored,
          rows,
        )))))

-- If the deletion of an instance succeeds, outside or inside a transaction, then in each batch of the instance there was a
-- reason for which it could not be migrated, and neither the instance nor a queue entry of it is left.
pub delete_guarded :
    (env : Env) (id : ℕ) (old : Instance) (w : World) (u : Unit {0})
    → get_instance id w.db ≡ ok old
    → (delete_by_uuid env id w).0 ≡ ok u
    → ((b : Batch)
        → Memᴰ b (get_batches_by_instance id w.db)
        → disabled_reason env old b.config.restriction_overrides ≢ none)
      × (get_instance id (delete_by_uuid env id w).1.db ≡ err not_found)
      × (get_queue_entry id (delete_by_uuid env id w).1.db ≡ err not_found)
unfolding delete_by_uuid
delete_guarded env id old w u found h =
    on_query _ (Runs-do_tx _ w.db _ u (succeeded (delete_by_uuid env id) w u h)) (λ x read t1.
      on_query _ t1 (λ bs members t2. on_guard _ t2 (λ free t3.
        let same : x ≡ old = ok-inj (sym read ∙ found) in
        let all = subst (λ l. any (is_migratable env x) l ≡ false) (sym (ok-inj members)) free in
        let (gone, unqueued) = delete_instance-removes id w.db _ (Runs-exec _ w.db _ u t3) in
        (
          λ b m e.
              let no =
                subst (λ y. is_migratable env y b ≡ false) same
                  (any-none_at (is_migratable env x) _ {x = b} all m) in
              cc (rw e at no),
          gone,
          unqueued,
        ))))

-- What the worker is told of an instance: its name, operating system, distribution and architecture.
pub record SameWorker (env : Env) (i j : Instance) : Type 0 where
  pub name : get_name i ≡ get_name j
  pub os : get_os_type env i true ≡ get_os_type env j true
  pub distribution : get_distribution env i true ≡ get_distribution env j true
  pub architecture :
      get_architecture env.architecture_default i ≡ get_architecture env.architecture_default j

five_equal :
    (a a' b b' c c' d d' e e' : String)
    → (not (str_eq a a')
        || not (str_eq b b')
        || not (str_eq c c')
        || not (str_eq d d')
        || not (str_eq e e'))
      ≡ false
    → (a ≡ a') × (b ≡ b') × (c ≡ c') × (d ≡ d') × (e ≡ e')
five_equal a a' b b' c c' d d' e e' h =
    ground (arith, eq_iff a a', eq_iff b b', eq_iff c c', eq_iff d d', eq_iff e e')

changes_os-SameWorker :
    (env : Env) (i : Instance) (new : InstanceOverride)
    → changes_os i.overrides new ≡ false
    → SameWorker env (record i { overrides = new }) i
unfolding get_name get_os_type get_distribution get_architecture Instance.apply
changes_os-SameWorker env i new h =
    let o = i.overrides in
    let (n, s, d, v, a) =
      five_equal o.configurable.name new.configurable.name o.os_type new.os_type o.distribution
        new.distribution o.distribution_version new.distribution_version o.configurable.architecture
        new.configurable.architecture h in
    record {
      name = ap (λ x. Instance.or_default x i.properties.configurable.name) (sym n);
      os = rw (← s) refl;
      distribution = rw (← s, ← d, ← v) refl;
      architecture = rw (← a) refl;
    }

update_queue_entry-instances :
    (q : QueueEntry) (d d' : Db)
    → update_queue_entry q d ≡ ok d'
    → (d'.instances ≡ d.instances) × (d'.sources ≡ d.sources)
unfolding update_queue_entry
update_queue_entry-instances q d d' h =
    elim (Option-cases (find? (has_uuid q.instance_uuid) d.queue)) [
      | inl e ↦ ground arith
      | inr (x, e) ↦ (ground arith, ground arith)
    ]

when-instances :
    (b : Bool) (q : QueueEntry) (d d' : Db) (u : Unit {0})
    → Runs (when b (exec (update_queue_entry q))) d u d'
    → (d'.instances ≡ d.instances) × (d'.sources ≡ d.sources)
unfolding when
when-instances true q d d' u r = update_queue_entry-instances q d d' (Runs-exec _ d d' u r)
when-instances false q d d' u r =
    let same = (Runs-pure _ d d' u r).1 in
    (ap (λ (x : Db). x.instances) same, ap (λ (x : Db). x.sources) same)

-- If the overrides of an instance with a queue entry that is not canceled are changed, outside or
-- inside a transaction, then they are stored, the worker is told the same name, operating
-- system, distribution and architecture of the instance as before, and the migration was not disabled
-- by the change.
pub update_override-SameWorker :
    (env : Env) (id : ℕ) (new : InstanceOverride) (i : Instance) (q : QueueEntry) (w : World)
    (u : Unit {0})
    → get_instance id w.db ≡ ok i
    → find? (has_uuid id) w.db.queue ≡ some q
    → status_eq q.migration_status canceled ≡ false
    → (update_override env id new w).0 ≡ ok u
    → (j : Instance) × (get_instance id (update_override env id new w).1.db ≡ ok j)
      × (j.overrides ≡ new)
      × SameWorker env j i
      × (i.overrides.disable_migration ≡ false → new.disable_migration ≡ false)
unfolding update_override override_as update when
update_override-SameWorker env id new i q w u found queued live h =
    on_query _ (Runs-do_tx _ w.db _ u (succeeded (update_override env id new) w u h)) (λ x read t1.
      on_query _ t1 (λ o entry t2.
        let same : x ≡ i = ok-inj (sym read ∙ found) in
        let queue_same : o ≡ some q = ok-inj (sym entry) ∙ queued in
        let t3 =
          subst
            (λ z. Runs (override_as env z new (some q)) w.db u (update_override env id new w).1.db)
            same
            (subst (λ z. Runs (override_as env x new z) w.db u (update_override env id new w).1.db)
              queue_same t2) in
        on_guard _ t3 (λ enabled t4. on_guard _ t4 (λ same_os t5. on_then t5 (λ v c updated t6.
          on_check updated (λ valid t7. on_query _ (Runs-do_tx _ w.db c v t7) (λ old reread t8.
            on_then t8 (λ v' c' skipped t9.
              let new_i = record i { overrides = new } in
              let own = get_instance-uuid id w.db i found in
              let mine = subst (λ n. get_instance n w.db ≡ ok i) (sym own) found in
              let write =
                subst (λ d. update_instance new_i d ≡ ok c) (Runs-pure _ w.db c' v' skipped).1
                  (Runs-exec _ c' c v t9) in
              let (s, typed, stored, _, _) = update_instance-reads new_i i w.db c mine write in
              let rest = when-instances _ _ c _ u t6 in
              (
                with_row i.id s new_i,
                get_instance-same id c _ rest.0 rest.1
                    ∙ subst (λ n. get_instance n c ≡ ok (with_row i.id s new_i)) own stored,
                refl,
                subst (λ t. SameWorker env (record i { overrides = new; source_type = t }) i)
                    (sym (get_instance-type id w.db i s found typed))
                    (changes_os-SameWorker env i new (ground arith)),
                λ on. ground arith,
              )))))))))

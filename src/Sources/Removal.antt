-- ===== src/Sources/Removal.antt =====
-- source_service.go, DeleteByName: what the removal of a source takes away, and when.
use mathlib.Core.List.{Memᴰ}
use mathlib.Core.Path.{subst}
use migration_manager.Prelude.{ℕ, String, false, ◌≡◌, ap, ◌∙◌, List, [], ◌∷◌, arith, inl, inr}
use migration_manager.Prelude.Table.{any, find?-remove, Mem-cons, any-none_at}
use migration_manager.Errors.{ok, err, not_found, ok-inj}
use migration_manager.Env.{Env}
use migration_manager.Api.Types.{Batch}
use migration_manager.Store.{Db, World}
use migration_manager.Store.Runs.{
  Runs, succeeded, Runs-do_tx, Runs-pure, Runs-exec, on_guard, on_query, on_bind, on_then,
}
use migration_manager.Store.Repo.{
  get_source, delete_source, is_source, comes_from, get_batches_by_instance,
}
use migration_manager.Sources.{
  is_active, check_inactive, get_uuids_by_source, can_be_modified, delete_source_by_name,
}

delete_source-gone :
    (name : String) (d c : Db)
    → delete_source name d ≡ ok c
    → (get_source name c ≡ err not_found) × (any (comes_from name) c.instances ≡ false)
unfolding delete_source get_source
delete_source-gone name d c h = ground (arith, find?-remove (is_source name) d.sources)

check_inactive-effect :
    (ids : List ℕ) (d c : Db) (u : Unit {0})
    → Runs (check_inactive ids) d u c
    → (c ≡ d) × ((id : ℕ) → Memᴰ id ids → any is_active (get_batches_by_instance id d) ≡ false)
unfolding check_inactive
check_inactive-effect [] d c u r = ((Runs-pure _ d c u r).1, λ id m. elim m [ ])
check_inactive-effect (i ∷ ids) d c u r = on_query _ r (λ bs read t1. on_guard _ t1 (λ free t2.
    let (same, rest) = check_inactive-effect ids d c u t2 in
    (
      same,
      λ id m. elim (Mem-cons m) [
        | inl e ↦
            ap (λ x. any is_active (get_batches_by_instance x d)) e
            ∙ ap (any is_active) (ok-inj read)
            ∙ free
        | inr t ↦ rest id t
      ],
    )))

-- If the source service removes a source, then neither the source nor any of its instances is stored
-- afterwards, and each batch of each instance that it had before was defined or finished then.
pub delete_source_by_name_guarded :
    (env : Env) (name : String) (w : World)
    → (delete_source_by_name env name w).0 ≡ ok tt
    → (get_source name (delete_source_by_name env name w).1.db ≡ err not_found)
      × (any (comes_from name) (delete_source_by_name env name w).1.db.instances ≡ false)
      × ((id : ℕ) (b : Batch)
          → Memᴰ id (get_uuids_by_source name w.db)
          → Memᴰ b (get_batches_by_instance id w.db)
          → is_active b ≡ false)
unfolding delete_source_by_name can_be_modified
delete_source_by_name_guarded env name w h =
    let d' = (delete_source_by_name env name w).1.db in
    on_guard _ (succeeded (delete_source_by_name env name) w tt h) (λ named t0.
      on_query _ (Runs-do_tx _ w.db d' tt t0) (λ src found t1. on_bind t1 (λ ids c modifiable t2.
        let at_rest = λ (id : ℕ) (own : Memᴰ id (get_uuids_by_source name w.db)).
          on_query _ modifiable (λ all listed t3. on_then t3 (λ u e checked t4.
            let (same, free) = check_inactive-effect all w.db e u checked in
            free id (subst (Memᴰ id) (ok-inj listed) own))) in
        on_then t2 (λ u e deleted t5. on_then t5 (λ v f renamed t6.
          let (gone, empty) = delete_source-gone name f d' (Runs-exec _ f d' tt t6) in
          (
            gone,
            empty,
            λ id b own member.
                any-none_at is_active (get_batches_by_instance id w.db) {x = b} (at_rest id own)
                  member,
          ))))))

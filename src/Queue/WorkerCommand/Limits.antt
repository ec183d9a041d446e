-- ===== src/Queue/WorkerCommand/Limits.antt =====
-- queue_service.go: the import limits of sources, targets and batches, which the next worker command
-- has to respect.
use migration_manager.Prelude.{
  Bool, false, String, ◌≡◌, refl, ◌⊎◌, arith, Option, some, inl, inr, ◌∙◌, ap, sym,
}
use migration_manager.Prelude.Int.{ℤ, pos, ◌<ℤ◌}
use migration_manager.Env.{Env}
use migration_manager.Errors.{Result, ok, Result-cases}
use migration_manager.Api.Status.{
  MigrationStatus, background_import, final_import, ImportStage, WorkerCommandType, idle_command,
  import_disks, finalize_import,
}
use migration_manager.Api.Types.{QueueEntry, Instance, Batch, Source, Target}
use migration_manager.Cache.Counters.{get_cached_imports}
use migration_manager.Store.{Db, World, M, pure, ◌>>=◌, ◌>>◌, query}
use migration_manager.Queue.NextWindow.{get_batch_by_name}
use migration_manager.Queue.WorkerCommand.{
  Plan, issue, hold, stay, sync_plan, window_plan, make_plan, try_next_window, carry_out,
  limit_reached, start_command, or_failed, gets, get_target_by_name,
}

-- A plan for an idle entry that starts an import, whether in the background or the final one, is made
-- only while neither the source's limit (`x`) nor the target's (`y`) is reached, and one for a
-- background import only while the batch's (`z`) is not. The new status is that of an import, of a
-- background import for the command to import disks.
make_plan-limits :
    (env : Env) (i : Instance) (q : QueueEntry) (b : Batch) (x y z : Bool) (w : World)
    (c : WorkerCommandType) (s : MigrationStatus) (m : String) (t : ImportStage) (n : Option String)
    → (make_plan env i q b x y z w).0 ≡ ok (issue c s m t n)
    → (c ≡ import_disks) ⊎ (c ≡ finalize_import)
    → (x ≡ false)
      × (y ≡ false)
      × (c ≡ import_disks → z ≡ false)
      × ((s ≡ background_import) ⊎ (s ≡ final_import))
      × (c ≡ import_disks → s ≡ background_import)
unfolding make_plan sync_plan window_plan try_next_window ◌>>=◌ pure
make_plan-limits env i q b x y z w c s m t n h k = ground arith

-- A call that ends in `pure c` gives nothing but `c`.
then_pure-eq : {A B : Type 0} (m : M A) (c d : B) (w : World) → ((m >> pure c) w).0 ≡ ok d → d ≡ c
unfolding ◌>>◌ ◌>>=◌ pure
then_pure-eq m c d w h = elim (Result-cases (m w).0) [
  | inl (a, e) ↦ ground arith
  | inr (x, e) ↦ ground arith
]

then-eq :
    {A B : Type 0} (m : M A) (k : M B) (c d : B) (w : World)
    → ((v : World) → (k v).0 ≡ ok d → d ≡ c)
    → ((m >> k) w).0 ≡ ok d
    → d ≡ c
unfolding ◌>>◌ ◌>>=◌
then-eq m k c d w f h = elim (Result-cases (m w).0) [
  | inl (a, e) ↦ f (m w).1 (ground arith)
  | inr (x, e) ↦ ground arith
]

-- The command of a plan.
abbrev command_of : Plan → WorkerCommandType
command_of (issue c s m t n) = c
command_of (hold n) = idle_command
command_of stay = idle_command

carry_out-eq :
    (i : Instance) (q : QueueEntry) (b : Batch) (p : Plan) (w : World) (c : WorkerCommandType)
    → (carry_out i q b p w).0 ≡ ok c
    → c ≡ command_of p
unfolding carry_out pure
carry_out-eq i q b stay w c h = ground arith
carry_out-eq i q b (hold n) w c h = then_pure-eq _ idle_command c w h
carry_out-eq i q b (issue d s m t n) w c h = then-eq _ _ d c w (λ v k. then_pure-eq _ d c v k) h

command_of-limits :
    (env : Env) (i : Instance) (q : QueueEntry) (b : Batch) (x y z : Bool) (w : World) (p : Plan)
    (c : WorkerCommandType)
    → (make_plan env i q b x y z w).0 ≡ ok p
    → c ≡ command_of p
    → (c ≡ import_disks) ⊎ (c ≡ finalize_import)
    → (x ≡ false) × (y ≡ false) × (c ≡ import_disks → z ≡ false)
command_of-limits env i q b x y z w stay c h e k = ground arith
command_of-limits env i q b x y z w (hold n) c h e k = ground arith
command_of-limits env i q b x y z w (issue d s m t n) c h e k =
    let (source, target, batch, _, _) =
      make_plan-limits env i q b x y z w d s m t n h (rw e at k) in
    (source, target, λ f. batch (rw e at f))

-- A limit above 0 has not been used up.
abbrev pub IsBelow : ℤ → ℤ → Type 0
IsBelow limit running = pos 0 <ℤ limit → running <ℤ limit

limit_reached-IsBelow :
    (limit running : ℤ) → limit_reached limit running ≡ false → IsBelow limit running
limit_reached-IsBelow limit running h = λ k. ground arith

plan_bind-limits :
    (env : Env) (i : Instance) (q : QueueEntry) (b : Batch) (x y z : Bool) (w : World)
    (c : WorkerCommandType)
    → ((make_plan env i q b x y z >>= carry_out i q b) w).0 ≡ ok c
    → (c ≡ import_disks) ⊎ (c ≡ finalize_import)
    → (x ≡ false) × (y ≡ false) × (c ≡ import_disks → z ≡ false)
unfolding ◌>>=◌
plan_bind-limits env i q b x y z w c h k = elim (Result-cases (make_plan env i q b x y z w).0) [
  | inr (_, e) ↦ ground arith
  | inl (p, e) ↦
      let done : (carry_out i q b p (make_plan env i q b x y z w).1).0 ≡ ok c = ground arith in
      command_of-limits env i q b x y z w p c e
        (carry_out-eq i q b p (make_plan env i q b x y z w).1 c done) k
]

query-bind :
    {A B : Type 0} (f : Db → Result A) (k : A → M B) (w : World) (a : A)
    → f w.db ≡ ok a
    → (query f >>= k) w ≡ k a w
unfolding query ◌>>=◌
query-bind f k w a e = rw e refl

or_failed-bind :
    {A B : Type 0} (o : Option A) (k : A → M B) (w : World) (a : A)
    → o ≡ some a
    → (or_failed o >>= k) w ≡ k a w
unfolding or_failed pure ◌>>=◌
or_failed-bind o k w a e = rw e refl

gets-bind : {A B : Type 0} (f : World → A) (k : A → M B) (w : World) → (gets f >>= k) w ≡ k (f w) w
unfolding gets ◌>>=◌
gets-bind f k w = refl

-- When the next command of an idle entry is an import, in the background or the final one, fewer
-- imports are counted for its source and for its target than their limits allow, where these are
-- above 0, and for a background import fewer for the batch than its limit allows.
pub start_command-IsBelow :
    (env : Env) (i : Instance) (q : QueueEntry) (s : Source) (t : Target) (b : Batch) (w : World)
    (source_limit target_limit : ℤ) (c : WorkerCommandType)
    → env.source_import_limit s.properties ≡ some source_limit
    → get_target_by_name q.placement.target_name w.db ≡ ok t
    → env.target_import_limit t.properties ≡ some target_limit
    → get_batch_by_name q.batch_name w.db ≡ ok b
    → (start_command env i q s w).0 ≡ ok c
    → (c ≡ import_disks) ⊎ (c ≡ finalize_import)
    → IsBelow source_limit (get_cached_imports s.name w.source_imports)
      × IsBelow target_limit (get_cached_imports t.name w.target_imports)
      × (c ≡ import_disks
          → IsBelow b.defaults.sync_limit (get_cached_imports b.name w.batch_imports))
unfolding start_command
start_command-IsBelow env i q s t b w sl tl c es et el eb h k =
    let x = limit_reached sl (get_cached_imports s.name w.source_imports) in
    let y = limit_reached tl (get_cached_imports t.name w.target_imports) in
    let z = limit_reached b.defaults.sync_limit (get_cached_imports b.name w.batch_imports) in
    let steps : start_command env i q s w ≡ (make_plan env i q b x y z >>= carry_out i q b) w =
      or_failed-bind _ _ w sl es
      ∙ query-bind _ _ w t et
      ∙ or_failed-bind _ _ w tl el
      ∙ query-bind _ _ w b eb
      ∙ gets-bind _ _ w
      ∙ gets-bind _ _ w
      ∙ gets-bind _ _ w in
    let (source, target, batch) =
      plan_bind-limits env i q b x y z w c (ap (λ r. r.0) (sym steps) ∙ h) k in
    (
      limit_reached-IsBelow sl (get_cached_imports s.name w.source_imports) source,
      limit_reached-IsBelow tl (get_cached_imports t.name w.target_imports) target,
      λ f.
          limit_reached-IsBelow b.defaults.sync_limit (get_cached_imports b.name w.batch_imports)
            (batch f),
    )

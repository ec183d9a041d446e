-- ===== src/Batch/Start/Entries.antt =====
-- batch_service.go, `StartBatchByName`: the entries that a started batch has in the queue.
pub mod Checked
use migration_manager.Prelude.{
  String, Bool, true, false, str_eq, List, [], ◌∷◌, ◌++◌, ◌≡◌, refl, sym, ap, ◌∙◌, append_assoc,
  append-nil, arith, some, inl, inr, not, Bool-cases,
}
use migration_manager.Prelude.Table.{find?}
use mathlib.Core.Path.{subst}
use migration_manager.Errors.{ok-inj, Result, ok}
use migration_manager.Env.{Env}
use migration_manager.Api.Types.{Batch, Instance, Network, QueueEntry, Window, Placement}
use migration_manager.Instance.{disabled_reason}
use migration_manager.Store.{Db, World, pure}
use migration_manager.Store.Runs.{
  Runs, succeeded, Runs-pure, Runs-do_tx, on_lift, on_check, on_query, on_exec, on_guard, on_then,
}
use migration_manager.Store.Batches.{get_batch-name, update_batch-reads}
use migration_manager.Store.Repo.{
  or_not_found, get_batch, update_batch, get_instances_by_batch, is_batch, link_window,
}
use migration_manager.Queue
use migration_manager.Queue.NextWindow.{get_batch_by_name}
use migration_manager.Queue.Operations.{create_entry}
use migration_manager.Batch.{can_start, pos}
use migration_manager.Batch.Start.{
  start, started, unqueued, queue_instance, queue_instances, new_entry,
}
use migration_manager.Batch.Start.Entries.Checked.{
  IsChecked, Pairs, matches_criteria-eq, status_cases, create_queue_entry-appends,
}

module _ (env : Env) (b : Batch) (name : String) (nets : List Network) (ws : List Window) where
  -- The tables after some instances are queued.
  record Queued (is : List Instance) (d d' : Db) : Type 0 where
    entries : List QueueEntry
    checks : Pairs (IsChecked env b name) is entries
    appended : d'.queue ≡ d.queue ++ entries
    same_batches : d'.batches ≡ d.batches

  new_entry-IsChecked :
      (i : Instance) (p : Placement) (match : Bool) (d : Db)
      → env.matches i b.include_expression ≡ some match
      → Queue.validate (new_entry env b name i p match) ≡ ok tt
      → IsChecked env b name i
          (record (link_window d (new_entry env b name i p match)) { id = pos d.next_id })
  unfolding Queue.validate
  new_entry-IsChecked i p match d m v =
      let (w, c) =
        status_cases (disabled_reason env i b.config.restriction_overrides) match
          b.defaults.force_conflict_resolution "Instance no longer matches batch expression" in
      record {
        instance_uuid = refl;
        batch_name = refl;
        stage = refl;
        window = refl;
        valid = v;
        cleared = rw m w;
        conflicting = rw m c;
      }

  queue_instance-Runs :
      (i : Instance) (d d' : Db) (r : QueueEntry)
      → Runs (queue_instance env b name nets ws i) d r d'
      → Queued (i ∷ []) d d'
  unfolding queue_instance create_entry
  queue_instance-Runs i d d' r run = on_lift run (λ p _ t1. on_lift t1 (λ match m t2.
      on_check t2 (λ valid t3. on_query _ t3 (λ n _ t4. on_exec _ t4 (λ c e t5.
        let entry = new_entry env b name i p match in
        let (appended, kept) = create_queue_entry-appends entry d c e in
        let (_, last) = Runs-pure _ c d' r t5 in
        record {
          entries = record (link_window d entry) { id = pos d.next_id } ∷ [];
          checks =
              (new_entry-IsChecked i p match d (matches_criteria-eq env i _ match m) valid, tt);
          appended = ap (λ (x : Db). x.queue) last ∙ appended;
          same_batches = ap (λ (x : Db). x.batches) last ∙ kept;
        })))))

  -- One round after the other.
  Queued-cons :
      (i : Instance) (is : List Instance) (d c d' : Db)
      → Queued (i ∷ []) d c
      → Queued is c d'
      → Queued (i ∷ is) d d'
  Queued-cons i is d c d' x y = record {
    entries = x.entries ++ y.entries;
    checks = Pairs-append is x.entries y.entries x.checks y.checks;
    appended =
        y.appended ∙ ap (λ l. l ++ y.entries) x.appended ∙ append_assoc d.queue x.entries y.entries;
    same_batches = y.same_batches ∙ x.same_batches;
  }
    where
      Pairs-append :
          (is : List Instance) (es fs : List QueueEntry)
          → Pairs (IsChecked env b name) (i ∷ []) es
          → Pairs (IsChecked env b name) is fs
          → Pairs (IsChecked env b name) (i ∷ is) (es ++ fs)
      Pairs-append is [] fs h k = elim h [ ]
      Pairs-append is (e ∷ []) fs h k = (h.0, k)
      Pairs-append is (e ∷ f ∷ es) fs h k = elim (h.1) [ ]

  queue_instances-Runs :
      (is : List Instance) (d d' : Db) (u : Unit {0})
      → Runs (queue_instances env b name nets ws is) d u d'
      → Queued is d d'
  unfolding queue_instances
  queue_instances-Runs [] d d' u run =
      let (_, same) = Runs-pure _ d d' u run in
      record {
        entries = [];
        checks = tt;
        appended = ap (λ (x : Db). x.queue) same ∙ sym (append-nil d.queue);
        same_batches = ap (λ (x : Db). x.batches) same;
      }
  queue_instances-Runs (i ∷ is) d d' u run = on_then run (λ q c first rest.
      Queued-cons i is d c d' (queue_instance-Runs i d c q first)
        (queue_instances-Runs is c d' u rest))

by_name-own :
    (name : String) (d : Db) (b : Batch)
    → get_batch_by_name name d ≡ ok b
    → (b.name ≡ name) × (get_batch name d ≡ ok b)
unfolding get_batch_by_name
by_name-own name d b h = elim (Bool-cases (str_eq name "")) [
  | inl e ↦ cc (rw (e, get_batch_by_name) at h)
  | inr e ↦ let k = rw (e, get_batch_by_name) at h in (get_batch-name name d b k, k)
]

-- What a started batch leaves in the tables.
pub record IsStarted (env : Env) (order : List Instance → List Instance) (name : String) (d d' : Db)
    : Type 0 where
  pub batch : Batch
  pub found : get_batch name d ≡ ok batch
  pub could_start : can_start batch ≡ true
  pub is_stored : get_batch name d' ≡ ok (started env batch)
  pub entries : List QueueEntry
  pub checks :
      Pairs
        (IsChecked env batch name)
        (order (unqueued d.queue (get_instances_by_batch name d)))
        entries
  pub appended : d'.queue ≡ d.queue ++ entries

-- What the end of the transaction says of its parts.
start_finish :
    (env : Env) (order : List Instance → List Instance) (name : String) (d c e d' : Db)
    (old b : Batch) (ws : List Window) (nets : List Network) (qs : List QueueEntry)
    (is : List Instance) (u : Unit {0})
    → not (can_start old) ≡ false
    → get_batch_by_name name d ≡ ok old
    → Path (Result (List QueueEntry)) (ok d.queue) (ok qs)
    → Path (Result (List Instance)) (ok (get_instances_by_batch old.name d)) (ok is)
    → Runs (queue_instances env old name nets ws (order (unqueued qs is))) d u c
    → update_batch old.name (started env old) c ≡ ok e
    → Runs (pure (started env old)) e b d'
    → IsStarted env order name d d'
unfolding get_batch
start_finish env order name d c e d' old b ws nets qs is u startable found read members loop write
      last =
    let queued = queue_instances-Runs env old name nets ws (order (unqueued qs is)) d c u loop in
    let (own, got) = by_name-own name d old found in
    let kept : get_batch name c ≡ ok old =
      ap (λ l. or_not_found (find? (is_batch name) l)) queued.same_batches ∙ got in
    let (stored, rows) =
      update_batch-reads name (started env old) old c e own kept
        (subst (λ n. update_batch n (started env old) c ≡ ok e) own write) in
    let (_, same) = Runs-pure _ e d' b last in
    let all : unqueued qs is ≡ unqueued d.queue (get_instances_by_batch name d) =
      ap (λ x. unqueued x is) (sym (ok-inj read))
      ∙ ap (λ x. unqueued d.queue x) (sym (ok-inj members))
      ∙ ap (λ n. unqueued d.queue (get_instances_by_batch n d)) own in
    record {
      batch = old;
      found = got;
      could_start = ground arith;
      is_stored = ap (λ x. get_batch name x) same ∙ stored;
      entries = queued.entries;
      checks =
          subst (λ x. Pairs (IsChecked env old name) (order x) queued.entries) all queued.checks;
      appended = ap (λ (x : Db). x.queue) same ∙ rows ∙ queued.appended;
    }

-- If a batch is started, outside or inside a transaction, then it was in a status that allows the
-- start, and it is now stored as running. The queue has what it had before, and after that one entry
-- for each instance that `order` gives of the batch's instances that were not queued, in that order:
-- valid, in the background stage, without a window, waiting exactly if nothing is against the instance
-- and it matches the batch or the batch overrules that, and in conflict exactly if it does not match
-- and the batch does not overrule that.
pub start-IsStarted :
    (env : Env) (order : List Instance → List Instance) (name : String) (w : World) (b : Batch)
    → (start env order name w).0 ≡ ok b
    → IsStarted env order name w.db (start env order name w).1.db
unfolding start
start-IsStarted env order name w b h =
    on_guard _ (succeeded (start env order name) w b h) (λ _ body.
      on_query _ (Runs-do_tx _ w.db _ b body) (λ old found t1. on_guard _ t1 (λ startable t2.
        on_query _ t2 (λ ws _ t3. on_check t3 (λ _ t4. on_query _ t4 (λ nets _ t5.
          on_query _ t5 (λ qs read t6. on_query _ t6 (λ is members t7. on_guard _ t7 (λ _ t8.
            on_then t8 (λ u c loop t9. on_exec _ t9 (λ e write last.
              start_finish env order name w.db c e _ old b ws nets qs is u startable found read
                members loop write last)))))))))))

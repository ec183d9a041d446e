-- ===== src/Store/Transaction.antt =====
-- internal/transaction: `Do` opens a transaction unless the context carries one, commits when the
-- body returns no error, and rolls back otherwise; inside another transaction it does neither.
use migration_manager.Prelude.{true, false, if◌then◌else◌, ◌≡◌, refl, arith, inl, inr}
use migration_manager.Errors.{Error, Result, ok, err, failed, Result-cases}
use migration_manager.Store.State.{World, Db, M, query}

-- The deferred `Rollback` and the `Commit` of `Do`. After a commit that the database refuses, or a
-- rollback, the tables are those of the start.
unfoldable pub close_tx : {A : Type 0} → Db → Result A × World → Result A × World
close_tx start (ok a, w) =
    if w.commits
    then (ok a, record w { in_tx = false })
    else (err (failed "Failed commit transaction"), record w { db = start; in_tx = false })
close_tx start (err e, w) = (err e, record w { db = start; in_tx = false })

-- `transaction.Do`.
unfoldable pub do_tx : {A : Type 0} → M A → M A
unfolding close_tx
do_tx body w = if w.in_tx then body w else close_tx w.db (body (record w { in_tx = true }))

pub close_tx-err :
    {A : Type 0} (start : Db) (r : Result A × World) (e : Error)
    → (close_tx start r).0 ≡ err e
    → (close_tx start r).1.db ≡ start
unfolding close_tx
close_tx-err start (ok a, w) e h = ground arith
close_tx-err start (err x, w) e h = refl

pub close_tx-ok :
    {A : Type 0} (start : Db) (r : Result A × World) (a : A)
    → (close_tx start r).0 ≡ ok a
    → (r.0 ≡ ok a) × ((close_tx start r).1.db ≡ r.1.db)
unfolding close_tx
close_tx-ok start (ok b, w) a h = ground arith
close_tx-ok start (err x, w) a h = cc

close_tx-rest :
    {A : Type 0} (start : Db) (r : Result A × World)
    → ((close_tx start r).1.in_tx ≡ false)
      × ((close_tx start r).1.source_imports ≡ r.1.source_imports)
      × ((close_tx start r).1.target_imports ≡ r.1.target_imports)
      × ((close_tx start r).1.batch_imports ≡ r.1.batch_imports)
unfolding close_tx
close_tx-rest start (ok b, w) = ground arith
close_tx-rest start (err x, w) = (refl, refl, refl, refl)

-- A transaction that is opened outside any other, and fails for whatever reason, leaves every table
-- as it was, whatever its body wrote, and it is closed. The counts of the sources' and the targets'
-- imports are not taken back: they are as the body left them.
pub do_tx_atomic :
    {A : Type 0} (body : M A) (w : World) (e : Error)
    → w.in_tx ≡ false
    → (do_tx body w).0 ≡ err e
    → ((do_tx body w).1.db ≡ w.db)
      × ((do_tx body w).1.in_tx ≡ false)
      × ((do_tx body w).1.source_imports ≡ (body (record w { in_tx = true })).1.source_imports)
      × ((do_tx body w).1.target_imports ≡ (body (record w { in_tx = true })).1.target_imports)
unfolding do_tx
do_tx_atomic body w e outside h =
    let r = body (record w { in_tx = true }) in
    ground (arith, close_tx-err w.db r e, close_tx-rest w.db r)

-- A call inside a transaction runs its body and nothing else: it commits nothing early, and undoes
-- nothing of what the outer transaction has written.
pub do_tx_nested : {A : Type 0} (body : M A) (w : World) → w.in_tx ≡ true → do_tx body w ≡ body w
unfolding do_tx
do_tx_nested body w inside = rw inside

-- A transaction that only reads gives what it has read, and changes no table.
pub do_tx-query :
    {A : Type 0} (f : Db → Result A) (w : World)
    → ((do_tx (query f) w).1.db ≡ w.db) × ((a : A) → (do_tx (query f) w).0 ≡ ok a → f w.db ≡ ok a)
unfolding do_tx close_tx query
do_tx-query f w = elim (Result-cases (f w.db)) [
  | inl (b, e) ↦ (rw (e, close_tx) (ground arith), λ a h. ground arith)
  | inr (x, e) ↦ (ground arith, λ a h. ground arith)
]

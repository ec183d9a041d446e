-- ===== src/Store/Keeps.antt =====
-- Invariants of the tables through the service calls: a call keeps an invariant if it holds of the
-- tables afterwards, whether the call succeeds or not. One rule for each way to build a call.
use migration_manager.Prelude.{
  Bool, true, false, if◌then◌else◌, sym, ◌≡◌, Bool-cases, inl, inr, refl,
}
use mathlib.Core.Path.{subst}
use migration_manager.Errors.{Result, ok, err, Error}
use migration_manager.Store.State.{
  World, Db, M, ◌>>=◌, ◌>>◌, pure, raise, raise_if, lift, query, exec, when,
}
use migration_manager.Store.Transaction.{do_tx, close_tx}

pub record Keeps (P : Db → Type 0) {A : Type 0} (m : M A) : Type 0 where
  pub run : (w : World) → P w.db → P (m w).1.db

close_tx-keeps :
    (P : Db → Type 0) {A : Type 0} (start : Db) (r : Result A × World)
    → P start
    → P r.1.db
    → P (close_tx start r).1.db
unfolding close_tx
close_tx-keeps P start (ok a, w) p p' = elim (Bool-cases w.commits) [
  | inl e ↦ rw e p'
  | inr e ↦ rw e p
]
close_tx-keeps P start (err e, w) p p' = p

module _ {P : Db → Type 0} where
  pub pure-Keeps : {A : Type 0} (a : A) → Keeps P (pure a)
  unfolding pure
  pure-Keeps a = record { run = λ w p. p }

  pub raise-Keeps : {A : Type 0} (e : Error) → Keeps P (raise {A = A} e)
  unfolding raise
  raise-Keeps e = record { run = λ w p. p }

  pub raise_if-Keeps : (b : Bool) (e : Error) → Keeps P (raise_if b e)
  unfolding raise_if
  raise_if-Keeps true e = record { run = λ w p. p }
  raise_if-Keeps false e = record { run = λ w p. p }

  pub lift-Keeps : {A : Type 0} (r : Result A) → Keeps P (lift r)
  unfolding lift
  lift-Keeps r = record { run = λ w p. p }

  pub query-Keeps : {A : Type 0} (f : Db → Result A) → Keeps P (query f)
  unfolding query
  query-Keeps f = record { run = λ w p. p }

  -- A statement keeps the invariant if it does so where it succeeds.
  pub exec-Keeps :
      (f : Db → Result Db) → ((d d' : Db) → P d → f d ≡ ok d' → P d') → Keeps P (exec f)
  unfolding exec
  exec-Keeps f h = record { run = λ w p. go w p (f w.db) refl }
    where
      go : (w : World) → P w.db → (r : Result Db) → f w.db ≡ r → P (exec f w).1.db
      go w p (ok d) e = rw (e, exec) (h w.db d p e)
      go w p (err x) e = rw (e, exec) p

  pub when-Keeps : (b : Bool) (m : M (Unit {0})) → Keeps P m → Keeps P (when b m)
  unfolding when pure
  when-Keeps true m k = k
  when-Keeps false m k = record { run = λ w p. p }

  pub bind-Keeps :
      {A B : Type 0} (m : M A) (f : A → M B)
      → Keeps P m
      → ((a : A) → Keeps P (f a))
      → Keeps P (m >>= f)
  unfolding ◌>>=◌
  bind-Keeps {A} {B} m f k ks = record { run = λ w p. go w (k.run w p) (m w).0 refl }
    where
      go : (w : World) → P (m w).1.db → (r : Result A) → (m w).0 ≡ r → P ((m >>= f) w).1.db
      go w p (ok a) e = rw (e, ◌>>=◌) ((ks a).run (m w).1 p)
      go w p (err x) e = rw (e, ◌>>=◌) p

  pub then-Keeps : {A B : Type 0} (m : M A) (k : M B) → Keeps P m → Keeps P k → Keeps P (m >> k)
  unfolding ◌>>◌
  then-Keeps m k h h' = bind-Keeps m (λ _. k) h (λ _. h')

  -- The rest may use what is known of the value.
  pub bind_post-Keeps :
      {A B : Type 0} (Q : A → Type 0) (m : M A) (f : A → M B)
      → ((w : World) (a : A) → (m w).0 ≡ ok a → Q a)
      → Keeps P m
      → ((a : A) → Q a → Keeps P (f a))
      → Keeps P (m >>= f)
  unfolding ◌>>=◌
  bind_post-Keeps {A} {B} Q m f post k ks = record { run = λ w p. go w (k.run w p) (m w).0 refl }
    where
      go : (w : World) → P (m w).1.db → (r : Result A) → (m w).0 ≡ r → P ((m >>= f) w).1.db
      go w p (ok a) e = rw (e, ◌>>=◌) ((ks a (post w a e)).run (m w).1 p)
      go w p (err x) e = rw (e, ◌>>=◌) p

  -- After a read, the rest may use what the invariant says of the value.
  pub bind_query-Keeps :
      {A B : Type 0} (q : Db → Result A) (f : A → M B)
      → ((d : Db) (a : A) → P d → q d ≡ ok a → (w : World) → w.db ≡ d → P (f a w).1.db)
      → Keeps P (query q >>= f)
  unfolding ◌>>=◌ query
  bind_query-Keeps {A} {B} q f h = record { run = λ w p. go w p (q w.db) refl }
    where
      go : (w : World) → P w.db → (r : Result A) → q w.db ≡ r → P ((query q >>= f) w).1.db
      go w p (ok a) e = rw (e, ◌>>=◌) (h w.db a p e w refl)
      go w p (err x) e = rw (e, ◌>>=◌) p

  -- A transaction keeps what its body keeps: a rollback restores tables that had the property.
  pub do_tx-Keeps : {A : Type 0} (m : M A) → Keeps P m → Keeps P (do_tx m)
  unfolding do_tx
  do_tx-Keeps m k = record {
    run = λ w p.
        let inner = m (record w { in_tx = true }) in
        let kept = close_tx-keeps P w.db inner p (k.run (record w { in_tx = true }) p) in
        elim (Bool-cases w.in_tx) [
          | inl e ↦ subst (λ b. P (if b then m w else close_tx w.db inner).1.db) (sym e) (k.run w p)
          | inr e ↦ subst (λ b. P (if b then m w else close_tx w.db inner).1.db) (sym e) kept
        ];
  }

pub ruleset keeps_rules = (
  pure-Keeps, raise-Keeps, raise_if-Keeps, lift-Keeps, query-Keeps, when-Keeps, bind-Keeps,
  then-Keeps, do_tx-Keeps,
)

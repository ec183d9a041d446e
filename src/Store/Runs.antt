-- ===== src/Store/Runs.antt =====
-- What a service call that succeeds has read and written: its run as a relation between the tables
-- before, the result, and the tables after, taken apart for each way to build a call.
use migration_manager.Prelude.{Bool, true, false, ◌≡◌, refl, Bool-cases, inl, inr, sym, ap, ◌∙◌}
use mathlib.Core.Path.{subst}
use migration_manager.Errors.{Error, Result, ok, err, Result-cases}
use migration_manager.Store.State.{
  World, Db, M, ◌>>=◌, ◌>>◌, pure, raise, raise_if, lift, query, exec,
}
use migration_manager.Store.Transaction.{do_tx, close_tx-ok, do_tx_nested}

-- Some world with the tables `d` lets the call succeed with `a`, and leaves the tables `d'`.
pub record Runs {A : Type 0} (m : M A) (d : Db) (a : A) (d' : Db) : Type 0 where
  pub world : World
  pub before : world.db ≡ d
  pub result : (m world).0 ≡ ok a
  pub after : (m world).1.db ≡ d'

-- A call that succeeded is such a run.
pub succeeded :
    {A : Type 0} (m : M A) (w : World) (a : A) → (m w).0 ≡ ok a → Runs m w.db a (m w).1.db
succeeded m w a h = record { world = w; before = refl; result = h; after = refl }

-- A sequence is a run of its first part and one of the rest.
pub Runs-bind :
    {A B : Type 0} (m : M A) (f : A → M B) (d d' : Db) (b : B)
    → Runs (m >>= f) d b d'
    → (a : A) × (c : Db) × Runs m d a c × Runs (f a) c b d'
unfolding ◌>>=◌
Runs-bind m f d d' b r = elim (Result-cases (m r.world).0) [
  | inl (a, e) ↦ (
    a,
    (m r.world).1.db,
    record { world = r.world; before = r.before; result = e; after = refl },
    record {
      world = (m r.world).1;
      before = refl;
      result = let h = r.result in rw (e, ◌>>=◌) at h;
      after = let h = r.after in rw (e, ◌>>=◌) at h;
    },
  )
  | inr (x, e) ↦ let h = r.result in cc (rw (e, ◌>>=◌) at h)
]

pub Runs-then :
    {A B : Type 0} (m : M A) (k : M B) (d d' : Db) (b : B)
    → Runs (m >> k) d b d'
    → (a : A) × (c : Db) × Runs m d a c × Runs k c b d'
unfolding ◌>>◌
Runs-then m k d d' b r = Runs-bind m (λ _. k) d d' b r

pub Runs-query :
    {A : Type 0} (f : Db → Result A) (d d' : Db) (a : A)
    → Runs (query f) d a d'
    → (f d ≡ ok a) × (d' ≡ d)
unfolding query
Runs-query f d d' a r = (ap f (sym r.before) ∙ r.result, sym r.after ∙ r.before)

pub Runs-lift :
    {A : Type 0} (x : Result A) (d d' : Db) (a : A) → Runs (lift x) d a d' → (x ≡ ok a) × (d' ≡ d)
unfolding lift
Runs-lift x d d' a r = (r.result, sym r.after ∙ r.before)

pub Runs-raise_if :
    (b : Bool) (e : Error) (d d' : Db) (a : Unit {0})
    → Runs (raise_if b e) d a d'
    → (b ≡ false) × (d' ≡ d)
unfolding raise_if
Runs-raise_if true e d d' a r = let h = r.result in cc
Runs-raise_if false e d d' a r = (refl, sym r.after ∙ r.before)

pub Runs-pure : {A : Type 0} (x : A) (d d' : Db) (a : A) → Runs (pure x) d a d' → (a ≡ x) × (d' ≡ d)
unfolding pure
Runs-pure x d d' a r = let h = r.result in (cc, sym r.after ∙ r.before)

pub Runs-raise : {A : Type 0} (e : Error) (d d' : Db) (a : A) → Runs (raise e) d a d' → ⊥
unfolding raise
Runs-raise e d d' a r = let h = r.result in cc

pub Runs-exec : (f : Db → Result Db) (d d' : Db) (a : Unit {0}) → Runs (exec f) d a d' → f d ≡ ok d'
unfolding exec
Runs-exec f d d' a r = elim (Result-cases (f r.world.db)) [
  | inl (c, e) ↦ let h = r.after in ap f (sym r.before) ∙ e ∙ ap ok (rw (e, exec) at h)
  | inr (x, e) ↦ let h = r.result in cc (rw (e, exec) at h)
]

-- A transaction that succeeds has committed what its body wrote.
pub Runs-do_tx : {A : Type 0} (m : M A) (d d' : Db) (a : A) → Runs (do_tx m) d a d' → Runs m d a d'
unfolding do_tx
Runs-do_tx m d d' a r = elim (Bool-cases r.world.in_tx) [
  | inl e ↦
      let same = do_tx_nested m r.world e in
      record {
        world = r.world;
        before = r.before;
        result = ap (λ x. x.0) (sym same) ∙ r.result;
        after = ap (λ x. x.1.db) (sym same) ∙ r.after;
      }
  | inr e ↦
      let h = r.result in
      let k = r.after in
      let inner = record r.world { in_tx = true } in
      let (good, kept) = close_tx-ok r.world.db (m inner) a (rw (e, do_tx) at h) in
      record {
        world = inner;
        before = r.before;
        result = good;
        after = sym kept ∙ (rw (e, do_tx) at k);
      }
]

-- A sequence whose first part is known.
pub bind_after :
    {A B : Type 0} (m : M A) (f : A → M B) (a : A) (w v : World)
    → m w ≡ (ok a, v)
    → (m >>= f) w ≡ f a v
unfolding ◌>>=◌
bind_after m f a w v h = ap (λ r. elim r.0 [ ok a ↦ f a r.1 | err e ↦ (err e, r.1) ]) h

-- One step of a sequence at a time: the rest is about what the first call gave.
module _ {B C : Type 0} {d d' : Db} {b : B} where
  pub on_bind :
      {A : Type 0} {m : M A} {f : A → M B}
      → Runs (m >>= f) d b d'
      → ((a : A) (c : Db) → Runs m d a c → Runs (f a) c b d' → C)
      → C
  on_bind {A} {m} {f} r k = let (a, c, x, y) = Runs-bind m f d d' b r in k a c x y

  pub on_then :
      {A : Type 0} {m : M A} {k : M B}
      → Runs (m >> k) d b d'
      → ((a : A) (c : Db) → Runs m d a c → Runs k c b d' → C)
      → C
  on_then {A} {m} {k} r g = let (a, c, x, y) = Runs-then m k d d' b r in g a c x y

  pub on_query :
      {A : Type 0} (q : Db → Result A) {f : A → M B}
      → Runs (query q >>= f) d b d'
      → ((a : A) → q d ≡ ok a → Runs (f a) d b d' → C)
      → C
  on_query {A} q {f} r k = on_bind r (λ a c x y.
      let (e, same) = Runs-query q d c a x in k a e (subst (λ z. Runs (f a) z b d') same y))

  pub on_lift :
      {A : Type 0} {x : Result A} {f : A → M B}
      → Runs (lift x >>= f) d b d'
      → ((a : A) → x ≡ ok a → Runs (f a) d b d' → C)
      → C
  on_lift {A} {x} {f} r k = on_bind r (λ a c h y.
      let (e, same) = Runs-lift x d c a h in k a e (subst (λ z. Runs (f a) z b d') same y))

  pub on_check :
      {x : Result (Unit {0})} {k : M B}
      → Runs (lift x >> k) d b d'
      → (x ≡ ok tt → Runs k d b d' → C)
      → C
  on_check {x} {k} r g =
      on_then r
        (λ a c h y. let (e, same) = Runs-lift x d c a h in g e (subst (λ z. Runs k z b d') same y))

  pub on_guard :
      {t : Bool} (e : Error) {k : M B}
      → Runs (raise_if t e >> k) d b d'
      → (t ≡ false → Runs k d b d' → C)
      → C
  on_guard {t} e {k} r g = on_then r (λ a c h y.
      let (passed, same) = Runs-raise_if t e d c a h in
      g passed (subst (λ z. Runs k z b d') same y))

  pub on_exec :
      (f : Db → Result Db) {k : M B}
      → Runs (exec f >> k) d b d'
      → ((c : Db) → f d ≡ ok c → Runs k c b d' → C)
      → C
  on_exec f {k} r g = on_then r (λ a c h y. g c (Runs-exec f d c a h) y)

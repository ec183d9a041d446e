-- ===== src/IdLock/Invariant.antt =====
-- internal/util/concurrent.go, `IDLock`: what holds of the map, the mutexes and the goroutines after
-- each step.
pub mod Create
pub mod Steps
use migration_manager.Prelude.{
  ℕ, String, str_eq, ◌+◌, ◌≤◌, ◌<◌, Bool, true, false, List, [], ◌∷◌, none, some, ◌≡◌, sym, ◌∙◌,
  arith,
}
use migration_manager.Prelude.Table.{count, All}
use migration_manager.Prelude.Map.{lookup, string_eq}
use migration_manager.IdLock.{Locks, Position, outside, waiting, inside, at}

-- The goroutine is in `Lock` for the key, or after it.
abbrev pub uses_key : String → Position → Bool
uses_key k outside = false
uses_key k (waiting j a) = str_eq j k
uses_key k (inside j) = str_eq j k

-- The goroutine holds the key's lock.
abbrev pub holds : String → Position → Bool
holds k (inside j) = str_eq j k
holds k _ = false

abbrev pub users : String → List Position → ℕ
users k ps = count (uses_key k) ps

abbrev pub holders : String → List Position → ℕ
holders k ps = count (holds k) ps

abbrev bit : Bool → ℕ
bit true = 1
bit false = 0

count-at :
    (p : Position → Bool) (before after : List Position) (x : Position)
    → count p (at before x after) ≡ count p before + count p after + bit (p x)
count-at p [] after x = ground arith
count-at p (y ∷ before) after x = ground (arith, count-at p before after x)

-- The mutex of a key in the map counts the goroutines that use the key, and is locked exactly while one
-- of them holds it.
pub record Counts (l : Locks) (ps : List Position) (k : String) (a : ℕ) : Type 0 where
  pub uses : (l.heap a).uses ≡ users k ps
  pub used : 0 < users k ps
  pub locked : (l.heap a).is_locked ≡ true → holders k ps ≡ 1
  pub free : (l.heap a).is_locked ≡ false → holders k ps ≡ 0
  pub old : a < l.fresh

-- A goroutine that waits for a key waits for the mutex that the map has for it.
abbrev pub IsCurrent : Locks → Position → Type 0
IsCurrent l (waiting k a) = lookup k l.lock_map ≡ some a
IsCurrent l _ = Unit

pub record Inv (l : Locks) (ps : List Position) : Type 0 where
  pub unused : (k : String) → lookup k l.lock_map ≡ none → users k ps ≡ 0
  pub counts : (k : String) (a : ℕ) → lookup k l.lock_map ≡ some a → Counts l ps k a
  pub distinct :
      (j k : String) (a : ℕ) → lookup j l.lock_map ≡ some a → lookup k l.lock_map ≡ some a → j ≡ k
  pub current : All (IsCurrent l) ps

pub holders-users : (k : String) (ps : List Position) → holders k ps ≤ users k ps
holders-users k [] = ground arith
holders-users k (outside ∷ ps) = holders-users k ps
holders-users k (waiting j a ∷ ps) = ground (arith, holders-users k ps)
holders-users k (inside j ∷ ps) = ground (arith, holders-users k ps)

-- A property of every goroutine, when one of them takes a step.
All-step :
    (P Q : Position → Type 0) (before after : List Position) (x y : Position)
    → ((p : Position) → P p → Q p)
    → Q y
    → All P (at before x after)
    → All Q (at before y after)
All-step P Q [] after x y f q (h, hs) = (q, go after hs)
  where
    go : (ps : List Position) → All P ps → All Q ps
    go [] all = tt
    go (p ∷ ps) (u, us) = (f p u, go ps us)
All-step P Q (p ∷ before) after x y f q (h, hs) = (f p h, All-step P Q before after x y f q hs)

-- The same, when no other goroutine passes the test.
All-step_alone :
    (P Q : Position → Type 0) (t : Position → Bool) (before after : List Position) (x y : Position)
    → count t before + count t after ≡ 0
    → ((p : Position) → P p → t p ≡ false → Q p)
    → Q y
    → All P (at before x after)
    → All Q (at before y after)
All-step_alone P Q t [] after x y n f q (h, hs) = (q, go after (omega arith) hs)
  where
    go : (ps : List Position) → count t ps ≡ 0 → All P ps → All Q ps
    go [] n all = tt
    go (p ∷ ps) n (u, us) = (f p u (ground arith), go ps (ground arith) us)
All-step_alone P Q t (p ∷ before) after x y n f q (h, hs) =
    (f p h (ground arith), All-step_alone P Q t before after x y (ground arith) f q hs)

pub All-here :
    (P : Position → Type 0) (before after : List Position) (x : Position)
    → All P (at before x after)
    → P x
All-here P [] after x (h, hs) = h
All-here P (p ∷ before) after x (h, hs) = All-here P before after x hs

-- Another key's counts, when the step leaves its mutex alone.
Counts-other :
    (l l' : Locks) (before after : List Position) (x y : Position) (k : String) (a : ℕ)
    → uses_key k x ≡ uses_key k y
    → holds k x ≡ holds k y
    → l'.heap a ≡ l.heap a
    → l.fresh ≤ l'.fresh
    → Counts l (at before x after) k a
    → Counts l' (at before y after) k a
Counts-other l l' before after x y k a u h m f c =
    let ux = count-at (uses_key k) before after x in
    let uy = count-at (uses_key k) before after y in
    let hx = count-at (holds k) before after x in
    let hy = count-at (holds k) before after y in
    record {
      uses = rw m (c.uses ∙ ux ∙ rw u (sym uy));
      used = rw uy (rw (← u) (rw (← ux) c.used));
      locked = λ e. hy ∙ rw (← h) (sym hx) ∙ c.locked (rw m at e);
      free = λ e. hy ∙ rw (← h) (sym hx) ∙ c.free (rw m at e);
      old = let o = c.old in omega arith;
    }

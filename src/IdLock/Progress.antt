-- ===== src/IdLock/Progress.antt =====
-- internal/util/concurrent.go, `IDLock`: no deadlock. However the goroutines stand, those that are in
-- `Lock` or after it can all come out.
use migration_manager.Prelude.{
  ℕ, zero, suc, ◌+◌, ◌≤◌, ◌<◌, ◌==◌, String, List, [], ◌∷◌, none, ◌≡◌, refl, ap, arith, Bool-cases,
  inl, inr, str_eq, eq_iff,
}
use migration_manager.Prelude.Map.{lookup, string_eq}
use migration_manager.IdLock.{
  Locks, Position, outside, waiting, inside, System, at, Step, acquires, leaves, Reach, then,
  acquire, leave,
}
use migration_manager.IdLock.Invariant.{holders, users, Inv, IsCurrent, All-here}
use migration_manager.IdLock.Safety.{Reach-Inv, Reach-exclusive}

-- Some goroutine holds the key.
record Held (key : String) (ps : List Position) : Type 0 where
  front : List Position
  back : List Position
  split : ps ≡ at front (inside key) back

Held-cons : (key : String) (p : Position) (ps : List Position) → Held key ps → Held key (p ∷ ps)
Held-cons key p ps h = record {
  front = p ∷ h.front;
  back = h.back;
  split = ap (λ r. p ∷ r) h.split;
}

holders-Held : (key : String) (ps : List Position) → 0 < holders key ps → Held key ps
holders-Held key [] h = ground arith
holders-Held key (outside ∷ ps) h = Held-cons key outside ps (holders-Held key ps h)
holders-Held key (waiting j a ∷ ps) h = Held-cons key (waiting j a) ps (holders-Held key ps h)
holders-Held key (inside j ∷ ps) h = elim (Bool-cases (str_eq j key)) [
  | inl e ↦ record { front = []; back = ps; split = ap (λ k. inside k ∷ ps) ((eq_iff j key).0 e) }
  | inr e ↦ Held-cons key (inside j) ps (holders-Held key ps (rw e at h))
]

-- What the goroutines still have to do if none comes in again.
abbrev pub steps_left : Position → ℕ
steps_left outside = 0
steps_left (waiting k a) = 2
steps_left (inside k) = 1

abbrev pub work : List Position → ℕ
work [] = 0
work (p ∷ ps) = steps_left p + work ps

work-at :
    (before after : List Position) (x : Position)
    → work (at before x after) ≡ work before + work after + steps_left x
work-at [] after x = ground arith
work-at (p ∷ before) after x = ground (arith, work-at before after x)

-- The first goroutine that has something to do.
data Busy (ps : List Position) : Type 0 where
  busy_waiting :
      (before after : List Position) (key : String) (a : ℕ)
      → ps ≡ at before (waiting key a) after
      → Busy ps
  busy_inside :
      (before after : List Position) (key : String) → ps ≡ at before (inside key) after → Busy ps

Busy-cons : (p : Position) (ps : List Position) → Busy ps → Busy (p ∷ ps)
Busy-cons p ps (busy_waiting before after key a e) =
    busy_waiting (p ∷ before) after key a (ap (λ r. p ∷ r) e)
Busy-cons p ps (busy_inside before after key e) =
    busy_inside (p ∷ before) after key (ap (λ r. p ∷ r) e)

find-Busy : (ps : List Position) → 0 < work ps → Busy ps
find-Busy [] h = ground arith
find-Busy (outside ∷ ps) h = Busy-cons outside ps (find-Busy ps (omega arith))
find-Busy (waiting k a ∷ ps) h = busy_waiting [] ps k a refl
find-Busy (inside k ∷ ps) h = busy_inside [] ps k refl

-- Some goroutine that is not outside can take a step, which leaves less to do.
next-Step :
    (l : Locks) (ps : List Position)
    → Inv l ps
    → Busy ps
    → (t : System) × Step (record { locks = l; threads = ps }) t × (work t.threads < work ps)
next-Step l ps inv (busy_inside before after key e) =
    let x = work-at before after (inside key) in
    let y = work-at before after outside in
    rw e (
      record { locks = leave key l; threads = at before outside after },
      leaves before after key l,
      ground arith,
    )
next-Step l ps inv (busy_waiting before after key a e) =
    let here = All-here (IsCurrent l) before after (waiting key a) (rw e at inv.current) in
    let c = inv.counts key a here in
    elim (Bool-cases (l.heap a).is_locked) [
      | inr free ↦
          let x = work-at before after (waiting key a) in
          let y = work-at before after (inside key) in
          rw e (
            record { locks = acquire a l; threads = at before (inside key) after },
            acquires before after key a l free,
            ground arith,
          )
      | inl locked ↦
          let q = c.locked locked in
          let h = holders-Held key ps (ground arith) in
          let x = work-at h.front h.back (inside key) in
          let y = work-at h.front h.back outside in
          rw h.split (
            record { locks = leave key l; threads = at h.front outside h.back },
            leaves h.front h.back key l,
            ground arith,
          )
    ]

-- Steps of goroutines that are in `Lock` or after it.
pub data Drains : System → System → Type 0 where
  drained : (s : System) → Drains s s
  by : {s t u : System} → Step s t → work t.threads < work s.threads → Drains t u → Drains s u

drain :
    (n fuel : ℕ) (s : System)
    → Reach n s
    → work s.threads ≤ fuel
    → (t : System) × Reach n t × Drains s t × (work t.threads ≡ 0)
drain n zero s r h = (s, r, drained s, omega arith)
drain n (suc fuel) s r h = elim (Bool-cases (work s.threads == 0)) [
  | inl z ↦ (s, r, drained s, ground arith)
  | inr z ↦
      let inv = Reach-Inv n r in
      let (t, x, less) = next-Step s.locks s.threads inv (find-Busy s.threads (ground arith)) in
      let (u, r', d, done) = drain n fuel t (then r x) (omega arith) in (u, r', by x less d, done)
]

work-users : (k : String) (ps : List Position) → work ps ≡ 0 → users k ps ≡ 0
work-users k [] h = refl
work-users k (outside ∷ ps) h = work-users k ps (omega arith)
work-users k (waiting j a ∷ ps) h = ground arith
work-users k (inside j ∷ ps) h = ground arith

-- From every state that any number of goroutines can reach, each of which unlocks only what it has locked, there are
-- steps after which every goroutine is outside and the map is empty, each of which is a step of a goroutine
-- that was in `Lock` or after it: no goroutine waits for a lock that cannot come free.
pub Reach-Drains :
    (n : ℕ) (s : System)
    → Reach n s
    → (t : System) × Drains s t
      × (work t.threads ≡ 0)
      × ((key : String) → lookup key t.locks.lock_map ≡ none)
Reach-Drains n s r =
    let (t, r', d, done) = drain n (work s.threads) s r (ground arith) in
    (t, d, done, λ key. (Reach-exclusive n t key r').1 (work-users key t.threads done))

-- ===== src/Daemon/Resume/Counts.antt =====
-- What each of the maps counts, over any list of rounds.
use migration_manager.Prelude.{
  ℕ, Bool-cases, inl, inr, String, str_eq, eq_iff, Bool, true, false, ◌&&◌, if◌then◌else◌, ◌+◌, ◌<◌,
  List, [], ◌∷◌, ◌≡◌, refl, ◌∙◌, ap, arith, length,
}
use migration_manager.Prelude.Int.{pos, int_limit, ◌+ℤ◌, wrap_int}
use migration_manager.Prelude.Map.{string_eq, at_or, at_or-insert}
use migration_manager.Prelude.Table.{count}
use migration_manager.Api.Status.{
  MigrationStatus, blocked, waiting, waiting_import, creating, background_import, idle,
  final_import, post_import, worker_done, finished, error, canceled, conflict, other,
}
use migration_manager.Api.Types.{QueueEntry}
use migration_manager.Cache.Counters.{Counters}
use migration_manager.Queue.Handler.{MigrationState}
use migration_manager.Daemon.Resume.{Tally, Round, bump, source_of, target_of, tally_by, tally}

abbrev pub is_importing : MigrationStatus → Bool
is_importing background_import = true
is_importing final_import = true
is_importing _ = false

abbrev pub is_background : MigrationStatus → Bool
is_background background_import = true
is_background _ = false

abbrev pub is_creating : MigrationStatus → Bool
is_creating creating = true
is_creating _ = false

-- One of the counting maps: which statuses it counts, and under which name.
pub record Counter : Type 0 where
  pub project : Tally → Counters
  pub active : MigrationStatus → Bool
  pub key : MigrationState → ℕ → String

abbrev pub sources : Counter
sources = record { project = λ t. t.from_source; active = is_importing; key = source_of }

abbrev pub targets : Counter
targets = record { project = λ t. t.to_target; active = is_importing; key = target_of }

abbrev pub batches : Counter
batches = record { project = λ t. t.by_batch; active = is_background; key = λ s id. s.batch.name }

abbrev pub creations : Counter
creations = record { project = λ t. t.creating_on; active = is_creating; key = target_of }

-- The map goes up by one in the rounds that it counts, and only there.
abbrev pub Obeys : Counter → Type 0
Obeys c =
    (now : ℕ) (s : MigrationState) (id : ℕ) (st : MigrationStatus) (t : Tally)
    → c.project (tally_by now s id st t)
      ≡ (if c.active st then bump (c.key s id) (c.project t) else c.project t)

abbrev AllObey : MigrationStatus → Type 0
AllObey st =
    (now : ℕ) (s : MigrationState) (id : ℕ) (t : Tally)
    → ((tally_by now s id st t).from_source
        ≡ (if is_importing st then bump (source_of s id) t.from_source else t.from_source))
      × ((tally_by now s id st t).to_target
          ≡ (if is_importing st then bump (target_of s id) t.to_target else t.to_target))
      × ((tally_by now s id st t).by_batch
          ≡ (if is_background st then bump s.batch.name t.by_batch else t.by_batch))
      × ((tally_by now s id st t).creating_on
          ≡ (if is_creating st then bump (target_of s id) t.creating_on else t.creating_on))

all_obey : (st : MigrationStatus) → AllObey st
all_obey st = elim st as AllObey [
  | blocked ↦ λ now s id t. (refl, refl, refl, refl)
  | waiting ↦ λ now s id t. (refl, refl, refl, refl)
  | waiting_import ↦ λ now s id t. (refl, refl, refl, refl)
  | creating ↦ λ now s id t. (refl, refl, refl, refl)
  | background_import ↦ λ now s id t. (refl, refl, refl, refl)
  | idle ↦ λ now s id t. (refl, refl, refl, refl)
  | final_import ↦ λ now s id t. (refl, refl, refl, refl)
  | post_import ↦ λ now s id t. (refl, refl, refl, refl)
  | worker_done ↦ λ now s id t. (refl, refl, refl, refl)
  | finished ↦ λ now s id t. (refl, refl, refl, refl)
  | error ↦ λ now s id t. (refl, refl, refl, refl)
  | canceled ↦ λ now s id t. (refl, refl, refl, refl)
  | conflict ↦ λ now s id t. (refl, refl, refl, refl)
  | other x ↦ λ now s id t. (refl, refl, refl, refl)
]

pub sources-Obeys : Obeys sources
sources-Obeys now s id st t = (all_obey st now s id t).0

pub targets-Obeys : Obeys targets
targets-Obeys now s id st t = (all_obey st now s id t).1

pub batches-Obeys : Obeys batches
batches-Obeys now s id st t = (all_obey st now s id t).2

pub creations-Obeys : Obeys creations
creations-Obeys now s id st t = (all_obey st now s id t).3

module _ (c : Counter) (name : String) where
  abbrev pub counts : Round → Bool
  counts (s, id, q) = c.active q.migration_status && str_eq (c.key s id) name

  at_or-bump :
      (k : String) (m : Counters) (n : ℕ)
      → n + 1 < int_limit
      → at_or (pos 0) name m ≡ pos n
      → at_or (pos 0) name (bump k m) ≡ pos (if str_eq k name then n + 1 else n)
  at_or-bump k m n small e =
      ground (
        arith,
        at_or-insert (pos 0) k name (wrap_int (at_or (pos 0) k m +ℤ pos 1)) m,
        eq_iff k name,
      )

  counted_once :
      Obeys c
      → (now : ℕ) (s : MigrationState) (id : ℕ) (q : QueueEntry) (t : Tally) (n : ℕ)
      → n + 1 < int_limit
      → at_or (pos 0) name (c.project t) ≡ pos n
      → at_or (pos 0) name (c.project (tally_by now s id q.migration_status t))
        ≡ pos (if counts (s, id, q) then n + 1 else n)
  counted_once law now s id q t n small e =
      ap (at_or (pos 0) name) (law now s id q.migration_status t)
      ∙ elim (Bool-cases (c.active q.migration_status)) [
        | inl on ↦ rw on (at_or-bump (c.key s id) (c.project t) n small e)
        | inr off ↦ rw off e
      ]

  pub tally-counts :
      Obeys c
      → (now : ℕ) (rs : List Round) (t : Tally) (n : ℕ) → n + length rs < int_limit
      → at_or (pos 0) name (c.project t) ≡ pos n
      → at_or (pos 0) name (c.project (tally now rs t)) ≡ pos (n + count counts rs)
  unfolding tally
  tally-counts law now [] t n small e = rw (the_sum n) e
    where
      the_sum : (n : ℕ) → n + 0 ≡ n
      the_sum n = omega arith
  tally-counts law now ((s, id, q) ∷ rs) t n small e =
      let next = if counts (s, id, q) then n + 1 else n in
      tally-counts law now rs (tally_by now s id q.migration_status t) next (ground arith)
        (counted_once law now s id q t n (omega arith) e)
      ∙ ap pos (ground arith)

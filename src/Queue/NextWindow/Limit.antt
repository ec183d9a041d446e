-- ===== src/Queue/NextWindow/Limit.antt =====
-- queue_service.go, GetNextWindow: which instances its count finds against the limit of a constraint.
use migration_manager.Prelude.{
  ℕ, String, Bool, ◌≤◌, ◌==◌, ◌||◌, ◌≡◌, refl, ◌≢◌, inl, inr, true, false, not, ◌&&◌, List, [], ◌∷◌,
  Option, none, some, arith, Bool-cases,
}
use migration_manager.Prelude.Int.{pos, ◌≤ℤ◌}
use migration_manager.Prelude.Count.{is_fresh, Distinct, any-none}
use migration_manager.Prelude.Map.{nat_eq}
use migration_manager.Api.Status.{idle, status_eq}
use migration_manager.Prelude.Table.{any, count}
use migration_manager.Errors.{ok, Result-cases}
use migration_manager.Env.{Env}
use migration_manager.Api.Types.{QueueEntry, BatchConstraint, Instance}
use migration_manager.Queue.NextWindow.{count_matches, within_limit, is_idle_in}

-- What a matching says of an instance, an error as no.
abbrev pub is_match : Option Bool → Bool
is_match none = false
is_match (some b) = b

-- The instance has an entry of the list that is no longer idle.
abbrev pub is_busy : List QueueEntry → ℕ → Bool
is_busy es id =
    any (λ (x : QueueEntry). (x.instance_uuid == id) && not (status_eq x.migration_status idle)) es

-- The instance takes one of the places of the constraint with the expression `e`: it matches, and it
-- is the entry's own or a busy one.
abbrev pub takes_place : Env → QueueEntry → List QueueEntry → String → Instance → Bool
takes_place env q es e i =
    is_match (env.matches i e) && ((i.uuid == q.instance_uuid) || is_busy es i.uuid)

unqueued-idle :
    (es : List QueueEntry) (id : ℕ)
    → any (λ (x : QueueEntry). x.instance_uuid == id) es ≡ false
    → is_busy es id ≡ false
unqueued-idle [] id h = refl
unqueued-idle (e ∷ es) id h = ground (arith, unqueued-idle es id)

fresh-unqueued :
    (es : List QueueEntry) (id : ℕ)
    → is_fresh (λ (x : QueueEntry). x.instance_uuid) id es ≡ true
    → any (λ (x : QueueEntry). x.instance_uuid == id) es ≡ false
fresh-unqueued es id h = any-none (λ (x : QueueEntry). x.instance_uuid == id) es h

-- An instance has one entry, so that an idle one is not busy.
is_idle_in-idle :
    (es : List QueueEntry) (id : ℕ)
    → Distinct (λ (x : QueueEntry). x.instance_uuid) es
    → is_idle_in es id ≡ true
    → is_busy es id ≡ false
is_idle_in-idle [] id d h = refl
is_idle_in-idle (e ∷ es) id d h =
    elim (Bool-cases (any (λ (x : QueueEntry). x.instance_uuid == id) es)) [
      | inl again ↦ elim (Bool-cases (e.instance_uuid == id)) [
        | inl own ↦
            let same : e.instance_uuid ≡ id = grind arith in
            cc (again, fresh-unqueued es id (rw same at (d.0)))
        | inr other ↦ ground (arith, is_idle_in-idle es id d.1)
      ]
      | inr last ↦ ground (arith, unqueued-idle es id last)
    ]

-- The count finds each instance that takes a place.
pub count_matches-takes :
    (env : Env) (q : QueueEntry) (es : List QueueEntry) (e : String) (is : List Instance) (n : ℕ)
    → Distinct (λ (x : QueueEntry). x.instance_uuid) es
    → count_matches env q es e is ≡ ok n
    → count (takes_place env q es e) is ≤ n
unfolding count_matches
count_matches-takes env q es e [] n d h = omega arith
count_matches-takes env q es e (i ∷ is) n d h = elim (Result-cases (count_matches env q es e is)) [
  | inl (m, f) ↦
      ground (arith, count_matches-takes env q es e is m d f, is_idle_in-idle es i.uuid d)
  | inr (x, f) ↦ ground arith
]

pub within_limit-le :
    (c : BatchConstraint) (n k : ℕ)
    → c.max_concurrent_instances ≢ pos 0
    → within_limit c n ≡ true
    → k ≤ n
    → pos k ≤ℤ c.max_concurrent_instances
within_limit-le c n k limited fits h = ground arith

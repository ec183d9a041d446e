-- ===== src/Cache/Counters/Laws.antt =====
-- What the import counters count, over any sequence of calls.
use migration_manager.Prelude.{
  String, ℕ, suc, ◌+◌, ◌-◌, ◌<◌, ◌≡◌, List, [], ◌∷◌, if◌then◌else◌, arith, str_eq, eq_iff, length,
}
use migration_manager.Prelude.Int.{pos, int_limit}
use migration_manager.Prelude.Map.{string_eq}
use migration_manager.Cache.Laws.{read-write}
use migration_manager.Cache.Counters.{
  Counters, increase, decrease, get_cached_imports, record_active_import, remove_active_import,
}

-- A count after each of the two calls, for every name.
pub get-record :
    (k j : String) (c : Counters)
    → get_cached_imports j (record_active_import k c)
      ≡ (if str_eq k j then increase (get_cached_imports k c) (pos 1) else get_cached_imports j c)
unfolding get_cached_imports record_active_import
get-record k j c = read-write (pos 0) k j (pos 1) increase c

pub get-remove :
    (k j : String) (c : Counters)
    → get_cached_imports j (remove_active_import k c)
      ≡ (if str_eq k j then decrease (get_cached_imports k c) (pos 1) else get_cached_imports j c)
unfolding get_cached_imports remove_active_import
get-remove k j c = read-write (pos 0) k j (pos 1) decrease c

-- A call of a service on its counters.
pub data Call : Type 0 where
  record_call remove_call : String → Call

unfoldable pub apply : Call → Counters → Counters
apply (record_call k) c = record_active_import k c
apply (remove_call k) c = remove_active_import k c

unfoldable pub run : List Call → Counters → Counters
run [] c = c
run (x ∷ xs) c = run xs (apply x c)

-- The count that one name should have: up by one, or down by one but never below 0.
abbrev pub expected : String → List Call → ℕ → ℕ
expected j [] n = n
expected j (record_call k ∷ xs) n = expected j xs (if str_eq k j then suc n else n)
expected j (remove_call k ∷ xs) n = expected j xs (if str_eq k j then n - 1 else n)

get-apply_record :
    (k j : String) (c : Counters) (n : ℕ)
    → n + 1 < int_limit
    → get_cached_imports j c ≡ pos n
    → get_cached_imports j (apply (record_call k) c) ≡ pos (if str_eq k j then suc n else n)
unfolding apply
get-apply_record k j c n small e = ground (arith, get-record k j c, eq_iff k j)

get-apply_remove :
    (k j : String) (c : Counters) (n : ℕ)
    → n < int_limit
    → get_cached_imports j c ≡ pos n
    → get_cached_imports j (apply (remove_call k) c) ≡ pos (if str_eq k j then n - 1 else n)
unfolding apply
get-apply_remove k j c n small e = ground (arith, get-remove k j c, eq_iff k j)

-- After any sequence of calls that is too short for an `int` to overflow, each name's count is what
-- the calls on that name alone make of its first count, and so is never negative.
pub run-expected :
    (j : String) (xs : List Call) (c : Counters) (n : ℕ)
    → n + length xs < int_limit
    → get_cached_imports j c ≡ pos n
    → get_cached_imports j (run xs c) ≡ pos (expected j xs n)
unfolding run
run-expected j [] c n small e = e
run-expected j (record_call k ∷ xs) c n small e =
    run-expected j xs (apply (record_call k) c) (if str_eq k j then suc n else n) (ground arith)
      (get-apply_record k j c n (omega arith) e)
run-expected j (remove_call k ∷ xs) c n small e =
    run-expected j xs (apply (remove_call k) c) (if str_eq k j then n - 1 else n) (ground arith)
      (get-apply_remove k j c n (omega arith) e)

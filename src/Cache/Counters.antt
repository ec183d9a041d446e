-- ===== src/Cache/Counters.antt =====
-- The import counters of source_service.go, target_service.go and batch_service.go, which are three
-- copies of the same code over `Cache[string, int]`; the target service also counts creations so.
pub mod Laws
use migration_manager.Prelude.{String, if◌then◌else◌}
use migration_manager.Prelude.Int.{ℤ, pos, ◌+ℤ◌, ◌-ℤ◌, ltb_ℤ, wrap_int}
use migration_manager.Prelude.Map.{Map, string_eq}
use migration_manager.Cache.{read, write}

abbrev pub Counters : Type 0
Counters = Map String ℤ

-- The value functions that the services pass to `Write`.
abbrev pub increase : ℤ → ℤ → ℤ
increase existing new = wrap_int (existing +ℤ new)

abbrev pub decrease : ℤ → ℤ → ℤ
decrease existing new = if ltb_ℤ (pos 0) existing then wrap_int (existing -ℤ new) else existing

-- `GetCachedImports`.
unfoldable pub get_cached_imports : String → Counters → ℤ
unfolding read
get_cached_imports name c = read (pos 0) name c

-- `RecordActiveImport`.
unfoldable pub record_active_import : String → Counters → Counters
unfolding write
record_active_import name c = write (pos 0) name (pos 1) increase c

-- `RemoveActiveImport`.
unfoldable pub remove_active_import : String → Counters → Counters
unfolding write
remove_active_import name c = write (pos 0) name (pos 1) decrease c

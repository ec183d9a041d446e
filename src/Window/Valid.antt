-- ===== src/Window/Valid.antt =====
-- window_model.go: what `Window.Validate` accepts, and what that says of the other predicates.
use migration_manager.Prelude.{◌≤◌, ◌≡◌, ◌≢◌, ◌↔◌, true, arith}
use migration_manager.Prelude.Int.{pos, ◌≤ℤ◌}
use migration_manager.Errors.{ok}
use migration_manager.Env.{Env}
use migration_manager.Api.Types.{Window}
use migration_manager.Window.{validate}

-- A window that may be stored. An instant of 0 is one that is not set.
pub record IsValid (env : Env) (w : Window) : Type 0 where
  pub named : env.is_api_name w.name ≡ true
  pub ordered : w.start ≢ 0 → w.end ≢ 0 → w.start ≤ w.end
  pub current : w.end ≢ 0 → env.now ≤ w.end
  pub lockout_after_start : w.lockout ≢ 0 → w.start ≤ w.lockout
  pub lockout_before_end : w.lockout ≢ 0 → w.lockout ≤ w.end
  pub capacity_nonneg : pos 0 ≤ℤ w.capacity

pub validate-IsValid : (env : Env) (w : Window) → validate env w ≡ ok tt → IsValid env w
unfolding validate
validate-IsValid env w h = ground arith

pub IsValid-validate : (env : Env) (w : Window) → IsValid env w → validate env w ≡ ok tt
unfolding validate
IsValid-validate env w v = ground arith

-- `Validate` returns no error exactly for the windows of `IsValid`.
pub validate_iff : (env : Env) (w : Window) → (validate env w ≡ ok tt) ↔ IsValid env w
validate_iff env w = (validate-IsValid env w, IsValid-validate env w)

-- ===== src/Window/Fits.antt =====
-- window_model.go: `FitsDuration` against its specification.
use migration_manager.Prelude.{ℕ, ◌≤◌, ◌<◌, ◌+◌, ◌≡◌, ◌≢◌, ◌↔◌, inl, inr, true, arith}
use migration_manager.Prelude.Int.{pos, wrap_int-eq, int_limit}
use migration_manager.Errors.{Result-cases}
use migration_manager.Env.{Env}
use migration_manager.Api.Types.{Window}
use migration_manager.Window.{validate, fits_duration, minute}
use migration_manager.Window.Valid.{IsValid, validate-IsValid, IsValid-validate}

-- The window has room for `d` nanoseconds and a minute more, from its start or from now if it has
-- begun, and its lockout time is not past.
pub record HasRoom (env : Env) (d : ℕ) (w : Window) : Type 0 where
  pub valid : IsValid env w
  pub unlocked : w.lockout ≢ 0 → env.now ≤ w.lockout
  pub room_from_start : w.end ≢ 0 → w.start + d + minute < w.end
  pub room_from_now : w.end ≢ 0 → env.now + d + minute < w.end

fits-HasRoom :
    (env : Env) (d : ℕ) (w : Window)
    → d + minute < int_limit
    → fits_duration env (pos d) w ≡ true
    → HasRoom env d w
unfolding fits_duration
fits-HasRoom env d w small h = elim (Result-cases (validate env w)) [
  | inl (_, e) ↦
      let v = validate-IsValid env w e in
      record {
        valid = v;
        unlocked = ground arith;
        room_from_start = ground (arith, wrap_int-eq (d + minute));
        room_from_now = ground (arith, wrap_int-eq (d + minute));
      }
  | inr (_, e) ↦ ground arith
]

HasRoom-fits :
    (env : Env) (d : ℕ) (w : Window)
    → d + minute < int_limit
    → HasRoom env d w
    → fits_duration env (pos d) w ≡ true
unfolding fits_duration
HasRoom-fits env d w small r = rw (IsValid-validate env w r.valid) (ground (arith, r.valid.current))

-- For a duration that does not overflow, `FitsDuration` holds exactly of the windows of `HasRoom`.
pub fits_duration_iff :
    (env : Env) (d : ℕ) (w : Window)
    → d + minute < int_limit
    → (fits_duration env (pos d) w ≡ true) ↔ HasRoom env d w
fits_duration_iff env d w small = (fits-HasRoom env d w small, HasRoom-fits env d w small)

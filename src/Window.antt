-- ===== src/Window.antt =====
-- internal/migration/window_model.go: the predicates of a migration window, its validation, and the
-- choice of the earliest window. The proofs are in the children.
pub mod Valid
pub mod Earliest
pub mod Overlap
pub mod Fits
pub mod Service
use migration_manager.Prelude.{
  ℕ, ◌+◌, Bool, true, false, not, ◌&&◌, ◌||◌, ◌==◌, ltb, if◌then◌else◌, List, [], ◌∷◌, Option, none,
  some, is_empty,
}
use migration_manager.Prelude.Int.{ℤ, pos, pos_part, neg_part, ◌+ℤ◌, ltb_ℤ, wrap_int}
use migration_manager.Prelude.Table.{any}
use migration_manager.Errors.{
  Result, ok, err, failed, http_not_found, refuse_if, is_err, ◌>>=◌, ◌>>◌,
}
use migration_manager.Env.{Env}
use migration_manager.Api.Types.{Window}

-- `time.Minute`, in nanoseconds.
abbrev pub minute : ℕ
minute = 60000000000

-- `Time.IsZero`.
abbrev pub is_zero : ℕ → Bool
is_zero t = t == 0

-- `Window{}`.
abbrev pub empty_window : Window
empty_window = record {
  id = pos 0;
  name = "";
  start = 0;
  end = 0;
  lockout = 0;
  batch = "";
  capacity = pos 0;
}

-- `Window.IsEmpty`.
unfoldable pub is_empty_window : Window → Bool
is_empty_window w = is_zero w.start && is_zero w.end && is_zero w.lockout

-- `Window.Begun`.
unfoldable pub begun : Env → Window → Bool
begun env w = is_zero w.start || ltb w.start env.now

-- `Window.Ended`.
unfoldable pub ended : Env → Window → Bool
ended env w = not (is_zero w.end) && ltb w.end env.now

-- `Window.Locked`.
unfoldable pub locked : Env → Window → Bool
unfolding ended
locked env w = ended env w || (not (is_zero w.lockout) && ltb w.lockout env.now)

-- `Window.Validate`.
unfoldable pub validate : Env → Window → Result (Unit {0})
validate env w = do
  refuse_if (not (env.is_api_name w.name)) (failed "Window name cannot be used")
  refuse_if (not (is_zero w.start) && not (is_zero w.end) && ltb w.end w.start)
      (failed "Batch migration window end time is before start time")
  refuse_if (not (is_zero w.end) && ltb w.end env.now)
      (failed "Batch migration window has already passed")
  refuse_if (not (is_zero w.lockout) && ltb w.lockout w.start)
      (failed "Batch migration window lockout time is before the start time")
  refuse_if (not (is_zero w.lockout) && ltb w.end w.lockout)
      (failed "Batch migration window lockout time is after the end time")
  refuse_if (ltb_ℤ w.capacity (pos 0)) (failed "Window capacity must be greater than 0")

-- `start.Add(d).Before(end)`, for a signed duration.
abbrev pub add_before : ℕ → ℤ → ℕ → Bool
add_before start d end = ltb (start + pos_part d) (end + neg_part d)

-- `Window.FitsDuration`; the sum of two durations wraps.
unfoldable pub fits_duration : Env → ℤ → Window → Bool
unfolding locked
fits_duration env d w =
    if is_err (validate env w)
    then false
    else if locked env w
    then false
    else if is_zero w.end
    then true
    else add_before (if ltb w.start env.now then env.now else w.start) (wrap_int (d +ℤ pos minute))
        w.end

-- The loop of `Windows.Validate` over the sorted windows; `prev` is the window before.
unfoldable pub validate_from : Env → Option Window → List Window → Result (Unit {0})
validate_from env prev [] = ok tt
validate_from env prev (w ∷ ws) =
    let rest = validate_from env (some w) ws in
    do
      validate env w
      elim prev [
        | none ↦ ok tt
        | some p ↦ refuse_if (ltb w.start p.end) (failed "Window overlaps with the window before")
      ]
      rest

-- `Windows.Validate`. The sort by start time is the standard library's.
unfoldable pub validate_windows :
    (List Window → List Window) → Env → List Window → Result (Unit {0})
unfolding validate_from
validate_windows sort env ws = validate_from env none (sort ws)

-- `Windows.HasValidWindow`.
unfoldable pub has_valid_window : Env → List Window → Result (Unit {0})
has_valid_window env ws =
    refuse_if (not (is_empty ws || any (λ w. not (is_err (validate env w))) ws))
      (failed "No valid migration windows found")

-- `earliestWindow == nil || w.Start.Before(earliestWindow.Start)`.
abbrev pub precedes : Window → Option Window → Bool
precedes w none = true
precedes w (some best) = ltb w.start best.start

-- The loop of `Windows.GetEarliest`, with the earliest window so far.
unfoldable pub earliest_from : Env → ℤ → Option Window → List Window → Option Window
earliest_from env d best [] = best
earliest_from env d best (w ∷ ws) =
    earliest_from env d (if precedes w best && fits_duration env d w then some w else best) ws

-- `Windows.GetEarliest`.
unfoldable pub get_earliest : Env → ℤ → List Window → Result Window
unfolding earliest_from
get_earliest env d [] = ok empty_window
get_earliest env d (w ∷ ws) = elim (earliest_from env d none (w ∷ ws)) [
  | none ↦ err (http_not_found "No available migration windows")
  | some best ↦ ok best
]

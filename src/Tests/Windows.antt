-- ===== src/Tests/Windows.antt =====
-- The theorems on windows at concrete windows.
use migration_manager.Prelude.{◌≤◌, ◌≡◌, refl, ◌≢◌, ◌↔◌, true, false, List, [], ◌∷◌, arith}
use migration_manager.Prelude.Int.{pos}
use migration_manager.Prelude.Table.{All}
use mathlib.Core.List.{Memᴰ}
use migration_manager.Errors.{ok, err, http_not_found}
use migration_manager.Api.Types.{Window}
use migration_manager.Window.{
  empty_window, get_earliest, earliest_from, fits_duration, locked, ended, validate, validate_from,
  validate_windows,
}
use migration_manager.Window.Valid.{IsValid, validate_iff, validate-IsValid}
use migration_manager.Window.Earliest.{get_earliest_sound, get_earliest_none}
use migration_manager.Window.Overlap.{Separate, validate_windows-Separate, validate_windows_endless}
use migration_manager.Window.Fits.{HasRoom, fits_duration_iff}
use migration_manager.Tests.{env_0, window_0, window_1, endless}

abbrev both : List Window
both = window_0 ∷ window_1 ∷ []

both-earliest : get_earliest env_0 (pos 60) both ≡ ok window_0
unfolding get_earliest earliest_from fits_duration locked ended validate
both-earliest = refl

get_earliest_sound_example :
    Memᴰ window_0 both
    × (fits_duration env_0 (pos 60) window_0 ≡ true)
    × All (λ w. fits_duration env_0 (pos 60) w ≡ true → window_0.start ≤ w.start) both
get_earliest_sound_example = get_earliest_sound env_0 (pos 60) both window_0 (λ e. cc) both-earliest

get_earliest_none_example :
    (get_earliest env_0 (pos 60) [] ≡ ok empty_window)
    × ((get_earliest env_0 (pos 60) (window_0 ∷ [])
          ≡ err (http_not_found "No available migration windows"))
        ↔ All (λ v. fits_duration env_0 (pos 60) v ≡ false) (window_0 ∷ []))
get_earliest_none_example = get_earliest_none env_0 (pos 60) window_0 []

fits_duration_iff_example :
    (fits_duration env_0 (pos 60) window_0 ≡ true) ↔ HasRoom env_0 60 window_0
fits_duration_iff_example = fits_duration_iff env_0 60 window_0 (omega arith)

validate_iff_example : (validate env_0 window_0 ≡ ok tt) ↔ IsValid env_0 window_0
validate_iff_example = validate_iff env_0 window_0

both-validate : validate_windows (λ ws. ws) env_0 both ≡ ok tt
unfolding validate_windows validate_from validate
both-validate = refl

validate_windows-Separate_example :
    All (λ w. IsValid env_0 w) both × (All (λ w. w.end ≢ 0) both → Separate both)
validate_windows-Separate_example = validate_windows-Separate (λ ws. ws) env_0 both both-validate

endless-valid : validate env_0 endless ≡ ok tt
unfolding validate
endless-valid = refl

later-valid : validate env_0 window_1 ≡ ok tt
unfolding validate
later-valid = refl

validate_windows_endless_example :
    validate_windows (λ ws. ws) env_0 (endless ∷ window_1 ∷ []) ≡ ok tt
validate_windows_endless_example =
    validate_windows_endless (λ ws. ws) env_0 endless window_1 (endless ∷ window_1 ∷ []) refl refl
      (validate-IsValid env_0 endless endless-valid) (validate-IsValid env_0 window_1 later-valid)

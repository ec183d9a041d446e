-- ===== src/Window/Overlap.antt =====
-- window_model.go: what `Windows.Validate` says of a batch's windows taken together.
use migration_manager.Prelude.{
  ℕ, ◌≤◌, ◌≡◌, refl, ◌≢◌, inl, inr, Option, none, some, List, [], ◌∷◌, arith,
}
use migration_manager.Prelude.Table.{All}
use migration_manager.Errors.{ok, Result-cases}
use migration_manager.Env.{Env}
use migration_manager.Api.Types.{Window}
use migration_manager.Window.{validate, validate_from, validate_windows}
use migration_manager.Window.Valid.{IsValid, validate-IsValid, IsValid-validate}

-- Each window has ended by the time that any later one starts.
abbrev pub Separate : List Window → Type 0
Separate [] = Unit
Separate (w ∷ ws) = All (λ v. w.end ≤ v.start) ws × Separate ws

All-le :
    {a b : ℕ} (ws : List Window) → a ≤ b → All (λ v. b ≤ v.start) ws → All (λ v. a ≤ v.start) ws
All-le [] h all = tt
All-le {a} {b} (w ∷ ws) h all = (omega arith, All-le {a = a} {b = b} ws h all.1)

-- What one round of the loop has checked.
validate_from-cons :
    (env : Env) (prev : Option Window) (w : Window) (ws : List Window)
    → validate_from env prev (w ∷ ws) ≡ ok tt
    → IsValid env w
      × ((p : Window) → prev ≡ some p → p.end ≤ w.start)
      × (validate_from env (some w) ws ≡ ok tt)
unfolding validate_from
validate_from-cons env none w ws h = elim (Result-cases (validate env w)) [
  | inl (_, e) ↦ (validate-IsValid env w e, (λ p x. cc), ground arith)
  | inr (_, e) ↦ ground arith
]
validate_from-cons env (some q) w ws h = elim (Result-cases (validate env w)) [
  | inl (_, e) ↦ (validate-IsValid env w e, (λ p x. ground arith), ground arith)
  | inr (_, e) ↦ ground arith
]

validate_from-IsValid :
    (env : Env) (prev : Option Window) (ws : List Window)
    → validate_from env prev ws ≡ ok tt
    → All (λ w. IsValid env w) ws
validate_from-IsValid env prev [] h = tt
validate_from-IsValid env prev (w ∷ ws) h =
    let (valid, _, rest) = validate_from-cons env prev w ws h in
    (valid, validate_from-IsValid env (some w) ws rest)

-- Where every end is set, the check of neighbours reaches across the whole list.
validate_from-after :
    (env : Env) (p : Window) (ws : List Window)
    → validate_from env (some p) ws ≡ ok tt
    → All (λ w. w.end ≢ 0) ws
    → All (λ v. p.end ≤ v.start) ws
validate_from-after env p [] h finite = tt
validate_from-after env p (w ∷ ws) h finite =
    let (valid, after, rest) = validate_from-cons env (some p) w ws h in
    let far = validate_from-after env w ws rest finite.1 in
    let near = after p refl in
    let forward : p.end ≤ w.end = ground (arith, valid.ordered, near) in
    (near, All-le ws forward far)

validate_from-Separate :
    (env : Env) (prev : Option Window) (ws : List Window)
    → validate_from env prev ws ≡ ok tt
    → All (λ w. w.end ≢ 0) ws
    → Separate ws
validate_from-Separate env prev [] h finite = tt
validate_from-Separate env prev (w ∷ ws) h finite =
    let (_, _, rest) = validate_from-cons env prev w ws h in
    (
      validate_from-after env w ws rest finite.1,
      validate_from-Separate env (some w) ws rest finite.1,
    )

-- `Windows.Validate` returns no error only for windows that, as it sorts them, are each valid and, if
-- all of them have an end, that each have ended when a later one starts.
pub validate_windows-Separate :
    (sort : List Window → List Window) (env : Env) (ws : List Window)
    → validate_windows sort env ws ≡ ok tt
    → All (λ w. IsValid env w) (sort ws) × (All (λ w. w.end ≢ 0) (sort ws) → Separate (sort ws))
unfolding validate_windows
validate_windows-Separate sort env ws h =
    (validate_from-IsValid env none (sort ws) h, validate_from-Separate env none (sort ws) h)

-- `Windows.Validate` accepts any two valid windows of which the first, as it sorts them, has no end.
pub validate_windows_endless :
    (sort : List Window → List Window) (env : Env) (p w : Window) (ws : List Window)
    → sort ws ≡ p ∷ w ∷ []
    → p.end ≡ 0
    → IsValid env p
    → IsValid env w
    → validate_windows sort env ws ≡ ok tt
unfolding validate_windows validate_from
validate_windows_endless sort env p w ws order endless hp hw =
    rw order (rw (IsValid-validate env p hp, IsValid-validate env w hw) (ground arith))

-- ===== src/Window/Earliest.antt =====
-- window_model.go: `Windows.GetEarliest` against its specification.
use migration_manager.Prelude.{
  ◌≤◌, ◌≡◌, refl, ◌≢◌, ◌↔◌, ◌⊎◌, inl, inr, true, false, Option, none, some, List, [], ◌∷◌, arith,
  Bool-cases, Option-cases, ◌&&◌,
}
use migration_manager.Prelude.Int.{ℤ}
use migration_manager.Errors.{ok, err, http_not_found}
use migration_manager.Env.{Env}
use migration_manager.Api.Types.{Window}
use migration_manager.Window.{fits_duration, earliest_from, get_earliest, precedes, empty_window}
use migration_manager.Prelude.Table.{All}
use mathlib.Core.List.{Memᴰ}

module _ (env : Env) (d : ℤ) where
  abbrev Fits : Window → Type 0
  Fits w = fits_duration env d w ≡ true

  -- What the loop returns starts no later than the window that it began with, nor than any window of
  -- the list that fits.
  earliest_from-le :
      (best : Option Window) (ws : List Window) (b : Window)
      → earliest_from env d best ws ≡ some b
      → ((a : Window) → best ≡ some a → b.start ≤ a.start)
        × All (λ w. Fits w → b.start ≤ w.start) ws
  unfolding earliest_from
  earliest_from-le best [] b h = (λ a e. ground arith, tt)
  earliest_from-le best (w ∷ ws) b h =
      elim (Bool-cases (precedes w best && fits_duration env d w)) [
        | inl taken ↦
            let ih = earliest_from-le (some w) ws b (rw taken at h) in
            (λ a e. ground (arith, ih.0 w refl), ((λ _. ih.0 w refl), ih.1))
        | inr kept ↦
            let ih = earliest_from-le best ws b (rw kept at h) in
            (
              ih.0,
              (
                (λ f. elim (Option-cases best) [
                  | inl e ↦ cc (rw (e, f) at kept)
                  | inr (a, e) ↦ ground (arith, ih.0 a e)
                ]),
                ih.1,
              ),
            )
      ]

  -- It is the window that the loop began with, or one of the list that fits.
  earliest_from-mem :
      (best : Option Window) (ws : List Window) (b : Window)
      → earliest_from env d best ws ≡ some b
      → (best ≡ some b) ⊎ (Memᴰ b ws × Fits b)
  unfolding earliest_from
  earliest_from-mem best [] b h = inl h
  earliest_from-mem best (w ∷ ws) b h =
      elim (Bool-cases (precedes w best && fits_duration env d w)) [
        | inl taken ↦ elim (earliest_from-mem (some w) ws b (rw taken at h)) [
          | inl e ↦ let same : b ≡ w = cc in inr (Memᴰ.head same, rw same (ground arith))
          | inr (m, f) ↦ inr (Memᴰ.tail m, f)
        ]
        | inr kept ↦ elim (earliest_from-mem best ws b (rw kept at h)) [
          | inl e ↦ inl e
          | inr (m, f) ↦ inr (Memᴰ.tail m, f)
        ]
      ]

  -- It finds none exactly when it began with none and nothing fits.
  earliest_from-none :
      (best : Option Window) (ws : List Window)
      → (earliest_from env d best ws ≡ none)
        ↔ ((best ≡ none) × All (λ w. fits_duration env d w ≡ false) ws)
  unfolding earliest_from
  earliest_from-none best [] = (λ h. (h, tt), λ h. h.0)
  earliest_from-none best (w ∷ ws) = elim (Bool-cases (precedes w best && fits_duration env d w)) [
    | inl taken ↦
        let ih = earliest_from-none (some w) ws in
        (λ h. cc (ih.0 (rw taken at h)).0, λ h. absurd (ground (arith, h.1.0)))
    | inr kept ↦
        let ih = earliest_from-none best ws in
        (
          λ h. let (start, rest) = ih.0 (rw kept at h) in (start, (ground arith, rest)),
          λ h. rw kept (ih.1 (h.0, h.1.1)),
        )
  ]

-- What `GetEarliest` makes of the loop's result.
get_earliest_of :
    (env : Env) (d : ℤ) (w : Window) (ws : List Window) (r : Option Window)
    → earliest_from env d none (w ∷ ws) ≡ r
    → get_earliest env d (w ∷ ws)
      ≡ (elim r [ none ↦ err (http_not_found "No available migration windows") | some b ↦ ok b ])
unfolding get_earliest
get_earliest_of env d w ws none e = rw (e, get_earliest)
get_earliest_of env d w ws (some b) e = rw (e, get_earliest)

-- `GetEarliest` on some windows: a result is one of them, fits the duration, and no other window
-- that fits starts before it.
pub get_earliest_sound :
    (env : Env) (d : ℤ) (ws : List Window) (b : Window)
    → ws ≢ []
    → get_earliest env d ws ≡ ok b
    → Memᴰ b ws
      × (fits_duration env d b ≡ true)
      × All (λ w. fits_duration env d w ≡ true → b.start ≤ w.start) ws
get_earliest_sound env d [] b ne h = absurd (ne refl)
get_earliest_sound env d (w ∷ ws) b ne h = elim (Option-cases (earliest_from env d none (w ∷ ws))) [
  | inl e ↦ cc (get_earliest_of env d w ws none e)
  | inr (c, e) ↦
      let same : c ≡ b = cc (get_earliest_of env d w ws (some c) e) in
      let found = rw same at e in
      elim (earliest_from-mem env d none (w ∷ ws) b found) [
        | inl impossible ↦ cc
        | inr (m, f) ↦ (m, f, (earliest_from-le env d none (w ∷ ws) b found).1)
      ]
]

-- Without windows there is no restriction, and the empty window is returned. With windows, the
-- result is the 404 error exactly when none of them fits.
pub get_earliest_none :
    (env : Env) (d : ℤ) (w : Window) (ws : List Window)
    → (get_earliest env d [] ≡ ok empty_window)
      × ((get_earliest env d (w ∷ ws) ≡ err (http_not_found "No available migration windows"))
          ↔ All (λ v. fits_duration env d v ≡ false) (w ∷ ws))
unfolding get_earliest
get_earliest_none env d w ws =
    let spec = earliest_from-none env d none (w ∷ ws) in
    (
      refl,
      (
        (λ h. elim (Option-cases (earliest_from env d none (w ∷ ws))) [
          | inl e ↦ (spec.0 e).1
          | inr (c, e) ↦ cc (get_earliest_of env d w ws (some c) e)
        ]),
        (λ h. get_earliest_of env d w ws none (spec.1 (refl, h))),
      ),
    )

-- ===== src/Instance/Updates/Laws.antt =====
-- What an update keeps, and what it takes from the source.
use migration_manager.Prelude.{
  String, eq_iff, Bool, true, false, if◌then◌else◌, List, [], ◌∷◌, ◌≡◌, refl, ◌∙◌, sym, ap, arith,
  Bool-cases, inl, inr,
}
use migration_manager.Prelude.Table.{All}
use migration_manager.Env.{Env}
use migration_manager.Api.Types.{Instance, InstanceProperties}
use migration_manager.Instance.Service.{bool_eq}
use migration_manager.Instance.Updates.{
  Change, change, changes, run_changes, apply_updates, differs,
}

change-on :
    (c : Change) (p : InstanceProperties) (u : Bool)
    → c.happens p ≡ true
    → change c (p, u) ≡ (c.set p, true)
change-on c p u h = ap (λ b. if b then (c.set p, true) else (p, u)) h

change-off :
    (c : Change) (p : InstanceProperties) (u : Bool)
    → c.happens p ≡ false
    → change c (p, u) ≡ (p, u)
change-off c p u h = ap (λ b. if b then (c.set p, true) else (p, u)) h

-- The flag is never taken back.
run_changes-true : (cs : List Change) (p : InstanceProperties) → (run_changes cs (p, true)).1 ≡ true
run_changes-true [] p = refl
run_changes-true (c ∷ cs) p = elim (Bool-cases (c.happens p)) [
  | inl on ↦ ap (λ r. (run_changes cs r).1) (change-on c p true on) ∙ run_changes-true cs (c.set p)
  | inr off ↦ ap (λ r. (run_changes cs r).1) (change-off c p true off) ∙ run_changes-true cs p
]

-- Without the flag, nothing has been set.
run_changes-unchanged :
    (cs : List Change) (p : InstanceProperties)
    → (run_changes cs (p, false)).1 ≡ false
    → (run_changes cs (p, false)).0 ≡ p
run_changes-unchanged [] p h = refl
run_changes-unchanged (c ∷ cs) p h = elim (Bool-cases (c.happens p)) [
  | inl on ↦
      let flagged =
        ap (λ r. (run_changes cs r).1) (change-on c p false on) ∙ run_changes-true cs (c.set p) in
      cc
  | inr off ↦
      let kept = change-off c p false off in
      ap (λ r. (run_changes cs r).0) kept
      ∙ run_changes-unchanged cs p (sym (ap (λ r. (run_changes cs r).1) kept) ∙ h)
]

module _ {A : Type 0} (get : InstanceProperties → A) where
  -- The change does not touch this field.
  abbrev Keeps : Change → Type 0
  Keeps c = (p : InstanceProperties) → get (c.set p) ≡ get p

  run_changes-Keeps :
      (cs : List Change) (p : InstanceProperties) (u : Bool)
      → All Keeps cs
      → get (run_changes cs (p, u)).0 ≡ get p
  run_changes-Keeps [] p u h = refl
  run_changes-Keeps (c ∷ cs) p u h = elim (Bool-cases (c.happens p)) [
    | inl on ↦
        ap (λ r. get (run_changes cs r).0) (change-on c p u on)
        ∙ run_changes-Keeps cs (c.set p) true h.1
        ∙ h.0 p
    | inr off ↦
        ap (λ r. get (run_changes cs r).0) (change-off c p u off) ∙ run_changes-Keeps cs p u h.1
  ]

-- One of the changes copies `v` to this field, and those after it do not touch the field.
data Copied {A : Type 0} (get : InstanceProperties → A) (v : A) : List Change → Type 0 where
  here :
      {c : Change} {cs : List Change}
      → ((q : InstanceProperties) → get (c.set q) ≡ v)
      → ((q : InstanceProperties) → c.happens q ≡ false → get q ≡ v)
      → All (Keeps get) cs
      → Copied get v (c ∷ cs)
  there : {c : Change} {cs : List Change} → Copied get v cs → Copied get v (c ∷ cs)

run_changes-Copied :
    {A : Type 0} (get : InstanceProperties → A) (v : A) (cs : List Change) (p : InstanceProperties)
    (u : Bool)
    → Copied get v cs
    → get (run_changes cs (p, u)).0 ≡ v
run_changes-Copied get v [] p u h = elim h [ ]
run_changes-Copied get v (c ∷ cs) p u (here sets same rest) = elim (Bool-cases (c.happens p)) [
  | inl on ↦
      ap (λ r. get (run_changes cs r).0) (change-on c p u on)
      ∙ run_changes-Keeps get cs (c.set p) true rest
      ∙ sets p
  | inr off ↦
      ap (λ r. get (run_changes cs r).0) (change-off c p u off)
      ∙ run_changes-Keeps get cs p u rest
      ∙ same p off
]
run_changes-Copied get v (c ∷ cs) p u (there h) = elim (Bool-cases (c.happens p)) [
  | inl on ↦
      ap (λ r. get (run_changes cs r).0) (change-on c p u on)
      ∙ run_changes-Copied get v cs (c.set p) true h
  | inr off ↦
      ap (λ r. get (run_changes cs r).0) (change-off c p u off) ∙ run_changes-Copied get v cs p u h
]

bool_eq-true : (a b : Bool) → bool_eq a b ≡ true → a ≡ b
bool_eq-true true b h = sym h
bool_eq-true false b h = ground arith

differs-false : (a b : String) → differs a b ≡ false → a ≡ b
differs-false a b h = (eq_iff a b).0 (ground arith)

module _ (env : Env) (i src : Instance) where
  abbrev after : InstanceProperties
  after = (run_changes (changes env src.properties) (i.properties, false)).0

  takes_location : after.location ≡ src.properties.location
  takes_location =
      run_changes-Copied (λ p. p.location) src.properties.location (changes env src.properties)
        i.properties false
        (there
          (here (λ q. refl) (λ q. differs-false q.location src.properties.location) (ground arith)))

  takes_background : after.background_import ≡ src.properties.background_import
  takes_background =
      run_changes-Copied (λ p. p.background_import) src.properties.background_import
        (changes env src.properties) i.properties false
        (there (
          there (
            there (
              there (
                there (
                  there (
                    there (
                      there (
                        there (
                          there (
                            here (λ q. refl)
                              (λ q h.
                                bool_eq-true q.background_import src.properties.background_import
                                  (ground arith))
                              (ground arith))))))))))))

  takes_running : after.running ≡ src.properties.running
  takes_running =
      run_changes-Copied (λ p. p.running) src.properties.running (changes env src.properties)
        i.properties false
        (there (
          there (
            there (
              there (
                there (
                  there (
                    there (
                      there (
                        there (
                          there (
                            there (
                              there (
                                there (
                                  there (
                                    there (
                                      there (
                                        there (
                                          there (
                                            here (λ q. refl)
                                              (λ q h.
                                                bool_eq-true q.running src.properties.running
                                                  (ground arith))
                                              (ground arith))))))))))))))))))))

  keeps_uuid : after.uuid ≡ i.properties.uuid
  keeps_uuid =
      run_changes-Keeps (λ p. p.uuid) (changes env src.properties) i.properties false (ground arith)

  keeps_config : after.configurable.config ≡ i.properties.configurable.config
  keeps_config =
      run_changes-Keeps (λ p. p.configurable.config) (changes env src.properties) i.properties false
        (ground arith)

-- Whatever the instance was, `ApplyUpdates` leaves it with the location, the support of background
-- import and the running state that the source reports, also where a later change of the same call
-- follows; it keeps the UUID, the source, the overrides, and the configuration that the source does
-- not report.
pub apply_updates_takes :
    (env : Env) (i src : Instance)
    → let j = (apply_updates env i src).0 in
      (j.properties.location ≡ src.properties.location)
      × (j.properties.background_import ≡ src.properties.background_import)
      × (j.properties.running ≡ src.properties.running)
      × (j.properties.uuid ≡ i.properties.uuid)
      × (j.properties.configurable.config ≡ i.properties.configurable.config)
      × (j.uuid ≡ i.uuid)
      × (j.source ≡ i.source)
      × (j.overrides ≡ i.overrides)
unfolding apply_updates
apply_updates_takes env i src = (
  takes_location env i src,
  takes_background env i src,
  takes_running env i src,
  keeps_uuid env i src,
  keeps_config env i src,
  refl,
  refl,
  refl,
)

-- If `ApplyUpdates` reports that nothing has changed, the instance is what it was, in every field, and
-- it agrees with the source in its location, its support of background import and its running state:
-- a sync that skips the instance loses none of these.
pub apply_updates_unchanged :
    (env : Env) (i src : Instance)
    → (apply_updates env i src).1 ≡ false
    → ((apply_updates env i src).0 ≡ i)
      × (i.properties.location ≡ src.properties.location)
      × (i.properties.background_import ≡ src.properties.background_import)
      × (i.properties.running ≡ src.properties.running)
unfolding apply_updates
apply_updates_unchanged env i src h =
    let kept = run_changes-unchanged (changes env src.properties) i.properties h in
    (
      ap (λ p. record i { properties = p }) kept,
      sym (ap (λ (p : InstanceProperties). p.location) kept) ∙ takes_location env i src,
      sym (ap (λ (p : InstanceProperties). p.background_import) kept) ∙ takes_background env i src,
      sym (ap (λ (p : InstanceProperties). p.running) kept) ∙ takes_running env i src,
    )

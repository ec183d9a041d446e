-- ===== src/Batch/Placement/Complete.antt =====
-- batch_model.go, `GetIncusPlacement`: an instance that is placed is placed in full.
use migration_manager.Prelude.{
  String, str_eq, eq_refl, Bool, true, not, ◌&&◌, if◌then◌else◌, List, [], ◌∷◌, ◌≡◌, refl, ◌∙◌,
  some, inl, inr, Bool-cases, arith, ◌||◌,
}
use mathlib.Core.List.{Memᴰ}
use migration_manager.Prelude.Table.{any}
use migration_manager.Prelude.Map.{Map, lookup, insert, string_eq, lookup-insert}
use migration_manager.Errors.{ok, ok-inj, Result-cases}
use migration_manager.Env.{Env}
use migration_manager.Api.Types.{
  Instance, Disk, Nic, Batch, Window, Network, NetworkPlacement, Placement,
}
use migration_manager.Batch.Placement.{
  place_disks, place_nic, place_nics, entries, get_incus_placement, determine_placement,
}

-- Some supported disk has the name.
abbrev needs_pool : String → Disk → Bool
needs_pool k d = d.supported && str_eq d.name k

lookup-place_disks :
    (pool k : String) (ds : List Disk) (m : Map String String)
    → lookup k (place_disks pool ds m) ≡ (if any (needs_pool k) ds then some pool else lookup k m)
unfolding place_disks
lookup-place_disks pool k [] m = refl
lookup-place_disks pool k (d ∷ ds) m = elim (Bool-cases d.supported) [
  | inl e ↦ rw e (
      lookup-place_disks pool k ds (insert d.name pool m)
      ∙ (ground (arith, lookup-insert d.name k pool m)))
  | inr e ↦ rw e (lookup-place_disks pool k ds m)
]

-- The map has an entry for the key.
abbrev Has : String → Map String NetworkPlacement → Type 0
Has k m = (p : NetworkPlacement) × (lookup k m ≡ some p)

Has-insert :
    (k j : String) (p : NetworkPlacement) (m : Map String NetworkPlacement)
    → Has j m
    → Has j (insert k p m)
Has-insert k j p m (q, h) = elim (Bool-cases (str_eq k j)) [
  | inl e ↦ (p, ground (arith, lookup-insert k j p m))
  | inr e ↦ (q, ground (arith, lookup-insert k j p m))
]

module _ (env : Env) (i : Instance) (nets : List Network) where
  -- The placement of the first NIC, and the rest of the loop.
  place_nics-cons :
      (n : Nic) (ns : List Nic) (m m' : Map String NetworkPlacement)
      → place_nics env i nets (n ∷ ns) m ≡ ok m'
      → (p : NetworkPlacement) × (place_nics env i nets ns (insert n.hardware_address p m) ≡ ok m')
  unfolding place_nics
  place_nics-cons n ns m m' h = elim (Result-cases (place_nic env i nets n)) [
    | inl (p, e) ↦ (p, rw (e, place_nics) at h)
    | inr (x, e) ↦ cc (rw (e, place_nics) at h)
  ]

  place_nics-keeps :
      (k : String) (ns : List Nic) (m m' : Map String NetworkPlacement)
      → place_nics env i nets ns m ≡ ok m'
      → Has k m
      → Has k m'
  unfolding place_nics
  place_nics-keeps k [] m m' h has = rw (← ok-inj h) has
  place_nics-keeps k (n ∷ ns) m m' h has =
      let (p, rest) = place_nics-cons n ns m m' h in
      place_nics-keeps k ns _ m' rest (Has-insert n.hardware_address k p m has)

  place_nics-Has :
      (n : Nic) (ns : List Nic) (m m' : Map String NetworkPlacement)
      → place_nics env i nets ns m ≡ ok m'
      → Memᴰ n ns
      → Has n.hardware_address m'
  place_nics-Has n [] m m' h t = elim t [ ]
  place_nics-Has n (x ∷ ns) m m' h (Memᴰ.head e) =
      let (p, rest) = place_nics-cons x ns m m' h in
      rw e (
        place_nics-keeps x.hardware_address ns _ m' rest (
          p,
          lookup-insert x.hardware_address x.hardware_address p m
              ∙ rw (eq_refl x.hardware_address) refl,
        ))
  place_nics-Has n (x ∷ ns) m m' h (Memᴰ.tail t) =
      let (p, rest) = place_nics-cons x ns m m' h in place_nics-Has n ns _ m' rest t

any-Mem :
    (k : String) (d : Disk) (ds : List Disk)
    → needs_pool k d ≡ true
    → Memᴰ d ds
    → any (needs_pool k) ds ≡ true
any-Mem k d [] h t = elim t [ ]
any-Mem k d (x ∷ ds) h (Memᴰ.head e) = let own = rw e at h in ground arith
any-Mem k d (x ∷ ds) h (Memᴰ.tail t) = ground (arith, any-Mem k d ds h t)

-- When a batch without a placement script places an instance, the target is the batch's, each supported disk of the
-- instance has the batch's pool, each NIC has a network, and the instance is to run after the migration
-- exactly if it may not stay stopped and is either to be started or was running.
pub determine_placement_complete :
    (env : Env) (i : Instance) (nets : List Network) (b : Batch) (ws : List Window) (p : Placement)
    → b.config.placement_scriptlet ≡ ""
    → determine_placement env i nets b ws ≡ ok p
    → (p.target_name ≡ b.defaults.target)
      × (p.target_project ≡ b.defaults.target_project)
      × ((d : Disk)
          → Memᴰ d i.properties.disks
          → d.supported ≡ true
          → lookup d.name p.storage_pools ≡ some b.defaults.storage_pool)
      × ((n : Nic)
          → Memᴰ n i.properties.nics
          → (q : NetworkPlacement) × (lookup n.hardware_address (entries p.networks) ≡ some q))
      × (p.running ≡ (
          not i.overrides.stopped_after_migration
          && (i.overrides.started_after_migration || i.properties.running)))
unfolding determine_placement get_incus_placement
determine_placement_complete env i nets b ws p script h =
    elim (Result-cases (place_nics env i nets i.properties.nics [])) [
      | inr (x, e) ↦ cc (rw (script, e, determine_placement) at h)
      | inl (m, e) ↦
          let same = ok-inj (rw (script, e, determine_placement) at h) in
          rw (← same) (
            refl,
            refl,
            λ d t sup.
                lookup-place_disks b.defaults.storage_pool d.name i.properties.disks []
                ∙ rw (any-Mem d.name d i.properties.disks (rw (sup, eq_refl d.name) refl) t) refl,
            λ n t. place_nics-Has env i nets n i.properties.nics [] m e t,
            ground arith,
          )
    ]

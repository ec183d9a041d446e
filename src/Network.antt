-- ===== src/Network.antt =====
-- internal/migration/network_model.go and `NetworkPlacement` of shared/api/network.go: which networks
-- some instances use, and where a network goes on the target.
use migration_manager.Prelude.{
  String, str_eq, false, not, if◌then◌else◌, List, [], ◌∷◌, none, some, is_empty,
}
use migration_manager.Prelude.Int.{ℤ, pos, eqb_ℤ}
use migration_manager.Prelude.Map.{Map, insert, lookup, string_eq}
use migration_manager.Prelude.Table.{filter}
use migration_manager.Prelude.Text.{base, dash_spaces, itoa, join}
use migration_manager.Errors.{Result, ok, err, failed, ◌>>=◌}
use migration_manager.Env.{Env}
use migration_manager.Api.Types.{Network, ApiNetwork, NetworkPlacement, Instance, Nic}

-- The loop over the NICs of one instance: each one's network is noted with the instance's source.
abbrev add_nics : String → List Nic → Map String String → Map String String
add_nics source [] m = m
add_nics source (n ∷ ns) m = add_nics source ns (insert n.source_specific_id source m)

abbrev pub nic_sources : List Instance → Map String String → Map String String
nic_sources [] m = m
nic_sources (i ∷ is) m = nic_sources is (add_nics i.source i.properties.nics m)

-- `FilterUsedNetworks`.
unfoldable pub filter_used_networks : List Network → List Instance → List Network
filter_used_networks nets is =
    let sources = nic_sources is [] in
    filter
      (λ (n : Network). elim (lookup n.source_specific_id sources) [
        | none ↦ false
        | some s ↦ str_eq n.source s
      ])
      nets

-- The VLANs of a distributed port group, as the placement holds them.
unfoldable pub vlan_text : List String × ℤ → String
vlan_text (ranges, id) =
    if not (is_empty ranges) then join "," ranges else if eqb_ℤ id (pos 0) then "" else itoa id

-- The placement that `Network.ToAPI` starts with.
abbrev pub managed : Network → NetworkPlacement
managed n = record { network = dash_spaces (base n.location); nic_type = "managed"; vlan_id = "" }

unfoldable pub default_placement : Env → Network → Result NetworkPlacement
unfolding vlan_text
default_placement env n =
    if str_eq n.network_type "distributed"
    then elim (env.vcenter_vlans n.properties) [
      | none ↦ err (failed "Failed to parse network properties")
      | some vlans ↦ ok (record (managed n) { nic_type = "physical"; vlan_id = vlan_text vlans })
    ]
    else ok (managed n)

-- `Network.ToAPI`.
unfoldable pub to_api : Env → Network → Result ApiNetwork
unfolding default_placement
to_api env n = do
  placement ← default_placement env n
  ok (record {
    uuid = n.uuid;
    source_specific_id = n.source_specific_id;
    location = n.location;
    source = n.source;
    network_type = n.network_type;
    properties = n.properties;
    placement = placement;
    overrides = n.overrides;
  })

abbrev override : String → String → String
override new old = if str_eq new "" then old else new

-- `NetworkPlacement.Apply`.
unfoldable pub apply : NetworkPlacement → NetworkPlacement → NetworkPlacement
apply overrides n = record {
  network = override overrides.network n.network;
  nic_type = override overrides.nic_type n.nic_type;
  vlan_id = override overrides.vlan_id n.vlan_id;
}

-- ===== src/VpnConfig/Vpns.antt =====
-- uno/registry/vpn_config.py: which VPNs a registry has (`UvnVpnConfig`), from the cells and the
-- settings of its UVN. The key material is left out, which is handed to each of them.
pub mod Reached
use uno.Prelude.{
  ℕ, zero, suc, ◌+◌, ◌-◌, ◌*◌, ◌/◌, ◌%◌, ◌^◌, ◌≤◌, ◌<◌, max, min, ◌≡◌, refl, sym, ap, ◌∙◌, ◌≢◌, ◌↔◌,
  ◌⊎◌, inl, inr, Bool, true, false, not, ◌&&◌, ◌||◌, Option, none, some, List, [], ◌∷◌, ◌++◌, map,
  arith, ltb, leb, ◌==◌, if◌then◌else◌, ltb→lt, lt→ltb, leb→le, ==_iff, ==_refl, ==_comm,
  Bool-cases, Option-cases, length, get_elem?, take, drop, replicate, length-append,
  length-replicate, take-append-drop, All, range_from, Error, runtime_error, value_error,
  index_error, key_error, type_error, assertion_error, address_value_error, not_implemented_error,
  stop_iteration, missing_key_material, clashing_networks_error, attribute_error, Result, ok, raise,
  Exec, pure, lift, and_then,
}
use Prim.Native.String.{String}
use uno.Prelude.Dict.{Dict, get, put, number_key, mem}
use uno.Ip.{Network}
use uno.Links.{LinksMap}
use uno.Uvn.{Uvn, Cell, all_cells, has_particles_vpn, network_key}
use uno.VpnConfig.{VpnSettings, CentralConfig}
use uno.VpnConfig.P2p.{P2pConfig}

cells_of : Dict ℕ Cell → List Cell
cells_of [] = []
cells_of ((i, c) ∷ rest) = c ∷ cells_of rest

pub insert_cell : Cell → List Cell → List Cell
insert_cell c [] = c ∷ []
insert_cell c (d ∷ ds) =
    let rest = insert_cell c ds in if leb c.id d.id then c ∷ d ∷ ds else d ∷ rest

-- `sorted(cells.values(), key=lambda v: v.id)`
unfoldable pub sort_cells : Dict ℕ Cell → List Cell
unfolding insert_cell
sort_cells [] = []
sort_cells ((i, c) ∷ rest) = insert_cell c (sort_cells rest)

-- `{c.id: c.address for c in cells}`, from the cells that are left
unfoldable pub add_endpoints : Dict ℕ (Option String) → List Cell → Dict ℕ (Option String)
unfolding put
add_endpoints d [] = d
add_endpoints d (c ∷ cs) = add_endpoints (put d c.id c.address) cs

-- `root_vpn_config`
unfoldable pub root_vpn_config : Uvn → VpnSettings → Option CentralConfig
unfolding all_cells sort_cells add_endpoints
root_vpn_config uvn root_vpn =
    let cells = sort_cells (all_cells uvn) in
    let config : CentralConfig = record {
      settings = root_vpn;
      peer_ids = map (λ (c : Cell). c.id) cells;
      root_endpoint = uvn.address;
      peer_endpoints = add_endpoints [] cells;
    } in
    if uvn.enable_root_vpn then some config else none

insert_id : ℕ → List ℕ → List ℕ
insert_id i [] = i ∷ []
insert_id i (j ∷ js) = let rest = insert_id i js in if leb i j then i ∷ j ∷ js else j ∷ rest

unfoldable pub sort_ids : List ℕ → List ℕ
unfolding insert_id
sort_ids [] = []
sort_ids (i ∷ is) = insert_id i (sort_ids is)

-- `particles_vpn`, of a cell
unfoldable pub particles_vpn : Uvn → VpnSettings → Cell → Option CentralConfig
unfolding has_particles_vpn sort_ids
particles_vpn uvn settings cell =
    let config : CentralConfig = record {
      settings = settings;
      peer_ids = sort_ids uvn.particles;
      root_endpoint = cell.address;
      peer_endpoints = [];
    } in
    if has_particles_vpn uvn cell then some config else none

-- `particles_vpns`
unfoldable pub particles_vpns : Uvn → VpnSettings → Dict ℕ Cell → Dict ℕ CentralConfig
unfolding particles_vpn
particles_vpns uvn settings [] = []
particles_vpns uvn settings ((i, cell) ∷ rest) =
    let later = particles_vpns uvn settings rest in
    elim (particles_vpn uvn settings cell) [ none ↦ later | some c ↦ (cell.id, c) ∷ later ]

lans_of_cells : Dict ℕ Cell → List Network
lans_of_cells [] = []
lans_of_cells ((i, c) ∷ rest) = c.allowed_lans ++ lans_of_cells rest

-- The set of networks that are allowed on the backbone; the source sorts it.
unfoldable pub backbone_lans : List Network → List Network → List Network
backbone_lans allowed [] = allowed
backbone_lans allowed (n ∷ ns) =
    backbone_lans (if mem allowed n then allowed else allowed ++ n ∷ []) ns

-- `backbone_vpn`, which also stores the allowed networks in the settings
unfoldable pub backbone_vpn : Uvn → VpnSettings → Option LinksMap → Option (P2pConfig × VpnSettings)
unfolding sort_cells add_endpoints backbone_lans lans_of_cells
backbone_vpn uvn settings none = none
backbone_vpn uvn settings (some deployment) =
    let settings' = record settings {
      allowed_ips = backbone_lans [] (settings.allowed_ips ++ lans_of_cells uvn.cells);
    } in
    let cells = sort_cells uvn.cells in
    some (
      record {
        settings = settings';
        deployment = deployment;
        peer_ids = map (λ (c : Cell). c.id) cells;
        peer_endpoints = add_endpoints [] cells;
      },
      settings',
    )

-- ===== src/VpnConfig/Vpns/Reached.antt =====
-- The links of the root VPN of a valid UVN (uno/registry/uvn.py, `_validate`, and
-- uno/registry/vpn_config.py, `root_vpn_config`).
use uno.Prelude.{
  Among, ℕ, ◌≡◌, refl, sym, ap, ◌∙◌, ◌⊎◌, inl, inr, Bool, true, false, not, Option, none, some,
  List, [], ◌∷◌, map, arith, leb, ◌==◌, if◌then◌else◌, Bool-cases, All, Result, ok, raise,
}
use Prim.Native.String.{String}
use uno.Prelude.Dict.{Dict, get, put, number_key, get-put}
use uno.Prelude.Sets.{contains}
use uno.Central.{Central}
use uno.Uvn.{
  Uvn, Cell, all_cells, is_private, is_set, check_lans, check_address, also, validate_cell,
  validate_cells, validate_uvn,
}
use uno.VpnConfig.{
  unless_none, if_set, VpnSettings, CentralConfig, Endpoint, PeerConfig, WireGuardConfig,
  endpoint_of, flatten, root_config, central_peer_config,
}
use uno.VpnConfig.Vpns.{sort_cells, insert_cell, add_endpoints, root_vpn_config}
use uno.VpnConfig.{peer_port}
use uno.VpnConfig.Entries.{central_peer_config-parts, root_config-parts, port_of_endpoint}
use uno.VpnConfig.Rooted.{Fits, Dials, root_config-central_peer_config}

-- The cell or the UVN has an address.
abbrev pub IsAddressed : Uvn → Cell → Type 0
IsAddressed uvn cell = (is_set cell.address ≡ true) ⊎ (is_set uvn.address ≡ true)

-- An address is None or a text that is not empty, as `prepare_address` makes sure of.
abbrev pub IsAddress : Option String → Type 0
IsAddress a = is_set a ≡ not (is_private a)

also-ok : (r s : Result (Unit {0})) → also r s ≡ ok tt → (r ≡ ok tt) × (s ≡ ok tt)
unfolding also
also-ok (ok u) s h = (refl, h)
also-ok (raise e) s h = cc

check_address-IsAddressed :
    (uvn : Uvn) (cell : Cell)
    → uvn.enable_root_vpn ≡ true
    → IsAddress cell.address
    → check_address uvn cell ≡ ok tt
    → IsAddressed uvn cell
unfolding check_address
check_address-IsAddressed uvn cell enabled address h = ground arith

-- What holds of the cells of a dictionary.
abbrev pub AllCells : (Cell → Type 0) → Dict ℕ Cell → Type 0
AllCells P [] = Unit
AllCells P ((i, c) ∷ rest) = P c × AllCells P rest

validate_cells-IsAddressed :
    (uvn : Uvn) (cells : Dict ℕ Cell)
    → uvn.enable_root_vpn ≡ true
    → AllCells (λ c. IsAddress c.address) cells
    → validate_cells uvn cells ≡ ok tt
    → AllCells (IsAddressed uvn) cells
unfolding validate_cells validate_cell
validate_cells-IsAddressed uvn [] enabled address h = tt
validate_cells-IsAddressed uvn ((i, c) ∷ rest) enabled address h =
    let (here, later) =
      also-ok (also (check_lans uvn c) (check_address uvn c)) (validate_cells uvn rest) h in
    let (lans, checked) = also-ok (check_lans uvn c) (check_address uvn c) here in
    (
      check_address-IsAddressed uvn c enabled address.0 checked,
      validate_cells-IsAddressed uvn rest enabled address.1 later,
    )

insert_cell-All :
    (P : Cell → Type 0) (c : Cell) (cs : List Cell) → P c → All P cs → All P (insert_cell c cs)
unfolding insert_cell
insert_cell-All P c [] h k = (h, tt)
insert_cell-All P c (d ∷ ds) h k = elim (Bool-cases (leb c.id d.id)) [
  | inl e ↦ rw e (h, (k.0, k.1))
  | inr e ↦ rw e (k.0, insert_cell-All P c ds h k.1)
]

sort_cells-All :
    (P : Cell → Type 0) (cells : Dict ℕ Cell) → AllCells P cells → All P (sort_cells cells)
unfolding sort_cells
sort_cells-All P [] h = tt
sort_cells-All P ((i, c) ∷ rest) h =
    insert_cell-All P c (sort_cells rest) h.0 (sort_cells-All P rest h.1)

-- Whoever is in a dictionary of endpoints, or among the cells that are added, has the address of a
-- cell with the property.
Found : (Cell → Type 0) → Dict ℕ (Option String) → ℕ → Type 0
Found P d p = (c : Cell) × (get d p ≡ some c.address) × P c

add_endpoints-kept :
    (P : Cell → Type 0) (d : Dict ℕ (Option String)) (cs : List Cell) (p : ℕ)
    → All P cs
    → Found P d p
    → Found P (add_endpoints d cs) p
unfolding add_endpoints Found
add_endpoints-kept P d [] p h found = found
add_endpoints-kept P d (c ∷ cs) p h (old, at, good) =
    add_endpoints-kept P (put d c.id c.address) cs p h.1 (elim (Bool-cases (c.id == p)) [
      | inl e ↦ (c, get-put d c.id p c.address ∙ rw e refl, h.0)
      | inr e ↦ (old, get-put d c.id p c.address ∙ rw e at, good)
    ])

add_endpoints-Found :
    (P : Cell → Type 0) (d : Dict ℕ (Option String)) (cs : List Cell) (p : ℕ)
    → All P cs
    → contains (map (λ (c : Cell). c.id) cs) p ≡ true
    → Found P (add_endpoints d cs) p
unfolding add_endpoints Found
add_endpoints-Found P d [] p h member = cc
add_endpoints-Found P d (c ∷ cs) p h member = elim (Bool-cases (c.id == p)) [
  | inl e ↦
      add_endpoints-kept P (put d c.id c.address) cs p h.1
        (c, get-put d c.id p c.address ∙ rw e refl, h.0)
  | inr e ↦ add_endpoints-Found P (put d c.id c.address) cs p h.1 (ground arith)
]

some-set :
    (host : Option String) (port : ℕ)
    → is_set host ≡ true
    → (x : Endpoint) × (if_set host port ≡ some x) × (unless_none host port ≡ some x)
unfolding is_set if_set unless_none
some-set none port h = cc
some-set (some String.[]) port h = cc
some-set (some (String.◌∷◌ c s)) port h = (_, refl, refl)

chosen :
    (b : Bool) (x c : CentralConfig) → (if b then some x else none) ≡ some c → (b ≡ true) × (x ≡ c)
chosen true x c h = (refl, cc)
chosen false x c h = cc

-- The parts of the configuration, and that the root VPN is on.
root_vpn_config-parts :
    (uvn : Uvn) (settings : VpnSettings) (c : CentralConfig)
    → root_vpn_config uvn settings ≡ some c
    → (uvn.enable_root_vpn ≡ true)
      × (c.root_endpoint ≡ uvn.address)
      × (c.peer_ids ≡ map (λ (z : Cell). z.id) (sort_cells (all_cells uvn)))
      × (c.peer_endpoints ≡ add_endpoints [] (sort_cells (all_cells uvn)))
unfolding root_vpn_config
root_vpn_config-parts uvn settings c h =
    let (on, e) = chosen uvn.enable_root_vpn _ c h in
    let from = sym e in
    (
      on,
      ap (λ (z : CentralConfig). z.root_endpoint) from,
      ap (λ (z : CentralConfig). z.peer_ids) from,
      ap (λ (z : CentralConfig). z.peer_endpoints) from,
    )

-- The peer, or the root, has an address.
addressed :
    (uvn : Uvn) (settings : VpnSettings) (c : CentralConfig) (p : ℕ)
    → AllCells (λ z. IsAddress z.address) (all_cells uvn)
    → validate_uvn uvn ≡ ok tt
    → root_vpn_config uvn settings ≡ some c
    → contains c.peer_ids p ≡ true
    → (is_set (endpoint_of c p) ≡ true) ⊎ (is_set c.root_endpoint ≡ true)
unfolding validate_uvn endpoint_of Found
addressed uvn settings c p addresses valid made member =
    let (on, root, ids, endpoints) = root_vpn_config-parts uvn settings c made in
    let good =
      sort_cells-All (IsAddressed uvn) (all_cells uvn)
        (validate_cells-IsAddressed uvn (all_cells uvn) on addresses valid) in
    let (cell, at, either) =
      add_endpoints-Found (IsAddressed uvn) [] (sort_cells (all_cells uvn)) p good
        (ap (λ z. contains z p) (sym ids) ∙ member) in
    let found : flatten (get c.peer_endpoints p) ≡ cell.address =
      ap (λ d. flatten (get d p)) endpoints ∙ ap flatten at in
    elim either [ inl e ↦ inl (ap is_set found ∙ e) | inr e ↦ inr (ap is_set root ∙ e) ]

reached :
    {W : Type 0} (c : CentralConfig) (m : Central W) (p : ℕ) (r q : WireGuardConfig)
    (e f : PeerConfig)
    → root_config c m ≡ ok r
    → central_peer_config c m p ≡ ok q
    → (is_set (endpoint_of c p) ≡ true) ⊎ (is_set c.root_endpoint ≡ true)
    → Dials c p r.intf e q.intf f
    → (x : Endpoint) × (((e.endpoint ≡ some x) × (q.intf.port ≡ some x.port))
        ⊎ ((f.endpoint ≡ some x) × (r.intf.port ≡ some x.port)))
reached c m p r q e f made_root made_peer address (inl (set, same, port, none_back)) =
    let (
      items', k', psk', ip', key', server', f', i2, u2, ip2, rk', rip', one, priv, addr, port',
      endpoint, fpub, fpsk, faddr, fend,
    ) =
      central_peer_config-parts c m p made_peer in
    let (x, by_if, by_none) = some-set (endpoint_of c p) (peer_port c) set in
    let at : e.endpoint ≡ some x = same ∙ endpoint ∙ by_if in
    (x, inl (at, port ∙ ap port_of_endpoint at))
reached c m p r q e f made_root made_peer address (inr (unset, same, port, none_there, none_here)) =
    let (key, server, rk, rip, rpeers, rpriv, raddr, rport, rend) =
      root_config-parts c m made_root in
    elim address [
      | inl set ↦ cc
      | inr set ↦
          let (x, by_if, by_none) = some-set c.root_endpoint c.settings.port set in
          let at : f.endpoint ≡ some x = same ∙ rend ∙ by_none in
          (x, inr (at, port ∙ ap port_of_endpoint at))
    ]

-- For a UVN that is valid, of which the addresses of cells are not empty texts, let the registry's
-- root VPN be made for it, and the configurations of the root and of one of its peers. Then the two
-- have entries for each other with the other's address and public key and one preshared key, and one
-- of the entries has an endpoint, on the port on which the other side listens.
pub root_vpn_config-reached :
    {W : Type 0} (uvn : Uvn) (settings : VpnSettings) (c : CentralConfig) (m : Central W) (p : ℕ)
    (r q : WireGuardConfig)
    → AllCells (λ z. IsAddress z.address) (all_cells uvn)
    → validate_uvn uvn ≡ ok tt
    → root_vpn_config uvn settings ≡ some c
    → contains c.peer_ids p ≡ true
    → root_config c m ≡ ok r
    → central_peer_config c m p ≡ ok q
    → (e : PeerConfig) × (f : PeerConfig) × (x : Endpoint) × Among e r.peers
      × (q.peers ≡ f ∷ [])
      × Fits e q.intf
      × Fits f r.intf
      × (e.psk ≡ f.psk)
      × (((e.endpoint ≡ some x) × (q.intf.port ≡ some x.port))
          ⊎ ((f.endpoint ≡ some x) × (r.intf.port ≡ some x.port)))
root_vpn_config-reached uvn settings c m p r q addresses valid made member made_root made_peer =
    let (e, f, among, one, fits_e, fits_f, psk, dials) =
      root_config-central_peer_config c m p r q member made_root made_peer in
    let (x, endpoint) =
      reached c m p r q e f made_root made_peer
        (addressed uvn settings c p addresses valid made member) dials in
    (e, f, x, among, one, fits_e, fits_f, psk, endpoint)

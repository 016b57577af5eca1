-- ===== src/Uvn.antt =====
-- uno/registry/uvn.py and uno/registry/cell.py: the cells of a UVN, the networks that clash, and
-- what makes a cell valid.
pub mod Clashes
pub mod Validity
use uno.Prelude.{
  clashing_networks_error, ℕ, zero, suc, ◌+◌, ◌-◌, ◌*◌, ◌/◌, ◌%◌, ◌^◌, ◌≤◌, ◌<◌, max, min, ◌≡◌,
  refl, sym, ap, ◌∙◌, ◌≢◌, ◌↔◌, ◌⊎◌, inl, inr, Bool, true, false, not, ◌&&◌, ◌||◌, Option, none,
  some, List, [], ◌∷◌, ◌++◌, map, arith, ltb, leb, ◌==◌, if◌then◌else◌, ltb→lt, lt→ltb, leb→le,
  ==_iff, ==_refl, ==_comm, Bool-cases, Option-cases, length, get_elem?, take, drop, replicate,
  length-append, length-replicate, take-append-drop, All, range_from, Error, runtime_error,
  value_error, index_error, key_error, type_error, assertion_error, address_value_error,
  not_implemented_error, stop_iteration, missing_key_material, Result, ok, raise, Exec, pure, lift,
  and_then, ◌>>=◌, and_then-eq-ok,
}
use Prim.Native.String.{String}
use uno.Prelude.Dict.{Dict, Keyed, get, put, keys, mem, number_key}
use uno.Ip.{Network, contains, hosts}
use uno.Links.{LinksMap, Port, PeerLinks, sort_by_index}

-- `Cell`; its settings are reduced to whether they enable the particles VPN.
pub record Cell : Type 0 where
  pub id : ℕ
  pub address : Option String
  pub allowed_lans : List Network
  pub particles_enabled : Bool

-- `Cell.private`
unfoldable pub is_private : Option String → Bool
is_private none = true
is_private (some a) = false

-- `Cell.relay`
unfoldable pub is_relay : Cell → Bool
is_relay cell = length cell.allowed_lans == 0

-- The truth value of a text, or None, in a condition.
unfoldable pub is_set : Option String → Bool
is_set none = false
is_set (some String.[]) = false
is_set (some (String.◌∷◌ c s)) = true

-- `Uvn`, with the settings that are used here. The maps of cells and of particles have a key for
-- each identifier.
pub record Uvn : Type 0 where
  pub address : Option String
  pub cells : Dict ℕ Cell
  pub excluded_cells : Dict ℕ Cell
  pub particles : List ℕ
  pub enable_root_vpn : Bool
  pub enable_particles_vpn : Bool
  pub root_peer_port : Option ℕ
  pub particles_port : ℕ
  pub backbone_port : ℕ

-- `{**self.cells, **self.excluded_cells}`
unfoldable pub merge : {V : Type 0} → Dict ℕ V → Dict ℕ V → Dict ℕ V
unfolding put
merge d [] = d
merge d ((k, v) ∷ rest) = merge (put d k v) rest

-- `all_cells`
unfoldable pub all_cells : Uvn → Dict ℕ Cell
unfolding merge
all_cells uvn = merge uvn.cells uvn.excluded_cells

-- `Cell.enable_particles_vpn`
unfoldable pub has_particles_vpn : Uvn → Cell → Bool
unfolding is_set
has_particles_vpn uvn cell =
    uvn.enable_particles_vpn && cell.particles_enabled && is_set cell.address

abbrev pub same_net : Network → Network → Bool
same_net m n = m.address == n.address && m.prefixlen == n.prefixlen

pub same_net_iff : (m n : Network) → (same_net m n ≡ true) ↔ (m ≡ n)
same_net_iff m n = ground arith

instance abbrev pub network_key : Keyed Network
network_key = record { is_key = same_net; is_key_iff = same_net_iff }

-- A network that a record has, in the sets of clashes.
abbrev pub Match : Type 0
Match = ℕ × Network

abbrev same_match : Match → Match → Bool
same_match (i, m) (j, n) = (i == j) && same_net m n

pub same_match_iff : (p q : Match) → (same_match p q ≡ true) ↔ (p ≡ q)
same_match_iff (i, m) (j, n) = ground (arith, same_net_iff m n)

instance abbrev pub match_key : Keyed Match
match_key = record { is_key = same_match; is_key_iff = same_match_iff }

-- `IPv4Network.broadcast_address`
abbrev pub broadcast : Network → ℕ
broadcast n = n.address + (hosts n.prefixlen - 1)

-- `IPv4Network.overlaps`
unfoldable pub overlaps : Network → Network → Bool
unfolding contains
overlaps m n =
    contains m.address n
    || contains (broadcast m) n
    || contains n.address m
    || contains (broadcast n) m

abbrev pub Subnets : Type 0
Subnets = Dict Network (List Match)

unfoldable pub matches_of : Option (List Match) → List Match
matches_of none = []
matches_of (some ms) = ms

-- `by_subnet.get(net, set())`
unfoldable pub matches : Subnets → Network → List Match
unfolding get matches_of
matches by_subnet net = matches_of (get by_subnet net)

-- `by_subnet[subnet].add((record, net))`
unfoldable pub add_match : Network → Match → Subnets → Subnets
unfolding put matches
add_match subnet m by_subnet =
    let ms = matches by_subnet subnet in
    put by_subnet subnet (if mem ms m then ms else ms ++ m ∷ [])

-- `{n: set() for n in checked_networks}`
unfoldable pub no_matches : List Network → Subnets
unfolding put
no_matches [] = []
no_matches (n ∷ ns) = put (no_matches ns) n []

-- The innermost loop, over the subnets that a network is compared with. Each of them is a key.
unfoldable pub compare_with : ℕ → Network → List Network → Subnets → Subnets
unfolding add_match overlaps
compare_with record_id net [] by_subnet = by_subnet
compare_with record_id net (subnet ∷ rest) by_subnet = compare_with record_id net rest (
    if overlaps subnet net || overlaps net subnet
    then add_match subnet (record_id, net) by_subnet
    else by_subnet)

-- `checked_networks or explored`
unfoldable pub compared : List Network → List Network → List Network
compared [] explored = explored
compared (n ∷ checked) explored = n ∷ checked

-- `explored.add(net)`
unfoldable pub explore : Network → List Network → List Network
explore net explored = if mem explored net then explored else explored ++ net ∷ []

-- The loop over the networks of one record.
unfoldable pub clash_record :
    ℕ → List Network → List Network → Subnets × List Network → Subnets × List Network
unfolding add_match compare_with compared explore
clash_record record_id checked [] s = s
clash_record record_id checked (net ∷ nets) (by_subnet, explored) =
    clash_record record_id checked nets (
      compare_with record_id net (compared checked explored)
          (add_match net (record_id, net) by_subnet),
      explore net explored,
    )

-- The loop over the records, each with its identity and its networks.
unfoldable pub clash_records :
    List Network → List (ℕ × List Network) → Subnets × List Network → Subnets × List Network
unfolding clash_record
clash_records checked [] s = s
clash_records checked ((record_id, nets) ∷ rest) s =
    clash_records checked rest (clash_record record_id checked nets s)

unfoldable pub is_empty : {A : Type 0} → List A → Bool
is_empty [] = true
is_empty (x ∷ xs) = false

-- The comprehension that is returned.
unfoldable pub select_clashes : List Network → Subnets → Subnets
unfolding is_empty
select_clashes checked [] = []
select_clashes checked ((n, ms) ∷ rest) =
    let later = select_clashes checked rest in
    if (is_empty checked || mem checked n) && not (is_empty ms) then (n, ms) ∷ later else later

-- `detect_network_clashes`; `checked` has no network twice.
unfoldable pub detect_network_clashes : List (ℕ × List Network) → List Network → Subnets
unfolding clash_records no_matches select_clashes
detect_network_clashes records checked =
    select_clashes checked (clash_records checked records (no_matches checked, [])).0

-- `records=(c for c in self.cells.values() if c != cell)`, with their networks
unfoldable pub other_lans : ℕ → Dict ℕ Cell → List (ℕ × List Network)
other_lans cell_id [] = []
other_lans cell_id ((k, c) ∷ rest) =
    let later = other_lans cell_id rest in
    if c.id == cell_id then later else (c.id, c.allowed_lans) ∷ later

-- The first condition of `validate_cell`.
unfoldable pub check_lans : Uvn → Cell → Result (Unit {0})
unfolding is_empty is_private detect_network_clashes other_lans
check_lans uvn cell =
    if not (is_empty cell.allowed_lans)
    then (if is_empty (detect_network_clashes (other_lans cell.id uvn.cells) cell.allowed_lans)
        then ok tt
        else raise clashing_networks_error)
    else if is_private cell.address
    then raise value_error
    else ok tt

-- Its second condition.
unfoldable pub check_address : Uvn → Cell → Result (Unit {0})
unfolding is_private is_set
check_address uvn cell =
    if is_private cell.address && not (is_set uvn.address) && uvn.enable_root_vpn
    then raise value_error
    else ok tt

-- What follows a check that did not raise.
unfoldable pub also : Result (Unit {0}) → Result (Unit {0}) → Result (Unit {0})
also (ok u) next = next
also (raise e) next = raise e

-- `validate_cell`
unfoldable pub validate_cell : Uvn → Cell → Result (Unit {0})
unfolding check_lans check_address also
validate_cell uvn cell = also (check_lans uvn cell) (check_address uvn cell)

-- The loop of `_validate` over the cells; `validate_particle` does nothing.
unfoldable pub validate_cells : Uvn → Dict ℕ Cell → Result (Unit {0})
unfolding validate_cell also
validate_cells uvn [] = ok tt
validate_cells uvn ((k, cell) ∷ rest) = also (validate_cell uvn cell) (validate_cells uvn rest)

-- `_validate`
unfoldable pub validate_uvn : Uvn → Result (Unit {0})
unfolding validate_cells all_cells
validate_uvn uvn = validate_cells uvn (all_cells uvn)

-- `next(c for c in self.cells.values() if c.id == peer_id)`
unfoldable pub cell_with_id : ℕ → Dict ℕ Cell → Result Cell
cell_with_id peer_id [] = raise stop_iteration
cell_with_id peer_id ((k, c) ∷ rest) = if c.id == peer_id then ok c else cell_with_id peer_id rest

port_index : Option Port → Result ℕ
port_index none = raise key_error
port_index (some p) = ok p.index

back_index : ℕ → Option PeerLinks → Result ℕ
unfolding get port_index
back_index cell_id none = raise key_error
back_index cell_id (some l) = port_index (get l.peers cell_id)

-- `deployment.peers[peer_id]["peers"][cell.id][0]`
unfoldable pub peer_port_index : LinksMap → ℕ → ℕ → Result ℕ
unfolding get back_index
peer_port_index deployment peer_id cell_id = back_index cell_id (get deployment peer_id)

add_peer : Result ℕ → Result Cell → Result (List (Cell × ℕ)) → Result (List (Cell × ℕ))
add_peer (raise e) cell rest = raise e
add_peer (ok i) (raise e) rest = raise e
add_peer (ok i) (ok c) (raise e) = raise e
add_peer (ok i) (ok c) (ok rest) = ok ((c, i) ∷ rest)

-- The comprehension of `deployment_peers`, over the sorted ports.
unfoldable pub list_peers : Uvn → LinksMap → ℕ → Dict ℕ Port → Result (List (Cell × ℕ))
unfolding add_peer peer_port_index cell_with_id
list_peers uvn deployment cell_id [] = ok []
list_peers uvn deployment cell_id ((peer_id, port) ∷ rest) =
    add_peer (peer_port_index deployment peer_id cell_id) (cell_with_id peer_id uvn.cells)
      (list_peers uvn deployment cell_id rest)

deployed_ports : Option PeerLinks → Dict ℕ Port
deployed_ports none = []
deployed_ports (some l) = l.peers

-- `deployment_peers`
unfoldable pub deployment_peers : Uvn → ℕ → LinksMap → Result (List (Cell × ℕ))
unfolding get list_peers sort_by_index deployed_ports
deployment_peers uvn cell_id deployment =
    list_peers uvn deployment cell_id (sort_by_index (deployed_ports (get deployment cell_id)))

-- `agent_ports`
unfoldable pub agent_ports : Uvn → List (Option ℕ)
agent_ports uvn =
    (if uvn.enable_root_vpn then uvn.root_peer_port ∷ [] else [])
    ++ ((if uvn.enable_particles_vpn then some uvn.particles_port ∷ [] else [])
        ++ map (λ i. some (uvn.backbone_port + i)) (range_from 0 (length uvn.cells)))

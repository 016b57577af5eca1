-- ===== src/Links.antt =====
-- uno/registry/deployment.py: the addresses of the backbone links. `P2pLinkAllocationMap` is a
-- `PairedValuesMap` whose values are links, taken in turn from a subnet; `P2pLinksMap` is the
-- map of peers, ports and links that a deployment consists of.
pub mod Allocating
pub mod Apart
use uno.Prelude.{
  ℕ, zero, suc, ◌+◌, ◌-◌, ◌*◌, ◌/◌, ◌%◌, ◌^◌, ◌≤◌, ◌<◌, max, min, ◌≡◌, refl, sym, ap, ◌∙◌, ◌≢◌, ◌↔◌,
  ◌⊎◌, inl, inr, Bool, true, false, not, ◌&&◌, ◌||◌, Option, none, some, List, [], ◌∷◌, ◌++◌, map,
  arith, ltb, leb, ◌==◌, if◌then◌else◌, ltb→lt, lt→ltb, leb→le, ==_iff, ==_refl, ==_comm,
  Bool-cases, Option-cases, length, get_elem?, take, drop, replicate, length-append,
  length-replicate, take-append-drop, All, range_from, Error, runtime_error, value_error,
  index_error, key_error, type_error, assertion_error, address_value_error, not_implemented_error,
  Result, ok, raise, Exec, pure, lift, and_then, ◌>>=◌, and_then-eq-ok,
}
use uno.Prelude.Dict.{Dict, get, number_key}
use uno.Ip.{Network, contains, network_strict, network_of, add_address}
use uno.PairedMap.{PairedMap, Supplied, absent, assert_pair}

-- The two addresses of a link, the first for the peer that was named first, and its network.
pub record Link : Type 0 where
  pub addresses : ℕ × ℕ
  pub network : Network

-- The fields that `P2pLinkAllocationMap` adds to its base class.
pub record Pool : Type 0 where
  pub subnet : Network
  pub next_ip : ℕ

abbrev pub AllocationMap : Type 0
AllocationMap = PairedMap Pool Link

-- `P2pLinkAllocationMap.__init__`
unfoldable pub new_allocation_map : Network → Result AllocationMap
unfolding add_address
new_allocation_map subnet =
    if ltb (subnet.address + 2) (2 ^ 32)
    then ok
        (record { entries = []; fields = record { subnet = subnet; next_ip = subnet.address + 2 } })
    else raise address_value_error

-- `_allocate_ip`
unfoldable pub allocate_ip : Exec Pool ℕ
unfolding contains add_address
allocate_ip s =
    if contains s.next_ip s.subnet
    then and_then (add_address s.next_ip 1)
        (λ next s'. (ok s.next_ip, record s' { next_ip = next })) s
    else (raise runtime_error, s)

same_network : Network → Network → Bool
same_network m n = m.address == n.address && m.prefixlen == n.prefixlen

link_of : ℕ → ℕ → Network → Network → Result (Option Link)
link_of peer_a_ip peer_b_ip peer_a_net peer_b_net =
    if same_network peer_a_net peer_b_net
    then ok (some (record { addresses = (peer_a_ip, peer_b_ip); network = peer_a_net }))
    else raise runtime_error

-- `generate_val`
unfoldable pub generate_val : ℕ → ℕ → Exec Pool (Option Link)
unfolding allocate_ip network_strict network_of link_of same_network
generate_val peer_a peer_b = do
  peer_a_ip ← allocate_ip
  peer_b_ip ← allocate_ip
  peer_a_net ← lift (network_strict peer_a_ip 31)
  lift (link_of peer_a_ip peer_b_ip peer_a_net (network_of peer_b_ip 31))

-- `network_map.assert_pair(peer_a, peer_b)`
unfoldable pub assert_link : ℕ → ℕ → Exec AllocationMap (Link × Bool)
unfolding generate_val assert_pair
assert_link peer_a peer_b = assert_pair generate_val peer_a peer_b absent

-- An entry of the links of a peer: its port, the addresses of the two ends, and the network.
pub record Port : Type 0 where
  pub index : ℕ
  pub local_address : ℕ
  pub peer_address : ℕ
  pub network : Network

-- The value of `P2pLinksMap.peers` for a peer.
pub record PeerLinks : Type 0 where
  pub n : ℕ
  pub peers : Dict ℕ Port

abbrev pub LinksMap : Type 0
LinksMap = Dict ℕ PeerLinks

-- Stable sort by the index of the port, as `sorted(..., key=lambda t: t[1])` does.
insert_by_index : ℕ × Port → Dict ℕ Port → Dict ℕ Port
insert_by_index p [] = p ∷ []
insert_by_index p (q ∷ l) = if leb p.1.index q.1.index then p ∷ q ∷ l else q ∷ insert_by_index p l

unfoldable pub sort_by_index : Dict ℕ Port → Dict ℕ Port
unfolding insert_by_index
sort_by_index [] = []
sort_by_index (p ∷ l) = insert_by_index p (sort_by_index l)

links_of : Option PeerLinks → Dict ℕ Port
links_of none = []
links_of (some l) = l.peers

-- `get_peers`: the peers of a peer by the index of their ports
unfoldable pub get_peers : ℕ → LinksMap → List ℕ
unfolding get links_of sort_by_index
get_peers peer_id m = map (λ p. p.0) (sort_by_index (links_of (get m peer_id)))

-- `get_interfaces`: the addresses of a peer, in the order of the dictionary
unfoldable pub get_interfaces : ℕ → LinksMap → List ℕ
unfolding get links_of
get_interfaces peer_id m = map (λ p. p.1.local_address) (links_of (get m peer_id))

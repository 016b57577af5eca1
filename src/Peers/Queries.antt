-- ===== src/Peers/Queries.antt =====
-- uno/agent/uvn_peers_list.py: the queries of the list of peers.
use uno.Prelude.{
  ℕ, Bool, false, not, ◌&&◌, ◌||◌, Option, none, some, List, [], ◌∷◌, ◌++◌, ltb, ◌==◌,
  if◌then◌else◌, length,
}
use uno.Prelude.Dict.{Keyed, Dict, mem}
use uno.Ip.{Network}
use uno.Uvn.{Cell, network_key, is_empty}
use uno.Peers.{
  Status, same_status, lan_key, LanStatus, Owner, same_owner, owner_key, Peer, is_cell, is_particle,
  is_excluded, select, reachable_networks, covers, Event, PeersList,
}

-- `cells`, `excluded_cells`, `particles` and `excluded_particles`
unfoldable pub cells : PeersList → List Peer
unfolding select
cells l = select (λ p. is_cell p && not (is_excluded p)) l.peers

unfoldable pub excluded_cells : PeersList → List Peer
unfolding select
excluded_cells l = select (λ p. is_cell p && is_excluded p) l.peers

unfoldable pub particles : PeersList → List Peer
unfolding select
particles l = select (λ p. is_particle p && not (is_excluded p)) l.peers

unfoldable pub excluded_particles : PeersList → List Peer
unfolding select
excluded_particles l = select (λ p. is_particle p && is_excluded p) l.peers

abbrev pub is_online : Peer → Bool
is_online p = same_status p.status.value Status.online

-- `online_cells`, `offline_cells`, `unseen_cells`, `online_particles` and `offline_particles`
unfoldable pub online_cells : PeersList → List Peer
unfolding select cells
online_cells l = select is_online (cells l)

unfoldable pub offline_cells : PeersList → List Peer
unfolding select cells
offline_cells l = select (λ p. same_status p.status.value Status.offline) (cells l)

unfoldable pub unseen_cells : PeersList → List Peer
unfolding select cells
unseen_cells l = select (λ p. same_status p.status.value Status.declared) (cells l)

unfoldable pub online_particles : PeersList → List Peer
unfolding select particles
online_particles l = select is_online (particles l)

unfoldable pub offline_particles : PeersList → List Peer
unfolding select particles
offline_particles l = select (λ p. not (is_online p)) (particles l)

-- Whether an identifier, which may be None, is this one.
abbrev pub is_id : ℕ → Option ℕ → Bool
is_id i none = false
is_id i (some j) = j == i

-- `consistent_config_cells` and `inconsistent_config_cells`
unfoldable pub consistent_config_cells : PeersList → List Peer
unfolding select cells
consistent_config_cells l = select (λ p. is_id l.registry_id p.registry_id.value) (cells l)

unfoldable pub inconsistent_config_cells : PeersList → List Peer
unfolding select cells
inconsistent_config_cells l = select (λ p. not (is_id l.registry_id p.registry_id.value)) (cells l)

-- The elements of a list, each once.
unfoldable pub distinct : {K : Type 0} ⦃e : Keyed K⦄ → List K → List K
distinct [] = []
distinct (x ∷ xs) = let rest = distinct xs in if mem rest x then rest else x ∷ rest

lans_of : Dict ℕ Cell → List Network
lans_of [] = []
lans_of ((i, c) ∷ rest) = c.allowed_lans ++ lans_of rest

-- `{lan for c in self.uvn.cells.values() for lan in c.allowed_lans}`
unfoldable pub expected_subnets : PeersList → List Network
unfolding distinct lans_of
expected_subnets l = distinct (lans_of l.uvn.cells)

subnets_of : List LanStatus → List Network
subnets_of [] = []
subnets_of (n ∷ ns) = n.lan.subnet ∷ subnets_of ns

-- `(expected_subnets & c_reachable) == expected_subnets`, and the comparison of lengths before it
unfoldable pub reaches : List Network → Peer → Bool
unfolding distinct subnets_of reachable_networks
reaches expected p =
    let c_reachable = distinct (subnets_of (reachable_networks p)) in
    not (ltb (length c_reachable) (length expected)) && covers c_reachable expected

-- `fully_routed_cells`
unfoldable pub fully_routed_cells : PeersList → List Peer
unfolding is_empty expected_subnets select reaches cells
fully_routed_cells l =
    if is_empty (expected_subnets l) then [] else select (reaches (expected_subnets l)) (cells l)

unfoldable pub find_owner : Owner → List Peer → Option Peer
find_owner owner [] = none
find_owner owner (p ∷ ps) = if same_owner p.owner owner then some p else find_owner owner ps

-- `local`, which the constructor asserts to be there
unfoldable pub local_peer : PeersList → Option Peer
unfolding find_owner
local_peer l = find_owner l.local l.peers

unfoldable pub online_peer : Option Peer → Bool
online_peer none = false
online_peer (some p) = is_online p

pub call_all : List ℕ → Event → List (ℕ × Event)
call_all [] e = []
call_all (i ∷ is) e = (i, e) ∷ call_all is e

-- `_notify`
unfoldable pub notify : Event → PeersList → PeersList
unfolding local_peer online_peer call_all
notify e l =
    if online_peer (local_peer l) then record l { calls = l.calls ++ call_all l.listeners e } else l

abbrev pub some_of : {A B : Type 0} → List A → List B → Bool
some_of xs ys = not (is_empty xs) || not (is_empty ys)

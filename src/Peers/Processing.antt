-- ===== src/Peers/Processing.antt =====
-- uno/agent/uvn_peers_list.py: what follows an update of the peers (`_process_updates`), the flags of
-- the list and the calls of its listeners.
use uno.Ip.{Network}
use uno.Prelude.{
  arith, ◌↔◌, none, some, ◌≡◌, Option, map, ◌||◌, ℕ, Bool, true, false, not, ◌&&◌, List, [], ◌∷◌,
  ◌++◌, ◌==◌, if◌then◌else◌, length,
}
use uno.Prelude.Dict.{mem, Keyed, is_some}
use uno.Uvn.{network_key, is_empty}
use uno.Peers.{
  same_lan_iff, same_owner_iff, same_set, same_lan, Lan, LanStatus, same_owner, Status, same_status,
  lan_key, IntfStatus, Owner, owner_key, Peer, is_cell, is_particle, is_registry, same_bool, Event,
  PeersList,
}
use uno.Peers.{same_owner_iff, same_lan_iff}
use uno.Peers.Queries.{
  consistent_config_cells, expected_subnets, cells, fully_routed_cells, is_id, online_cells, notify,
  some_of,
}

-- The updates related to VPN connections.
changed_intfs : Bool → Owner → List IntfStatus → List (Owner × ℕ)
changed_intfs online owner [] = []
changed_intfs online owner (s ∷ ss) =
    let rest = changed_intfs online owner ss in
    if is_some s.online.prev && same_bool s.online.value online
    then (owner, s.intf) ∷ rest
    else rest

unfoldable pub vpn_changed : Bool → List Peer → List (Owner × ℕ)
unfolding changed_intfs
vpn_changed online [] = []
vpn_changed online (p ∷ ps) = changed_intfs online p.owner p.vpn_interfaces ++ vpn_changed online ps

unfoldable pub process_vpn : PeersList → PeersList
unfolding vpn_changed notify is_empty
process_vpn l =
    let vpn_online = vpn_changed true l.peers in
    let vpn_offline = vpn_changed false l.peers in
    if some_of vpn_online vpn_offline
    then notify (Event.vpn_connections vpn_online vpn_offline) l
    else l

-- The peers of a kind of which the status changed to this one.
unfoldable pub turned : (Peer → Bool) → Status → List Peer → List Owner
turned kind s [] = []
turned kind s (p ∷ ps) =
    let rest = turned kind s ps in
    if kind p && (is_some p.status.prev && same_status p.status.value s)
    then p.owner ∷ rest
    else rest

unfoldable pub check_cells_connected : PeersList → PeersList
unfolding online_cells notify
check_cells_connected l =
    let all_cells_connected = length (online_cells l) == length l.uvn.cells in
    if same_bool all_cells_connected l.status_all_cells_connected
    then l
    else notify Event.all_cells_connected
        (record l { status_all_cells_connected = all_cells_connected })

unfoldable pub process_cells : PeersList → PeersList
unfolding turned notify check_cells_connected is_empty
process_cells l =
    let gone_cells = turned is_cell Status.offline l.peers in
    let new_cells = turned is_cell Status.online l.peers in
    if some_of gone_cells new_cells
    then check_cells_connected (notify (Event.online_cells new_cells gone_cells) l)
    else l

unfoldable pub process_particles : PeersList → PeersList
unfolding turned notify is_empty
process_particles l =
    let gone_particles = turned is_particle Status.offline l.peers in
    let new_particles = turned is_particle Status.online l.peers in
    if some_of gone_particles new_particles
    then notify (Event.online_particles new_particles gone_particles) l
    else l

unfoldable pub process_registry : PeersList → PeersList
unfolding turned notify is_empty
process_registry l =
    if not (is_empty (turned is_registry Status.offline l.peers))
    then notify Event.registry_connected (record l { status_registry_connected = false })
    else if not (is_empty (turned is_registry Status.online l.peers))
    then notify Event.registry_connected (record l { status_registry_connected = true })
    else l

abbrev pub same_route : Owner × Lan → Owner × Lan → Bool
same_route (o, k) (p, l) = same_owner o p && same_lan k l

pub same_route_iff : (x y : Owner × Lan) → (same_route x y ≡ true) ↔ (x ≡ y)
same_route_iff (o, k) (p, l) = ground (arith, same_owner_iff o p, same_lan_iff k l)

instance abbrev pub route_key : Keyed (Owner × Lan)
route_key = record { is_key = same_route; is_key_iff = same_route_iff }

-- `xs - ys`, of sets
unfoldable pub minus : {K : Type 0} ⦃e : Keyed K⦄ → List K → List K → List K
minus [] ys = []
minus (x ∷ xs) ys = let rest = minus xs ys in if mem ys x then rest else x ∷ rest

or_no_lans : Option (List Lan) → List Lan
or_no_lans none = []
or_no_lans (some lans) = lans

-- `prev_routed` and `current_routed`, of the peers but the registry whose networks changed
unfoldable pub prev_routed : List Peer → List (Owner × Lan)
unfolding or_no_lans
prev_routed [] = []
prev_routed (p ∷ ps) =
    let rest = prev_routed ps in
    if not (is_registry p) && is_some p.routed_networks.prev
    then map (λ lan. (p.owner, lan)) (or_no_lans p.routed_networks.prev) ++ rest
    else rest

unfoldable pub current_routed : List Peer → List (Owner × Lan)
current_routed [] = []
current_routed (p ∷ ps) =
    let rest = current_routed ps in
    if not (is_registry p) && is_some p.routed_networks.prev
    then map (λ lan. (p.owner, lan)) p.routed_networks.value ++ rest
    else rest

unfoldable pub routed_subnets : List Peer → List Network
routed_subnets [] = []
routed_subnets (p ∷ ps) =
    map (λ (lan : Lan). lan.subnet) p.routed_networks.value ++ routed_subnets ps

unfoldable pub check_networks_discovered : PeersList → PeersList
unfolding routed_subnets cells expected_subnets notify
check_networks_discovered l =
    let discovered = same_set (routed_subnets (cells l)) (expected_subnets l) in
    if same_bool discovered l.status_routed_networks_discovered
    then l
    else notify Event.routed_networks_discovered
        (record l { status_routed_networks_discovered = discovered })

unfoldable pub process_routed : PeersList → PeersList
unfolding minus prev_routed current_routed notify check_networks_discovered is_empty
process_routed l =
    let gone_routed = minus (prev_routed l.peers) (current_routed l.peers) in
    let new_routed = minus (current_routed l.peers) (prev_routed l.peers) in
    if some_of gone_routed new_routed
    then check_networks_discovered (notify (Event.routed_networks new_routed gone_routed) l)
    else l

flatten_id : Option (Option ℕ) → Option ℕ
flatten_id none = none
flatten_id (some i) = i

-- The peers but the registry whose configuration changed and was, or is, the one of the list.
unfoldable pub prev_consistent : ℕ → List Peer → List Owner
unfolding flatten_id
prev_consistent i [] = []
prev_consistent i (p ∷ ps) =
    let rest = prev_consistent i ps in
    if not (is_registry p)
      && (is_some p.registry_id.prev && is_id i (flatten_id p.registry_id.prev))
    then p.owner ∷ rest
    else rest

unfoldable pub current_consistent : ℕ → List Peer → List Owner
current_consistent i [] = []
current_consistent i (p ∷ ps) =
    let rest = current_consistent i ps in
    if not (is_registry p) && (is_some p.registry_id.prev && is_id i p.registry_id.value)
    then p.owner ∷ rest
    else rest

unfoldable pub check_consistent_config : PeersList → PeersList
unfolding consistent_config_cells notify
check_consistent_config l =
    let consistent_config_uvn = length (consistent_config_cells l) == length l.uvn.cells in
    if same_bool consistent_config_uvn l.status_consistent_config_uvn
    then l
    else notify Event.consistent_config_uvn
        (record l { status_consistent_config_uvn = consistent_config_uvn })

unfoldable pub process_config : PeersList → PeersList
unfolding minus prev_consistent current_consistent notify check_consistent_config is_empty
process_config l =
    let prev = prev_consistent l.registry_id l.peers in
    let current = current_consistent l.registry_id l.peers in
    let gone_consistent = minus prev current in
    let new_consistent = minus current prev in
    if some_of gone_consistent new_consistent
    then check_consistent_config
        (notify (Event.consistent_config_cells new_consistent gone_consistent) l)
    else l

-- Of the networks of the local peer, or of the others: those whose reachability changed, those of
-- them that were reachable, and all that are reachable now.
lans_where : (LanStatus → Bool) → Owner → List LanStatus → List (Owner × Lan)
lans_where test owner [] = []
lans_where test owner (n ∷ ns) =
    let rest = lans_where test owner ns in if test n then (owner, n.lan) ∷ rest else rest

unfoldable pub lans_of_peers : (Owner → Bool) → (LanStatus → Bool) → List Peer → List (Owner × Lan)
unfolding lans_where
lans_of_peers whose test [] = []
lans_of_peers whose test (p ∷ ps) =
    let rest = lans_of_peers whose test ps in
    if whose p.owner then lans_where test p.owner p.known_networks ++ rest else rest

abbrev pub reach_changed : LanStatus → Bool
reach_changed n = is_some n.reachable.prev

was_true : Option Bool → Bool
was_true none = false
was_true (some b) = b

abbrev pub is_local : PeersList → Owner → Bool
is_local l owner = same_owner owner l.local

unfoldable pub process_local_reachable : PeersList → PeersList
unfolding lans_of_peers was_true minus notify is_empty
process_local_reachable l =
    let prev_reachable = lans_of_peers (is_local l) (λ n. was_true n.reachable.prev) l.peers in
    let current_reachable = lans_of_peers (is_local l) (λ n. n.reachable.value) l.peers in
    if is_empty (lans_of_peers (is_local l) reach_changed l.peers)
    then l
    else notify
        (Event.local_reachable_networks (minus current_reachable prev_reachable)
          (minus prev_reachable current_reachable))
        l

unfoldable pub process_remote_reachable : PeersList → PeersList
unfolding lans_of_peers was_true minus notify is_empty
process_remote_reachable l =
    let others = λ (o : Owner). not (is_local l o) in
    let prev_reachable = lans_of_peers others (λ n. was_true n.reachable.prev) l.peers in
    let current_reachable = lans_of_peers others (λ n. n.reachable.value) l.peers in
    let gone_reachable = minus prev_reachable current_reachable in
    let new_reachable = minus current_reachable prev_reachable in
    if not (is_empty (lans_of_peers others reach_changed l.peers))
      && some_of gone_reachable new_reachable
    then notify (Event.reachable_lans new_reachable gone_reachable) l
    else l

unfoldable pub check_fully_routed : PeersList → PeersList
unfolding lans_of_peers fully_routed_cells notify is_empty
check_fully_routed l =
    let fully_routed_uvn = length (fully_routed_cells l) == length l.uvn.cells in
    if is_empty (lans_of_peers (λ o. true) reach_changed l.peers)
      || same_bool fully_routed_uvn l.status_fully_routed_uvn
    then l
    else notify Event.fully_routed_uvn (record l { status_fully_routed_uvn = fully_routed_uvn })

-- ===== src/Peers/Updating.antt =====
-- uno/agent/uvn_peers_list.py: `_process_updates` as a whole, and the methods that update the peers.
use uno.Peers.Configuring.{Given, Update, configure}
use uno.Prelude.{
  any, none, some, Option, map, ◌||◌, Bool, true, false, List, [], ◌∷◌, if◌then◌else◌,
}
use uno.Uvn.{network_key}
use uno.Peers.{
  LanStatus, Tracked, same_owner, Status, same_status, lan_key, IntfStatus, Owner, owner_key, Peer,
  PeersList,
}
use uno.Peers.Queries.{local_peer}
use uno.Peers.Queries.{local_peer}
use uno.Peers.Configuring.{Update, Given, configure}
use uno.Peers.Processing.{
  process_vpn, process_cells, process_particles, process_registry, process_routed, process_config,
  process_local_reachable, process_remote_reachable, check_fully_routed,
}

-- `self.db.save(self)`, as far as the list and what is below it: each changed object is saved, after
-- which it has no changes.
abbrev pub saved_value : {A : Type 0} → Tracked A → Tracked A
saved_value t = record { value = t.value; prev = none }

unfoldable pub save_peer : Peer → Peer
save_peer p = record {
  owner = p.owner;
  status = saved_value p.status;
  registry_id = saved_value p.registry_id;
  routed_networks = saved_value p.routed_networks;
  known_networks =
      map (λ (n : LanStatus). record n { reachable = saved_value n.reachable; unsaved = false })
        p.known_networks;
  vpn_interfaces =
      map (λ (s : IntfStatus). record s { online = saved_value s.online; unsaved = false })
        p.vpn_interfaces;
  unsaved = false;
}

unfoldable pub save : PeersList → PeersList
unfolding save_peer
save l = record l { peers = map save_peer l.peers; unsaved = false }

-- Whether `collect_changes` of the list has any: an object has changes if it or one below it is not saved.
unfoldable pub is_dirty : Peer → Bool
is_dirty p =
    p.unsaved
    || any (λ (n : LanStatus). n.unsaved) p.known_networks
    || any (λ (s : IntfStatus). s.unsaved) p.vpn_interfaces

unfoldable pub has_changes : PeersList → Bool
unfolding is_dirty
has_changes l = l.unsaved || any is_dirty l.peers

-- `_process_updates`
unfoldable pub process_updates : PeersList → PeersList
unfolding has_changes process_vpn process_cells process_particles process_registry process_routed
    process_config process_local_reachable process_remote_reachable check_fully_routed save
process_updates l =
    if has_changes l
    then save (
        check_fully_routed (
          process_remote_reachable (
            process_local_reachable (
              process_config (
                process_routed
                  (process_registry (process_particles (process_cells (process_vpn l)))))))))
    else l

unfoldable pub configure_where : (Owner → Bool) → Update → List Peer → List Peer
unfolding configure
configure_where which u [] = []
configure_where which u (p ∷ ps) =
    (if which p.owner then configure u p else p) ∷ configure_where which u ps

-- `update_all`, for the peers of some owners
unfoldable pub update_all : (Owner → Bool) → Update → PeersList → PeersList
unfolding configure_where process_updates
update_all which u l = process_updates (record l { peers = configure_where which u l.peers })

-- `update_peer`
unfoldable pub update_peer : Owner → Update → PeersList → PeersList
unfolding update_all
update_peer owner u = update_all (λ o. same_owner o owner) u

-- `online`, with the other fields that are given
unfoldable pub online : Update → PeersList → PeersList
unfolding update_peer
online u l = update_peer l.local (record u { status = some Status.online }) l

abbrev pub went_offline : Update
went_offline = record {
  status = some Status.offline;
  registry_id = Given.reset;
  routed_networks = some [];
  known_networks = some [];
  vpn_interfaces = some [];
  others_change = false;
}

unfoldable pub offline_peer : Option Peer → Bool
offline_peer none = false
offline_peer (some p) = same_status p.status.value Status.offline

-- `offline`
unfoldable pub offline : PeersList → PeersList
unfolding local_peer offline_peer update_all
offline l = if offline_peer (local_peer l) then l else update_all (λ o. true) went_offline l

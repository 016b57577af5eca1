-- ===== src/Peers/Configuring.antt =====
-- Updates of a peer: `configure` (uno/registry/versioned.py) with the methods that it finds for the
-- properties of a peer (uno/agent/uvn_peer.py).
use uno.Prelude.{
  ℕ, Bool, true, false, not, ◌&&◌, ◌||◌, Option, none, some, List, [], ◌∷◌, ◌==◌, if◌then◌else◌,
}
use uno.Prelude.Dict.{keys, mem, is_some, number_key}
use uno.Uvn.{network_key}
use uno.Peers.{
  Tracked, Status, same_status, assign, reset_to, Lan, same_lan, lan_key, LanStatus, Stats,
  IntfStatus, Peer, same_bool, same_set,
}

-- The arguments of `configure`, by keyword: one that is None changes nothing.
pub data Given (A : Type 0) : Type 0 where
  keep : Given A
  reset : Given A
  give : A → Given A

pub record Update : Type 0 where
  pub status : Option Status
  pub registry_id : Given ℕ
  pub routed_networks : Option (List Lan)
  pub known_networks : Option (List (Lan × Bool))
  pub vpn_interfaces : Option (List (ℕ × (Bool × Stats)))
  pub others_change : Bool

-- `next((n for n in self.known_networks if n.lan == lan), None)`
unfoldable pub find_lan : List LanStatus → Lan → Option LanStatus
find_lan [] lan = none
find_lan (n ∷ ns) lan = if same_lan n.lan lan then some n else find_lan ns lan

unfoldable pub set_reachable : Bool → LanStatus → LanStatus
unfolding assign
set_reachable b n = record n {
  reachable = assign same_bool b n.reachable;
  unsaved = n.unsaved || not (same_bool n.reachable.value b);
}

unfoldable pub new_lan : Lan → LanStatus
new_lan lan = record {
  lan = lan;
  reachable = record { value = false; prev = none };
  unsaved = true;
}

unfoldable pub or_new_lan : Option LanStatus → Lan → LanStatus
unfolding new_lan
or_new_lan none lan = new_lan lan
or_new_lan (some n) lan = n

-- The loop of `configure_known_networks`.
unfoldable pub configure_lans : List LanStatus → List (Lan × Bool) → List LanStatus
unfolding find_lan or_new_lan set_reachable
configure_lans known [] = []
configure_lans known ((lan, b) ∷ rest) =
    set_reachable b (or_new_lan (find_lan known lan) lan) ∷ configure_lans known rest

-- Whether one of them is new, or has a change that is not saved.
lans_changed : List LanStatus → List (Lan × Bool) → Bool
unfolding find_lan or_new_lan set_reachable
lans_changed known [] = false
lans_changed known ((lan, b) ∷ rest) =
    (not (is_some (find_lan known lan))
      || is_some (set_reachable b (or_new_lan (find_lan known lan) lan)).reachable.prev)
    || lans_changed known rest

-- `configure_known_networks`, in the loop of `configure`: the new set, and whether the property is
-- noted as updated
unfoldable pub configure_known_networks :
    Option (List (Lan × Bool)) → List LanStatus → List LanStatus
unfolding configure_lans
configure_known_networks none known = known
configure_known_networks (some lans) known = configure_lans known lans

-- Whether one of the networks is not among the new ones: the assignment of the new set notes a
-- change then.
lan_gone : List LanStatus → List (Lan × Bool) → Bool
lan_gone [] lans = false
lan_gone (n ∷ ns) lans = not (mem (keys lans) n.lan) || lan_gone ns lans

known_networks_updated : Option (List (Lan × Bool)) → List LanStatus → Bool
unfolding lans_changed lan_gone
known_networks_updated none known = false
known_networks_updated (some lans) known = lans_changed known lans || lan_gone known lans

-- `next((s for s in self.vpn_interfaces if s.intf == ...), None)`
unfoldable pub find_intf : List IntfStatus → ℕ → Option IntfStatus
find_intf [] intf = none
find_intf (s ∷ ss) intf = if s.intf == intf then some s else find_intf ss intf

same_part : Option ℕ → Option ℕ → Bool
same_part none none = true
same_part (some i) (some j) = i == j
same_part none (some j) = false
same_part (some i) none = false

unfoldable pub same_stats : Stats → Stats → Bool
unfolding same_part
same_stats s t =
    s.last_handshake == t.last_handshake
    && s.recv == t.recv
    && s.send == t.send
    && same_part s.endpoint.0 t.endpoint.0
    && same_part s.endpoint.1 t.endpoint.1
    && same_set s.allowed_ips t.allowed_ips

unfoldable pub set_stats : Bool → Stats → IntfStatus → IntfStatus
unfolding assign same_stats
set_stats b stats s = record {
  intf = s.intf;
  online = assign same_bool b s.online;
  stats = stats;
  unsaved = s.unsaved || not (same_bool s.online.value b && same_stats s.stats stats);
}

no_stats : Stats
no_stats = record {
  last_handshake = 0;
  recv = 0;
  send = 0;
  endpoint = (none, none);
  allowed_ips = [];
}

unfoldable pub or_new_intf : Option IntfStatus → ℕ → IntfStatus
unfolding no_stats
or_new_intf none intf = record {
  intf = intf;
  online = record { value = false; prev = none };
  stats = no_stats;
  unsaved = true;
}
or_new_intf (some s) intf = s

-- The loop of `configure_vpn_interfaces`.
unfoldable pub configure_intfs : List IntfStatus → List (ℕ × (Bool × Stats)) → List IntfStatus
unfolding find_intf or_new_intf set_stats
configure_intfs known [] = []
configure_intfs known ((intf, (b, stats)) ∷ rest) =
    set_stats b stats (or_new_intf (find_intf known intf) intf) ∷ configure_intfs known rest

-- Whether one of them is new, or has a change that is not saved.
intfs_changed : List IntfStatus → List (ℕ × (Bool × Stats)) → Bool
unfolding find_intf or_new_intf set_stats
intfs_changed known [] = false
intfs_changed known ((intf, (b, stats)) ∷ rest) =
    (not (is_some (find_intf known intf))
      || (set_stats b stats (or_new_intf (find_intf known intf) intf)).unsaved)
    || intfs_changed known rest

-- `configure_vpn_interfaces`, in the loop of `configure`
unfoldable pub configure_vpn_interfaces :
    Option (List (ℕ × (Bool × Stats))) → List IntfStatus → List IntfStatus
unfolding configure_intfs
configure_vpn_interfaces none known = known
configure_vpn_interfaces (some stats) known = configure_intfs known stats

intf_gone : List IntfStatus → List (ℕ × (Bool × Stats)) → Bool
intf_gone [] stats = false
intf_gone (s ∷ ss) stats = not (mem (keys stats) s.intf) || intf_gone ss stats

vpn_interfaces_updated : Option (List (ℕ × (Bool × Stats))) → List IntfStatus → Bool
unfolding intfs_changed intf_gone
vpn_interfaces_updated none known = false
vpn_interfaces_updated (some stats) known = intfs_changed known stats || intf_gone known stats

unfoldable pub same_id : Option ℕ → Option ℕ → Bool
same_id none none = true
same_id (some i) (some j) = i == j
same_id none (some j) = false
same_id (some i) none = false

-- The other properties, in the loop of `configure`: what an argument makes of a property, and
-- whether that notes a change.
unfoldable pub assign_if : {A : Type 0} → (A → A → Bool) → Option A → Tracked A → Tracked A
unfolding assign
assign_if same none t = t
assign_if same (some v) t = assign same v t

unfoldable pub changes : {A : Type 0} → (A → A → Bool) → Option A → Tracked A → Bool
changes same none t = false
changes same (some v) t = not (same t.value v)

unfoldable pub set_registry_id : Given ℕ → Tracked (Option ℕ) → Tracked (Option ℕ)
unfolding assign reset_to same_id
set_registry_id keep t = t
set_registry_id reset t = reset_to none t
set_registry_id (give i) t = assign same_id (some i) t

unfoldable pub registry_id_changes : Given ℕ → Tracked (Option ℕ) → Bool
unfolding same_id
registry_id_changes keep t = false
registry_id_changes reset t = false
registry_id_changes (give i) t = not (same_id t.value (some i))

-- `configure` (uno/registry/versioned.py) of a peer
unfoldable pub configure : Update → Peer → Peer
unfolding assign_if changes set_registry_id registry_id_changes configure_known_networks
    configure_vpn_interfaces known_networks_updated vpn_interfaces_updated
configure u p = record {
  owner = p.owner;
  status = assign_if same_status u.status p.status;
  registry_id = set_registry_id u.registry_id p.registry_id;
  routed_networks = assign_if (same_set) u.routed_networks p.routed_networks;
  known_networks = configure_known_networks u.known_networks p.known_networks;
  vpn_interfaces = configure_vpn_interfaces u.vpn_interfaces p.vpn_interfaces;
  unsaved =
      p.unsaved
      || (changes same_status u.status p.status
          || (registry_id_changes u.registry_id p.registry_id
              || (changes (same_set) u.routed_networks p.routed_networks
                  || (known_networks_updated u.known_networks p.known_networks
                      || (vpn_interfaces_updated u.vpn_interfaces p.vpn_interfaces
                          || u.others_change)))));
}

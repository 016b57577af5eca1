-- ===== src/Peers.antt =====
-- uno/agent/uvn_peer.py and uno/agent/uvn_peers_list.py: what an agent knows of the peers of its
-- UVN, and the updates of it. Texts that are only compared (names of interfaces, identifiers of
-- configurations) are numbers.
pub mod Configuring
pub mod Queries
pub mod Processing
pub mod Updating
pub mod Following
pub mod Noting
pub mod Accurate
pub mod Gone
pub mod Leaving
pub mod Turning
use uno.Prelude.{
  ℕ, ◌≡◌, ◌↔◌, Bool, true, false, not, ◌&&◌, ◌||◌, Option, none, some, List, [], ◌∷◌, arith, ◌==◌,
  if◌then◌else◌,
}
use uno.Prelude.Dict.{Keyed, mem, is_some}
use uno.Ip.{Network}
use uno.Uvn.{Uvn, network_key, same_net, same_net_iff}

-- `UvnPeerStatus`
pub data Status : Type 0 where
  declared online offline : Status

abbrev pub same_status : Status → Status → Bool
same_status declared declared = true
same_status online online = true
same_status offline offline = true
same_status s t = false

-- A property of a `Versioned` object, with its value before the last change that is not saved yet.
pub record Tracked (A : Type 0) : Type 0 where
  pub value : A
  pub prev : Option A

-- `PropertyDescriptor.set` (uno/registry/versioned.py): an equal value is no change.
unfoldable pub assign : {A : Type 0} → (A → A → Bool) → A → Tracked A → Tracked A
assign same v t = if same t.value v then t else record { value = v; prev = some t.value }

-- `PropertyDescriptor.init`, for `ResetValue`: the change is not noted.
unfoldable pub reset_to : {A : Type 0} → A → Tracked A → Tracked A
reset_to v t = record { value = v; prev = t.prev }

-- `LanDescriptor`, by which networks are compared: the interface and the gateway.
pub record Lan : Type 0 where
  pub address : ℕ
  pub subnet : Network
  pub gw : ℕ

abbrev pub same_lan : Lan → Lan → Bool
same_lan k l = (k.address == l.address) && (same_net k.subnet l.subnet && (k.gw == l.gw))

pub same_lan_iff : (k l : Lan) → (same_lan k l ≡ true) ↔ (k ≡ l)
same_lan_iff k l = ground (arith, same_net_iff k.subnet l.subnet)

instance abbrev pub lan_key : Keyed Lan
lan_key = record { is_key = same_lan; is_key_iff = same_lan_iff }

-- `LanStatus`; the peer that it belongs to is the one that has it in its list.
pub record LanStatus : Type 0 where
  pub lan : Lan
  pub reachable : Tracked Bool
  pub unsaved : Bool

-- The properties of `VpnInterfaceStatus` beside `intf` and `online`.
pub record Stats : Type 0 where
  pub last_handshake : ℕ
  pub recv : ℕ
  pub send : ℕ
  pub endpoint : Option ℕ × Option ℕ
  pub allowed_ips : List Network

-- `VpnInterfaceStatus`
pub record IntfStatus : Type 0 where
  pub intf : ℕ
  pub online : Tracked Bool
  pub stats : Stats
  pub unsaved : Bool

-- The object that a peer stands for; cells and particles have an identifier, and may be excluded.
pub data Owner : Type 0 where
  of_uvn : Owner
  of_cell : ℕ → Bool → Owner
  of_particle : ℕ → Bool → Owner

abbrev pub same_bool : Bool → Bool → Bool
same_bool true b = b
same_bool false b = not b

abbrev pub same_owner : Owner → Owner → Bool
same_owner of_uvn of_uvn = true
same_owner (of_cell i e) (of_cell j f) = (i == j) && same_bool e f
same_owner (of_particle i e) (of_particle j f) = (i == j) && same_bool e f
same_owner a b = false

pub same_owner_iff : (a b : Owner) → (same_owner a b ≡ true) ↔ (a ≡ b)
same_owner_iff of_uvn of_uvn = ground arith
same_owner_iff of_uvn (of_cell j f) = ground arith
same_owner_iff of_uvn (of_particle j f) = ground arith
same_owner_iff (of_cell i e) of_uvn = ground arith
same_owner_iff (of_cell i e) (of_cell j f) = ground arith
same_owner_iff (of_cell i e) (of_particle j f) = ground arith
same_owner_iff (of_particle i e) of_uvn = ground arith
same_owner_iff (of_particle i e) (of_cell j f) = ground arith
same_owner_iff (of_particle i e) (of_particle j f) = ground arith

instance abbrev pub owner_key : Keyed Owner
owner_key = record { is_key = same_owner; is_key_iff = same_owner_iff }

-- `UvnPeer`. Of its volatile properties only whether one changed is kept, in `unsaved`.
pub record Peer : Type 0 where
  pub owner : Owner
  pub status : Tracked Status
  pub registry_id : Tracked (Option ℕ)
  pub routed_networks : Tracked (List Lan)
  pub known_networks : List LanStatus
  pub vpn_interfaces : List IntfStatus
  pub unsaved : Bool

-- `cell`, `particle` and `registry` of a peer, as conditions
abbrev pub is_cell : Peer → Bool
is_cell p = elim p.owner [ of_uvn ↦ false | of_cell i e ↦ true | of_particle i e ↦ false ]

abbrev pub is_particle : Peer → Bool
is_particle p = elim p.owner [ of_uvn ↦ false | of_cell i e ↦ false | of_particle i e ↦ true ]

abbrev pub is_registry : Peer → Bool
is_registry p = elim p.owner [ of_uvn ↦ true | of_cell i e ↦ false | of_particle i e ↦ false ]

abbrev pub is_excluded : Peer → Bool
is_excluded p = elim p.owner [ of_uvn ↦ false | of_cell i e ↦ e | of_particle i e ↦ e ]

-- The elements that pass a test, in order.
unfoldable pub select : {A : Type 0} → (A → Bool) → List A → List A
select test [] = []
select test (x ∷ xs) = let rest = select test xs in if test x then x ∷ rest else rest

-- `reachable_networks` and `unreachable_networks`
unfoldable pub reachable_networks : Peer → List LanStatus
unfolding select
reachable_networks p = select (λ n. n.reachable.value) p.known_networks

unfoldable pub unreachable_networks : Peer → List LanStatus
unfolding select
unreachable_networks p = select (λ n. not n.reachable.value) p.known_networks

-- Two sets, as lists, have the same elements.
abbrev pub covers : {K : Type 0} ⦃e : Keyed K⦄ → List K → List K → Bool
covers xs [] = true
covers xs (y ∷ ys) = mem xs y && covers xs ys

abbrev pub same_set : {K : Type 0} ⦃e : Keyed K⦄ → List K → List K → Bool
same_set xs ys = covers xs ys && covers ys xs

-- `UvnPeerListener.Event`, with the arguments of each
pub data Event : Type 0 where
  online_cells online_particles : List Owner → List Owner → Event
  all_cells_connected registry_connected : Event
  routed_networks : List (Owner × Lan) → List (Owner × Lan) → Event
  routed_networks_discovered : Event
  consistent_config_cells : List Owner → List Owner → Event
  consistent_config_uvn : Event
  local_reachable_networks reachable_lans : List (Owner × Lan) → List (Owner × Lan) → Event
  fully_routed_uvn : Event
  vpn_connections : List (Owner × ℕ) → List (Owner × ℕ) → Event

-- `UvnPeersList`; `calls` are the calls of listeners so far, in order.
pub record PeersList : Type 0 where
  pub uvn : Uvn
  pub local : Owner
  pub registry_id : ℕ
  pub peers : List Peer
  pub listeners : List ℕ
  pub calls : List (ℕ × Event)
  pub status_all_cells_connected : Bool
  pub status_consistent_config_uvn : Bool
  pub status_routed_networks_discovered : Bool
  pub status_fully_routed_uvn : Bool
  pub status_registry_connected : Bool
  pub unsaved : Bool

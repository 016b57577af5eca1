-- ===== src/Agent/Handlers.antt =====
-- uno/agent/agent.py: what an agent does with the messages of the middleware, and with the statistics
-- of its VPNs: each updates peers of the list. Names and handles are numbers.
pub mod Statuses
pub mod Heard
pub mod Left
use uno.Prelude.{
  ℕ, zero, suc, ◌+◌, ◌-◌, ◌*◌, ◌/◌, ◌%◌, ◌^◌, ◌≤◌, ◌<◌, max, min, ◌≡◌, refl, sym, ap, ◌∙◌, ◌≢◌, ◌↔◌,
  ◌⊎◌, inl, inr, Bool, true, false, not, ◌&&◌, ◌||◌, Option, none, some, List, [], ◌∷◌, ◌++◌, map,
  arith, ltb, leb, ◌==◌, if◌then◌else◌, ltb→lt, lt→ltb, leb→le, ==_iff, ==_refl, ==_comm,
  Bool-cases, Option-cases, length, get_elem?, take, drop, replicate, length-append,
  length-replicate, take-append-drop, All, range_from, Error, runtime_error, value_error,
  index_error, key_error, type_error, assertion_error, address_value_error, not_implemented_error,
  stop_iteration, missing_key_material, Result, ok, raise, Exec, pure, lift, and_then, ◌>>=◌,
  and_then-eq-ok,
}
use mathlib.Core.Option
use uno.Prelude.Dict.{Dict, get, mem, number_key}
use uno.Peers.{
  Lan, Owner, owner_key, Peer, PeersList, Status, same_status, same_owner, select, Stats,
}
use uno.Peers.Configuring.{Update, Given, same_id}
use uno.Peers.Queries.{find_owner}
use uno.Peers.Updating.{update_all, update_peer}

-- The properties of a peer that the list does not look at.
pub record Handles : Type 0 where
  pub instance_of : Option ℕ
  pub writer : Option ℕ
  pub ts_start : Option ℕ

-- The agent, with its peers.
pub record Listening : Type 0 where
  pub uvn_name : ℕ
  pub list : PeersList
  pub handles : Owner → Handles

pub data Topic : Type 0 where
  cell_topic uvn_topic backbone_topic : Topic

-- The samples that agents publish.
pub record CellInfo : Type 0 where
  pub uvn : ℕ
  pub cell : ℕ
  pub registry_id : ℕ
  pub routed_networks : List Lan
  pub known_networks : List (Lan × Bool)
  pub ts_start : ℕ

pub record UvnInfo : Type 0 where
  pub uvn : ℕ
  pub registry_id : ℕ

pub data Message : Type 0 where
  cell_info : CellInfo → Option ℕ → Option ℕ → Message
  uvn_info : UvnInfo → Option ℕ → Option ℕ → Message
  instance_offline : Topic → ℕ → Message
  writers_status : Topic → List ℕ → Message
  vpn_stats : Owner → List (ℕ × (Bool × Stats)) → Message

-- An argument of `configure` that is None changes nothing.
abbrev pub or_before : Option ℕ → Option ℕ → Option ℕ
or_before none before = before
or_before (some h) before = some h

abbrev pub no_update : Update
no_update = record {
  status = none;
  registry_id = Given.keep;
  routed_networks = none;
  known_networks = none;
  vpn_interfaces = none;
  others_change = false;
}

abbrev pub handles_after : Handles → Handles → Handles
handles_after given h = record {
  instance_of = or_before given.instance_of h.instance_of;
  writer = or_before given.writer h.writer;
  ts_start = or_before given.ts_start h.ts_start;
}

abbrev pub changed_handles : Owner → Handles → Listening → Bool
changed_handles owner given s =
    let h = s.handles owner in
    let h' = handles_after given h in
    not (
      same_id h.instance_of h'.instance_of
      && (same_id h.writer h'.writer && same_id h.ts_start h'.ts_start))

-- `update_peer`, with the handles among the fields
unfoldable pub update_with : Owner → Update → Handles → Listening → Listening
unfolding same_id update_peer
update_with owner u given s = record s {
  list = update_peer owner (record u { others_change = changed_handles owner given s }) s.list;
  handles = λ o. if same_owner owner o then handles_after given (s.handles owner) else s.handles o;
}

abbrev pub cell_update : CellInfo → Update
cell_update d = record no_update {
  status = some Status.online;
  registry_id = Given.give d.registry_id;
  routed_networks = some d.routed_networks;
  known_networks = some d.known_networks;
}

abbrev pub uvn_update : UvnInfo → Update
uvn_update d = record no_update {
  status = some Status.online;
  registry_id = Given.give d.registry_id;
}

abbrev pub given_handles : Option ℕ → Option ℕ → Option ℕ → Handles
given_handles i w ts = record { instance_of = i; writer = w; ts_start = ts }

unfoldable pub update_cell : Option ℕ → CellInfo → Option ℕ → Option ℕ → Listening → Listening
unfolding update_with
update_cell none d i w s = s
update_cell (some cell) d i w s =
    update_with (Owner.of_cell cell false) (cell_update d) (given_handles i w (some d.ts_start)) s

-- `_on_reader_data_cell_info`; the list has a peer for each cell of the UVN.
unfoldable pub on_cell_info : CellInfo → Option ℕ → Option ℕ → Listening → Listening
unfolding update_cell get
on_cell_info d instance_given writer_given s =
    if d.uvn == s.uvn_name
    then update_cell (Option.map (λ _. d.cell) (get s.list.uvn.cells d.cell)) d instance_given
        writer_given s
    else s

-- `_on_reader_data_uvn_info`
unfoldable pub on_uvn_info : UvnInfo → Option ℕ → Option ℕ → Listening → Listening
unfolding update_with
on_uvn_info d i w s =
    if d.uvn == s.uvn_name
    then update_with Owner.of_uvn (uvn_update d) (given_handles i w none) s
    else s

-- `next(p for p in self if p.instance == i)`
abbrev pub is_handle : ℕ → Option ℕ → Bool
is_handle i none = false
is_handle i (some j) = i == j

unfoldable pub find_instance : (Owner → Handles) → ℕ → List Peer → Option Owner
find_instance handles i [] = none
find_instance handles i (p ∷ ps) =
    if is_handle i (handles p.owner).instance_of then some p.owner else find_instance handles i ps

unfoldable pub gone_offline : Option Owner → Listening → Listening
unfolding update_peer
gone_offline none s = s
gone_offline (some owner) s = record s {
  list = update_peer owner (record no_update { status = some Status.offline }) s.list;
}

abbrev pub is_discovery : Topic → Bool
is_discovery cell_topic = true
is_discovery uvn_topic = true
is_discovery backbone_topic = false

-- `on_instance_offline`
unfoldable pub on_instance_offline : Topic → ℕ → Listening → Listening
unfolding gone_offline find_instance
on_instance_offline topic i s =
    if is_discovery topic then gone_offline (find_instance s.handles i s.list.peers) s else s

abbrev pub among : List ℕ → Option ℕ → Bool
among online_writers none = false
among online_writers (some w) = mem online_writers w

abbrev pub of_topic : Topic → Owner → Bool
of_topic cell_topic owner = true
of_topic uvn_topic owner = same_owner owner Owner.of_uvn
of_topic backbone_topic owner = false

-- The peers that are marked as active again: not those that were never seen.
unfoldable pub offline_peers : Topic → List ℕ → Listening → List Peer
unfolding select
offline_peers topic online_writers s =
    select
      (λ p.
        (of_topic topic p.owner && among online_writers (s.handles p.owner).writer)
        && same_status p.status.value Status.offline)
      s.list.peers

abbrev pub owners : List Peer → List Owner
owners = map (λ (p : Peer). p.owner)

abbrev pub is_none : List Peer → Bool
is_none [] = true
is_none (p ∷ ps) = false

-- `on_remote_writers_status`
unfoldable pub on_remote_writers_status : Topic → List ℕ → Listening → Listening
unfolding offline_peers update_all
on_remote_writers_status topic online_writers s =
    let back = offline_peers topic online_writers s in
    if is_none back then s else record s {
      list =
          update_all (mem (owners back)) (record no_update { status = some Status.online }) s.list;
    }

-- The status that `_update_peer_vpn_stats` gives a peer, by whether its first interface is online
-- and the status that it has.
unfoldable pub stats_status : Owner → Bool → Option Peer → Option Status
stats_status Owner.of_uvn online_now p = none
stats_status (Owner.of_cell i e) online_now p = none
stats_status (Owner.of_particle i e) true p = some Status.online
stats_status (Owner.of_particle i e) false none = none
stats_status (Owner.of_particle i e) false (some p) =
    if same_status p.status.value Status.offline then some Status.offline else none

abbrev pub stats_update : Owner → Bool → List (ℕ × (Bool × Stats)) → Listening → Update
stats_update owner online_now stats s = record no_update {
  status = stats_status owner online_now (find_owner owner s.list.peers);
  vpn_interfaces = some stats;
}

-- The loop of `_update_peer_vpn_stats`, for one peer; a peer without interfaces has no entry.
unfoldable pub on_vpn_stats : Owner → List (ℕ × (Bool × Stats)) → Listening → Listening
unfolding stats_status update_peer find_owner
on_vpn_stats owner [] s = s
on_vpn_stats owner ((intf, (online_now, stats)) ∷ rest) s =
    let u = stats_update owner online_now ((intf, (online_now, stats)) ∷ rest) s in
    record s { list = update_peer owner u s.list }

-- The handlers, by the message.
unfoldable pub handle : Message → Listening → Listening
unfolding on_cell_info on_uvn_info on_instance_offline on_remote_writers_status on_vpn_stats
handle (cell_info d i w) = on_cell_info d i w
handle (uvn_info d i w) = on_uvn_info d i w
handle (instance_offline topic i) = on_instance_offline topic i
handle (writers_status topic ws) = on_remote_writers_status topic ws
handle (vpn_stats owner stats) = on_vpn_stats owner stats

unfoldable pub handle_all : List Message → Listening → Listening
unfolding handle
handle_all [] s = s
handle_all (m ∷ ms) s = handle_all ms (handle m s)

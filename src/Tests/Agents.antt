-- ===== src/Tests/Agents.antt =====
-- The list of peers of an agent (uno/agent/uvn_peers_list.py) at concrete inputs: the agent of the
-- first of two cells.
use uno.Prelude.{◌≡◌, refl, ◌≢◌, true, false, none, some, [], ◌∷◌, All}
use uno.Peers.{Status, Lan, Owner, Peer, PeersList, Event, is_cell}
use uno.Peers.Configuring.{Update, Given, configure}
use uno.Peers.Queries.{local_peer, online_cells, online_peer}
use uno.Peers.Updating.{configure_where, update_all, update_peer, online, offline, offline_peer}
use uno.Peers.Accurate.{IsAccurate, update_all-IsAccurate}
use uno.Peers.Gone.{IsGone}
use uno.Peers.Leaving.{offline_lem}
use uno.Tests.Configs.{two_cells}

abbrev pub unseen : Owner → Peer
unseen owner = record {
  owner = owner;
  status = record { value = Status.declared; prev = none };
  registry_id = record { value = none; prev = none };
  routed_networks = record { value = []; prev = none };
  known_networks = [];
  vpn_interfaces = [];
  unsaved = false;
}

abbrev pub cell_1 : Owner
cell_1 = Owner.of_cell 1 false

abbrev pub cell_2 : Owner
cell_2 = Owner.of_cell 2 false

abbrev pub initial : PeersList
initial = record {
  uvn = two_cells;
  local = cell_1;
  registry_id = 99;
  peers = unseen Owner.of_uvn ∷ unseen cell_1 ∷ unseen cell_2 ∷ [];
  listeners = 5 ∷ [];
  calls = [];
  status_all_cells_connected = false;
  status_consistent_config_uvn = false;
  status_routed_networks_discovered = false;
  status_fully_routed_uvn = false;
  status_registry_connected = false;
  unsaved = false;
}

abbrev lan : Lan
lan = record {
  address = 0xa000001;
  subnet = record { address = 0xa000000; prefixlen = 16 };
  gw = 0xa000002;
}

abbrev of_cell_info : Update
of_cell_info = record {
  status = some Status.online;
  registry_id = Given.give 99;
  routed_networks = some (lan ∷ []);
  known_networks = some ((lan, true) ∷ []);
  vpn_interfaces = none;
  others_change = true;
}

abbrev with_local : PeersList
with_local = online of_cell_info initial

abbrev with_both : PeersList
with_both = update_peer cell_2 of_cell_info with_local

all_are_connected : with_both.status_all_cells_connected ≡ true
unfolding online update_peer
all_are_connected = refl

first_calls :
    with_local.calls
    ≡ (5, Event.online_cells (cell_1 ∷ []) [])
      ∷ (5, Event.routed_networks ((cell_1, lan) ∷ []) [])
      ∷ (5, Event.consistent_config_cells (cell_1 ∷ []) [])
      ∷ (5, Event.local_reachable_networks ((cell_1, lan) ∷ []) [])
      ∷ []
unfolding online
first_calls = refl

initial-IsAccurate : IsAccurate initial
unfolding online_cells
initial-IsAccurate = record {
  clean = (
    record {
      status = refl;
      registry_id = refl;
      routed_networks = refl;
      lans = tt;
      intfs = tt;
      saved = refl;
    },
    (
      record {
        status = refl;
        registry_id = refl;
        routed_networks = refl;
        lans = tt;
        intfs = tt;
        saved = refl;
      },
      (
        record {
          status = refl;
          registry_id = refl;
          routed_networks = refl;
          lans = tt;
          intfs = tt;
          saved = refl;
        },
        tt,
      ),
    ),
  );
  saved = refl;
  connected = refl;
}

given_online : of_cell_info.status ≢ some Status.declared
given_online e = cc

update_all-IsAccurate_example : IsAccurate (update_all (λ o. true) of_cell_info initial)
update_all-IsAccurate_example =
    update_all-IsAccurate (λ o. true) of_cell_info initial given_online initial-IsAccurate

local_is_declared : local_peer initial ≡ some (unseen cell_1)
unfolding local_peer
local_is_declared = refl

still_here : offline_peer (some (unseen cell_1)) ≡ false
unfolding offline_peer
still_here = refl

offline_lem_example :
    let l' = offline initial in
    (l'.calls ≡ [])
    × All IsGone l'.peers
    × (l'.status_all_cells_connected ≡ false)
    × (l'.status_consistent_config_uvn ≡ false)
    × (l'.status_fully_routed_uvn ≡ false)
offline_lem_example =
    offline_lem initial (unseen cell_1) initial-IsAccurate local_is_declared still_here

configure-is_cell : (p : Peer) → is_cell (configure of_cell_info p) ≡ is_cell p
unfolding configure
configure-is_cell p = refl

stays_declared :
    online_peer (
      local_peer
        (record initial { peers = configure_where (λ o. false) of_cell_info initial.peers }))
    ≡ false
unfolding local_peer online_peer configure_where
stays_declared = refl

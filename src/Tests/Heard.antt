-- ===== src/Tests/Heard.antt =====
-- Messages to an agent (uno/agent/agent.py) at concrete inputs: the agent of the first of two cells,
-- with one particle.
use uno.Prelude.{ℕ, ◌≡◌, refl, ◌≢◌, true, false, none, some, List, [], ◌∷◌, ◌++◌}
use uno.Peers.{Owner, Status, Stats}
use uno.Agent.Handlers.{
  Handles, Listening, Message, CellInfo, Topic, cell_info, instance_offline, writers_status,
  vpn_stats, handle_all,
}
use uno.Agent.Handlers.Statuses.{status_of}
use uno.Agent.Handlers.Heard.{handle_all-unheard, handle_all-particle}
use uno.Tests.Agents.{initial, cell_1, cell_2, unseen}

abbrev particle : Owner
particle = Owner.of_particle 4 false

abbrev no_handles : Handles
no_handles = record { instance_of = none; writer = none; ts_start = none }

abbrev listening : Listening
listening = record {
  uvn_name = 7;
  list = record initial { peers = initial.peers ++ unseen particle ∷ [] };
  handles = λ o. no_handles;
}

abbrev info : ℕ → ℕ → CellInfo
info uvn cell = record {
  uvn = uvn;
  cell = cell;
  registry_id = 99;
  routed_networks = [];
  known_networks = [];
  ts_start = 1;
}

abbrev stats : Stats
stats = record { last_handshake = 0; recv = 0; send = 0; endpoint = (none, none); allowed_ips = [] }

-- The first cell is heard and goes; the second is not, but one of the same number of another UVN.
abbrev messages : List Message
messages =
    cell_info (info 7 1) (some 20) (some 21)
    ∷ cell_info (info 8 2) (some 30) (some 31)
    ∷ writers_status Topic.cell_topic (21 ∷ [])
    ∷ instance_offline Topic.cell_topic 20
    ∷ []

first_is_offline : status_of cell_1 (handle_all messages listening).list ≡ some Status.offline
unfolding handle_all status_of
first_is_offline = refl

handle_all-unheard_example :
    status_of cell_2 (handle_all messages listening).list ≡ status_of cell_2 listening.list
handle_all-unheard_example =
    handle_all-unheard cell_2 messages listening refl (refl, refl)
      (refl, (refl, (refl, (refl, tt))))

-- The particle connects, and then does not any more.
abbrev particle_messages : List Message
particle_messages =
    vpn_stats particle ((3, (true, stats)) ∷ [])
    ∷ vpn_stats particle ((3, (false, stats)) ∷ [])
    ∷ []

particle_stays_online :
    status_of particle (handle_all particle_messages listening).list ≡ some Status.online
unfolding handle_all status_of
particle_stays_online = refl

not_offline_yet : status_of particle listening.list ≢ some Status.offline
unfolding status_of
not_offline_yet h = cc

handle_all-particle_example :
    status_of particle (handle_all particle_messages listening).list ≢ some Status.offline
handle_all-particle_example =
    handle_all-particle 4 false particle_messages listening (refl, refl) not_offline_yet

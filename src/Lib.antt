-- ===== src/Lib.antt =====
-- uno builds and runs virtual private networks ("UVNs") that join the networks of several cells.
-- A registry keeps the cells, decides how they are connected, and hands each an agent package; the
-- agents keep the links up. This library models the parts that decide and account, in Python's own
-- steps, and proves what makes them correct.
--
-- Parts, and the files that model them (paths are those of the repository):
--
-- - uno/core/paired_map.py, values for unordered pairs of peers: PairedMap. The methods of
--   `PairedValuesMap` keep their names; `generate_val`, which a subclass supplies, is an argument,
--   and the fields of the subclass are part of the state. The proofs are in PairedMap/.
-- - uno/core/ip.py, the functions that compute on IPv4 addresses: Ip. Addresses are numbers below
--   2 ^ 32, and the classes of Python's `ipaddress` are modelled as far as the program uses them.
-- - uno/registry/deployment.py, addresses for the links of the backbone: Links.
--   `P2pLinkAllocationMap` is a paired map with a pool of addresses; the links map is a dictionary.
-- - uno/registry/deployment_strategy/, how the peers are connected: Strategy, with `deploy`, and
--   below it Static, Ring and Crossed (the crossed strategy and its circular subclass), FullMesh,
--   and Random with its Growing of spanning trees. `deploy` threads the map of links through the
--   comprehensions of the source.
-- - uno/registry/vpn_keymat.py, the keys of the links of a VPN: VpnKeys, with `assert_pair`,
--   `get_pair_material` and `get_peer_material` of `P2pVpnKeyMaterial`. Its two maps are paired maps
--   whose fields hold the state of the program `wg` and of the database; generating a key and
--   saving it, under its identifier, is an argument, which may raise.
--   VpnKeys/Dropping has `save`, `_drop_pair`, `purge_peer` and `drop_keys` of `VpnKeysMap`, with the
--   keys that are saved in the database and deleted from it as lists.
--   Central has `assert_keys` and `get_peer_material` of `CentralizedVpnKeyMaterial`, under the
--   name `get_central_material`.
-- - uno/registry/uvn.py and cell.py, the cells of a UVN: Uvn, with `detect_network_clashes`,
--   `validate_cell`, `_validate` (`validate_uvn`), `deployment_peers` and `agent_ports`. Uvn/Validity
--   compares the scan for clashes with the overlap of networks, pair by pair.
-- - uno/registry/vpn_config.py, the WireGuard interfaces: VpnConfig has `root_config` and `peer_config`
--   (`central_peer_config`) of `CentralizedVpnConfig`, VpnConfig/P2p has `peer_config`
--   (`p2p_peer_config`) of `P2pVpnConfig`, which asserts key material on its way. The fields are those
--   of the classes of uno/core/wg.py. VpnConfig/Vpns has the VPNs of a registry (`UvnVpnConfig`), from the
--   cells and the settings of its UVN.
-- - uno/agent/uvn_peer.py and uvn_peers_list.py, what an agent knows of its peers: Peers has the peers,
--   the list and its events; Peers/Configuring has `configure` of a peer, which notes the values
--   before its changes; Peers/Queries the properties of the list; Peers/Processing the steps of
--   `_process_updates`, one function for each, and Peers/Updating their composition (`process_updates`)
--   with `update_all`, `online` and `offline`. The calls of listeners are a list in the state. The
--   database is modelled as far as saving clears what was noted of changes
--   (uno/registry/versioned.py, `PropertyDescriptor`, and uno/registry/database.py, `_save_all`).
-- - uno/agent/agent_service.py, runnable.py, agent_static_service.py and systemd_service.py, the services
--   of an agent, and `start_static_services` and `stop_static_services` of uno/agent/agent.py: Services.
--   The file of the marker of a unit is a field of the state; what the classes of services do in
--   `_start`, `_stop` and `_take_over_static` is an argument (`Hooks`).
-- - uno/agent/agent.py, the loop of an agent (`_spin`) and the exit conditions of
--   `spin_until_consistent`: Agent, with the decorator `max_rate` of uno/registry/versioned.py. The
--   handlers, the exit condition and the services are arguments (`Steps`), and so are the readings of
--   the clock. Agent/Handlers has the handlers of samples, of instances that end and of writers that are
--   online, and the loop of `_update_peer_vpn_stats`, over the list of Peers; the handles of the
--   middleware stand beside it.
-- - uno/core/wg.py, an interface of WireGuard: WireGuard has `create`, `bring_up`, `tear_down`, `delete`,
--   `start` and `stop` over the commands that they run, and `allow_ips_for_peer` and
--   `disallow_ips_for_peer` (`request_ips`). The commands are arguments.
-- - uno/registry/registry.py, the bans of users, cells and particles: Registry, with `ban`. The answers of
--   the user are an argument.
-- - uno/core/time.py, the class `Timer`: Timer, whose `wait` asks a condition until the period is over.
--   The condition, the clock and `time.sleep` are arguments.
-- - Prelude holds what they share: tests on numbers, lists, sets and dictionaries of Python, and
--   exceptions. A method that changes an object returns its result or the exception together with
--   the new state, so that what was changed before an exception stays changed.
-- - Tests runs the definitions, and the theorems, at small inputs.
--
-- Choices of the model. A set is a list with no element twice; where the source iterates over a set
-- or shuffles a list, the order is an argument (`Choices`), and nothing is assumed of it. The numbers
-- that `random` draws are arguments too. Loops are recursions on the list that they run over. The
-- loop that grows a spanning tree has as many rounds as there are peers, since each round visits
-- one more. The loop of an agent takes fuel, one for each
-- round, of which there are as many as the clock allows; the wait of a timer takes one for each test
-- of its condition, and as many delays as make up its period, and one more, are enough. `generate_edges` counts its tries, as the source
-- does. Messages of exceptions and the log are left out.
--
-- Not modelled: everything that runs commands, threads, databases, cryptography, the DDS middleware,
-- templates and the command line; of the parts above, the conversion of data to and from text; of the
-- keys, their loading and the dropping of those of a VPN with a root; and, of the registry, all but
-- its bans.
pub mod Prelude
pub mod PairedMap
pub mod Ip
pub mod Links
pub mod Strategy
pub mod VpnKeys
pub mod Central
pub mod Uvn
pub mod VpnConfig
pub mod Tests
pub mod Timer
pub mod Registry
pub mod Peers
pub mod Services
pub mod Agent
pub mod WireGuard

-- ===== src/Tests/Configs.antt =====
-- The checks of the cells of a UVN (uno/registry/uvn.py) and the configurations of its VPNs
-- (uno/registry/vpn_config.py) at concrete inputs.
use uno.Prelude.{
  ◌⊎◌, Among, ℕ, ◌≡◌, refl, ◌↔◌, true, false, none, some, List, [], ◌∷◌, clashing_networks_error,
  Result, ok, raise,
}
use uno.Ip.{Network}
use uno.VpnConfig.{Endpoint}
use uno.VpnConfig.Vpns.{root_vpn_config}
use uno.VpnConfig.Vpns.Reached.{AllCells, IsAddress, root_vpn_config-reached}
use uno.Uvn.{
  validate_uvn, all_cells, is_set, is_private, Cell, Uvn, is_empty, detect_network_clashes,
  validate_cell,
}
use uno.Uvn.Clashes.{overlap_free}
use uno.Uvn.Validity.{expected_verdict, detect_network_clashes_iff, validate_cell_lem}
use uno.VpnKeys.{Material}
use uno.VpnConfig.{
  VpnSettings, CentralConfig, WireGuardConfig, PeerConfig, root_config, central_peer_config,
}
use uno.Central.{Central, assert_keys}
use uno.VpnConfig.Rooted.{Fits, Dials, root_config-central_peer_config}
use uno.VpnConfig.P2p.{P2pConfig, p2p_peer_config, configure_peers}
use uno.VpnConfig.P2p.Paired.{Describes, p2p_peer_config-p2p_peer_config}
use uno.Strategy.{deploy}
use uno.Strategy.Static.{generate_static}
use uno.Links.Apart.{fresh_map}
use uno.Tests.Addresses.{backbone}
use uno.Tests.Strategies.{static, run, links_of, there, run_returns, has_there}
use uno.Tests.Keys.{genkeypair, genkeypair_named, genkeypreshared, empty_material, central}

abbrev wide : Network
wide = record { address = 0xa000000; prefixlen = 16 }

abbrev narrow : Network
narrow = record { address = 0xa000300; prefixlen = 24 }

abbrev apart : Network
apart = record { address = 0xa010000; prefixlen = 16 }

abbrev first_cell : Cell
first_cell = record {
  id = 1;
  address = some "cell1";
  allowed_lans = wide ∷ [];
  particles_enabled = true;
}

abbrev second_cell : Cell
second_cell = record {
  id = 2;
  address = none;
  allowed_lans = narrow ∷ apart ∷ [];
  particles_enabled = true;
}

abbrev pub two_cells : Uvn
two_cells = record {
  address = some "registry";
  cells = (1, first_cell) ∷ (2, second_cell) ∷ [];
  excluded_cells = [];
  particles = 1 ∷ [];
  enable_root_vpn = true;
  enable_particles_vpn = true;
  root_peer_port = none;
  particles_port = 63447;
  backbone_port = 63448;
}

clash_is_found : validate_cell two_cells second_cell ≡ raise clashing_networks_error
unfolding validate_cell
clash_is_found = refl

detect_network_clashes_iff_example :
    (is_empty (detect_network_clashes ((1, wide ∷ []) ∷ []) (apart ∷ narrow ∷ [])) ≡ true)
    ↔ (overlap_free ((1, wide ∷ []) ∷ []) (apart ∷ narrow ∷ []) ≡ true)
detect_network_clashes_iff_example =
    detect_network_clashes_iff ((1, wide ∷ []) ∷ []) apart (narrow ∷ []) (refl, (refl, tt))

validate_cell_lem_example :
    validate_cell two_cells second_cell ≡ expected_verdict two_cells second_cell
validate_cell_lem_example = validate_cell_lem two_cells second_cell (refl, (refl, tt))

abbrev settings : VpnSettings
settings = record {
  port = 63447;
  peer_port = none;
  subnet = record { address = 0xa800000; prefixlen = 16 };
  interface = "uwg-b{}";
  allowed_ips = [];
  peer_mtu = some 1320;
  masquerade = false;
  forward = true;
  tunnel = false;
  keepalive = some 25;
}

abbrev rooted : CentralConfig
rooted = record {
  settings = settings;
  peer_ids = 4 ∷ 7 ∷ [];
  root_endpoint = some "registry";
  peer_endpoints = (4, some "cell4") ∷ (7, none) ∷ [];
}

abbrev with_keys : Central ℕ
with_keys = (assert_keys genkeypair_named genkeypreshared central).1

abbrev config_of : Result WireGuardConfig → WireGuardConfig → WireGuardConfig
config_of (ok x) y = x
config_of (raise e) y = y

abbrev blank : WireGuardConfig
blank = record {
  intf = record {
    name = ("", 0);
    privkey = "";
    address = 0;
    netmask = 0;
    port = none;
    endpoint = none;
    mtu = none;
  };
  peers = [];
  masquerade = false;
  forward = false;
  tunnel = false;
  tunnel_root = false;
}

abbrev root : WireGuardConfig
root = config_of (root_config rooted with_keys) blank

abbrev peer_7 : WireGuardConfig
peer_7 = config_of (central_peer_config rooted with_keys 7) blank

root_made : root_config rooted with_keys ≡ ok root
unfolding root_config assert_keys
root_made = refl

peer_7_made : central_peer_config rooted with_keys 7 ≡ ok peer_7
unfolding central_peer_config assert_keys
peer_7_made = refl

root_config-central_peer_config_example :
    (e : PeerConfig) × (f : PeerConfig) × Among e root.peers
    × (peer_7.peers ≡ f ∷ [])
    × Fits e peer_7.intf
    × Fits f root.intf
    × (e.psk ≡ f.psk)
    × Dials rooted 7 root.intf e peer_7.intf f
root_config-central_peer_config_example =
    root_config-central_peer_config rooted with_keys 7 root peer_7 refl root_made peer_7_made

abbrev paired : P2pConfig
paired = record {
  settings = settings;
  deployment = links_of run.0;
  peer_ids = 1 ∷ 2 ∷ 3 ∷ [];
  peer_endpoints = (1, some "cell1") ∷ (2, some "cell2") ∷ (3, none) ∷ [];
}

abbrev Made : Type 0
Made = Result (List WireGuardConfig) × Material ℕ

abbrev configs_in : Result (List WireGuardConfig) → List WireGuardConfig
configs_in (ok xs) = xs
configs_in (raise e) = []

abbrev of_1 : Made
of_1 = p2p_peer_config genkeypair genkeypreshared paired 1 (empty_material false)

abbrev of_3 : Material ℕ
of_3 = (configure_peers genkeypair genkeypreshared paired (3 ∷ []) of_1.1).1

abbrev of_2 : Made
of_2 = p2p_peer_config genkeypair genkeypreshared paired 2 of_3

of_1_made : of_1 ≡ (ok (configs_in of_1.0), of_1.1)
unfolding p2p_peer_config deploy generate_static
of_1_made = refl

of_2_made : of_2 ≡ (ok (configs_in of_2.0), of_2.1)
unfolding p2p_peer_config configure_peers deploy generate_static
of_2_made = refl

p2p_peer_config-p2p_peer_config_example :
    (x : WireGuardConfig) × (y : WireGuardConfig) × (e : PeerConfig) × (f : PeerConfig) × Among x
      (configs_in of_1.0)
    × Among y (configs_in of_2.0)
    × (x.peers ≡ e ∷ [])
    × (y.peers ≡ f ∷ [])
    × (◌≡◌ {A = ℕ} e.id 2)
    × (◌≡◌ {A = ℕ} f.id 1)
    × Describes e y.intf
    × Describes f x.intf
    × (e.psk ≡ f.psk)
p2p_peer_config-p2p_peer_config_example =
    p2p_peer_config-p2p_peer_config genkeypair genkeypreshared paired static (1 ∷ 2 ∷ 3 ∷ [])
      (3 ∷ []) (fresh_map backbone) run.1 run_returns 1 2 there (3 ∷ []) (empty_material false)
      of_1.1 of_2.1 (configs_in of_1.0) (configs_in of_2.0) has_there of_1_made of_2_made

abbrev fourth : Cell
fourth = record {
  id = 4;
  address = some "cell4";
  allowed_lans = wide ∷ [];
  particles_enabled = true;
}

abbrev seventh : Cell
seventh = record { id = 7; address = none; allowed_lans = apart ∷ []; particles_enabled = true }

abbrev valid_uvn : Uvn
valid_uvn = record two_cells { cells = (7, seventh) ∷ (4, fourth) ∷ [] }

is_valid : validate_uvn valid_uvn ≡ ok tt
unfolding validate_uvn
is_valid = refl

has_root_vpn : root_vpn_config valid_uvn settings ≡ some rooted
unfolding root_vpn_config
has_root_vpn = refl

all_addresses : AllCells (λ z. IsAddress z.address) (all_cells valid_uvn)
unfolding all_cells is_set is_private
all_addresses = (refl, (refl, tt))

root_vpn_config-reached_example :
    (e : PeerConfig) × (f : PeerConfig) × (x : Endpoint) × Among e root.peers
    × (peer_7.peers ≡ f ∷ [])
    × Fits e peer_7.intf
    × Fits f root.intf
    × (e.psk ≡ f.psk)
    × (((e.endpoint ≡ some x) × (peer_7.intf.port ≡ some x.port))
        ⊎ ((f.endpoint ≡ some x) × (root.intf.port ≡ some x.port)))
root_vpn_config-reached_example =
    root_vpn_config-reached valid_uvn settings rooted with_keys 7 root peer_7 all_addresses is_valid
      has_root_vpn refl root_made peer_7_made

-- ===== src/VpnConfig.antt =====
-- uno/registry/vpn_config.py: the WireGuard interfaces of the VPNs, from settings, keys and the
-- links of a deployment. Of `WireGuardConfig` (uno/core/wg.py) the time of generation is left out,
-- and the order of the allowed addresses, which a constructor sorts.
pub mod Entries
pub mod Rooted
pub mod P2p
pub mod Vpns
use uno.Prelude.{
  ℕ, zero, suc, ◌+◌, ◌-◌, ◌*◌, ◌/◌, ◌%◌, ◌^◌, ◌≤◌, ◌<◌, max, min, ◌≡◌, refl, sym, ap, ◌∙◌, ◌≢◌, ◌↔◌,
  ◌⊎◌, inl, inr, Bool, true, false, not, ◌&&◌, ◌||◌, Option, none, some, List, [], ◌∷◌, ◌++◌, map,
  arith, ltb, leb, ◌==◌, if◌then◌else◌, ltb→lt, lt→ltb, leb→le, ==_iff, ==_refl, ==_comm,
  Bool-cases, Option-cases, length, get_elem?, take, drop, replicate, length-append,
  length-replicate, take-append-drop, All, range_from, Error, runtime_error, value_error,
  index_error, key_error, type_error, assertion_error, address_value_error, not_implemented_error,
  stop_iteration, missing_key_material, clashing_networks_error, attribute_error, Result, ok, raise,
  Exec, pure, lift, and_then,
}
use Prim.Native.String.{String}
use uno.Prelude.Fallible.{◌>>=◌}
use uno.Prelude.Dict.{Dict, get, number_key}
use uno.Ip.{Network, hosts, add_address, ipv4_netmask_to_cidr}
use uno.PairedMap.{pick}
use uno.Links.{LinksMap, Port, PeerLinks}
use uno.VpnKeys.{KeyPair, Psk, Material, p2p_assert_pair}
use uno.Central.{
  KeyName, Central, NamedKey, Item, of_key, of_psk, get_central_material, assert_keys,
}
use uno.Uvn.{is_set}

-- `f"{host}:{port}"`
pub record Endpoint : Type 0 where
  pub host : String
  pub port : ℕ

-- What is allowed on an interface: one address, or a network.
pub data Allowed : Type 0 where
  address : ℕ → Allowed
  network : Network → Allowed

-- `WireGuardInterfaceConfig`; the name is a template and the number that it is filled with.
pub record InterfaceConfig : Type 0 where
  pub name : String × ℕ
  pub privkey : String
  pub address : ℕ
  pub netmask : ℕ
  pub port : Option ℕ
  pub endpoint : Option Endpoint
  pub mtu : Option ℕ

-- `WireGuardInterfacePeerConfig`
pub record PeerConfig : Type 0 where
  pub id : ℕ
  pub pubkey : String
  pub psk : String
  pub address : ℕ
  pub allowed : List Allowed
  pub endpoint : Option Endpoint
  pub keepalive : Option ℕ

-- `WireGuardConfig`
pub record WireGuardConfig : Type 0 where
  pub intf : InterfaceConfig
  pub peers : List PeerConfig
  pub masquerade : Bool
  pub forward : Bool
  pub tunnel : Bool
  pub tunnel_root : Bool

-- `VpnSettings` (uno/registry/vpn_settings.py)
pub record VpnSettings : Type 0 where
  pub port : ℕ
  pub peer_port : Option ℕ
  pub subnet : Network
  pub interface : String
  pub allowed_ips : List Network
  pub peer_mtu : Option ℕ
  pub masquerade : Bool
  pub forward : Bool
  pub tunnel : Bool
  pub keepalive : Option ℕ

-- `ipv4_netmask_to_cidr(net.netmask)`
unfoldable pub cidr_of : Network → Result ℕ
unfolding ipv4_netmask_to_cidr
cidr_of net = ipv4_netmask_to_cidr (2 ^ 32 - hosts net.prefixlen)

-- `CentralizedVpnConfig`, without its key material
pub record CentralConfig : Type 0 where
  pub settings : VpnSettings
  pub peer_ids : List ℕ
  pub root_endpoint : Option String
  pub peer_endpoints : Dict ℕ (Option String)

-- `root_ip`
unfoldable pub root_ip : CentralConfig → Result ℕ
unfolding add_address
root_ip c = add_address c.settings.subnet.address 1

-- `peer_ip`
unfoldable pub peer_ip : CentralConfig → ℕ → Result ℕ
unfolding root_ip add_address
peer_ip c peer = root_ip c >>= λ ip. add_address ip peer

positive : ℕ → Option ℕ → ℕ
positive port none = port
positive port (some zero) = port
positive port (some (suc p)) = suc p

-- `peer_port`
unfoldable pub peer_port : CentralConfig → ℕ
unfolding positive
peer_port c = positive c.settings.port c.settings.peer_port

flatten : Option (Option String) → Option String
flatten none = none
flatten (some a) = a

-- `self.peer_endpoints.get(peer)`
unfoldable pub endpoint_of : CentralConfig → ℕ → Option String
unfolding get flatten
endpoint_of c peer = flatten (get c.peer_endpoints peer)

-- `None if host is None else f"{host}:{port}"`
unfoldable pub unless_none : Option String → ℕ → Option Endpoint
unless_none none port = none
unless_none (some host) port = some (record { host = host; port = port })

-- `f"{host}:{port}" if host else None`
unfoldable pub if_set : Option String → ℕ → Option Endpoint
unfolding is_set unless_none
if_set host port = if is_set host then unless_none host port else none

-- `for key, psk in [material]`: a list of another length is a ValueError, and a key of the other
-- kind lacks the attribute that is read.
unfoldable pub unpack : List Item → Result (NamedKey × Psk)
unpack (of_key k ∷ of_psk p ∷ []) = ok (k, p)
unpack (x ∷ y ∷ []) = raise attribute_error
unpack items = raise value_error

-- `self.keymat.root_key`, where an attribute of it is read
unfoldable pub root_key_of : {W : Type 0} → Central W → Result NamedKey
root_key_of m = elim m.root_key [ none ↦ raise attribute_error | some k ↦ ok k ]

-- A round of the comprehension of `root_config`.
unfoldable pub root_peer : {W : Type 0} → CentralConfig → Central W → ℕ → Result PeerConfig
unfolding get_central_material unpack peer_ip endpoint_of unless_none is_set peer_port
root_peer c m peer_id = do
  items ← get_central_material peer_id true m
  material ← unpack items
  ip ← peer_ip c peer_id
  ok (record {
    id = peer_id;
    pubkey = material.0.public;
    psk = material.1.value;
    address = ip;
    allowed = Allowed.address ip ∷ [];
    endpoint = unless_none (endpoint_of c peer_id) (peer_port c);
    keepalive = if is_set (endpoint_of c peer_id) then c.settings.keepalive else none;
  })

unfoldable pub root_peers :
    {W : Type 0} → CentralConfig → Central W → List ℕ → Result (List PeerConfig)
unfolding root_peer
root_peers c m [] = ok []
root_peers c m (p ∷ ps) = do here ← root_peer c m p; later ← root_peers c m ps; ok (here ∷ later)

-- `root_config`
unfoldable pub root_config : {W : Type 0} → CentralConfig → Central W → Result WireGuardConfig
unfolding root_key_of root_ip cidr_of unless_none root_peers
root_config c m = do
  key ← root_key_of m
  ip ← root_ip c
  netmask ← cidr_of c.settings.subnet
  peers ← root_peers c m c.peer_ids
  ok (record {
    intf = record {
      name = (c.settings.interface, 1);
      privkey = key.private;
      address = ip;
      netmask = netmask;
      port = elim c.root_endpoint [ none ↦ none | some h ↦ some c.settings.port ];
      endpoint = unless_none c.root_endpoint c.settings.port;
      mtu = c.settings.peer_mtu;
    };
    peers = peers;
    masquerade = c.settings.masquerade;
    forward = c.settings.forward;
    tunnel = c.settings.tunnel;
    tunnel_root = true;
  })

-- `peer_config` of `CentralizedVpnConfig`
unfoldable pub central_peer_config :
    {W : Type 0} → CentralConfig → Central W → ℕ → Result WireGuardConfig
unfolding get_central_material unpack peer_ip cidr_of root_key_of root_ip endpoint_of is_set if_set
    unless_none peer_port
central_peer_config c m peer = do
  items ← get_central_material peer true m
  material ← unpack items
  ip ← peer_ip c peer
  netmask ← cidr_of c.settings.subnet
  key ← root_key_of m
  server_ip ← root_ip c
  ok (record {
    intf = record {
      name = (c.settings.interface, 0);
      privkey = material.0.private;
      address = ip;
      netmask = netmask;
      port = if is_set (endpoint_of c peer) then some (peer_port c) else none;
      endpoint = if_set (endpoint_of c peer) (peer_port c);
      mtu = c.settings.peer_mtu;
    };
    peers =
        record {
          id = 0;
          pubkey = key.public;
          psk = material.1.value;
          address = server_ip;
          allowed = Allowed.address server_ip ∷ [];
          endpoint =
              if is_set (endpoint_of c peer)
              then none
              else unless_none c.root_endpoint c.settings.port;
          keepalive = if is_set (endpoint_of c peer) then none else c.settings.keepalive;
        }
        ∷ [];
    masquerade = c.settings.masquerade;
    forward = c.settings.forward;
    tunnel = c.settings.tunnel;
    tunnel_root = false;
  })

all_peer_configs : {W : Type 0} → CentralConfig → Central W → List ℕ → Result (List WireGuardConfig)
unfolding central_peer_config
all_peer_configs c m [] = ok []
all_peer_configs c m (p ∷ ps) = do
  here ← central_peer_config c m p
  later ← all_peer_configs c m ps
  ok (here ∷ later)

configs_of : {W : Type 0} → CentralConfig → Central W → Result (List WireGuardConfig)
unfolding root_config all_peer_configs
configs_of c m = do
  root ← root_config c m
  peers ← all_peer_configs c m c.peer_ids
  ok (root ∷ peers)

-- `assert_keys` of `CentralizedVpnConfig`, which makes the keys and then each of the configurations
unfoldable pub assert_configs :
    {W : Type 0}
    → (KeyName → Exec W (String × String))
    → (ℕ × ℕ → Exec W String)
    → CentralConfig
    → Exec (Central W) (List WireGuardConfig)
unfolding assert_keys configs_of
assert_configs genkeypair genkeypreshared c m =
    let (r, m') = assert_keys genkeypair genkeypreshared m in
    and_then r (λ _ s. (configs_of c s, s)) m'

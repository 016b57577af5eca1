-- ===== src/VpnConfig/P2p.antt =====
-- uno/registry/vpn_config.py: the interfaces of the links between peers, one for each port of a
-- peer in the deployment (`P2pVpnConfig`). The key material is the state.
pub mod Making
pub mod Paired
use uno.Prelude.{
  ℕ, zero, suc, ◌+◌, ◌-◌, ◌*◌, ◌/◌, ◌%◌, ◌^◌, ◌≤◌, ◌<◌, max, min, ◌≡◌, refl, sym, ap, ◌∙◌, ◌≢◌, ◌↔◌,
  ◌⊎◌, inl, inr, Bool, true, false, not, ◌&&◌, ◌||◌, Option, none, some, List, [], ◌∷◌, ◌++◌, map,
  arith, ltb, leb, ◌==◌, if◌then◌else◌, ltb→lt, lt→ltb, leb→le, ==_iff, ==_refl, ==_comm,
  Bool-cases, Option-cases, length, get_elem?, take, drop, replicate, length-append,
  length-replicate, take-append-drop, All, range_from, Error, runtime_error, value_error,
  index_error, key_error, type_error, assertion_error, address_value_error, not_implemented_error,
  stop_iteration, missing_key_material, clashing_networks_error, attribute_error, Result, ok, raise,
  Exec, pure, lift, and_then, ◌>>=◌, and_then-eq-ok,
}
use Prim.Native.String.{String}
use uno.Prelude.Dict.{Dict, get, number_key}
use uno.PairedMap.{pick, or_key_error}
use uno.Links.{LinksMap, Port, PeerLinks}
use uno.VpnKeys.{KeyPair, Psk, Material, p2p_assert_pair}
use uno.Uvn.{is_set}
use uno.VpnConfig.{
  Endpoint, Allowed, InterfaceConfig, PeerConfig, WireGuardConfig, VpnSettings, cidr_of, if_set,
}

-- `P2pVpnConfig`, without its key material
pub record P2pConfig : Type 0 where
  pub settings : VpnSettings
  pub deployment : LinksMap
  pub peer_ids : List ℕ
  pub peer_endpoints : Dict ℕ (Option String)

is_none : Option String → Bool
is_none none = true
is_none (some a) = false

-- The `WireGuardConfig` of one link, once the netmask is known: the ports are the indices that
-- the two peers gave the link.
unfoldable pub link_config :
    P2pConfig
    → ℕ
    → ℕ
    → Port
    → ℕ
    → (KeyPair × KeyPair) × Psk
    → Option String
    → Option String
    → ℕ
    → WireGuardConfig
unfolding pick is_set if_set is_none
link_config c peer peer_b_id port peer_b_port material peer_a_endpoint peer_b_endpoint netmask =
    record {
      intf = record {
        name = (c.settings.interface, port.index);
        privkey = (pick peer peer_b_id peer material.0).private;
        address = port.local_address;
        netmask = netmask;
        port = some (if is_set peer_a_endpoint then c.settings.port + port.index else 0);
        endpoint = if_set peer_a_endpoint (c.settings.port + port.index);
        mtu = c.settings.peer_mtu;
      };
      peers =
          record {
            id = peer_b_id;
            pubkey = (pick peer peer_b_id peer_b_id material.0).public;
            psk = material.1.value;
            address = port.peer_address;
            allowed =
                Allowed.network c.settings.subnet ∷ map Allowed.network c.settings.allowed_ips;
            endpoint = if_set peer_b_endpoint (c.settings.port + peer_b_port);
            keepalive = if is_none peer_a_endpoint then c.settings.keepalive else none;
          }
          ∷ [];
      masquerade = c.settings.masquerade;
      forward = c.settings.forward;
      tunnel = c.settings.tunnel;
      tunnel_root = false;
    }

module _ {W : Type 0} (genkeypair : (ℕ × ℕ) × ℕ → Exec W (String × String))
    (genkeypreshared : ℕ × ℕ → Exec W String) (c : P2pConfig) where
  -- A round of the comprehension.
  unfoldable pub configure_link : ℕ → ℕ → Port → Exec (Material W) WireGuardConfig
  unfolding get or_key_error p2p_assert_pair cidr_of link_config
  configure_link peer peer_b_id port = do
    peer_b_links ← lift (or_key_error (get c.deployment peer_b_id))
    peer_b_port ← lift (or_key_error (get peer_b_links.peers peer))
    asserted ← p2p_assert_pair genkeypair genkeypreshared peer peer_b_id
    peer_a_endpoint ← lift (or_key_error (get c.peer_endpoints peer))
    peer_b_endpoint ← lift (or_key_error (get c.peer_endpoints peer_b_id))
    netmask ← lift (cidr_of port.network)
    pure (
        link_config c peer peer_b_id port peer_b_port.index asserted.0 peer_a_endpoint
          peer_b_endpoint netmask)

  unfoldable pub configure_links : ℕ → Dict ℕ Port → Exec (Material W) (List WireGuardConfig)
  unfolding configure_link
  configure_links peer [] = pure []
  configure_links peer ((peer_b_id, port) ∷ rest) = do
    here ← configure_link peer peer_b_id port
    later ← configure_links peer rest
    pure (here ∷ later)

  pub links_or_none : ℕ → Option PeerLinks → Exec (Material W) (List WireGuardConfig)
  unfolding configure_links
  links_or_none peer none = pure []
  links_or_none peer (some l) = configure_links peer l.peers

  -- `peer_config` of `P2pVpnConfig`
  unfoldable pub p2p_peer_config : ℕ → Exec (Material W) (List WireGuardConfig)
  unfolding get links_or_none
  p2p_peer_config peer = links_or_none peer (get c.deployment peer)

  unfoldable pub configure_peers : List ℕ → Exec (Material W) (Unit {0})
  unfolding p2p_peer_config
  configure_peers [] = pure tt
  configure_peers (p ∷ ps) = do here ← p2p_peer_config p; configure_peers ps

  -- `assert_keys` of `P2pVpnConfig`: nothing if it is readonly
  unfoldable pub assert_link_keys : Bool → Exec (Material W) (Unit {0})
  unfolding configure_peers
  assert_link_keys readonly m =
      let run = configure_peers c.peer_ids m in if readonly then (ok tt, m) else run

-- ===== src/VpnConfig/Rooted.antt =====
-- The two ends of a link to the root (uno/registry/vpn_config.py, `root_config` and `peer_config` of
-- `CentralizedVpnConfig`).
use uno.Prelude.{
  Among, ℕ, ◌≡◌, refl, sym, ap, ◌∙◌, ◌⊎◌, inl, inr, true, false, none, some, [], ◌∷◌, if◌then◌else◌,
  Bool-cases, ok,
}
use uno.Prelude.Fallible.{ok-injective}
use uno.Prelude.Sets.{contains}
use uno.Uvn.{is_set}
use uno.Central.{Central, NamedKey}
use uno.VpnKeys.{Psk}
use uno.VpnConfig.{
  InterfaceConfig, PeerConfig, WireGuardConfig, CentralConfig, peer_port, endpoint_of, unless_none,
  if_set, unpack, root_config, central_peer_config,
}
use uno.VpnConfig.Entries.{
  port_of_endpoint, root_peers-Among, port_unless, listens, dialled, root_peer-parts,
  central_peer_config-parts, root_config-parts,
}

-- What the entry of one interface for a peer says fits that peer's own interface.
pub record Fits (entry : PeerConfig) (intf : InterfaceConfig) : Type 0 where
  pub addresses : entry.address ≡ intf.address
  pub keys : (k : NamedKey) × (entry.pubkey ≡ k.public) × (intf.privkey ≡ k.private)

-- Who connects to whom: the root to a peer with an address, which listens on the port that is
-- dialled, and else the peer to the root, if that has an address.
abbrev pub Dials :
    CentralConfig → ℕ → InterfaceConfig → PeerConfig → InterfaceConfig → PeerConfig → Type 0
Dials c p root for_peer peer for_root =
    ((is_set (endpoint_of c p) ≡ true)
      × (for_peer.endpoint ≡ peer.endpoint)
      × (peer.port ≡ port_of_endpoint for_peer.endpoint)
      × (for_root.endpoint ≡ none))
    ⊎ ((is_set (endpoint_of c p) ≡ false)
        × (for_root.endpoint ≡ root.endpoint)
        × (root.port ≡ port_of_endpoint for_root.endpoint)
        × (peer.port ≡ none)
        × (peer.endpoint ≡ none))

dials :
    (c : CentralConfig) (p : ℕ) (root peer : InterfaceConfig) (e f : PeerConfig)
    → (e.endpoint ≡ unless_none (endpoint_of c p) (peer_port c))
    → (peer.port ≡ (if is_set (endpoint_of c p) then some (peer_port c) else none))
    → (peer.endpoint ≡ if_set (endpoint_of c p) (peer_port c))
    → (f.endpoint
        ≡ (if is_set (endpoint_of c p) then none else unless_none c.root_endpoint c.settings.port))
    → (root.port ≡ port_unless c.root_endpoint c.settings.port)
    → (root.endpoint ≡ unless_none c.root_endpoint c.settings.port)
    → Dials c p root e peer f
unfolding if_set
dials c p root peer e f to_peer port endpoint to_root root_port root_end =
    elim (Bool-cases (is_set (endpoint_of c p))) [
      | inl set ↦
          let (same, heard) = dialled (endpoint_of c p) (peer_port c) set in
          inl (
            set,
            to_peer ∙ same ∙ sym endpoint,
            port ∙ heard ∙ ap port_of_endpoint (sym to_peer),
            to_root ∙ rw set refl,
          )
      | inr unset ↦
          let called : f.endpoint ≡ unless_none c.root_endpoint c.settings.port =
            to_root ∙ rw unset refl in
          inr (
            unset,
            called ∙ sym root_end,
            root_port ∙ listens c.root_endpoint c.settings.port ∙ ap port_of_endpoint (sym called),
            port ∙ rw unset refl,
            endpoint ∙ rw unset refl,
          )
    ]

-- For a peer of a VPN with a root, if the configurations of the root and of the peer can be made:
-- the root's has an entry for the peer, and the peer's has one entry, for the root. Each entry has
-- the address of the other interface and the public half of its private key, both have one
-- preshared key, and one side has the endpoint at which the other listens: the root if the peer
-- has an address, and else the peer, if the root has one.
pub root_config-central_peer_config :
    {W : Type 0} (c : CentralConfig) (m : Central W) (p : ℕ) (r q : WireGuardConfig)
    → contains c.peer_ids p ≡ true
    → root_config c m ≡ ok r
    → central_peer_config c m p ≡ ok q
    → (e : PeerConfig) × (f : PeerConfig) × Among e r.peers
      × (q.peers ≡ f ∷ [])
      × Fits e q.intf
      × Fits f r.intf
      × (e.psk ≡ f.psk)
      × Dials c p r.intf e q.intf f
root_config-central_peer_config c m p r q member made_root made_peer =
    let (key, server, rk, rip, rpeers, rpriv, raddr, rport, rend) =
      root_config-parts c m made_root in
    let (e, among, made) = root_peers-Among c m c.peer_ids p member rpeers in
    let (items, k, psk, ip, i1, u1, ip1, epub, epsk, eaddr, eend) = root_peer-parts c m p made in
    let (
      items', k', psk', ip', key', server', f, i2, u2, ip2, rk', rip', one, priv, addr, port,
      endpoint, fpub, fpsk, faddr, fend,
    ) =
      central_peer_config-parts c m p made_peer in
    let same_items = ok-injective (sym i1 ∙ i2) in
    let same = ok-injective (sym u1 ∙ ap unpack same_items ∙ u2) in
    let same_key : k ≡ k' = ap (λ (z : NamedKey × Psk). z.0) same in
    let same_psk : psk ≡ psk' = ap (λ (z : NamedKey × Psk). z.1) same in
    let same_ip : ip ≡ ip' = ok-injective (sym ip1 ∙ ip2) in
    let same_root : key ≡ key' = ok-injective (sym rk ∙ rk') in
    let same_server : server ≡ server' = ok-injective (sym rip ∙ rip') in
    (
      e,
      f,
      among,
      one,
      record {
        addresses = eaddr ∙ same_ip ∙ sym addr;
        keys = (k', epub ∙ ap (λ (z : NamedKey). z.public) same_key, priv);
      },
      record {
        addresses = faddr ∙ sym same_server ∙ sym raddr;
        keys = (key, fpub ∙ ap (λ (z : NamedKey). z.public) (sym same_root), rpriv);
      },
      epsk ∙ ap (λ (z : Psk). z.value) same_psk ∙ sym fpsk,
      dials c p r.intf q.intf e f eend port endpoint fend rport rend,
    )

-- ===== src/VpnConfig/Entries.antt =====
-- What the configurations of a VPN with a root are made of (uno/registry/vpn_config.py,
-- `root_config` and `peer_config` of `CentralizedVpnConfig`).
use uno.Prelude.{
  Among, ℕ, ◌≡◌, refl, sym, ap, ◌∙◌, inl, inr, true, Option, none, some, List, [], ◌∷◌, arith, ◌==◌,
  if◌then◌else◌, ==_iff, Bool-cases, ok,
}
use Prim.Native.String.{String}
use uno.Prelude.Fallible.{returned_through, ok-injective}
use uno.Prelude.Sets.{contains}
use mathlib.Core.Path.{subst}
use uno.Uvn.{is_set}
use uno.Central.{Central, NamedKey, Item, get_central_material}
use uno.VpnKeys.{Psk}
use uno.VpnConfig.{
  Endpoint, PeerConfig, WireGuardConfig, CentralConfig, cidr_of, root_ip, peer_ip, peer_port,
  endpoint_of, unless_none, if_set, unpack, root_key_of, root_peer, root_peers, root_config,
  central_peer_config,
}

abbrev pub port_of_endpoint : Option Endpoint → Option ℕ
port_of_endpoint none = none
port_of_endpoint (some e) = some e.port

pub root_peers-Among :
    {W : Type 0} (c : CentralConfig) (m : Central W) (ps : List ℕ) (p : ℕ) {l : List PeerConfig}
    → contains ps p ≡ true
    → root_peers c m ps ≡ ok l
    → (e : PeerConfig) × Among e l × (root_peer c m p ≡ ok e)
unfolding root_peers
root_peers-Among c m [] p h run = cc
root_peers-Among c m (q ∷ ps) p {l = l} h run =
    let (e, here, run') = returned_through (root_peer c m q) _ run in
    let (later, there, run'') = returned_through (root_peers c m ps) _ run' in
    let built = ok-injective run'' in
    elim (Bool-cases (q == p)) [
      | inl same ↦ (
        e,
        subst (λ z. Among e z) built (inl refl),
        subst (λ z. root_peer c m z ≡ ok e) ((==_iff q p).0 same) here,
      )
      | inr other ↦
          let (x, among, at_p) = root_peers-Among c m ps p (ground arith) there in
          (x, subst (λ z. Among x z) built (inr among), at_p)
    ]

unfoldable pub port_unless : (host : Option String) (port : ℕ) → Option ℕ
port_unless host port = elim host [ none ↦ none | some h ↦ some port ]

pub listens :
    (host : Option String) (port : ℕ)
    → port_unless host port ≡ port_of_endpoint (unless_none host port)
unfolding port_unless unless_none
listens none port = refl
listens (some h) port = refl

pub dialled :
    (host : Option String) (port : ℕ)
    → is_set host ≡ true
    → (unless_none host port ≡ if_set host port)
      × ((if is_set host then some port else none) ≡ port_of_endpoint (unless_none host port))
unfolding if_set unless_none is_set
dialled none port h = cc
dialled (some String.[]) port h = cc
dialled (some (String.◌∷◌ x s)) port h = (refl, refl)

-- What an entry of the root for a peer is made of.
pub root_peer-parts :
    {W : Type 0} (c : CentralConfig) (m : Central W) (p : ℕ) {e : PeerConfig}
    → root_peer c m p ≡ ok e
    → (items : List Item) × (k : NamedKey) × (psk : Psk) × (ip : ℕ) × (get_central_material p true m
        ≡ ok items)
      × (unpack items ≡ ok (k, psk))
      × (peer_ip c p ≡ ok ip)
      × (e.pubkey ≡ k.public)
      × (e.psk ≡ psk.value)
      × (e.address ≡ ip)
      × (e.endpoint ≡ unless_none (endpoint_of c p) (peer_port c))
unfolding root_peer
root_peer-parts c m p h =
    let (items, e1, h1) = returned_through (get_central_material p true m) _ h in
    let (material, e2, h2) = returned_through (unpack items) _ h1 in
    let (ip, e3, h3) = returned_through (peer_ip c p) _ h2 in
    let made = sym (ok-injective h3) in
    (
      items,
      material.0,
      material.1,
      ip,
      e1,
      e2,
      e3,
      ap (λ (z : PeerConfig). z.pubkey) made,
      ap (λ (z : PeerConfig). z.psk) made,
      ap (λ (z : PeerConfig). z.address) made,
      ap (λ (z : PeerConfig). z.endpoint) made,
    )

-- The same for a peer's own configuration.
pub central_peer_config-parts :
    {W : Type 0} (c : CentralConfig) (m : Central W) (p : ℕ) {q : WireGuardConfig}
    → central_peer_config c m p ≡ ok q
    → (items : List Item) × (k : NamedKey) × (psk : Psk) × (ip : ℕ) × (key : NamedKey)
      × (server : ℕ) × (f : PeerConfig) × (get_central_material p true m ≡ ok items)
      × (unpack items ≡ ok (k, psk))
      × (peer_ip c p ≡ ok ip)
      × (root_key_of m ≡ ok key)
      × (root_ip c ≡ ok server)
      × (q.peers ≡ f ∷ [])
      × (q.intf.privkey ≡ k.private)
      × (q.intf.address ≡ ip)
      × (q.intf.port ≡ (if is_set (endpoint_of c p) then some (peer_port c) else none))
      × (q.intf.endpoint ≡ if_set (endpoint_of c p) (peer_port c))
      × (f.pubkey ≡ key.public)
      × (f.psk ≡ psk.value)
      × (f.address ≡ server)
      × (f.endpoint ≡ (
          if is_set (endpoint_of c p) then none else unless_none c.root_endpoint c.settings.port))
unfolding central_peer_config
central_peer_config-parts c m p h =
    let (items, e1, h1) = returned_through (get_central_material p true m) _ h in
    let (material, e2, h2) = returned_through (unpack items) _ h1 in
    let (ip, e3, h3) = returned_through (peer_ip c p) _ h2 in
    let (netmask, e4, h4) = returned_through (cidr_of c.settings.subnet) _ h3 in
    let (key, e5, h5) = returned_through (root_key_of m) _ h4 in
    let (server, e6, h6) = returned_through (root_ip c) _ h5 in
    let made = sym (ok-injective h6) in
    (
      items,
      material.0,
      material.1,
      ip,
      key,
      server,
      _,
      e1,
      e2,
      e3,
      e5,
      e6,
      ap (λ (z : WireGuardConfig). z.peers) made,
      ap (λ (z : WireGuardConfig). z.intf.privkey) made,
      ap (λ (z : WireGuardConfig). z.intf.address) made,
      ap (λ (z : WireGuardConfig). z.intf.port) made,
      ap (λ (z : WireGuardConfig). z.intf.endpoint) made,
      refl,
      refl,
      refl,
      refl,
    )

pub root_config-parts :
    {W : Type 0} (c : CentralConfig) (m : Central W) {r : WireGuardConfig}
    → root_config c m ≡ ok r
    → (key : NamedKey) × (server : ℕ) × (root_key_of m ≡ ok key)
      × (root_ip c ≡ ok server)
      × (root_peers c m c.peer_ids ≡ ok r.peers)
      × (r.intf.privkey ≡ key.private)
      × (r.intf.address ≡ server)
      × (r.intf.port ≡ port_unless c.root_endpoint c.settings.port)
      × (r.intf.endpoint ≡ unless_none c.root_endpoint c.settings.port)
unfolding root_config port_unless
root_config-parts c m h =
    let (key, e1, h1) = returned_through (root_key_of m) _ h in
    let (server, e2, h2) = returned_through (root_ip c) _ h1 in
    let (netmask, e3, h3) = returned_through (cidr_of c.settings.subnet) _ h2 in
    let (peers, e4, h4) = returned_through (root_peers c m c.peer_ids) _ h3 in
    let made = sym (ok-injective h4) in
    (
      key,
      server,
      e1,
      e2,
      e4 ∙ ap (λ (z : WireGuardConfig). ok z.peers) (sym made),
      ap (λ (z : WireGuardConfig). z.intf.privkey) made,
      ap (λ (z : WireGuardConfig). z.intf.address) made,
      ap (λ (z : WireGuardConfig). z.intf.port) made,
      ap (λ (z : WireGuardConfig). z.intf.endpoint) made,
    )

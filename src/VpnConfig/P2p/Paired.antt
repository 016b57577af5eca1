-- ===== src/VpnConfig/P2p/Paired.antt =====
-- The two ends of a link between peers (uno/registry/vpn_config.py, `peer_config` of
-- `P2pVpnConfig`).
use uno.Uvn.{is_set}
use uno.Prelude.{
  Among, ℕ, ◌+◌, ◌≡◌, refl, sym, ap, ◌∙◌, Option, none, some, List, [], ◌∷◌, if◌then◌else◌, Result,
  ok, Exec,
}
use Prim.Native.String.{String}
use uno.Prelude.Dict.{get, number_key}
use mathlib.Core.Path.{subst}
use uno.PairedMap.{pick}
use uno.PairedMap.Pairs.{pick_comm}
use uno.Links.{LinksMap, Port, PeerLinks}
use uno.VpnKeys.{KeyPair, Psk, Material}
use uno.VpnKeys.Sharing.{Holds, Holds-swap}
use uno.Strategy.Endpoints.{HasPort, deploy_agrees}
use uno.Strategy.{Generated, deploy}
use uno.Links.{AllocationMap}
use uno.VpnConfig.{unless_none, Endpoint, InterfaceConfig, PeerConfig, WireGuardConfig, if_set}
use uno.VpnConfig.P2p.{P2pConfig, link_config, p2p_peer_config, configure_peers}
use uno.VpnConfig.P2p.Making.{
  Made, some_injective, p2p_peer_config-Keeps, configure_peers-Keeps, p2p_peer_config-Configures,
}

-- One end of a link, as the other end describes it: its address, the public half of its private
-- key, and its endpoint, which is where it listens.
pub record Describes (entry : PeerConfig) (intf : InterfaceConfig) : Type 0 where
  pub addresses : entry.address ≡ intf.address
  pub keys : (k : KeyPair) × (entry.pubkey ≡ k.public) × (intf.privkey ≡ k.private)
  pub endpoints : entry.endpoint ≡ intf.endpoint
  pub ports : (e : Endpoint) → entry.endpoint ≡ some e → intf.port ≡ some e.port

Holds-unique :
    {W : Type 0} (a b : ℕ) (material material' : (KeyPair × KeyPair) × Psk) (m : Material W)
    → Holds a b material m
    → Holds a b material' m
    → material ≡ material'
Holds-unique a b (k, s) (k', s') m h h' =
    let keys : k ≡ k' = some_injective (sym h.0 ∙ h'.0) in
    let psk : s ≡ s' = some_injective (sym h.1 ∙ h'.1) in rw (keys, psk) refl

HasPort-unique :
    (links : LinksMap) (a b : ℕ) (p q : Port) → HasPort links a b p → HasPort links a b q → p ≡ q
HasPort-unique links a b p q (l, at_a, at_b) (l', at_a', at_b') =
    let same = some_injective (sym at_a ∙ at_a') in
    some_injective (sym at_b ∙ ap (λ (z : PeerLinks). get z.peers b) same ∙ at_b')

listening :
    (host : Option String) (port : ℕ) (e : Endpoint)
    → if_set host port ≡ some e
    → some (if is_set host then port else 0) ≡ some e.port
unfolding if_set is_set unless_none
listening none port e h = cc
listening (some String.[]) port e h = cc
listening (some (String.◌∷◌ x s)) port e h = cc

-- The entries of two configurations that were made for one link from its two ends.
Made-Describes :
    (c : P2pConfig) (a b : ℕ) (p q : Port) (material : (KeyPair × KeyPair) × Psk)
    (x y : WireGuardConfig)
    → p.peer_address ≡ q.local_address
    → Made c a b p q.index material x
    → Made c b a q p.index material y
    → (e : PeerConfig) × (x.peers ≡ e ∷ [])
      × (e.id ≡ b)
      × (e.psk ≡ material.1.value)
      × Describes e y.intf
unfolding link_config
Made-Describes c a b p q material x y agree (at_a, at_b, netmask, ea, eb, en, made)
      (at_b', at_a', netmask', eb', ea', en', made') =
    let same_b = some_injective (sym eb ∙ eb') in
    let from_x = sym made in
    let from_y = sym made' in
    let pubkey = λ (z : KeyPair). z.public in
    let dialled : if_set at_b (c.settings.port + q.index)
        ≡ if_set at_b' (c.settings.port + q.index) =
      ap (λ h. if_set h (c.settings.port + q.index)) same_b in
    (
      _,
      ap (λ (z : WireGuardConfig). z.peers) from_x,
      refl,
      refl,
      record {
        addresses = agree ∙ ap (λ (z : WireGuardConfig). z.intf.address) made';
        keys = (
          pick b a b material.0,
          ap pubkey (pick_comm a b b material.0),
          ap (λ (z : WireGuardConfig). z.intf.privkey) from_y,
        );
        endpoints = dialled ∙ ap (λ (z : WireGuardConfig). z.intf.endpoint) made';
        ports = λ e h.
            ap (λ (z : WireGuardConfig). z.intf.port) from_y
            ∙ listening at_b' (c.settings.port + q.index) e (sym dialled ∙ h);
      },
    )

-- In a deployment that `deploy` returned, let a peer `a` have a port to a peer `b`, and let the
-- configurations of `a`, then those of any other peers, then those of `b` be made, of which the
-- first and the last are returned. Then one configuration of each is for the link of the two. Each
-- has one entry, for the other peer, with the address of the other's interface, the public half of
-- its private key, and its endpoint, at whose port that interface listens; and the two entries have
-- the same preshared key.
pub p2p_peer_config-p2p_peer_config :
    {W : Type 0} (genkeypair : (ℕ × ℕ) × ℕ → Exec W (String × String))
    (genkeypreshared : ℕ × ℕ → Exec W String) (c : P2pConfig)
    (generate : List ℕ → List ℕ → Result Generated) (peers private_peers : List ℕ)
    (pool pool' : AllocationMap)
    → deploy generate peers private_peers pool ≡ (ok c.deployment, pool')
    → (a b : ℕ) (p : Port) (between : List ℕ) (m m1 m2 : Material W) (xs ys : List WireGuardConfig)
    → HasPort c.deployment a b p
    → p2p_peer_config genkeypair genkeypreshared c a m ≡ (ok xs, m1)
    → p2p_peer_config genkeypair genkeypreshared c b
        (configure_peers genkeypair genkeypreshared c between m1).1
      ≡ (ok ys, m2)
    → (x : WireGuardConfig) × (y : WireGuardConfig) × (e : PeerConfig) × (f : PeerConfig) × Among x
        xs
      × Among y ys
      × (x.peers ≡ e ∷ [])
      × (y.peers ≡ f ∷ [])
      × (e.id ≡ b)
      × (f.id ≡ a)
      × Describes e y.intf
      × Describes f x.intf
      × (e.psk ≡ f.psk)
p2p_peer_config-p2p_peer_config genkeypair genkeypreshared c generate peers private_peers pool pool'
      deployed a b p between m m1 m2 xs ys at run run' =
    let later = (configure_peers genkeypair genkeypreshared c between m1).1 in
    let (x, q, material, among, back, held, made) =
      p2p_peer_config-Configures genkeypair genkeypreshared c a b p m m1 xs at run in
    let (y, p', material', among', at', held', made') =
      p2p_peer_config-Configures genkeypair genkeypreshared c b a q later m2 ys back run' in
    let same_port = HasPort-unique c.deployment a b p' p at' at in
    let still =
      p2p_peer_config-Keeps genkeypair genkeypreshared c b later a b material
        (configure_peers-Keeps genkeypair genkeypreshared c between m1 a b material held) in
    let held_last =
      Holds-swap a b material m2 (subst (λ s. Holds a b material s) (ap (λ z. z.1) run') still) in
    let same = Holds-unique b a material material' m2 held_last held' in
    let from_p =
      subst (λ (z : Port). Made c b a q z.index material y) same_port
        (subst (λ z. Made c b a q p'.index z y) (sym same) made') in
    let (local, peer, network) =
      deploy_agrees generate peers private_peers pool pool' c.deployment deployed a b p q at back in
    let (e, one, to_b, psk, describes) = Made-Describes c a b p q material x y peer made from_p in
    let (f, one', to_a, psk', describes') =
      Made-Describes c b a q p material y x (sym local) from_p made in
    (x, y, e, f, among, among', one, one', to_b, to_a, describes, describes', psk ∙ sym psk')

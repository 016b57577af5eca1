-- ===== src/VpnConfig/P2p/Making.antt =====
-- How the configurations of a peer's links are made (uno/registry/vpn_config.py, `peer_config` of
-- `P2pVpnConfig`): which port and material each comes from, and that material stays held.
use uno.Prelude.{
  Among, and_then-eq-ok_state, ℕ, ◌≡◌, refl, sym, ap, inl, inr, Option, none, some, List, [], ◌∷◌,
  arith, ◌==◌, ==_iff, Bool-cases, Result, ok, Exec,
}
use Prim.Native.String.{String}
use uno.Prelude.Dict.{Dict, get, number_key}
use mathlib.Core.Path.{subst}
use uno.Prelude.Fallible.{ok-injective}
use uno.PairedMap.{or_key_error}
use uno.Links.{Port, PeerLinks}
use uno.VpnKeys.{KeyPair, Psk, Material, p2p_assert_pair}
use uno.VpnKeys.Sharing.{Holds, p2p_assert_pair-Holds}
use uno.VpnKeys.Keeping.{Keeps, Keeps-trans, and_then-Keeps, p2p_assert_pair-Keeps}
use uno.Strategy.Endpoints.{HasPort}
use uno.VpnConfig.{WireGuardConfig, cidr_of}
use uno.VpnConfig.P2p.{
  P2pConfig, link_config, configure_link, configure_links, links_or_none, p2p_peer_config,
  configure_peers,
}

-- The configuration that a port leads to, for a peer, with the material of the link.
abbrev pub Made :
    P2pConfig → ℕ → ℕ → Port → ℕ → (KeyPair × KeyPair) × Psk → WireGuardConfig → Type 0
Made c a b p index material x =
    (peer_a_endpoint : Option String) × (peer_b_endpoint : Option String) × (netmask : ℕ) × (get
        c.peer_endpoints a
      ≡ some peer_a_endpoint)
    × (get c.peer_endpoints b ≡ some peer_b_endpoint)
    × (cidr_of p.network ≡ ok netmask)
    × (link_config c a b p index material peer_a_endpoint peer_b_endpoint netmask ≡ x)

or_key_error-eq-ok : {A : Type 0} (o : Option A) {a : A} → or_key_error o ≡ ok a → o ≡ some a
unfolding or_key_error
or_key_error-eq-ok none h = cc
or_key_error-eq-ok (some b) h = cc

pub some_injective : {A : Type 0} {a b : A} → some a ≡ some b → a ≡ b
some_injective h = cc

module _ {W : Type 0} (genkeypair : (ℕ × ℕ) × ℕ → Exec W (String × String))
    (genkeypreshared : ℕ × ℕ → Exec W String) (c : P2pConfig) where
  configure_link-Keeps :
      (a b : ℕ) (p : Port) (m : Material W)
      → Keeps m (configure_link genkeypair genkeypreshared c a b p m).1
  unfolding configure_link
  configure_link-Keeps a b p m =
      let same : Keeps m m = λ x y material held. held in
      let later = p2p_assert_pair-Keeps genkeypair genkeypreshared a b m in
      and_then-Keeps m (or_key_error (get c.deployment b)) _ m same (λ links.
        and_then-Keeps m (or_key_error (get links.peers a)) _ m same (λ back.
          and_then-Keeps m (p2p_assert_pair genkeypair genkeypreshared a b m).0 _
            (p2p_assert_pair genkeypair genkeypreshared a b m).1 later
            (λ asserted. and_then-Keeps m (or_key_error (get c.peer_endpoints a)) _ _ later (λ at_a.
              and_then-Keeps m (or_key_error (get c.peer_endpoints b)) _ _ later
                (λ at_b. and_then-Keeps m (cidr_of p.network) _ _ later (λ netmask. later))))))

  -- What a configuration is made of, and what is held after.
  configure_link-Made :
      (a b : ℕ) (p : Port) (m m' : Material W) (x : WireGuardConfig)
      → configure_link genkeypair genkeypreshared c a b p m ≡ (ok x, m')
      → (q : Port) × (material : (KeyPair × KeyPair) × Psk) × HasPort c.deployment b a q
        × Holds a b material m'
        × Made c a b p q.index material x
  unfolding configure_link
  configure_link-Made a b p m m' x run =
      let (links, e1, r1) = and_then-eq-ok_state (or_key_error (get c.deployment b)) _ m run in
      let (q, e2, r2) = and_then-eq-ok_state (or_key_error (get links.peers a)) _ m r1 in
      let asserted = p2p_assert_pair genkeypair genkeypreshared a b m in
      let (material, e3, r3) = and_then-eq-ok_state asserted.0 _ asserted.1 r2 in
      let (at_a, e4, r4) =
        and_then-eq-ok_state (or_key_error (get c.peer_endpoints a)) _ asserted.1 r3 in
      let (at_b, e5, r5) =
        and_then-eq-ok_state (or_key_error (get c.peer_endpoints b)) _ asserted.1 r4 in
      let (netmask, e6, r6) = and_then-eq-ok_state (cidr_of p.network) _ asserted.1 r5 in
      (
        q,
        material.0,
        (links, or_key_error-eq-ok _ e1, or_key_error-eq-ok _ e2),
        subst (λ s. Holds a b material.0 s)
            (ap (λ (z : Result WireGuardConfig × Material W). z.1) r6)
            (p2p_assert_pair-Holds genkeypair genkeypreshared a b m e3),
        (
          at_a,
          at_b,
          netmask,
          or_key_error-eq-ok _ e4,
          or_key_error-eq-ok _ e5,
          e6,
          ok-injective (ap (λ (z : Result WireGuardConfig × Material W). z.0) r6),
        ),
      )

  configure_links-Keeps :
      (a : ℕ) (ports : Dict ℕ Port) (m : Material W)
      → Keeps m (configure_links genkeypair genkeypreshared c a ports m).1
  unfolding configure_links
  configure_links-Keeps a [] m = λ x y material held. held
  configure_links-Keeps a ((b, p) ∷ rest) m =
      let here = configure_link genkeypair genkeypreshared c a b p m in
      let later = configure_links genkeypair genkeypreshared c a rest here.1 in
      let kept = configure_link-Keeps a b p m in
      let kept_all = Keeps-trans m here.1 later.1 kept (configure_links-Keeps a rest here.1) in
      and_then-Keeps m here.0 _ here.1 kept
        (λ x. and_then-Keeps m later.0 _ later.1 kept_all (λ xs. kept_all))

  pub p2p_peer_config-Keeps :
      (a : ℕ) (m : Material W) → Keeps m (p2p_peer_config genkeypair genkeypreshared c a m).1
  unfolding p2p_peer_config
  p2p_peer_config-Keeps a m = links_or_none-Keeps (get c.deployment a)
    where
      links_or_none-Keeps :
          (o : Option PeerLinks) → Keeps m (links_or_none genkeypair genkeypreshared c a o m).1
      links_or_none-Keeps none = λ x y material held. held
      links_or_none-Keeps (some l) = configure_links-Keeps a l.peers m

  pub configure_peers-Keeps :
      (ps : List ℕ) (m : Material W) → Keeps m (configure_peers genkeypair genkeypreshared c ps m).1
  unfolding configure_peers
  configure_peers-Keeps [] m = λ x y material held. held
  configure_peers-Keeps (p ∷ ps) m =
      let here = p2p_peer_config genkeypair genkeypreshared c p m in
      let kept = p2p_peer_config-Keeps p m in
      and_then-Keeps m here.0 _ here.1 kept (λ x.
        Keeps-trans m here.1 (configure_peers genkeypair genkeypreshared c ps here.1).1 kept
          (configure_peers-Keeps ps here.1))

  -- The configuration for a port is among those of the peer, and its material is held.
  abbrev pub Configures : ℕ → ℕ → Port → Material W → List WireGuardConfig → Type 0
  Configures a b p m xs =
      (x : WireGuardConfig) × (q : Port) × (material : (KeyPair × KeyPair) × Psk) × Among x xs
      × HasPort c.deployment b a q
      × Holds a b material m
      × Made c a b p q.index material x

  configure_links-Configures :
      (a b : ℕ) (p : Port) (ports : Dict ℕ Port) (m m' : Material W) (xs : List WireGuardConfig)
      → get ports b ≡ some p
      → configure_links genkeypair genkeypreshared c a ports m ≡ (ok xs, m')
      → Configures a b p m' xs
  unfolding configure_links get
  configure_links-Configures a b p [] m m' xs at_b run = cc
  configure_links-Configures a b p ((b', p') ∷ rest) m m' xs at_b run =
      let here = configure_link genkeypair genkeypreshared c a b' p' m in
      let (x, e1, r1) = and_then-eq-ok_state here.0 _ here.1 run in
      let later = configure_links genkeypair genkeypreshared c a rest here.1 in
      let (later_xs, e2, r2) = and_then-eq-ok_state later.0 _ later.1 r1 in
      let built = ok-injective (ap (λ (z : Result (List WireGuardConfig) × Material W). z.0) r2) in
      let left = ap (λ (z : Result (List WireGuardConfig) × Material W). z.1) r2 in
      elim (Bool-cases (b' == b)) [
        | inl same ↦
            let at : p' ≡ p = ground arith in
            let (q, material, back, held, made) =
              configure_link-Made a b' p' m here.1 x (ap (λ r. (r, here.1)) e1) in
            let first : Configures a b' p' m' xs = (
              x,
              q,
              material,
              subst (λ z. Among x z) built (inl refl),
              back,
              subst (λ s. Holds a b' material s) left
                  (configure_links-Keeps a rest here.1 a b' material held),
              made,
            ) in
            subst (λ z. Configures a z p m' xs) ((==_iff b' b).0 same)
              (subst (λ z. Configures a b' z m' xs) at first)
        | inr other ↦
            let (x', q, material, among, back, held, made) =
              configure_links-Configures a b p rest here.1 later.1 later_xs (ground arith)
                (ap (λ r. (r, later.1)) e2) in
            (
              x',
              q,
              material,
              subst (λ z. Among x' z) built (inr among),
              back,
              subst (λ s. Holds a b material s) left held,
              made,
            )
      ]

  links_or_none-Configures :
      (a b : ℕ) (p : Port) (o : Option PeerLinks) (l : PeerLinks) (m m' : Material W)
      (xs : List WireGuardConfig)
      → o ≡ some l
      → get l.peers b ≡ some p
      → links_or_none genkeypair genkeypreshared c a o m ≡ (ok xs, m')
      → Configures a b p m' xs
  unfolding links_or_none
  links_or_none-Configures a b p none l m m' xs e at_b run = cc
  links_or_none-Configures a b p (some l') l m m' xs e at_b run =
      configure_links-Configures a b p l'.peers m m' xs
        (subst (λ (z : PeerLinks). get z.peers b ≡ some p) (some_injective (sym e)) at_b) run

  pub p2p_peer_config-Configures :
      (a b : ℕ) (p : Port) (m m' : Material W) (xs : List WireGuardConfig)
      → HasPort c.deployment a b p
      → p2p_peer_config genkeypair genkeypreshared c a m ≡ (ok xs, m')
      → Configures a b p m' xs
  unfolding p2p_peer_config
  p2p_peer_config-Configures a b p m m' xs (l, at_a, at_b) run =
      links_or_none-Configures a b p (get c.deployment a) l m m' xs at_a at_b run

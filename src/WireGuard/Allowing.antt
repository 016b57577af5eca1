-- ===== src/WireGuard/Allowing.antt =====
-- uno/core/wg.py: `allow_ips_for_peer` and `disallow_ips_for_peer` against the set of networks that is
-- allowed for a peer.
use uno.VpnConfig.{WireGuardConfig, PeerConfig}
use uno.WireGuard.{
  change_for, request_ips, request_all, request_for, allow_for, disallow_for, update_allowed_ips,
  as_wireguard_error, disallow, allow, is_nil, Cryptokeys, Request, without,
}
use uno.Prelude.{
  and_then-eq-ok_state, ℕ, ◌≡◌, refl, sym, ap, ◌∙◌, inl, inr, Bool, true, false, not, ◌&&◌, ◌||◌,
  some, List, [], ◌∷◌, ◌++◌, arith, Bool-cases, get_elem?, Result, ok, raise,
}
use Prim.Native.String.{String}
use uno.Prelude.Dict.{mem-append, mem}
use uno.Ip.{Network}
use uno.Uvn.{same_net_iff, network_key}

-- What the code relies on of `wg`: it shows the networks that were set, and showing changes nothing.
pub record IsCryptokeys {W : Type 0} (wg : Cryptokeys W) : Type 0 where
  pub shows :
      (key : String) (ips : List Network) (w w' : W) (u : Unit {0})
      → wg.set key ips w ≡ (ok u, w')
      → (shown : List Network) × (wg.show key w' ≡ (ok shown, w'))
        × ((n : Network) → mem shown n ≡ mem ips n)

-- What requests make of a set of networks, each network by itself.
abbrev pub requested : List Request → Network → Bool → Bool
requested [] n allowed = allowed
requested (allow addresses ∷ rs) n allowed = requested rs n (allowed || mem addresses n)
requested (disallow addresses ∷ rs) n allowed = requested rs n (allowed && not (mem addresses n))

-- The state shows these networks for a peer.
pub record Shows {W : Type 0} (wg : Cryptokeys W) (key : String) (w : W) (set : Network → Bool)
    : Type 0 where
  pub shown : List Network
  pub is_shown : wg.show key w ≡ (ok shown, w)
  pub same : (n : Network) → mem shown n ≡ set n

mem-without :
    (xs ys : List Network) (n : Network) → mem (without xs ys) n ≡ (mem xs n && not (mem ys n))
unfolding without
mem-without [] ys n = refl
mem-without (x ∷ xs) ys n = ground (arith, mem-without xs ys n, same_net_iff x n)

mem-nil : (xs : List Network) (n : Network) → is_nil xs ≡ true → mem xs n ≡ false
mem-nil [] n h = refl
mem-nil (x ∷ xs) n h = cc

-- Where nothing is left, all elements are in the other list.
none_left :
    (xs ys : List Network) (n : Network)
    → is_nil (without xs ys) ≡ true
    → (mem xs n && not (mem ys n)) ≡ false
none_left xs ys n h = sym (mem-without xs ys n) ∙ mem-nil (without xs ys) n h

as_ok :
    {A W : Type 0} (p : Result A × W) {a : A} {w : W}
    → ◌≡◌ {A = Result A × W} (as_wireguard_error p.0, p.1) (ok a, w)
    → p ≡ (ok a, w)
unfolding as_wireguard_error
as_ok (ok b, v) h = h
as_ok (raise e, v) h = absurd (cc (ap (λ p. p.0) h))

requested_first :
    (r : Request) (rs : List Request) (n : Network) (b : Bool)
    → requested rs n (requested (r ∷ []) n b) ≡ requested (r ∷ rs) n b
requested_first (allow addresses) rs n b = refl
requested_first (disallow addresses) rs n b = refl

module _ {W : Type 0} (wg : Cryptokeys W) (laws : IsCryptokeys wg) (peer : PeerConfig) where
  update-Shows :
      (ips : List Network) (g : Network → Bool) (w w' : W) (u : Unit {0})
      → update_allowed_ips wg peer ips w ≡ (ok u, w')
      → ((n : Network) → mem ips n ≡ g n)
      → Shows wg peer.pubkey w' g
  unfolding update_allowed_ips
  update-Shows ips g w w' u h same =
      let ran : wg.set peer.pubkey ips w ≡ (ok u, w') = as_ok (wg.set peer.pubkey ips w) h in
      let s = laws.shows peer.pubkey ips w w' u ran in
      record { shown = s.0; is_shown = s.1; same = λ n. s.2 n ∙ same n }

  allow-Shows :
      (addresses nic : List Network) (w w' : W) (u : Unit {0})
      → wg.show peer.pubkey w ≡ (ok nic, w)
      → allow_for wg addresses peer nic w ≡ (ok u, w')
      → Shows wg peer.pubkey w' (λ n. mem nic n || mem addresses n)
  unfolding allow_for
  allow-Shows addresses nic w w' u shown h = elim (Bool-cases (is_nil (without addresses nic))) [
    | inl nothing ↦
        (let q = rw nothing at h in
          rw (← ap (λ p. p.1) q) (record {
            shown = nic;
            is_shown = shown;
            same = λ n. ground (arith, none_left addresses nic n nothing);
          }))
    | inr more ↦
        (let q = rw more at h in
          update-Shows (nic ++ without addresses nic) _ w w' u q (λ n.
            mem-append nic (without addresses nic) n ∙ ground (arith, mem-without addresses nic n)))
  ]

  disallow-Shows :
      (addresses nic : List Network) (w w' : W) (u : Unit {0})
      → wg.show peer.pubkey w ≡ (ok nic, w)
      → disallow_for wg addresses peer nic w ≡ (ok u, w')
      → Shows wg peer.pubkey w' (λ n. mem nic n && not (mem addresses n))
  unfolding disallow_for
  disallow-Shows addresses nic w w' u shown h =
      elim (Bool-cases (is_nil (without nic (without nic addresses)))) [
        | inl nothing ↦
            (let q = rw nothing at h in
              rw (← ap (λ p. p.1) q) (record {
                shown = nic;
                is_shown = shown;
                same = λ n. ground (
                  arith,
                  none_left nic (without nic addresses) n nothing,
                  mem-without nic addresses n,
                );
              }))
        | inr more ↦
            (let q = rw more at h in
              update-Shows (without nic addresses) _ w w' u q (mem-without nic addresses))
      ]

  step-Shows :
      (r : Request) (w w' : W) (f : Network → Bool) (u : Unit {0})
      → Shows wg peer.pubkey w f
      → request_for wg r (some peer) w ≡ (ok u, w')
      → Shows wg peer.pubkey w' (λ n. requested (r ∷ []) n (f n))
  unfolding request_for as_wireguard_error change_for
  step-Shows (allow addresses) w w' f u s h =
      let q = rw s.is_shown at h in
      let t = allow-Shows addresses s.shown w w' u s.is_shown q in
      record {
        shown = t.shown;
        is_shown = t.is_shown;
        same = λ n. t.same n ∙ ap (λ b. b || mem addresses n) (s.same n);
      }
  step-Shows (disallow addresses) w w' f u s h =
      let q = rw s.is_shown at h in
      let t = disallow-Shows addresses s.shown w w' u s.is_shown q in
      record {
        shown = t.shown;
        is_shown = t.is_shown;
        same = λ n. t.same n ∙ ap (λ b. b && not (mem addresses n)) (s.same n);
      }

  all-Shows :
      (config : WireGuardConfig) (i : ℕ) (rs : List Request) (w w' : W) (f : Network → Bool)
      (u : Unit {0})
      → get_elem? config.peers i ≡ some peer
      → Shows wg peer.pubkey w f
      → request_all wg config i rs w ≡ (ok u, w')
      → Shows wg peer.pubkey w' (λ n. requested rs n (f n))
  unfolding request_all request_ips
  all-Shows config i [] w w' f u is_peer s h = rw (← ap (λ p. p.1) h) s
  all-Shows config i (r ∷ rs) w w' f u is_peer s h =
      let q = rw is_peer at h in
      let first = request_for wg r (some peer) w in
      let (a, e0, rest) = and_then-eq-ok_state first.0 _ first.1 q in
      let t = step-Shows r w first.1 f a s (ap (λ (x : Result (Unit {0})). (x, first.1)) e0) in
      let last = all-Shows config i rs first.1 w' _ u is_peer t rest in
      record {
        shown = last.shown;
        is_shown = last.is_shown;
        same = λ n. last.same n ∙ requested_first r rs n (f n);
      }

  -- For a `wg` that shows what was set: after any calls of
  -- `allow_ips_for_peer` and `disallow_ips_for_peer` for one peer that all returned, exactly those
  -- networks are shown for it that are left when each call adds its networks to the set that was
  -- shown before all of them, or takes them out.
  pub request_all-shown :
      (config : WireGuardConfig) (i : ℕ) (rs : List Request) (w w' : W) (before : List Network)
      (u : Unit {0})
      → get_elem? config.peers i ≡ some peer
      → wg.show peer.pubkey w ≡ (ok before, w)
      → request_all wg config i rs w ≡ (ok u, w')
      → (shown : List Network) × (wg.show peer.pubkey w' ≡ (ok shown, w'))
        × ((n : Network) → mem shown n ≡ requested rs n (mem before n))
  request_all-shown config i rs w w' before u is_peer showing h =
      let s =
        all-Shows config i rs w w' (mem before) u is_peer
          (record { shown = before; is_shown = showing; same = λ n. refl }) h in
      (s.shown, s.is_shown, s.same)

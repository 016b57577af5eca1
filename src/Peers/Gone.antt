-- ===== src/Peers/Gone.antt =====
-- What an update for all peers, made when the agent leaves, makes of them
-- (uno/agent/uvn_peers_list.py, `offline`).
use uno.Prelude.{
  any, ℕ, ◌≡◌, refl, ap, ◌∙◌, inl, inr, Bool, true, false, ◌||◌, none, some, List, [], ◌∷◌, map,
  arith, Bool-cases, All,
}
use uno.Peers.{
  owner_key, LanStatus, Status, same_status, Lan, lan_key, Owner, Peer, same_set, same_owner,
}
use uno.Peers.Configuring.{configure, assign_if, changes}
use uno.Peers.Queries.{find_owner, online_peer}
use uno.Peers.Processing.{lans_of_peers, prev_consistent, current_consistent}
use uno.Peers.Updating.{configure_where, save_peer, is_dirty, went_offline, offline_peer}
use uno.Peers.Noting.{IsClean}

-- Nothing is known of the peer.
pub record IsGone (p : Peer) : Type 0 where
  pub status : p.status.value ≡ Status.offline
  pub registry_id : p.registry_id.value ≡ none
  pub routed_networks : p.routed_networks.value ≡ []
  pub known_networks : p.known_networks ≡ []
  pub vpn_interfaces : p.vpn_interfaces ≡ []

gone_status : (s : Status) → same_status s Status.offline ≡ true → s ≡ Status.offline
gone_status Status.declared h = cc
gone_status Status.online h = cc
gone_status Status.offline h = refl

no_lans : (xs : List Lan) → same_set xs [] ≡ true → xs ≡ []
no_lans [] h = refl
no_lans (x ∷ xs) h = cc

pub configure-IsGone : (p : Peer) → IsGone (configure went_offline p)
unfolding configure assign_if
configure-IsGone p = record {
  status = elim (Bool-cases (same_status p.status.value Status.offline)) [
    | inl e ↦ rw e (gone_status p.status.value e)
    | inr e ↦ rw e refl
  ];
  registry_id = refl;
  routed_networks = elim (Bool-cases (same_set p.routed_networks.value [])) [
    | inl e ↦ rw e (no_lans p.routed_networks.value e)
    | inr e ↦ rw e refl
  ];
  known_networks = refl;
  vpn_interfaces = refl;
}

save_peer-IsGone : (p : Peer) → IsGone p → IsGone (save_peer p)
unfolding save_peer
save_peer-IsGone p h = record {
  status = h.status;
  registry_id = h.registry_id;
  routed_networks = h.routed_networks;
  known_networks = rw (h.known_networks) refl;
  vpn_interfaces = rw (h.vpn_interfaces) refl;
}

unfoldable pub all_gone : List Peer → List Peer
all_gone ps = configure_where (λ o. true) went_offline ps

pub saved-IsGone : (ps : List Peer) → All IsGone (map save_peer (all_gone ps))
unfolding all_gone configure_where
saved-IsGone [] = tt
saved-IsGone (p ∷ ps) =
    (save_peer-IsGone (configure went_offline p) (configure-IsGone p), saved-IsGone ps)

leaving_dirty :
    (p : Peer) → offline_peer (some p) ≡ false → is_dirty (configure went_offline p) ≡ true
unfolding offline_peer is_dirty configure changes
leaving_dirty p on = elim (Bool-cases p.unsaved) [ inl e ↦ rw e refl | inr e ↦ rw (e, on) refl ]

pub or_true : (x : Bool) {y : Bool} → y ≡ true → (x || y) ≡ true
or_true true h = refl
or_true false h = h

-- The local peer is not online any more, and its change is to be saved.
pub find_owner-all_gone :
    (owner : Owner) (ps : List Peer) {p : Peer}
    → find_owner owner ps ≡ some p
    → offline_peer (some p) ≡ false
    → (find_owner owner (all_gone ps) ≡ some (configure went_offline p))
      × (any is_dirty (all_gone ps) ≡ true)
unfolding find_owner all_gone configure_where
find_owner-all_gone owner [] found on = cc
find_owner-all_gone owner (q ∷ ps) {p = p} found on = elim (Bool-cases (same_owner q.owner owner)) [
  | inl here ↦
      let same : q ≡ p = ground arith in
      (
        rw here (ap (λ z. some (configure went_offline z)) same),
        ap (λ b. b || any is_dirty (all_gone ps))
            (leaving_dirty q (ap (λ z. offline_peer (some z)) same ∙ on)),
      )
  | inr past ↦
      let (found', dirty) = find_owner-all_gone owner ps {p = p} (ground arith) on in
      (rw past found', or_true (is_dirty (configure went_offline q)) dirty)
]

pub not_online : (p : Peer) → IsGone p → online_peer (some p) ≡ false
unfolding online_peer
not_online p h = rw (h.status) refl

-- No change is noted of the identifier of a configuration, nor of the networks that are reached.
pub no_reach :
    (ps : List Peer) (whose : Owner → Bool) (test : LanStatus → Bool)
    → lans_of_peers whose test (all_gone ps) ≡ []
unfolding all_gone configure_where lans_of_peers
no_reach [] whose test = refl
no_reach (p ∷ ps) whose test = let ih = no_reach ps whose test in ground arith

pub no_consistent :
    (i : ℕ) (ps : List Peer)
    → All IsClean ps
    → (prev_consistent i (all_gone ps) ≡ []) × (current_consistent i (all_gone ps) ≡ [])
unfolding all_gone configure_where prev_consistent current_consistent configure
no_consistent i [] clean = (refl, refl)
no_consistent i (p ∷ ps) clean =
    let ih = no_consistent i ps clean.1 in
    let none_here = clean.0.registry_id in (ground arith, ground arith)

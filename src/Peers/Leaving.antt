-- ===== src/Peers/Leaving.antt =====
-- What is left when the agent goes offline (uno/agent/uvn_peers_list.py, `offline`).
use uno.Prelude.{
  ℕ, ◌≡◌, refl, sym, ap, ◌∙◌, ◌≢◌, inl, inr, Bool, true, false, not, ◌&&◌, ◌||◌, some, List, [],
  ◌∷◌, map, ◌==◌, if◌then◌else◌, Bool-cases, length, All,
}
use uno.Uvn.{Uvn, is_empty}
use mathlib.Core.Path.{subst}
use uno.Peers.{
  owner_key, Status, lan_key, Owner, Peer, PeersList, Event, same_bool, is_cell, is_excluded,
  select,
}
use uno.Peers.Configuring.{configure}
use uno.Peers.Queries.{
  fully_routed_cells, cells, online_cells, notify, is_online, some_of, local_peer, online_peer,
}
use uno.Peers.Processing.{
  reach_changed, process_config, check_fully_routed, lans_of_peers, prev_consistent,
  current_consistent, minus,
}
use uno.Peers.Updating.{
  update_all, process_updates, has_changes, save, save_peer, went_offline, offline_peer, offline,
}
use uno.Peers.Following.{
  first_steps-along, first_steps-Follows, all_steps-Follows, reached-Follows, first_steps,
  configured, reached, all_steps, Follows, same_through, process_config-along,
  process_reachable-along, check_fully_routed-along,
}
use uno.Peers.Noting.{IsClean}
use uno.Peers.Accurate.{IsAccurate, update_all-IsAccurate}
use uno.Peers.Gone.{
  IsGone, configure-IsGone, saved-IsGone, find_owner-all_gone, not_online, no_reach, no_consistent,
  or_true, all_gone,
}

-- A flag that no call of a listener changes.
Keeps : (PeersList → Bool) → PeersList → PeersList → Type 0
Keeps f k l = f l ≡ f k

module _ (f : PeersList → Bool)
    (uncalled : (l : PeersList) (cs : List (ℕ × Event)) → f (record l { calls = cs }) ≡ f l) where
  Keeps-refl : (l : PeersList) → Keeps f l l
  unfolding Keeps
  Keeps-refl l = refl

  Keeps-trans : (k l m : PeersList) → Keeps f k l → Keeps f l m → Keeps f k m
  unfolding Keeps
  Keeps-trans k l m h i = i ∙ h

  notify-Keeps : (e : Event) (l : PeersList) → Keeps f l (notify e l)
  unfolding Keeps
  notify-Keeps e l = same_through f e l (uncalled l)

full : PeersList → Bool
full l = l.status_fully_routed_uvn

consistent : PeersList → Bool
consistent l = l.status_consistent_config_uvn

skip : {A B : Type 0} (c : Bool) (f : A → B) (x y : A) → c ≡ false → f (if c then x else y) ≡ f y
skip true f x y h = cc
skip false f x y h = refl

skip_true :
    {A B : Type 0} (c : Bool) (f : A → B) (x y : A) → c ≡ true → f (if c then x else y) ≡ f x
skip_true true f x y h = refl
skip_true false f x y h = cc

process_config-none :
    (l : PeersList)
    → prev_consistent l.registry_id l.peers ≡ []
    → current_consistent l.registry_id l.peers ≡ []
    → consistent (process_config l) ≡ consistent l
unfolding process_config minus is_empty
process_config-none l h k =
    skip
      (some_of
        (minus (prev_consistent l.registry_id l.peers) (current_consistent l.registry_id l.peers))
        (minus (current_consistent l.registry_id l.peers) (prev_consistent l.registry_id l.peers)))
      consistent _ l (rw (h, k) refl)

check_fully_routed-none :
    (l : PeersList)
    → lans_of_peers (λ o. true) reach_changed l.peers ≡ []
    → full (check_fully_routed l) ≡ full l
unfolding check_fully_routed is_empty
check_fully_routed-none l h =
    skip_true
      (is_empty (lans_of_peers (λ o. true) reach_changed l.peers)
        || same_bool (length (fully_routed_cells l) == length l.uvn.cells)
            l.status_fully_routed_uvn)
      full l _ (rw h refl)

by-Follows :
    (g : ℕ → List Peer → List Owner) (k l : PeersList)
    → Follows k l
    → g l.registry_id l.peers ≡ g k.registry_id k.peers
by-Follows g k l f = ap (λ i. g i l.peers) f.registry_id ∙ ap (λ ps. g k.registry_id ps) f.peers

-- The steps, from the list that the agent leaves.
module _ (l : PeersList) (clean : All IsClean l.peers) where
  leaving : PeersList
  leaving = record l { peers = all_gone l.peers }

  all_steps-consistent : consistent (all_steps leaving) ≡ consistent l
  unfolding Keeps consistent leaving
  all_steps-consistent =
      let first = first_steps leaving in
      let follows = first_steps-Follows leaving in
      let (none_before, none_after) = no_consistent l.registry_id l.peers clean in
      let refl' = Keeps-refl consistent (λ k cs. refl) in
      let trans' = Keeps-trans consistent (λ k cs. refl) in
      let notify' = notify-Keeps consistent (λ k cs. refl) in
      check_fully_routed-along (Keeps consistent) refl' trans' notify' (λ b k. refl)
        (reached leaving)
      ∙ process_reachable-along (Keeps consistent) refl' trans' notify' (configured leaving)
      ∙ process_config-none first (by-Follows prev_consistent leaving first follows ∙ none_before)
          (by-Follows current_consistent leaving first follows ∙ none_after)
      ∙ first_steps-along (Keeps consistent) refl' trans' notify' (λ b k. refl) (λ b k. refl)
          (λ b k. refl) leaving

  all_steps-full : full (all_steps leaving) ≡ full l
  unfolding Keeps full leaving
  all_steps-full =
      let refl' = Keeps-refl full (λ k cs. refl) in
      let trans' = Keeps-trans full (λ k cs. refl) in
      let notify' = notify-Keeps full (λ k cs. refl) in
      check_fully_routed-none (reached leaving) (
        ap (λ ps. lans_of_peers (λ o. true) reach_changed ps) (reached-Follows leaving).peers
        ∙ no_reach l.peers (λ o. true) reach_changed)
      ∙ process_reachable-along (Keeps full) refl' trans' notify' (configured leaving)
      ∙ process_config-along (Keeps full) refl' trans' notify' (λ b k. refl) (first_steps leaving)
      ∙ first_steps-along (Keeps full) refl' trans' notify' (λ b k. refl) (λ b k. refl)
          (λ b k. refl) leaving

offline-eq :
    (l : PeersList) (p : Peer) (clean : All IsClean l.peers)
    → local_peer l ≡ some p
    → offline_peer (some p) ≡ false
    → offline l ≡ save (all_steps (leaving l clean))
unfolding offline update_all process_updates leaving all_gone local_peer has_changes
offline-eq l p clean found on =
    let (found', dirty) = find_owner-all_gone l.local l.peers {p = p} found on in
    skip (offline_peer (local_peer l)) (λ (z : PeersList). z) l (process_updates (leaving l clean))
      (ap offline_peer found ∙ on)
    ∙ skip_true (has_changes (leaving l clean)) (λ (z : PeersList). z)
        (save (all_steps (leaving l clean))) (leaving l clean) (or_true l.unsaved dirty)

none_online :
    (kind : Peer → Bool) (ps : List Peer)
    → All IsGone ps
    → length (select is_online (select kind ps)) ≡ 0
unfolding select online_peer
none_online kind [] gone = refl
none_online kind (p ∷ ps) gone =
    let ih = none_online kind ps gone.1 in
    let off = not_online p gone.0 in
    elim (Bool-cases (kind p)) [ inl e ↦ rw e (rw off ih) | inr e ↦ rw e ih ]

undeclared : went_offline.status ≢ some Status.declared
undeclared e = cc

offline-connected :
    (l : PeersList)
    → IsAccurate l
    → offline_peer (local_peer l) ≡ false
    → All IsGone (offline l).peers
    → (offline l).uvn ≡ l.uvn
    → (offline l).status_all_cells_connected ≡ (0 == length l.uvn.cells)
unfolding offline online_cells cells
offline-connected l accurate on gone uvn =
    let left = offline l in
    let updated =
      skip (offline_peer (local_peer l)) (λ (z : PeersList). z) l
        (update_all (λ o. true) went_offline l) on in
    let after =
      subst IsAccurate (sym updated)
        (update_all-IsAccurate (λ o. true) went_offline l undeclared accurate) in
    after.connected
    ∙ ap (λ n. n == length left.uvn.cells)
        (none_online (λ p. is_cell p && not (is_excluded p)) left.peers gone)
    ∙ ap (λ (v : Uvn). 0 == length v.cells) uvn

-- Where the flag and the notes of the list are in order, the local peer is in the list and is not
-- offline: `offline` calls no listener, and leaves every peer offline, with no configuration, no
-- networks and no interfaces; the flag for online cells then says whether the UVN has no cells, while
-- the flags for a consistent configuration and for a fully routed UVN keep the values that they had.
pub offline_lem :
    (l : PeersList) (p : Peer)
    → IsAccurate l
    → local_peer l ≡ some p
    → offline_peer (some p) ≡ false
    → let l' = offline l in
      (l'.calls ≡ l.calls)
      × All IsGone l'.peers
      × (l'.status_all_cells_connected ≡ (0 == length l.uvn.cells))
      × (l'.status_consistent_config_uvn ≡ l.status_consistent_config_uvn)
      × (l'.status_fully_routed_uvn ≡ l.status_fully_routed_uvn)
unfolding leaving all_gone save local_peer consistent full
offline_lem l p accurate found on =
    let clean = accurate.clean in
    let from = leaving l clean in
    let eq = offline-eq l p clean found on in
    let follows = all_steps-Follows from in
    let (found', dirty) = find_owner-all_gone l.local l.peers {p = p} found on in
    let gone =
      subst (λ ps. All IsGone (map save_peer ps)) (sym follows.peers) (saved-IsGone l.peers) in
    let all_are_gone = subst (λ (z : PeersList). All IsGone z.peers) (sym eq) gone in
    (
      ap (λ (z : PeersList). z.calls) eq
          ∙ follows.quiet
              (ap online_peer found' ∙ not_online (configure went_offline p) (configure-IsGone p)),
      all_are_gone,
      offline-connected l accurate (ap offline_peer found ∙ on) all_are_gone
          (ap (λ (z : PeersList). z.uvn) eq ∙ follows.uvn),
      ap (λ (z : PeersList). z.status_consistent_config_uvn) eq ∙ all_steps-consistent l clean,
      ap (λ (z : PeersList). z.status_fully_routed_uvn) eq ∙ all_steps-full l clean,
    )

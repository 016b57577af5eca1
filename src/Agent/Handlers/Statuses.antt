-- ===== src/Agent/Handlers/Statuses.antt =====
-- The status of one peer through an update of any peers (uno/agent/uvn_peers_list.py, `update_all`).
use uno.Prelude.{
  ◌≡◌, refl, ap, ◌∙◌, inl, inr, Bool, true, false, Option, none, some, List, [], ◌∷◌, map,
  if◌then◌else◌, Bool-cases,
}
use mathlib.Core.Option
use uno.Peers.{
  Tracked, assign, same_owner_iff, Owner, Peer, PeersList, Status, same_status, same_owner,
}
use uno.Peers.Configuring.{assign_if, Update, configure}
use uno.Peers.Queries.{find_owner}
use uno.Peers.Updating.{update_all, configure_where, process_updates, save_peer, save, has_changes}
use uno.Peers.Following.{all_steps, all_steps-Follows}
use uno.Peers.Noting.{same_status_iff}

-- The status of a peer, if the list has it.
unfoldable pub status_of : Owner → PeersList → Option Status
unfolding find_owner
status_of owner l = Option.map (λ (p : Peer). p.status.value) (find_owner owner l.peers)

-- What an argument of `configure` makes of a status.
abbrev pub given_or : Option Status → Option Status → Option Status
given_or given none = none
given_or none (some t) = some t
given_or (some v) (some t) = some v

abbrev value_of : Option Peer → Option Status
value_of = Option.map (λ (p : Peer). p.status.value)

assign-given :
    (v : Option Status) (t : Tracked Status)
    → some (assign_if same_status v t).value ≡ given_or v (some t.value)
unfolding assign_if assign
assign-given none t = refl
assign-given (some w) t = elim (Bool-cases (same_status t.value w)) [
  | inl same ↦ rw same (ap some ((same_status_iff t.value w).0 same))
  | inr other ↦ rw other refl
]

configured :
    (w : Bool) (u : Update) (p : Peer) (owner : Owner) (rest : Option Peer)
    → value_of (
        if same_owner (if w then configure u p else p).owner owner
        then some (if w then configure u p else p)
        else rest)
      ≡ (if same_owner p.owner owner
          then (if w then given_or u.status (some p.status.value) else some p.status.value)
          else value_of rest)
unfolding configure
configured true u p owner rest = elim (Bool-cases (same_owner p.owner owner)) [
  | inl e ↦ rw e (assign-given u.status p.status)
  | inr e ↦ rw e refl
]
configured false u p owner rest = elim (Bool-cases (same_owner p.owner owner)) [
  | inl e ↦ rw e refl
  | inr e ↦ rw e refl
]

either_none : {A : Type 0} (b : Bool) (a : A) → a ≡ (if b then a else a)
either_none true a = refl
either_none false a = refl

find-configure_where :
    (which : Owner → Bool) (u : Update) (owner : Owner) (ps : List Peer)
    → value_of (find_owner owner (configure_where which u ps)) ≡ (
        if which owner
        then given_or u.status (value_of (find_owner owner ps))
        else value_of (find_owner owner ps))
unfolding find_owner configure_where
find-configure_where which u owner [] = either_none (which owner) none
find-configure_where which u owner (p ∷ ps) =
    configured (which p.owner) u p owner (find_owner owner (configure_where which u ps))
    ∙ elim (Bool-cases (same_owner p.owner owner)) [
      | inl e ↦ rw (e, (same_owner_iff p.owner owner).0 e) refl
      | inr e ↦ rw e (find-configure_where which u owner ps)
    ]

find-save_peer :
    (owner : Owner) (ps : List Peer)
    → value_of (find_owner owner (map save_peer ps)) ≡ value_of (find_owner owner ps)
unfolding find_owner save_peer
find-save_peer owner [] = refl
find-save_peer owner (p ∷ ps) = elim (Bool-cases (same_owner p.owner owner)) [
  | inl e ↦ rw e refl
  | inr e ↦ rw e (find-save_peer owner ps)
]

process_updates-status :
    (owner : Owner) (l : PeersList) → status_of owner (process_updates l) ≡ status_of owner l
unfolding status_of process_updates save
process_updates-status owner l = elim (Bool-cases (has_changes l)) [
  | inl e ↦ rw e (
      find-save_peer owner (all_steps l).peers
      ∙ ap (λ ps. value_of (find_owner owner ps)) (all_steps-Follows l).peers)
  | inr e ↦ rw e refl
]

-- Each peer that an update is for has the status that is given, if one is, and the others keep theirs.
pub update_all-status :
    (which : Owner → Bool) (u : Update) (owner : Owner) (l : PeersList)
    → status_of owner (update_all which u l)
      ≡ (if which owner then given_or u.status (status_of owner l) else status_of owner l)
unfolding update_all status_of
update_all-status which u owner l =
    process_updates-status owner (record l { peers = configure_where which u l.peers })
    ∙ find-configure_where which u owner l.peers

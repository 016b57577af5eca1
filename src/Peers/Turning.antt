-- ===== src/Peers/Turning.antt =====
-- Which changes of status an update brings, and when it calls no listener
-- (uno/agent/uvn_peers_list.py, `update_all` and `_process_updates`).
use uno.Prelude.{
  ◌≡◌, refl, ap, ◌∙◌, inl, inr, Bool, true, false, not, ◌&&◌, Option, none, some, List, [], ◌∷◌,
  map, arith, if◌then◌else◌, Bool-cases, All,
}
use uno.Prelude.Dict.{is_some}
use uno.Peers.{Status, same_status, Owner, Peer, PeersList, select, assign, Tracked}
use uno.Peers.Configuring.{Update, configure, assign_if}
use uno.Peers.Queries.{local_peer, online_peer}
use uno.Peers.Processing.{turned}
use uno.Peers.Updating.{configure_where, update_all, process_updates, has_changes, save}
use uno.Peers.Following.{all_steps-Follows}
use uno.Peers.Noting.{IsClean, turned_peer, same_status_iff}

-- Whether an update gives a peer a status that it does not have.
abbrev pub gives : Status → Option Status → Peer → Bool
gives s none p = false
gives s (some t) p = same_status t s && not (same_status p.status.value s)

another_status :
    (s t c : Status)
    → (if same_status c t then false else same_status t s)
      ≡ (same_status t s && not (same_status c s))
another_status s t c = ground (arith, same_status_iff c t, same_status_iff t s, same_status_iff c s)

noted :
    (s v : Status) (t : Tracked Status) (c : Bool)
    → t.prev ≡ none
    → (is_some (if c then t else record { value = v; prev = some t.value }).prev
        && same_status (if c then t else record { value = v; prev = some t.value }).value s)
      ≡ (if c then false else same_status v s)
noted s v t true clean = ap (λ (o : Option Status). is_some o && same_status t.value s) clean
noted s v t false clean = refl

assign_if-gives :
    (s : Status) (v : Option Status) (p : Peer)
    → p.status.prev ≡ none
    → (is_some (assign_if same_status v p.status).prev
        && same_status (assign_if same_status v p.status).value s)
      ≡ gives s v p
unfolding assign_if assign
assign_if-gives s none p clean =
    ap (λ (o : Option Status). is_some o && same_status p.status.value s) clean
assign_if-gives s (some t) p clean =
    noted s t p.status (same_status p.status.value t) clean ∙ another_status s t p.status.value

configure-gives :
    (s : Status) (u : Update) (p : Peer)
    → IsClean p
    → turned_peer s (configure u p) ≡ gives s u.status p
unfolding configure
configure-gives s u p clean = assign_if-gives s u.status p clean.status

turned_if :
    (kind : Peer → Bool) (s : Status) (u : Update) (p : Peer) (c : Bool)
    → kind (configure u p) ≡ kind p
    → IsClean p
    → (kind (if c then configure u p else p) && turned_peer s (if c then configure u p else p))
      ≡ (kind p && (c && gives s u.status p))
turned_if kind s u p true same clean =
    ap (λ b. b && turned_peer s (configure u p)) same
    ∙ ap (λ b. kind p && b) (configure-gives s u p clean)
turned_if kind s u p false same clean =
    ap (λ (o : Option Status). kind p && (is_some o && same_status p.status.value s)) clean.status

owner_if : (c : Bool) (u : Update) (p : Peer) → (if c then configure u p else p).owner ≡ p.owner
unfolding configure
owner_if true u p = refl
owner_if false u p = refl

listed_if :
    (b c : Bool) (o : Owner) (p : Peer) (os : List Owner) (ps : List Peer)
    → b ≡ c
    → o ≡ p.owner
    → os ≡ map (λ (z : Peer). z.owner) ps
    → (if b then o ∷ os else os) ≡ map (λ (z : Peer). z.owner) (if c then p ∷ ps else ps)
listed_if true true o p os ps e f g = rw (f, g) refl
listed_if false false o p os ps e f g = g
listed_if true false o p os ps e f g = cc
listed_if false true o p os ps e f g = cc

-- From clean peers, the peers of a kind that turn to a status by an update are those among the
-- updated ones that had another status, if the update gives this one; they are listed in order.
pub turned_lem :
    (kind : Peer → Bool) (s : Status) (which : Owner → Bool) (u : Update) (ps : List Peer)
    → ((p : Peer) → kind (configure u p) ≡ kind p)
    → All IsClean ps
    → turned kind s (configure_where which u ps)
      ≡ map
          (λ (p : Peer). p.owner)
          (select (λ p. kind p && (which p.owner && gives s u.status p)) ps)
unfolding turned configure_where select
turned_lem kind s which u [] same clean = refl
turned_lem kind s which u (p ∷ ps) same clean =
    let ih = turned_lem kind s which u ps same clean.1 in
    listed_if _ _ _ p _ _ (turned_if kind s u p (which p.owner) (same p) clean.0)
      (owner_if (which p.owner) u p) ih

-- If the local peer is not online after an update, the update calls no listener.
pub update_all-quiet :
    (which : Owner → Bool) (u : Update) (l : PeersList)
    → online_peer (local_peer (record l { peers = configure_where which u l.peers })) ≡ false
    → (update_all which u l).calls ≡ l.calls
unfolding update_all process_updates save
update_all-quiet which u l off =
    let updated = record l { peers = configure_where which u l.peers } in
    elim (Bool-cases (has_changes updated)) [
      | inl e ↦ rw e ((all_steps-Follows updated).quiet off)
      | inr e ↦ rw e refl
    ]

-- ===== src/Agent/Handlers/Left.antt =====
-- uno/agent/agent.py: what one message leaves of a peer that has no handle.
use uno.Agent.Handlers.{
  stats_update, among, is_none, of_topic, offline_peers, handle, on_remote_writers_status,
  on_vpn_stats, owners, given_handles, cell_update, changed_handles, no_update, uvn_update,
  stats_status, vpn_stats, writers_status, instance_offline, is_discovery, is_handle, uvn_info,
  CellInfo, Handles, Topic, UvnInfo, cell_info, gone_offline, update_cell, Listening, Message,
  find_instance, on_cell_info, on_instance_offline, on_uvn_info, update_with,
}
use uno.Prelude.{
  ℕ, ◌≡◌, refl, ◌∙◌, inl, inr, Bool, true, false, ◌&&◌, Option, none, some, List, [], ◌∷◌, arith,
  ◌==◌, if◌then◌else◌, Bool-cases,
}
use mathlib.Core.Option
use uno.Prelude.Dict.{number_key, mem, get}
use uno.Peers.{
  Stats, Owner, owner_key, Peer, PeersList, Status, same_status, same_owner, same_owner_iff, select,
}
use uno.Peers.Configuring.{Update}
use uno.Peers.Queries.{find_owner}
use uno.Peers.Updating.{update_peer}
use uno.Agent.Handlers.Statuses.{status_of, given_or, update_all-status}

-- The middleware gave no instance and no writer for a peer.
abbrev pub HasNoHandle : Owner → Listening → Type 0
HasNoHandle owner s = ((s.handles owner).instance_of ≡ none) × ((s.handles owner).writer ≡ none)

-- A message is a sample that a peer published.
abbrev pub is_from : Owner → ℕ → Message → Bool
is_from owner name (cell_info d i w) =
    (d.uvn == name) && same_owner owner (Owner.of_cell d.cell false)
is_from owner name (uvn_info d i w) = (d.uvn == name) && same_owner owner Owner.of_uvn
is_from owner name (instance_offline topic i) = false
is_from owner name (writers_status topic ws) = false
is_from owner name (vpn_stats o stats) = false

-- The statistics of the VPNs speak of a peer, and give it this status.
abbrev pub stats_for : Owner → Listening → Message → Option Status
stats_for owner s (cell_info d i w) = none
stats_for owner s (uvn_info d i w) = none
stats_for owner s (instance_offline topic i) = none
stats_for owner s (writers_status topic ws) = none
stats_for owner s (vpn_stats o []) = none
stats_for owner s (vpn_stats o ((intf, (online_now, stats)) ∷ rest)) =
    if same_owner owner o then stats_status o online_now (find_owner o s.list.peers) else none

-- What one message leaves of a peer.
abbrev pub Left : Owner → Option Status → Listening → Listening → Type 0
Left owner given s s' =
    (status_of owner s'.list ≡ given_or given (status_of owner s.list))
    × (s'.handles owner ≡ s.handles owner)
    × (s'.uvn_name ≡ s.uvn_name)

same_owner_comm : (a b : Owner) → same_owner a b ≡ same_owner b a
same_owner_comm a b = ground (arith, same_owner_iff a b, same_owner_iff b a)

pub given_none : (o : Option Status) → o ≡ given_or none o
given_none none = refl
given_none (some t) = refl

unchanged : (owner : Owner) (s : Listening) → Left owner none s s
unchanged owner s = (given_none (status_of owner s.list), refl, refl)

update_peer-other :
    (owner o : Owner) (u : Update) (l : PeersList)
    → same_owner owner o ≡ false
    → status_of owner (update_peer o u l) ≡ given_or none (status_of owner l)
unfolding update_peer
update_peer-other owner o u l other =
    update_all-status _ u owner l ∙ rw other (given_none (status_of owner l))

update_with-Left :
    (owner o : Owner) (u : Update) (h : Handles) (s : Listening)
    → same_owner owner o ≡ false
    → Left owner none s (update_with o u h s)
unfolding update_with
update_with-Left owner o u h s other = (
  update_peer-other owner o (record u { others_change = changed_handles o h s }) s.list other,
  rw (same_owner_comm o owner, other) refl,
  refl,
)

update_cell-Left :
    (owner : Owner) (o : Option ℕ) (d : CellInfo) (i w : Option ℕ) (s : Listening)
    → ((k : ℕ) → o ≡ some k → same_owner owner (Owner.of_cell k false) ≡ false)
    → Left owner none s (update_cell o d i w s)
unfolding update_cell
update_cell-Left owner none d i w s h = unchanged owner s
update_cell-Left owner (some k) d i w s h =
    update_with-Left owner (Owner.of_cell k false) (cell_update d)
      (given_handles i w (some d.ts_start)) s (h k refl)

known_cell : {A : Type 0} (o : Option A) (n k : ℕ) → Option.map (λ _. n) o ≡ some k → n ≡ k
known_cell none n k h = cc
known_cell (some a) n k h = cc

on_cell_info-Left :
    (owner : Owner) (d : CellInfo) (i w : Option ℕ) (s : Listening)
    → is_from owner s.uvn_name (cell_info d i w) ≡ false
    → Left owner none s (on_cell_info d i w s)
unfolding on_cell_info
on_cell_info-Left owner d i w s h = elim (Bool-cases (d.uvn == s.uvn_name)) [
  | inr foreign ↦ rw foreign (unchanged owner s)
  | inl ours ↦ rw ours (
      update_cell-Left owner _ d i w s (λ k e.
        let same = known_cell (get s.list.uvn.cells d.cell) d.cell k e in
        let q : same_owner owner (Owner.of_cell d.cell false) ≡ false = ground arith in
        rw (← same) q))
]

on_uvn_info-Left :
    (owner : Owner) (d : UvnInfo) (i w : Option ℕ) (s : Listening)
    → is_from owner s.uvn_name (uvn_info d i w) ≡ false
    → Left owner none s (on_uvn_info d i w s)
unfolding on_uvn_info
on_uvn_info-Left owner d i w s h = elim (Bool-cases (d.uvn == s.uvn_name)) [
  | inr foreign ↦ rw foreign (unchanged owner s)
  | inl ours ↦
      rw ours (
        update_with-Left owner Owner.of_uvn (uvn_update d) (given_handles i w none) s
          (ground arith))
]

find_instance-some :
    (handles : Owner → Handles) (i : ℕ) (ps : List Peer) (o : Owner)
    → find_instance handles i ps ≡ some o
    → is_handle i (handles o).instance_of ≡ true
unfolding find_instance
find_instance-some handles i [] o h = cc
find_instance-some handles i (p ∷ ps) o h =
    elim (Bool-cases (is_handle i (handles p.owner).instance_of)) [
      | inl e ↦ (let q = rw e at h in let same : p.owner ≡ o = cc in rw (← same) e)
      | inr e ↦ find_instance-some handles i ps o (let q = rw e at h in q)
    ]

gone_offline-Left :
    (owner : Owner) (o : Option Owner) (s : Listening)
    → ((a : Owner) → o ≡ some a → same_owner owner a ≡ false)
    → Left owner none s (gone_offline o s)
unfolding gone_offline
gone_offline-Left owner none s h = unchanged owner s
gone_offline-Left owner (some a) s h = (
  update_peer-other owner a (record no_update { status = some Status.offline }) s.list (h a refl),
  refl,
  refl,
)

on_instance_offline-Left :
    (owner : Owner) (topic : Topic) (i : ℕ) (s : Listening)
    → HasNoHandle owner s
    → Left owner none s (on_instance_offline topic i s)
unfolding on_instance_offline
on_instance_offline-Left owner topic i s none_yet = elim (Bool-cases (is_discovery topic)) [
  | inr e ↦ rw e (unchanged owner s)
  | inl e ↦ rw e (
      gone_offline-Left owner (find_instance s.handles i s.list.peers) s (λ a found.
        elim (Bool-cases (same_owner owner a)) [
          | inr other ↦ other
          | inl same ↦
              (let q = find_instance-some s.handles i s.list.peers a found in
                let r = rw (← (same_owner_iff owner a).0 same) at q in
                let z = rw none_yet.0 at r in cc)
        ]))
]

-- Peers that are marked as active again have a writer.
back_has_writer :
    (topic : Topic) (ws : List ℕ) (handles : Owner → Handles) (owner : Owner) (ps : List Peer)
    → (handles owner).writer ≡ none
    → mem
        (owners (
          select
            (λ p.
              (of_topic topic p.owner && among ws (handles p.owner).writer)
              && same_status p.status.value Status.offline)
            ps))
        owner
      ≡ false
unfolding select
back_has_writer topic ws handles owner [] h = refl
back_has_writer topic ws handles owner (p ∷ ps) h =
    let ih = back_has_writer topic ws handles owner ps h in
    elim (Bool-cases (same_owner p.owner owner)) [
      | inl same ↦
          (let e = (same_owner_iff p.owner owner).0 same in
            let silent : among ws (handles p.owner).writer ≡ false = rw (e, h) refl in
            ground (arith, ih, silent))
      | inr other ↦ ground (arith, ih, other)
    ]

on_remote_writers_status-Left :
    (owner : Owner) (topic : Topic) (ws : List ℕ) (s : Listening)
    → HasNoHandle owner s
    → Left owner none s (on_remote_writers_status topic ws s)
unfolding on_remote_writers_status offline_peers
on_remote_writers_status-Left owner topic ws s none_yet =
    elim (Bool-cases (is_none (offline_peers topic ws s))) [
      | inl e ↦ rw e (unchanged owner s)
      | inr e ↦ rw e (
        update_all-status (mem (owners (offline_peers topic ws s)))
              (record no_update { status = some Status.online }) owner s.list
            ∙ rw (back_has_writer topic ws s.handles owner s.list.peers none_yet.1)
                (given_none (status_of owner s.list)),
        refl,
        refl,
      )
    ]

on_vpn_stats-Left :
    (owner o : Owner) (stats : List (ℕ × (Bool × Stats))) (s : Listening)
    → Left owner (stats_for owner s (vpn_stats o stats)) s (on_vpn_stats o stats s)
unfolding on_vpn_stats update_peer
on_vpn_stats-Left owner o [] s = unchanged owner s
on_vpn_stats-Left owner o ((intf, (online_now, stats)) ∷ rest) s =
    elim (Bool-cases (same_owner owner o)) [
      | inl e ↦ rw e (
        update_all-status (λ a. same_owner a o)
              (stats_update o online_now ((intf, (online_now, stats)) ∷ rest) s) owner s.list
            ∙ rw e refl,
        refl,
        refl,
      )
      | inr e ↦ rw e (
        update_all-status (λ a. same_owner a o)
              (stats_update o online_now ((intf, (online_now, stats)) ∷ rest) s) owner s.list
            ∙ rw e (given_none (status_of owner s.list)),
        refl,
        refl,
      )
    ]

pub handle-Left :
    (owner : Owner) (m : Message) (s : Listening)
    → HasNoHandle owner s
    → is_from owner s.uvn_name m ≡ false
    → Left owner (stats_for owner s m) s (handle m s)
unfolding handle
handle-Left owner (cell_info d i w) s h f = on_cell_info-Left owner d i w s f
handle-Left owner (uvn_info d i w) s h f = on_uvn_info-Left owner d i w s f
handle-Left owner (instance_offline topic i) s h f = on_instance_offline-Left owner topic i s h
handle-Left owner (writers_status topic ws) s h f = on_remote_writers_status-Left owner topic ws s h
handle-Left owner (vpn_stats o stats) s h f = on_vpn_stats-Left owner o stats s

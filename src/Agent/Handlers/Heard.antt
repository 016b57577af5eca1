-- ===== src/Agent/Handlers/Heard.antt =====
-- uno/agent/agent.py: which messages change the status of a peer that has no handle.
use uno.Agent.Handlers.Left.{given_none, handle-Left, HasNoHandle, Left, is_from, stats_for}
use uno.Peers.Noting.{same_status_iff}
use uno.Agent.Handlers.{
  handle_all, handle, stats_status, vpn_stats, writers_status, instance_offline, uvn_info,
  cell_info, Listening, Message,
}
use uno.Prelude.{
  ℕ, ◌≡◌, refl, sym, ap, ◌∙◌, ◌≢◌, inl, inr, Bool, true, false, Option, none, some, List, [], ◌∷◌,
  arith, Bool-cases, All,
}
use mathlib.Core.Option
use uno.Prelude.Dict.{number_key}
use uno.Peers.{Owner, owner_key, Peer, Status, same_status, same_owner, same_owner_iff}
use uno.Peers.Queries.{find_owner}
use uno.Agent.Handlers.Statuses.{status_of, given_or}

abbrev pub is_particle_owner : Owner → Bool
is_particle_owner Owner.of_uvn = false
is_particle_owner (Owner.of_cell i e) = false
is_particle_owner (Owner.of_particle i e) = true

Left-HasNoHandle :
    (owner : Owner) (given : Option Status) (s s' : Listening)
    → Left owner given s s'
    → HasNoHandle owner s
    → HasNoHandle owner s'
Left-HasNoHandle owner given s s' l h = rw l.1 h

stats_status-none :
    (o : Owner) (b : Bool) (p : Option Peer)
    → is_particle_owner o ≡ false
    → stats_status o b p ≡ none
unfolding stats_status
stats_status-none Owner.of_uvn b p h = refl
stats_status-none (Owner.of_cell i e) b p h = refl
stats_status-none (Owner.of_particle i e) b p h = cc

no_stats :
    (owner : Owner) (m : Message) (s : Listening)
    → is_particle_owner owner ≡ false
    → stats_for owner s m ≡ none
no_stats owner (cell_info d i w) s h = refl
no_stats owner (uvn_info d i w) s h = refl
no_stats owner (instance_offline topic i) s h = refl
no_stats owner (writers_status topic ws) s h = refl
no_stats owner (vpn_stats o []) s h = refl
no_stats owner (vpn_stats o ((intf, (b, stats)) ∷ rest)) s h =
    elim (Bool-cases (same_owner owner o)) [
      | inr e ↦ rw e refl
      | inl e ↦ rw e (
          stats_status-none o b (find_owner o s.list.peers) (rw (← (same_owner_iff owner o).0 e) h))
    ]

particle_status :
    (i : ℕ) (e b : Bool) (p : Option Peer)
    → Option.map (λ (q : Peer). q.status.value) p ≢ some Status.offline
    → given_or
        (stats_status (Owner.of_particle i e) b p)
        (Option.map (λ (q : Peer). q.status.value) p)
      ≢ some Status.offline
unfolding stats_status
particle_status i e true none on h = cc
particle_status i e true (some p) on h = cc
particle_status i e false none on h = cc
particle_status i e false (some p) on h =
    elim (Bool-cases (same_status p.status.value Status.offline)) [
      | inl off ↦ on (ap some ((same_status_iff p.status.value Status.offline).0 off))
      | inr other ↦ on (let q = rw other at h in q)
    ]

particle_stats :
    (i : ℕ) (e : Bool) (m : Message) (s : Listening)
    → status_of (Owner.of_particle i e) s.list ≢ some Status.offline
    → given_or (stats_for (Owner.of_particle i e) s m) (status_of (Owner.of_particle i e) s.list)
      ≢ some Status.offline
unfolding status_of
particle_stats i e (cell_info d j w) s on h = on (given_none _ ∙ h)
particle_stats i e (uvn_info d j w) s on h = on (given_none _ ∙ h)
particle_stats i e (instance_offline topic j) s on h = on (given_none _ ∙ h)
particle_stats i e (writers_status topic ws) s on h = on (given_none _ ∙ h)
particle_stats i e (vpn_stats o []) s on h = on (given_none _ ∙ h)
particle_stats i e (vpn_stats o ((intf, (b, stats)) ∷ rest)) s on h =
    elim (Bool-cases (same_owner (Owner.of_particle i e) o)) [
      | inr f ↦ on (let q = rw f at h in given_none _ ∙ q)
      | inl f ↦
          (let q = rw f at h in
            let r = rw (← (same_owner_iff (Owner.of_particle i e) o).0 f) at q in
            particle_status i e b (find_owner (Owner.of_particle i e) s.list.peers) on r)
    ]

not_from_particle :
    (i : ℕ) (e : Bool) (name : ℕ) (m : Message) → is_from (Owner.of_particle i e) name m ≡ false
not_from_particle i e name (cell_info d j w) = ground arith
not_from_particle i e name (uvn_info d j w) = ground arith
not_from_particle i e name (instance_offline topic j) = refl
not_from_particle i e name (writers_status topic ws) = refl
not_from_particle i e name (vpn_stats o stats) = refl

-- As long as no sample of a cell or of the registry came, which therefore has no instance and no
-- writer, no messages change its status: neither the end of instances, nor the writers that are
-- online, nor the statistics of VPNs, nor the samples of others or of other UVNs.
pub handle_all-unheard :
    (owner : Owner) (ms : List Message) (s : Listening)
    → is_particle_owner owner ≡ false
    → HasNoHandle owner s
    → All (λ m. is_from owner s.uvn_name m ≡ false) ms
    → status_of owner (handle_all ms s).list ≡ status_of owner s.list
unfolding handle_all
handle_all-unheard owner [] s kind h silent = refl
handle_all-unheard owner (m ∷ ms) s kind h silent =
    let l = handle-Left owner m s h silent.0 in
    handle_all-unheard owner ms (handle m s) kind (Left-HasNoHandle owner _ s (handle m s) l h)
      (rw l.2 silent.1)
    ∙ l.0
    ∙ rw (no_stats owner m s kind) (sym (given_none (status_of owner s.list)))

-- A particle that has no handle, as none ever gets one, and is not offline, is not offline after any
-- messages, also where the statistics of the VPNs show that it is not connected any more.
pub handle_all-particle :
    (i : ℕ) (e : Bool) (ms : List Message) (s : Listening)
    → HasNoHandle (Owner.of_particle i e) s
    → status_of (Owner.of_particle i e) s.list ≢ some Status.offline
    → status_of (Owner.of_particle i e) (handle_all ms s).list ≢ some Status.offline
unfolding handle_all
handle_all-particle i e [] s h on = on
handle_all-particle i e (m ∷ ms) s h on =
    let l = handle-Left (Owner.of_particle i e) m s h (not_from_particle i e s.uvn_name m) in
    handle_all-particle i e ms (handle m s)
      (Left-HasNoHandle (Owner.of_particle i e) _ s (handle m s) l h)
      (λ off. particle_stats i e m s on (sym l.0 ∙ off))

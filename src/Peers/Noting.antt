-- ===== src/Peers/Noting.antt =====
-- What an update of a peer notes of its changes (`configure`, uno/registry/versioned.py, of a
-- `UvnPeer`).
use mathlib.Core.Path.{subst}
use uno.Prelude.{
  not, ◌==◌, any, ℕ, suc, ◌≡◌, refl, sym, ap, ◌∙◌, ◌≢◌, ◌↔◌, ◌⊎◌, inl, inr, Bool, true, false, ◌&&◌,
  ◌||◌, Option, none, some, List, [], ◌∷◌, map, arith, if◌then◌else◌, Bool-cases, All,
}
use uno.Prelude.Dict.{is_some}
use uno.Uvn.{is_empty}
use uno.Peers.{
  same_bool, Stats, same_lan, IntfStatus, LanStatus, declared, online, offline, lan_key, Status,
  same_status, Tracked, Lan, Owner, Peer, same_set,
}
use uno.Peers.Queries.{is_online}
use uno.Peers.Configuring.{
  same_stats, or_new_intf, or_new_lan, configure_intfs, configure_known_networks, configure_lans,
  configure_vpn_interfaces, find_intf, find_lan, set_reachable, set_stats, keep, reset, give, give,
  Update, Given, configure, assign_if, changes, set_registry_id, registry_id_changes,
}
use uno.Peers.Processing.{turned}
use uno.Peers.Updating.{saved_value, configure_where, is_dirty, save_peer}

some-injective : {A : Type 0} {a b : A} → some a ≡ some b → a ≡ b
some-injective e = cc

-- No change of the network, or of the interface, is noted.
abbrev pub IsCleanLan : LanStatus → Type 0
IsCleanLan n = (n.reachable.prev ≡ none) × (n.unsaved ≡ false)

abbrev pub IsCleanIntf : IntfStatus → Type 0
IsCleanIntf s = (s.online.prev ≡ none) × (s.unsaved ≡ false)

-- No change of the peer is noted, nor of what it has.
pub record IsClean (p : Peer) : Type 0 where
  pub status : p.status.prev ≡ none
  pub registry_id : p.registry_id.prev ≡ none
  pub routed_networks : p.routed_networks.prev ≡ none
  pub lans : All IsCleanLan p.known_networks
  pub intfs : All IsCleanIntf p.vpn_interfaces
  pub saved : p.unsaved ≡ false

pub same_status_iff : (s t : Status) → (same_status s t ≡ true) ↔ (s ≡ t)
same_status_iff declared declared = ground arith
same_status_iff declared online = ground arith
same_status_iff declared offline = ground arith
same_status_iff online declared = ground arith
same_status_iff online online = ground arith
same_status_iff online offline = ground arith
same_status_iff offline declared = ground arith
same_status_iff offline online = ground arith
same_status_iff offline offline = ground arith

-- An assignment notes the change, or changes nothing.
assign_if-noted :
    {A : Type 0} (same : A → A → Bool) (v : Option A) (t : Tracked A)
    → ((changes same v t ≡ false) × (assign_if same v t ≡ t))
      ⊎ ((changes same v t ≡ true)
          × ((a : A) × (v ≡ some a)
              × (assign_if same v t ≡ record { value = a; prev = some t.value })))
unfolding changes assign_if
assign_if-noted same none t = inl (refl, refl)
assign_if-noted same (some a) t = elim (Bool-cases (same t.value a)) [
  | inl e ↦ inl (rw e refl, rw e refl)
  | inr e ↦ inr (rw e refl, (a, refl, rw e refl))
]

set_registry_id-noted :
    (g : Given ℕ) (t : Tracked (Option ℕ))
    → registry_id_changes g t ≡ false
    → t.prev ≡ none
    → (set_registry_id g t).prev ≡ none
unfolding set_registry_id registry_id_changes
set_registry_id-noted keep t same clean = clean
set_registry_id-noted reset t same clean = clean
set_registry_id-noted (give i) t same clean = ground arith

pub neither : (x y : Bool) → (x || y) ≡ false → (x ≡ false) × (y ≡ false)
neither true y h = cc
neither false y h = (refl, h)

set_reachable-IsCleanLan :
    (b : Bool) (o : Option LanStatus) (lan : Lan)
    → ((n : LanStatus) → o ≡ some n → IsCleanLan n)
    → (set_reachable b (or_new_lan o lan)).unsaved ≡ false
    → IsCleanLan (set_reachable b (or_new_lan o lan))
unfolding set_reachable or_new_lan
set_reachable-IsCleanLan b none lan clean h = cc
set_reachable-IsCleanLan b (some n) lan clean h =
    let (was, kept) = neither n.unsaved (not (same_bool n.reachable.value b)) h in
    (ground (arith, (clean n refl).0, kept), h)

find_lan-IsCleanLan :
    (ns : List LanStatus) (lan : Lan) (n : LanStatus)
    → All IsCleanLan ns
    → find_lan ns lan ≡ some n
    → IsCleanLan n
unfolding find_lan
find_lan-IsCleanLan [] lan n clean h = cc
find_lan-IsCleanLan (m ∷ ns) lan n clean h = elim (Bool-cases (same_lan m.lan lan)) [
  | inl e ↦ let same : some m ≡ some n = rw e at h in subst IsCleanLan (some-injective same) clean.0
  | inr e ↦ find_lan-IsCleanLan ns lan n clean.1 (rw e at h)
]

configure_lans-IsCleanLan :
    (known : List LanStatus) (lans : List (Lan × Bool))
    → All IsCleanLan known
    → any (λ (n : LanStatus). n.unsaved) (configure_lans known lans) ≡ false
    → All IsCleanLan (configure_lans known lans)
unfolding configure_lans
configure_lans-IsCleanLan known [] clean h = tt
configure_lans-IsCleanLan known ((lan, b) ∷ lans) clean h =
    let (here, later) =
      neither (set_reachable b (or_new_lan (find_lan known lan) lan)).unsaved
        (any (λ (n : LanStatus). n.unsaved) (configure_lans known lans)) h in
    (
      set_reachable-IsCleanLan b (find_lan known lan) lan
          (λ n e. find_lan-IsCleanLan known lan n clean e) here,
      configure_lans-IsCleanLan known lans clean later,
    )

set_stats-IsCleanIntf :
    (b : Bool) (stats : Stats) (o : Option IntfStatus) (intf : ℕ)
    → ((s : IntfStatus) → o ≡ some s → IsCleanIntf s)
    → (set_stats b stats (or_new_intf o intf)).unsaved ≡ false
    → IsCleanIntf (set_stats b stats (or_new_intf o intf))
unfolding set_stats or_new_intf
set_stats-IsCleanIntf b stats none intf clean h = cc
set_stats-IsCleanIntf b stats (some s) intf clean h =
    let (was, kept) =
      neither s.unsaved (not (same_bool s.online.value b && same_stats s.stats stats)) h in
    (ground (arith, (clean s refl).0, kept), h)

find_intf-IsCleanIntf :
    (ss : List IntfStatus) (intf : ℕ) (s : IntfStatus)
    → All IsCleanIntf ss
    → find_intf ss intf ≡ some s
    → IsCleanIntf s
unfolding find_intf
find_intf-IsCleanIntf [] intf s clean h = cc
find_intf-IsCleanIntf (r ∷ ss) intf s clean h = elim (Bool-cases (r.intf == intf)) [
  | inl e ↦
      let same : some r ≡ some s = rw e at h in subst IsCleanIntf (some-injective same) clean.0
  | inr e ↦ find_intf-IsCleanIntf ss intf s clean.1 (rw e at h)
]

configure_intfs-IsCleanIntf :
    (known : List IntfStatus) (stats : List (ℕ × (Bool × Stats)))
    → All IsCleanIntf known
    → any (λ (s : IntfStatus). s.unsaved) (configure_intfs known stats) ≡ false
    → All IsCleanIntf (configure_intfs known stats)
unfolding configure_intfs
configure_intfs-IsCleanIntf known [] clean h = tt
configure_intfs-IsCleanIntf known ((intf, (b, st)) ∷ stats) clean h =
    let (here, later) =
      neither (set_stats b st (or_new_intf (find_intf known intf) intf)).unsaved
        (any (λ (s : IntfStatus). s.unsaved) (configure_intfs known stats)) h in
    (
      set_stats-IsCleanIntf b st (find_intf known intf) intf
          (λ s e. find_intf-IsCleanIntf known intf s clean e) here,
      configure_intfs-IsCleanIntf known stats clean later,
    )

lans-IsCleanLan :
    (given : Option (List (Lan × Bool))) (known : List LanStatus)
    → All IsCleanLan known
    → any (λ (n : LanStatus). n.unsaved) (configure_known_networks given known) ≡ false
    → All IsCleanLan (configure_known_networks given known)
unfolding configure_known_networks
lans-IsCleanLan none known clean h = clean
lans-IsCleanLan (some lans) known clean h = configure_lans-IsCleanLan known lans clean h

intfs-IsCleanIntf :
    (given : Option (List (ℕ × (Bool × Stats)))) (known : List IntfStatus)
    → All IsCleanIntf known
    → any (λ (s : IntfStatus). s.unsaved) (configure_vpn_interfaces given known) ≡ false
    → All IsCleanIntf (configure_vpn_interfaces given known)
unfolding configure_vpn_interfaces
intfs-IsCleanIntf none known clean h = clean
intfs-IsCleanIntf (some stats) known clean h = configure_intfs-IsCleanIntf known stats clean h

-- If nothing of a clean peer is to be saved after an update, it is still clean.
pub configure-IsClean :
    (u : Update) (p : Peer)
    → IsClean p
    → (configure u p).unsaved ≡ false
    → any (λ (n : LanStatus). n.unsaved) (configure u p).known_networks ≡ false
    → any (λ (s : IntfStatus). s.unsaved) (configure u p).vpn_interfaces ≡ false
    → IsClean (configure u p)
unfolding configure
configure-IsClean u p h unsaved no_lan no_intf = record {
  lans = lans-IsCleanLan u.known_networks p.known_networks h.lans no_lan;
  intfs = intfs-IsCleanIntf u.vpn_interfaces p.vpn_interfaces h.intfs no_intf;
  saved = unsaved;
  status = elim (assign_if-noted same_status u.status p.status) [
    | inl (no_change, same) ↦ ap (λ (t : Tracked Status). t.prev) same ∙ h.status
    | inr (change, rest) ↦ ground arith
  ];
  registry_id = set_registry_id-noted u.registry_id p.registry_id (ground arith) h.registry_id;
  routed_networks = elim (assign_if-noted (same_set) u.routed_networks p.routed_networks) [
    | inl (no_change, same) ↦ ap (λ (t : Tracked (List Lan)). t.prev) same ∙ h.routed_networks
    | inr (change, rest) ↦ ground arith
  ];
}

-- The number of peers of a list that pass a test.
abbrev pub count : (Peer → Bool) → List Peer → ℕ
count test [] = 0
count test (p ∷ ps) = let rest = count test ps in if test p then suc rest else rest

turned_to :
    (u : Update) (s : Status)
    → u.status ≢ some declared
    → u.status ≡ some s
    → same_status s offline ≡ false
    → same_status s online ≡ false
    → ⊥
turned_to u declared undeclared given gone new = undeclared given
turned_to u online undeclared given gone new = cc
turned_to u offline undeclared given gone new = cc

-- Whether a peer turned to a status.
abbrev pub turned_peer : Status → Peer → Bool
turned_peer s p = is_some p.status.prev && same_status p.status.value s

-- A clean peer that is not among those that turned online or offline has the status that it had, if
-- the update does not declare it.
unturned :
    (u : Update) (p : Peer)
    → u.status ≢ some declared
    → turned_peer offline (configure u p) ≡ false
    → turned_peer online (configure u p) ≡ false
    → (configure u p).status.value ≡ p.status.value
unfolding configure
unturned u p undeclared gone new = elim (assign_if-noted same_status u.status p.status) [
  | inl (no_change, same) ↦ ap (λ (t : Tracked Status). t.value) same
  | inr (change, (s, given, e)) ↦
      let at = λ (r : Status).
        ap (λ (t : Tracked Status). is_some t.prev && same_status t.value r) (sym e) in
      absurd (turned_to u s undeclared given (at offline ∙ gone) (at online ∙ new))
]

unchanged :
    (kind : Peer → Bool) (u : Update) (p : Peer) (c : Bool)
    → u.status ≢ some declared
    → ((r : Peer) → kind (configure u r) ≡ kind r)
    → (kind (if c then configure u p else p) ≡ true
        → turned_peer offline (if c then configure u p else p) ≡ false)
    → (kind (if c then configure u p else p) ≡ true
        → turned_peer online (if c then configure u p else p) ≡ false)
    → (kind (if c then configure u p else p) && is_online (if c then configure u p else p))
      ≡ (kind p && is_online p)
unchanged kind u p false undeclared same gone new = refl
unchanged kind u p true undeclared same gone new = elim (Bool-cases (kind (configure u p))) [
  | inl k ↦
      let v = unturned u p undeclared (gone k) (new k) in
      ap (λ b. b && is_online (configure u p)) (same p) ∙ ap (λ s. kind p && same_status s online) v
  | inr k ↦
      let k' = sym (same p) ∙ k in
      ap (λ b. b && is_online (configure u p)) k ∙ ap (λ b. b && is_online p) (sym k')
]

empty_if :
    (c : Bool) (o : Owner) (rest : List Owner)
    → is_empty (if c then o ∷ rest else rest) ≡ true
    → (c ≡ false) × (is_empty rest ≡ true)
unfolding is_empty
empty_if true o rest h = cc
empty_if false o rest h = (refl, h)

turned-empty :
    (kind : Peer → Bool) (s : Status) (p : Peer) (ps : List Peer)
    → is_empty (turned kind s (p ∷ ps)) ≡ true
    → ((kind p ≡ true) → turned_peer s p ≡ false) × (is_empty (turned kind s ps) ≡ true)
unfolding turned
turned-empty kind s p ps h =
    let (here, later) = empty_if (kind p && turned_peer s p) p.owner (turned kind s ps) h in
    (λ k. ground arith, later)

-- Clean peers did not turn.
pub clean-turned :
    (kind : Peer → Bool) (s : Status) (ps : List Peer)
    → All IsClean ps
    → is_empty (turned kind s ps) ≡ true
unfolding turned is_empty
clean-turned kind s [] clean = refl
clean-turned kind s (p ∷ ps) clean =
    let none_here = clean.0.status in
    let later = clean-turned kind s ps clean.1 in
    let here : (kind p && turned_peer s p) ≡ false = ground arith in rw here later

count-cons :
    (test : Peer → Bool) (p q : Peer) (ps qs : List Peer)
    → test q ≡ test p
    → count test qs ≡ count test ps
    → count test (q ∷ qs) ≡ count test (p ∷ ps)
count-cons test p q ps qs same h = rw (same, h) refl

-- Where no peer of a kind turned online or offline, as many of a narrower kind are online as before.
module _ (kind narrow : Peer → Bool) (within : (p : Peer) → narrow p ≡ true → kind p ≡ true)
    (which : Owner → Bool) (u : Update) (undeclared : u.status ≢ some declared)
    (same : (p : Peer) → narrow (configure u p) ≡ narrow p) where
  pub count-configure_where :
      (ps : List Peer)
      → is_empty (turned kind offline (configure_where which u ps)) ≡ true
      → is_empty (turned kind online (configure_where which u ps)) ≡ true
      → count (λ p. narrow p && is_online p) (configure_where which u ps)
        ≡ count (λ p. narrow p && is_online p) ps
  unfolding configure_where
  count-configure_where [] gone new = refl
  count-configure_where (p ∷ ps) gone new =
      let q = if which p.owner then configure u p else p in
      let qs = configure_where which u ps in
      let (not_gone, gone') = turned-empty kind offline q qs gone in
      let (not_new, new') = turned-empty kind online q qs new in
      count-cons (λ r. narrow r && is_online r) p q ps qs
        (unchanged narrow u p (which p.owner) undeclared same (λ k. not_gone (within q k))
          (λ k. not_new (within q k)))
        (count-configure_where ps gone' new')

still-IsClean :
    (u : Update) (p : Peer) (c : Bool)
    → IsClean p
    → is_dirty (if c then configure u p else p) ≡ false
    → IsClean (if c then configure u p else p)
unfolding is_dirty
still-IsClean u p true clean h =
    let q = configure u p in
    let lan = any (λ (n : LanStatus). n.unsaved) q.known_networks in
    let intf = any (λ (s : IntfStatus). s.unsaved) q.vpn_interfaces in
    let (above, no_intf) = neither (q.unsaved || lan) intf h in
    let (here, no_lan) = neither q.unsaved lan above in
    configure-IsClean u p clean here no_lan no_intf
still-IsClean u p false clean h = clean

-- If nothing is to be saved, the peers are clean.
pub configure_where-IsClean :
    (which : Owner → Bool) (u : Update) (ps : List Peer)
    → All IsClean ps
    → any is_dirty (configure_where which u ps) ≡ false
    → All IsClean (configure_where which u ps)
unfolding configure_where
configure_where-IsClean which u [] clean h = tt
configure_where-IsClean which u (p ∷ ps) clean h =
    let q = if which p.owner then configure u p else p in
    let (here, later) = neither (is_dirty q) (any is_dirty (configure_where which u ps)) h in
    (
      still-IsClean u p (which p.owner) clean.0 here,
      configure_where-IsClean which u ps clean.1 later,
    )

saved-IsCleanLan :
    (ns : List LanStatus)
    → All IsCleanLan (
        map
          (λ (n : LanStatus). record n { reachable = saved_value n.reachable; unsaved = false })
          ns)
saved-IsCleanLan [] = tt
saved-IsCleanLan (n ∷ ns) = ((refl, refl), saved-IsCleanLan ns)

saved-IsCleanIntf :
    (ss : List IntfStatus)
    → All IsCleanIntf
        (map (λ (s : IntfStatus). record s { online = saved_value s.online; unsaved = false }) ss)
saved-IsCleanIntf [] = tt
saved-IsCleanIntf (s ∷ ss) = ((refl, refl), saved-IsCleanIntf ss)

-- What is saved is clean.
pub save_peer-IsClean : (ps : List Peer) → All IsClean (map save_peer ps)
unfolding save_peer
save_peer-IsClean [] = tt
save_peer-IsClean (p ∷ ps) = (
  record {
    status = refl;
    registry_id = refl;
    routed_networks = refl;
    lans = saved-IsCleanLan p.known_networks;
    intfs = saved-IsCleanIntf p.vpn_interfaces;
    saved = refl;
  },
  save_peer-IsClean ps,
)

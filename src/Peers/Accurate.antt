-- ===== src/Peers/Accurate.antt =====
-- The flag of the list of peers that tells whether all cells are online
-- (uno/agent/uvn_peers_list.py, `update_all` and `_process_updates`).
use uno.Prelude.{
  any, ℕ, ◌≡◌, refl, sym, ap, ◌∙◌, ◌≢◌, Bool, true, false, not, ◌&&◌, some, List, [], ◌∷◌, map,
  arith, ◌==◌, if◌then◌else◌, length, All,
}
use uno.Uvn.{Uvn, is_empty}
use uno.Peers.{Status, Owner, Peer, PeersList, Event, same_bool, is_cell, is_excluded, select}
use uno.Peers.Configuring.{Update, configure}
use uno.Peers.Queries.{cells, online_cells, notify, is_online, some_of}
use uno.Peers.Processing.{
  process_vpn, process_cells, check_cells_connected, process_particles, process_registry,
  process_routed, process_config, process_local_reachable, process_remote_reachable,
  check_fully_routed, turned,
}
use uno.Peers.Updating.{
  configure_where, update_all, process_updates, has_changes, save, save_peer, is_dirty,
}
use uno.Peers.Following.{
  Follows, Follows-refl, Follows-trans, notify-Follows, same_through, process_vpn-along,
  process_cells-along, process_particles-along, process_registry-along, process_routed-along,
  process_config-along, process_reachable-along, check_fully_routed-along,
}
use uno.Peers.Noting.{
  IsClean, count, count-configure_where, clean-turned, configure_where-IsClean, save_peer-IsClean,
  neither,
}

abbrev pub all_online : PeersList → Bool
all_online l = length (online_cells l) == length l.uvn.cells

-- Between updates: no change of the list is noted, nor of a peer or of what it has, and the flag says whether as many cells are online
-- as the UVN has.
pub record IsAccurate (l : PeersList) : Type 0 where
  pub clean : All IsClean l.peers
  pub saved : l.unsaved ≡ false
  pub connected : l.status_all_cells_connected ≡ all_online l

is_included : Peer → Bool
is_included p = is_cell p && not (is_excluded p)

length-select : (test : Peer → Bool) (ps : List Peer) → length (select test ps) ≡ count test ps
unfolding select
length-select test [] = refl
length-select test (p ∷ ps) = let ih = length-select test ps in ground arith

select-select :
    (f g : Peer → Bool) (ps : List Peer) → select f (select g ps) ≡ select (λ p. g p && f p) ps
unfolding select
select-select f g [] = refl
select-select f g (p ∷ ps) = let ih = select-select f g ps in ground arith

online_cells-count :
    (l : PeersList) → length (online_cells l) ≡ count (λ p. is_included p && is_online p) l.peers
unfolding online_cells cells is_included
online_cells-count l =
    ap length (select-select is_online is_included l.peers)
    ∙ length-select (λ p. is_included p && is_online p) l.peers

-- Lists with the same peers and UVN agree on whether all are online.
all_online-eq :
    (k l : PeersList)
    → k.uvn ≡ l.uvn
    → count (λ p. is_included p && is_online p) k.peers
      ≡ count (λ p. is_included p && is_online p) l.peers
    → all_online k ≡ all_online l
all_online-eq k l u h =
    let e = online_cells-count k ∙ h ∙ sym (online_cells-count l) in
    ap (λ n. n == length k.uvn.cells) e
    ∙ ap (λ (v : Uvn). length (online_cells l) == length v.cells) u

same_bool-eq : (b c : Bool) → same_bool b c ≡ true → c ≡ b
same_bool-eq b c h = ground arith

by_test :
    {A B : Type 0} (c : Bool) (f : A → B) (x y : A) {v : B}
    → (c ≡ true → f x ≡ v)
    → (c ≡ false → f y ≡ v)
    → f (if c then x else y) ≡ v
by_test true f x y h k = h refl
by_test false f x y h k = k refl

flag : PeersList → Bool
flag l = l.status_all_cells_connected

-- The check sets the flag.
check_cells_connected-flag : (l : PeersList) → flag (check_cells_connected l) ≡ all_online l
unfolding check_cells_connected flag
check_cells_connected-flag l =
    by_test (same_bool (all_online l) l.status_all_cells_connected) flag l _
      (λ e. same_bool-eq _ _ e)
      (λ e.
        same_through flag Event.all_cells_connected
          (record l { status_all_cells_connected = all_online l }) (λ cs. refl))

included_online : List Peer → ℕ
included_online ps = count (λ p. is_included p && is_online p) ps

notify-all_online : (e : Event) (l : PeersList) → all_online (notify e l) ≡ all_online l
unfolding included_online
notify-all_online e l =
    let f = notify-Follows e l in all_online-eq (notify e l) l f.uvn (ap included_online f.peers)

process_cells-flag :
    (l : PeersList)
    → (is_empty (turned is_cell Status.offline l.peers) ≡ true
        → is_empty (turned is_cell Status.online l.peers) ≡ true
        → flag l ≡ all_online l)
    → flag (process_cells l) ≡ all_online l
unfolding process_cells
process_cells-flag l h =
    let gone = turned is_cell Status.offline l.peers in
    let new = turned is_cell Status.online l.peers in
    let k = notify (Event.online_cells new gone) l in
    by_test (some_of gone new) flag (check_cells_connected k) l
      (λ e. check_cells_connected-flag k ∙ notify-all_online _ l)
      (λ e. h (ground arith) (ground arith))

-- `Keeps k l`: the later list has the peers, the UVN and the flag of the earlier one.
Keeps : PeersList → PeersList → Type 0
Keeps k l = (l.peers ≡ k.peers) × (l.uvn ≡ k.uvn) × (flag l ≡ flag k)

Keeps-refl : (l : PeersList) → Keeps l l
unfolding Keeps
Keeps-refl l = (refl, refl, refl)

Keeps-trans : (k l m : PeersList) → Keeps k l → Keeps l m → Keeps k m
unfolding Keeps
Keeps-trans k l m f g = (g.0 ∙ f.0, g.1 ∙ f.1, g.2 ∙ f.2)

notify-Keeps : (e : Event) (l : PeersList) → Keeps l (notify e l)
unfolding Keeps flag
notify-Keeps e l =
    let f = notify-Follows e l in (f.peers, f.uvn, same_through flag e l (λ cs. refl))

-- The steps after that for cells.
after_cells : PeersList → PeersList
after_cells l = check_fully_routed (
    process_remote_reachable (
      process_local_reachable
        (process_config (process_routed (process_registry (process_particles l))))))

after_cells-Keeps : (l : PeersList) → Keeps l (after_cells l)
unfolding Keeps flag after_cells
after_cells-Keeps l =
    let l1 = process_particles l in
    let l2 = process_registry l1 in
    let l3 = process_routed l2 in
    let l4 = process_config l3 in
    let l5 = process_remote_reachable (process_local_reachable l4) in
    let l6 = check_fully_routed l5 in
    let s1 = process_particles-along Keeps Keeps-refl Keeps-trans notify-Keeps l in
    let s2 =
      process_registry-along Keeps Keeps-refl Keeps-trans notify-Keeps (λ b k. (refl, refl, refl))
        l1 in
    let s3 =
      process_routed-along Keeps Keeps-refl Keeps-trans notify-Keeps (λ b k. (refl, refl, refl))
        l2 in
    let s4 =
      process_config-along Keeps Keeps-refl Keeps-trans notify-Keeps (λ b k. (refl, refl, refl))
        l3 in
    let s5 = process_reachable-along Keeps Keeps-refl Keeps-trans notify-Keeps l4 in
    let s6 =
      check_fully_routed-along Keeps Keeps-refl Keeps-trans notify-Keeps (λ b k. (refl, refl, refl))
        l5 in
    Keeps-trans l l1 l6 s1 (
      Keeps-trans l1 l2 l6 s2
        (Keeps-trans l2 l3 l6 s3 (Keeps-trans l3 l4 l6 s4 (Keeps-trans l4 l5 l6 s5 s6))))

count-save_peer : (ps : List Peer) → included_online (map save_peer ps) ≡ included_online ps
unfolding included_online save_peer is_included
count-save_peer [] = refl
count-save_peer (p ∷ ps) = let ih = count-save_peer ps in ground arith

-- The flag after all steps, from what holds before them.
process_updates-flag :
    (l : PeersList)
    → (is_empty (turned is_cell Status.offline l.peers) ≡ true
        → is_empty (turned is_cell Status.online l.peers) ≡ true
        → flag l ≡ all_online l)
    → IsAccurate (save (after_cells (process_cells (process_vpn l))))
unfolding save flag included_online Keeps
process_updates-flag l h =
    let k = process_vpn l in
    let m = process_cells k in
    let n = after_cells m in
    let to_k = process_vpn-along Follows Follows-refl Follows-trans notify-Follows l in
    let to_m =
      process_cells-along Follows Follows-refl Follows-trans notify-Follows
        (λ b z. record {
          uvn = refl;
          local = refl;
          registry_id = refl;
          peers = refl;
          quiet = λ e. refl;
        })
        k in
    let to_n = after_cells-Keeps m in
    let flag_k = process_vpn-along Keeps Keeps-refl Keeps-trans notify-Keeps l in
    record {
      clean = save_peer-IsClean n.peers;
      saved = refl;
      connected =
          to_n.2
          ∙ process_cells-flag k (λ gone new.
            flag_k.2
            ∙ h (ap (λ ps. is_empty (turned is_cell Status.offline ps)) (sym to_k.peers) ∙ gone)
                (ap (λ ps. is_empty (turned is_cell Status.online ps)) (sym to_k.peers) ∙ new)
            ∙ sym (all_online-eq k l to_k.uvn (ap included_online to_k.peers)))
          ∙ sym (
              all_online-eq (save n) k (to_n.1 ∙ to_m.uvn)
                (count-save_peer n.peers ∙ ap included_online (to_n.0 ∙ to_m.peers)));
    }

either_way :
    (P : PeersList → Type 0) (c : Bool) (x y : PeersList)
    → (c ≡ true → P x)
    → (c ≡ false → P y)
    → P (if c then x else y)
either_way P true x y h k = h refl
either_way P false x y h k = k refl

configure-is_included : (u : Update) (p : Peer) → is_included (configure u p) ≡ is_included p
unfolding is_included configure
configure-is_included u p = refl

included-is_cell : (p : Peer) → is_included p ≡ true → is_cell p ≡ true
unfolding is_included
included-is_cell p h = ground arith

-- If the flag and the notes are in order before an update of any peers, and the update declares no
-- peer anew, they are in order after it, whatever the update sets: no change is left noted, and
-- `status_all_cells_connected` says whether as many cells are online as the UVN has.
pub update_all-IsAccurate :
    (which : Owner → Bool) (u : Update) (l : PeersList)
    → u.status ≢ some Status.declared
    → IsAccurate l
    → IsAccurate (update_all which u l)
unfolding update_all process_updates after_cells flag included_online
update_all-IsAccurate which u l undeclared h =
    let qs = configure_where which u l.peers in
    let l1 = record l { peers = qs } in
    let in_order =
      λ (gone : is_empty (turned is_cell Status.offline qs) ≡ true)
          (new : is_empty (turned is_cell Status.online qs) ≡ true).
        h.connected
        ∙ sym (
            all_online-eq l1 l refl (
              count-configure_where is_cell is_included included-is_cell which u undeclared
                (configure-is_included u) l.peers gone new)) in
    either_way IsAccurate (has_changes l1) _ l1 (λ e. process_updates-flag l1 in_order)
      (λ e.
        let clean =
          configure_where-IsClean which u l.peers h.clean
            (neither l1.unsaved (any is_dirty qs) e).1 in
        record {
          clean = clean;
          saved = (neither l1.unsaved (any is_dirty qs) e).0;
          connected =
              in_order (clean-turned is_cell Status.offline qs clean)
                (clean-turned is_cell Status.online qs clean);
        })

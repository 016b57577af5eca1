-- ===== src/Peers/Following.antt =====
-- What the steps of `_process_updates` (uno/agent/uvn_peers_list.py) leave alone, and when they call
-- the listeners.
use uno.Prelude.{ℕ, ◌≡◌, refl, ap, ◌∙◌, Bool, true, false, not, List, if◌then◌else◌}
use uno.Uvn.{is_empty}
use uno.Peers.{Status, PeersList, Event}
use uno.Peers.Queries.{local_peer, online_peer, notify}
use uno.Peers.{is_registry}
use uno.Peers.Processing.{
  turned, process_vpn, process_cells, check_cells_connected, process_particles, process_registry,
  process_routed, check_networks_discovered, process_config, check_consistent_config,
  process_local_reachable, process_remote_reachable, check_fully_routed,
}

-- The later list has the peers of the earlier one, and the same calls if its local peer is not
-- online.
pub record Follows (l l' : PeersList) : Type 0 where
  pub uvn : l'.uvn ≡ l.uvn
  pub local : l'.local ≡ l.local
  pub registry_id : l'.registry_id ≡ l.registry_id
  pub peers : l'.peers ≡ l.peers
  pub quiet : online_peer (local_peer l) ≡ false → l'.calls ≡ l.calls

pub Follows-refl : (l : PeersList) → Follows l l
Follows-refl l = record {
  uvn = refl;
  local = refl;
  registry_id = refl;
  peers = refl;
  quiet = λ h. refl;
}

pub local_peer-Follows : (l l' : PeersList) → Follows l l' → local_peer l' ≡ local_peer l
unfolding local_peer
local_peer-Follows l l' f = rw (f.local, f.peers) refl

pub Follows-trans : (k l m : PeersList) → Follows k l → Follows l m → Follows k m
Follows-trans k l m f g = record {
  uvn = g.uvn ∙ f.uvn;
  local = g.local ∙ f.local;
  registry_id = g.registry_id ∙ f.registry_id;
  peers = g.peers ∙ f.peers;
  quiet = λ h. g.quiet (ap online_peer (local_peer-Follows k l f) ∙ h) ∙ f.quiet h;
}

-- A relation of lists that holds along the calls of listeners, and along the changes of flags that
-- a step makes, holds along the step.
module _ (R : PeersList → PeersList → Type 0) (same : (l : PeersList) → R l l)
    (along : (k l m : PeersList) → R k l → R l m → R k m)
    (notified : (e : Event) (l : PeersList) → R l (notify e l)) where
  either : (c : Bool) (l x y : PeersList) → R l x → R l y → R l (if c then x else y)
  either true l x y f g = f
  either false l x y f g = g

  pub process_vpn-along : (l : PeersList) → R l (process_vpn l)
  unfolding process_vpn
  process_vpn-along l = either _ l _ _ (notified _ l) (same l)

  pub process_cells-along :
      ((b : Bool) (l : PeersList) → R l (record l { status_all_cells_connected = b }))
      → (l : PeersList) → R l (process_cells l)
  unfolding process_cells check_cells_connected
  process_cells-along flag l =
      either _ l _ _
        (let k = notify _ l in
          along l k _ (notified _ l)
            (either _ k _ _ (same k) (along k _ _ (flag _ k) (notified _ _))))
        (same l)

  pub process_particles-along : (l : PeersList) → R l (process_particles l)
  unfolding process_particles
  process_particles-along l = either _ l _ _ (notified _ l) (same l)

  pub process_registry-along :
      ((b : Bool) (l : PeersList) → R l (record l { status_registry_connected = b }))
      → (l : PeersList) → R l (process_registry l)
  unfolding process_registry
  process_registry-along flag l =
      let gone = not (is_empty (turned is_registry Status.offline l.peers)) in
      let found = not (is_empty (turned is_registry Status.online l.peers)) in
      let event = Event.registry_connected in
      let disconnected = notify event (record l { status_registry_connected = false }) in
      let connected = notify event (record l { status_registry_connected = true }) in
      either gone l disconnected (if found then connected else l)
        (along l _ disconnected (flag false l) (notified event _))
        (either found l connected l (along l _ connected (flag true l) (notified event _)) (same l))

  pub process_routed-along :
      ((b : Bool) (l : PeersList) → R l (record l { status_routed_networks_discovered = b }))
      → (l : PeersList) → R l (process_routed l)
  unfolding process_routed check_networks_discovered
  process_routed-along flag l =
      either _ l _ _
        (let k = notify _ l in
          along l k _ (notified _ l)
            (either _ k _ _ (same k) (along k _ _ (flag _ k) (notified _ _))))
        (same l)

  pub process_config-along :
      ((b : Bool) (l : PeersList) → R l (record l { status_consistent_config_uvn = b }))
      → (l : PeersList) → R l (process_config l)
  unfolding process_config check_consistent_config
  process_config-along flag l =
      either _ l _ _
        (let k = notify _ l in
          along l k _ (notified _ l)
            (either _ k _ _ (same k) (along k _ _ (flag _ k) (notified _ _))))
        (same l)

  pub process_reachable-along :
      (l : PeersList) → R l (process_remote_reachable (process_local_reachable l))
  unfolding process_remote_reachable process_local_reachable
  process_reachable-along l =
      let k = process_local_reachable l in
      along l k _ (either _ l _ _ (same l) (notified _ l)) (either _ k _ _ (notified _ k) (same k))

  pub check_fully_routed-along :
      ((b : Bool) (l : PeersList) → R l (record l { status_fully_routed_uvn = b }))
      → (l : PeersList) → R l (check_fully_routed l)
  unfolding check_fully_routed
  check_fully_routed-along flag l = either _ l _ _ (same l) (along l _ _ (flag _ l) (notified _ _))

-- The steps before that for configurations.
abbrev pub first_steps : PeersList → PeersList
first_steps l =
    process_routed (process_registry (process_particles (process_cells (process_vpn l))))

module _ (R : PeersList → PeersList → Type 0) (same : (l : PeersList) → R l l)
    (along : (k l m : PeersList) → R k l → R l m → R k m)
    (notified : (e : Event) (l : PeersList) → R l (notify e l))
    (connected : (b : Bool) (l : PeersList) → R l (record l { status_all_cells_connected = b }))
    (registry : (b : Bool) (l : PeersList) → R l (record l { status_registry_connected = b }))
    (discovered : (b : Bool) (l : PeersList)
      → R l (record l { status_routed_networks_discovered = b })) where
  pub first_steps-along : (l : PeersList) → R l (first_steps l)
  first_steps-along l =
      let l1 = process_vpn l in
      let l2 = process_cells l1 in
      let l3 = process_particles l2 in
      let l4 = process_registry l3 in
      let l5 = process_routed l4 in
      along l l1 l5 (process_vpn-along R same along notified l) (
        along l1 l2 l5 (process_cells-along R same along notified connected l1) (
          along l2 l3 l5 (process_particles-along R same along notified l2) (
            along l3 l4 l5 (process_registry-along R same along notified registry l3)
              (process_routed-along R same along notified discovered l4))))

if_either :
    {A B : Type 0} (c : Bool) (f : A → B) (x y : A) {v : B}
    → f x ≡ v
    → f y ≡ v
    → f (if c then x else y) ≡ v
if_either true f x y h k = h
if_either false f x y h k = k

-- A value that no call of a listener changes.
pub same_through :
    {B : Type 0} (f : PeersList → B) (e : Event) (l : PeersList)
    → ((cs : List (ℕ × Event)) → f (record l { calls = cs }) ≡ f l)
    → f (notify e l) ≡ f l
unfolding notify
same_through f e l h = if_either (online_peer (local_peer l)) f _ l (h _) refl

pub notify-Follows : (e : Event) (l : PeersList) → Follows l (notify e l)
notify-Follows e l = record {
  uvn = same_through (λ (k : PeersList). k.uvn) e l (λ cs. refl);
  local = same_through (λ (k : PeersList). k.local) e l (λ cs. refl);
  registry_id = same_through (λ (k : PeersList). k.registry_id) e l (λ cs. refl);
  peers = same_through (λ (k : PeersList). k.peers) e l (λ cs. refl);
  quiet = λ h. unfold notify in rw h refl;
}

-- All the steps before the list is saved.
abbrev pub configured : PeersList → PeersList
configured l = process_config (first_steps l)

abbrev pub reached : PeersList → PeersList
reached l = process_remote_reachable (process_local_reachable (configured l))

abbrev pub all_steps : PeersList → PeersList
all_steps l = check_fully_routed (reached l)

pub first_steps-Follows : (l : PeersList) → Follows l (first_steps l)
first_steps-Follows =
    first_steps-along Follows Follows-refl Follows-trans notify-Follows
      (λ b k. record {
        uvn = refl;
        local = refl;
        registry_id = refl;
        peers = refl;
        quiet = λ h. refl;
      })
      (λ b k. record {
        uvn = refl;
        local = refl;
        registry_id = refl;
        peers = refl;
        quiet = λ h. refl;
      })
      (λ b k. record {
        uvn = refl;
        local = refl;
        registry_id = refl;
        peers = refl;
        quiet = λ h. refl;
      })

pub reached-Follows : (l : PeersList) → Follows l (reached l)
reached-Follows l = Follows-trans l (first_steps l) (reached l) (first_steps-Follows l) (
    Follows-trans (first_steps l) (configured l) (reached l)
      (process_config-along Follows Follows-refl Follows-trans notify-Follows
        (λ b k. record {
          uvn = refl;
          local = refl;
          registry_id = refl;
          peers = refl;
          quiet = λ h. refl;
        })
        (first_steps l))
      (process_reachable-along Follows Follows-refl Follows-trans notify-Follows (configured l)))

pub all_steps-Follows : (l : PeersList) → Follows l (all_steps l)
all_steps-Follows l = Follows-trans l (reached l) (all_steps l) (reached-Follows l) (
    check_fully_routed-along Follows Follows-refl Follows-trans notify-Follows
      (λ b k. record {
        uvn = refl;
        local = refl;
        registry_id = refl;
        peers = refl;
        quiet = λ h. refl;
      })
      (reached l))

-- ===== src/WireGuard.antt =====
-- uno/core/wg.py: an interface of WireGuard (`WireGuardInterface`), which runs `ip` and `wg`: how it
-- starts and stops, and the networks that it allows for a peer.
pub mod Lifecycle
pub mod Allowing
use uno.Prelude.{
  wireguard_error, ℕ, zero, suc, ◌+◌, ◌-◌, ◌*◌, ◌/◌, ◌%◌, ◌^◌, ◌≤◌, ◌<◌, max, min, ◌≡◌, refl, sym,
  ap, ◌∙◌, ◌≢◌, ◌↔◌, ◌⊎◌, inl, inr, Bool, true, false, not, ◌&&◌, ◌||◌, Option, none, some, List,
  [], ◌∷◌, ◌++◌, map, arith, ltb, leb, ◌==◌, if◌then◌else◌, ltb→lt, lt→ltb, leb→le, ==_iff, ==_refl,
  ==_comm, Bool-cases, Option-cases, length, get_elem?, take, drop, replicate, length-append,
  length-replicate, take-append-drop, All, range_from, Error, runtime_error, value_error,
  index_error, key_error, type_error, assertion_error, address_value_error, not_implemented_error,
  stop_iteration, missing_key_material, clashing_networks_error, attribute_error, Result, ok, raise,
  Exec, pure, lift, and_then, ◌>>=◌, and_then-eq-ok,
}
use Prim.Native.String.{String}
use uno.Prelude.Dict.{Keyed, Dict, get, mem}
use uno.Ip.{Network}
use uno.Uvn.{network_key}
use uno.VpnConfig.{WireGuardConfig, PeerConfig}

-- The commands that are run for one interface, by what they ask for; `generate` writes the file of
-- the configuration.
pub data Command : Type 0 where
  link_delete link_add link_down link_up : Command
  set_mtu : ℕ → Command
  address_flush address_add : Command
  generate setconf : Command

-- The object, with the state of the system.
pub record Interface (W : Type 0) : Type 0 where
  pub created : Bool
  pub up : Bool
  pub world : W

unfoldable pub as_wireguard_error : {A : Type 0} → Result A → Result A
as_wireguard_error (ok a) = ok a
as_wireguard_error (raise e) = raise wireguard_error

set_mtu_if : Option ℕ → List Command
set_mtu_if none = []
set_mtu_if (some zero) = []
set_mtu_if (some (suc n)) = set_mtu (suc n) ∷ []

-- The commands of `create`: an interface that is there already is deleted first.
unfoldable pub creating : Bool → Option ℕ → List Command
unfolding set_mtu_if
creating exists mtu = (if exists then link_delete ∷ [] else []) ++ link_add ∷ set_mtu_if mtu

module _ {W : Type 0} (exec_command : Command → Exec W (Unit {0})) (link_show : W → Bool × W)
    (config : WireGuardConfig) where
  -- `try: exec_command(...) except Exception: raise WireGuardError(...)`
  unfoldable pub required : Command → Exec (Interface W) (Unit {0})
  unfolding as_wireguard_error
  required c s =
      let (r, w) = exec_command c s.world in (as_wireguard_error r, record s { world = w })

  -- The same, where errors may be ignored.
  unfoldable pub attempted : Bool → Command → Exec (Interface W) (Unit {0})
  unfolding required
  attempted ignore_errors c s =
      let (r, s') = required c s in (if ignore_errors then ok tt else r, s')

  -- Several commands, up to the first that fails.
  unfoldable pub require_all : List Command → Exec (Interface W) (Unit {0})
  unfolding required
  require_all [] s = (ok tt, s)
  require_all (c ∷ cs) s = (required c >>= (λ _. require_all cs)) s

  -- `create`
  unfoldable pub create : Exec (Interface W) (Unit {0})
  unfolding require_all creating
  create s =
      let (exists, w) = link_show s.world in
      (require_all (creating exists config.intf.mtu)
          >>= (λ _ s'. (ok tt, record s' { created = true })))
        (record s { world = w })

  -- `delete`
  unfoldable pub delete : Bool → Exec (Interface W) (Unit {0})
  unfolding attempted
  delete ignore_errors =
      attempted ignore_errors link_delete >>= (λ _ s. (ok tt, record s { created = false }))

  -- `bring_up`
  unfoldable pub bring_up : Exec (Interface W) (Unit {0})
  unfolding require_all
  bring_up =
      require_all (generate ∷ link_down ∷ address_flush ∷ address_add ∷ setconf ∷ link_up ∷ [])
      >>= (λ _ s. (ok tt, record s { up = true }))

  -- `tear_down`
  unfoldable pub tear_down : Bool → Exec (Interface W) (Unit {0})
  unfolding attempted
  tear_down ignore_errors =
      attempted ignore_errors link_down
      >>= (λ _. attempted ignore_errors address_flush)
      >>= (λ _ s. (ok tt, record s { up = false }))

  -- `start`
  unfoldable pub start : Bool → Exec (Interface W) (Unit {0})
  unfolding create bring_up
  start noop s =
      if not noop
      then (create >>= (λ _. bring_up)) s
      else (ok tt, record s { up = true; created = true })

  -- `stop`
  unfoldable pub stop : Bool → Exec (Interface W) (Unit {0})
  unfolding tear_down delete
  stop assert_stopped =
      (λ s. if s.up || assert_stopped then tear_down assert_stopped s else (ok tt, s))
      >>= (λ _ s. if s.created || assert_stopped then delete assert_stopped s else (ok tt, s))

-- The elements of one list that are not in another.
unfoldable pub without : List Network → List Network → List Network
without [] ys = []
without (x ∷ xs) ys = let rest = without xs ys in if mem ys x then rest else x ∷ rest

-- Whether the two have the same elements, where the second has none that the first lacks.
abbrev pub is_nil : List Network → Bool
is_nil [] = true
is_nil (x ∷ xs) = false

-- `wg show ... allowed-ips`, for the public key of a peer, and `wg set ... allowed-ips`.
pub record Cryptokeys (W : Type 0) : Type 0 where
  pub show : String → Exec W (List Network)
  pub set : String → List Network → Exec W (Unit {0})

-- A request for one peer: to allow networks, or not to allow them any more.
pub data Request : Type 0 where
  allow disallow : List Network → Request

module _ {W : Type 0} (wg : Cryptokeys W) where
  -- `_update_allowed_ips`
  unfoldable pub update_allowed_ips : PeerConfig → List Network → Exec W (Unit {0})
  unfolding as_wireguard_error
  update_allowed_ips peer allowed_ips w =
      let (r, w') = wg.set peer.pubkey allowed_ips w in (as_wireguard_error r, w')

  unfoldable pub allow_for : List Network → PeerConfig → List Network → Exec W (Unit {0})
  unfolding update_allowed_ips without
  allow_for addresses peer allowed_ips_nic w =
      let not_yet_allowed = without addresses allowed_ips_nic in
      if is_nil not_yet_allowed
      then (ok tt, w)
      else update_allowed_ips peer (allowed_ips_nic ++ not_yet_allowed) w

  unfoldable pub disallow_for : List Network → PeerConfig → List Network → Exec W (Unit {0})
  unfolding update_allowed_ips without
  disallow_for addresses peer allowed_ips_nic w =
      let allowed = without allowed_ips_nic addresses in
      if is_nil (without allowed_ips_nic allowed)
      then (ok tt, w)
      else update_allowed_ips peer allowed w

  change_for : Request → PeerConfig → List Network → Exec W (Unit {0})
  unfolding allow_for disallow_for
  change_for (allow addresses) = allow_for addresses
  change_for (disallow addresses) = disallow_for addresses

  request_for : Request → Option PeerConfig → Exec W (Unit {0})
  unfolding as_wireguard_error change_for
  request_for request none w = (raise index_error, w)
  request_for request (some peer) w =
      let (r, w') = wg.show peer.pubkey w in
      and_then (as_wireguard_error r) (λ allowed_ips_nic. change_for request peer allowed_ips_nic)
        w'

  -- `allow_ips_for_peer` and `disallow_ips_for_peer`, for the peer with this place in the
  -- configuration
  unfoldable pub request_ips : WireGuardConfig → ℕ → Request → Exec W (Unit {0})
  unfolding request_for
  request_ips config peer_i request = request_for request (get_elem? config.peers peer_i)

  -- Several of these calls, one after the other.
  unfoldable pub request_all : WireGuardConfig → ℕ → List Request → Exec W (Unit {0})
  unfolding request_ips
  request_all config peer_i [] w = (ok tt, w)
  request_all config peer_i (r ∷ rs) w =
      (request_ips config peer_i r >>= (λ _. request_all config peer_i rs)) w

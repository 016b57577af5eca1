-- ===== src/Agent.antt =====
-- uno/agent/agent.py: the loop of an agent (`_spin`), and what the agent of a registry waits for in
-- `spin_until_consistent`; with the decorator `max_rate` of uno/registry/versioned.py.
pub mod Handlers
pub mod Waiting
pub mod Spinning
pub mod Rates
use uno.Prelude.{
  agent_reload, agent_timedout, ℕ, zero, suc, ◌+◌, ◌-◌, ◌*◌, ◌/◌, ◌%◌, ◌^◌, ◌≤◌, ◌<◌, max, min, ◌≡◌,
  refl, sym, ap, ◌∙◌, ◌≢◌, ◌↔◌, ◌⊎◌, inl, inr, Bool, true, false, not, ◌&&◌, ◌||◌, Option, none,
  some, List, [], ◌∷◌, ◌++◌, map, arith, ltb, leb, ◌==◌, if◌then◌else◌, ltb→lt, lt→ltb, leb→le,
  ==_iff, ==_refl, ==_comm, Bool-cases, Option-cases, length, get_elem?, take, drop, replicate,
  length-append, length-replicate, take-append-drop, All, range_from, Error, runtime_error,
  value_error, index_error, key_error, type_error, assertion_error, address_value_error,
  not_implemented_error, stop_iteration, missing_key_material, clashing_networks_error,
  attribute_error, Result, ok, raise, Exec, pure, lift, and_then, ◌>>=◌, and_then-eq-ok,
}
use mathlib.Core.Option
use uno.Prelude.Dict.{Keyed}
use uno.Peers.{PeersList, Owner, owner_key, Peer, same_set}
use uno.Peers.Queries.{offline_cells}

-- `max_rate`: whether a call is passed on, and the time of the last call; times count from the
-- epoch, at which the last call stands at first.
unfoldable pub max_rate : ℕ → ℕ → ℕ → Bool × ℕ
max_rate seconds now last = (not (leb seconds (now - last)), now)

-- The calls at some times, in order: which of them are passed on.
unfoldable pub rated : ℕ → ℕ → List ℕ → List Bool
unfolding max_rate
rated seconds last [] = []
rated seconds last (now ∷ rest) =
    let (passed, last') = max_rate seconds now last in passed ∷ rated seconds last' rest

-- How the loop of `_spin` ends where it raises nothing.
pub data Ended : Type 0 where
  done_spinning condition_reached time_over : Ended

-- The end of a round: the loop goes on, ends, or raises.
pub data Round : Type 0 where
  next_round : Round
  ended : Ended → Round
  raised : Error → Round

-- `participant.spin()`, with the handlers that it calls; the exit condition; `spin_once` of the
-- services, after the statistics of the VPNs; and whether a handler left an agent to load.
pub record Steps (S : Type 0) : Type 0 where
  pub spin : Exec S Bool
  pub until : Option (Exec S Bool)
  pub serve : Exec S (Unit {0})
  pub reload : S → Bool
  pub reloading : S → S

abbrev pub overdue : Option ℕ → ℕ → Bool
overdue none spent = false
overdue (some max_spin_time) spent = leb max_spin_time spent

abbrev pub goes_on : Round → Bool
goes_on next_round = true
goes_on (ended e) = false
goes_on (raised e) = false

module _ {S : Type 0} where
  -- What follows the exit condition in a round.
  served : (S → Bool) → (S → S) → Result (Unit {0}) × S → Round × S
  served reload reloading (raise e, s) = (raised e, s)
  served reload reloading (ok u, s) =
      if reload s then (raised agent_reload, reloading s) else (next_round, s)

  tested : Steps S → Result Bool × S → Round × S
  unfolding served
  tested steps (raise e, s) = (raised e, s)
  tested steps (ok true, s) = (ended condition_reached, s)
  tested steps (ok false, s) = served steps.reload steps.reloading (steps.serve s)

  try_until : Steps S → Option (Exec S Bool) → S → Round × S
  unfolding tested served
  try_until steps none s = served steps.reload steps.reloading (steps.serve s)
  try_until steps (some until) s = tested steps (until s)

  timed_out : Option (Exec S Bool) → Round
  timed_out none = ended time_over
  timed_out (some until) = raised agent_timedout

  spun : Steps S → Option ℕ → ℕ → Result Bool × S → Round × S
  unfolding try_until timed_out
  spun steps max_spin_time spent (raise e, s) = (raised e, s)
  spun steps max_spin_time spent (ok true, s) = (ended done_spinning, s)
  spun steps max_spin_time spent (ok false, s) =
      if overdue max_spin_time spent
      then (timed_out steps.until, s)
      else try_until steps steps.until s

  -- One round of the `while` loop of `_spin`; `spent` is the time since its start, in seconds.
  unfoldable pub round : Steps S → Option ℕ → ℕ → S → Round × S
  unfolding spun
  round steps max_spin_time spent s = spun steps max_spin_time spent (steps.spin s)

  -- `_spin`: at most `fuel` rounds, of which the one with number `n` reads `clock n` as the time since
  -- the start; `next_round` where they are used up.
  unfoldable pub spin_rounds : Steps S → Option ℕ → (ℕ → ℕ) → ℕ → ℕ → S → Round × S
  unfolding round
  spin_rounds steps max_spin_time clock zero n s = (next_round, s)
  spin_rounds steps max_spin_time clock (suc fuel) n s =
      let (r, s') = round steps max_spin_time (clock n) s in
      let rest = spin_rounds steps max_spin_time clock fuel (suc n) s' in
      if goes_on r then rest else (r, s')

-- `set(p.cell for p in self.peers.offline_cells) == self.registry.rekeyed_cells`
unfoldable pub rekeyed_offline : List Owner → PeersList → Bool
unfolding offline_cells
rekeyed_offline rekeyed_cells l =
    same_set (map (λ (p : Peer). p.owner) (offline_cells l)) rekeyed_cells

-- `_until_rekeyed_config_pushed`: whether the agent reloads, and the stage afterwards; `true` is the
-- stage 1. The condition never holds: it raises AgentReload, or the agent goes on.
unfoldable pub until_rekeyed : List Owner → PeersList → Bool → Bool × Bool
unfolding rekeyed_offline
until_rekeyed rekeyed_cells l stage =
    let stage' = stage || l.status_all_cells_connected in
    (stage' && rekeyed_offline rekeyed_cells l, stage')

-- `_until_consistent`
unfoldable pub until_consistent : Bool → PeersList → Bool
until_consistent config_only l =
    (config_only && l.status_consistent_config_uvn)
    || (l.status_consistent_config_uvn && l.status_fully_routed_uvn)

-- The waiting for a rekeyed configuration over the peers as they are in some rounds: the round in
-- which the agent reloads.
unfoldable pub reloads_at : List Owner → List PeersList → Bool → Option ℕ
unfolding until_rekeyed
reloads_at rekeyed_cells [] stage = none
reloads_at rekeyed_cells (l ∷ rest) stage =
    let (reload, stage') = until_rekeyed rekeyed_cells l stage in
    let later = Option.map suc (reloads_at rekeyed_cells rest stage') in
    if reload then some 0 else later

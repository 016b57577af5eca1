-- ===== src/Services.antt =====
-- uno/agent/agent_service.py, runnable.py, agent_static_service.py, systemd_service.py, and
-- `start_static_services` and `stop_static_services` of uno/agent/agent.py: the services of an
-- agent, which also run as systemd units with the file of a marker each.
pub mod RolledBack
pub mod Started
pub mod Starting
pub mod Stopping
use uno.Prelude.{
  ℕ, zero, suc, ◌+◌, ◌-◌, ◌*◌, ◌/◌, ◌%◌, ◌^◌, ◌≤◌, ◌<◌, max, min, ◌≡◌, refl, sym, ap, ◌∙◌, ◌≢◌, ◌↔◌,
  ◌⊎◌, inl, inr, Bool, true, false, not, ◌&&◌, ◌||◌, Option, none, some, List, [], ◌∷◌, ◌++◌, map,
  arith, ltb, leb, ◌==◌, if◌then◌else◌, ltb→lt, lt→ltb, leb→le, ==_iff, ==_refl, ==_comm,
  Bool-cases, Option-cases, length, get_elem?, take, drop, replicate, length-append,
  length-replicate, take-append-drop, All, range_from, Error, runtime_error, value_error,
  index_error, key_error, type_error, assertion_error, address_value_error, not_implemented_error,
  stop_iteration, missing_key_material, clashing_networks_error, attribute_error, Result, ok, raise,
  Exec, pure, lift, and_then, ◌>>=◌, and_then-eq-ok,
}
use uno.Prelude.Sets.{contains}
use mathlib.Core.List.{reverse}
use mathlib.Core.Option

-- The files of markers, with the configuration that each names; and the property `started`.
pub record Running (W : Type 0) : Type 0 where
  pub marker : ℕ → Option ℕ
  pub started : ℕ → Bool
  pub world : W

-- What a subclass supplies (`_start`, `_stop`, `_take_over_static`), by the number of the service;
-- and the calls with which the agent's own unit spawns and ends a process. A process that is told to
-- end stops its own services before it does, which changes the markers of any of them.
pub record Hooks (W : Type 0) : Type 0 where
  pub start : ℕ → Exec W (Unit {0})
  pub stop : ℕ → Bool → Exec W (Unit {0})
  pub take_over : ℕ → Exec W (Unit {0})
  pub start_agent : Exec W (Unit {0})
  pub stop_agent : Exec (Running W) (Unit {0})

-- What stays fixed while services start and stop. A service is a number, which stands for its
-- name; `has_static` is whether it has a unit, `is_agent` whether the unit is the agent's own.
pub record Setup : Type 0 where
  pub has_static : ℕ → Bool
  pub is_agent : ℕ → Bool
  pub runnable : ℕ → Bool
  pub config_id : ℕ
  pub reloading : Bool
  pub initial_active_static_services : List ℕ

abbrev pub update {ℓ} : {A : Type ℓ} → (ℕ → A) → ℕ → A → ℕ → A
update f k v n = if k == n then v else f n

abbrev pub failed : Result (Unit {0}) → Bool
failed (ok u) = false
failed (raise e) = true

abbrev pub present : Option ℕ → Bool
present none = false
present (some m) = true

-- `SystemdService.check_marker_compatible`
pub compatible : ℕ → Option ℕ → Result (Unit {0})
compatible config_id none = ok tt
compatible config_id (some m) = if m == config_id then ok tt else raise runtime_error

-- `try: ... finally: ...`, where what is done at last cannot fail
abbrev pub finally : {S : Type 0} → Exec S (Unit {0}) → (S → S) → Exec S (Unit {0})
finally body last s = let (r, s') = body s in (r, last s')

module _ {W : Type 0} where
  -- `SystemdService.active`
  abbrev pub active : ℕ → Running W → Bool
  active svc s = present (s.marker svc)

  -- `SystemdService.delete_marker`
  abbrev pub delete_marker : ℕ → Running W → Running W
  delete_marker svc s = record s { marker = update s.marker svc none }

  abbrev pub set_started : ℕ → Bool → Running W → Running W
  set_started svc b s = record s { started = update s.started svc b }

  abbrev pub on_world : Exec W (Unit {0}) → Exec (Running W) (Unit {0})
  on_world f s = let (r, w) = f s.world in (r, record s { world = w })

module _ {W : Type 0} (setup : Setup) (hooks : Hooks W) where
  -- `SystemdService.write_marker`
  unfoldable pub write_marker : ℕ → Running W → Running W
  write_marker svc s = record s { marker = update s.marker svc (some setup.config_id) }

  -- `AgentService.take_over_static`
  unfoldable pub take_over_static : ℕ → Exec (Running W) (Unit {0})
  unfolding compatible
  take_over_static svc s =
      if setup.has_static svc
      then and_then (compatible setup.config_id (s.marker svc))
          (λ _ s'. on_world (hooks.take_over svc) (set_started svc true s')) s
      else (raise type_error, s)

  -- `AgentService.start`, with `Runnable.start`
  unfoldable pub start : ℕ → Exec (Running W) (Unit {0})
  unfolding take_over_static write_marker
  start svc s =
      if not (setup.runnable svc)
      then (ok tt, s)
      else if setup.has_static svc && active svc s
      then take_over_static svc s
      else (on_world (hooks.start svc)
            >>= (λ _ s'. (ok tt, if setup.has_static svc then write_marker svc s' else s')))
          s

  -- Whether `AgentService.stop` leaves the service to its unit.
  unfoldable pub delegate_static : ℕ → Bool → Bool
  delegate_static svc assert_stopped =
      not assert_stopped
      && not setup.reloading
      && setup.has_static svc
      && contains setup.initial_active_static_services svc

  -- `AgentService.stop`, with `Runnable.stop`
  unfoldable pub stop : ℕ → Bool → Exec (Running W) (Unit {0})
  unfolding write_marker delegate_static
  stop svc assert_stopped s =
      if delegate_static svc assert_stopped
      then (ok tt, write_marker svc s)
      else finally (on_world (hooks.stop svc assert_stopped))
          (λ s'. if setup.has_static svc then delete_marker svc s' else s') s

  -- `Runnable.__enter__` and `Runnable.__exit__`; the latter is told whether an exception other
  -- than a KeyboardInterrupt ends the block.
  unfoldable pub enter : ℕ → Exec (Running W) (Unit {0})
  unfolding start
  enter svc = start svc >>= (λ _ s. (ok tt, set_started svc true s))

  unfoldable pub exit : ℕ → Bool → Exec (Running W) (Unit {0})
  unfolding stop
  exit svc failed = finally (stop svc failed) (set_started svc false)

  -- `AgentService.start_static`, and that of the agent
  unfoldable pub start_static : ℕ → Exec (Running W) (Unit {0})
  unfolding take_over_static write_marker
  start_static svc s =
      if setup.is_agent svc
      then on_world hooks.start_agent s
      else if not (setup.has_static svc)
      then (raise type_error, s)
      else if not (setup.runnable svc)
      then (ok tt, s)
      else if active svc s
      then take_over_static svc s
      else (on_world (hooks.start svc) >>= (λ _ s'. (ok tt, write_marker svc s'))) s

  -- `AgentService.stop_static`, and that of the agent
  unfoldable pub stop_static : ℕ → Exec (Running W) (Unit {0})
  unfolding stop
  stop_static svc s =
      if setup.is_agent svc
      then finally hooks.stop_agent (delete_marker svc) s
      else if not (setup.has_static svc)
      then (raise type_error, s)
      else stop svc true s

  -- `AgentStaticService.up` and `AgentStaticService.down`
  unfoldable pub up : ℕ → Exec (Running W) (Unit {0})
  unfolding start_static
  up svc s = if active svc s then (ok tt, s) else start_static svc s

  unfoldable pub down : ℕ → Exec (Running W) (Unit {0})
  unfolding stop_static
  down svc = stop_static svc

-- The first service of a list that is the target, and its place; `none` where there is none.
unfoldable pub index : List ℕ → ℕ → Option ℕ
index [] svc = none
index (x ∷ xs) svc = let rest = Option.map suc (index xs svc) in if x == svc then some 0 else rest

-- The place of the last active service (`highest_running`), counted from 1; 0 where none is.
unfoldable pub highest_running : {W : Type 0} → List ℕ → Running W → ℕ
highest_running [] s = 0
highest_running (x ∷ xs) s =
    let rest = highest_running xs s in if rest == 0 then (if active x s then 1 else 0) else suc rest

module _ {W : Type 0} (setup : Setup) (hooks : Hooks W) where
  -- Tears down the services started so far, the last one first; exceptions are logged.
  unfoldable pub roll_back : List ℕ → Running W → Running W
  unfolding down
  roll_back [] s = s
  roll_back (svc ∷ rest) s = roll_back rest (down setup hooks svc s).1

  -- The `except` clause of the loop, after a service was brought up or not.
  unfoldable pub or_roll_back :
      Result (Unit {0})
      → List ℕ
      → Running W
      → Result (Unit {0}) × Running W
      → Result (Unit {0}) × Running W
  unfolding roll_back
  or_roll_back (raise e) started s rest = (raise e, roll_back started s)
  or_roll_back (ok u) started s rest = rest

  -- The loop of `start_static_services`; `started` are the services brought up before.
  unfoldable pub up_through : List ℕ → ℕ → List ℕ → Exec (Running W) (Unit {0})
  unfolding up or_roll_back
  up_through [] target started s = (ok tt, s)
  up_through (svc ∷ rest) target started s =
      let (r, s') = up setup hooks svc s in
      let more = up_through rest target (svc ∷ started) s' in
      or_roll_back r started s' (if svc == target then (ok tt, s') else more)

  start_up_to : Option ℕ → List ℕ → ℕ → Exec (Running W) (Unit {0})
  unfolding highest_running up_through
  start_up_to none services target s = (raise value_error, s)
  start_up_to (some i) services target s =
      if ltb i (highest_running services s) then (ok tt, s) else up_through services target [] s

  -- `Agent.start_static_services`, over `static_services`
  unfoldable pub start_static_services : List ℕ → ℕ → Exec (Running W) (Unit {0})
  unfolding start_up_to index
  start_static_services services target = start_up_to (index services target) services target

  -- The loop of `stop_static_services`: whether there were errors, and what is left.
  unfoldable pub down_through : List ℕ → ℕ → Running W → Bool × Running W
  unfolding down
  down_through [] target s = (false, s)
  down_through (svc ∷ rest) target s =
      let (r, s') = down setup hooks svc s in
      let (errors, s'') = down_through rest target s' in
      if svc == target then (failed r, s') else (failed r || errors, s'')

  stop_down_to : Option ℕ → List ℕ → ℕ → Exec (Running W) (Unit {0})
  unfolding down_through
  stop_down_to none services target s = (raise value_error, s)
  stop_down_to (some i) services target s =
      let (errors, s') = down_through (reverse services) target s in
      (if errors then raise runtime_error else ok tt, s')

  -- `Agent.stop_static_services`, over `static_services`
  unfoldable pub stop_static_services : List ℕ → ℕ → Exec (Running W) (Unit {0})
  unfolding stop_down_to index
  stop_static_services services target = stop_down_to (index services target) services target

-- ===== src/Tests/Units.antt =====
-- The services of an agent (uno/agent/agent.py, agent_service.py) at concrete inputs: the network is
-- service 0, the router 1, and the agent's own unit 2.
use uno.Prelude.{
  ℕ, ◌+◌, ◌≤◌, ◌≡◌, refl, ◌⊎◌, Bool, true, false, not, ◌&&◌, none, some, List, [], ◌∷◌, arith, ◌==◌,
  if◌then◌else◌, runtime_error, ok, raise,
}
use uno.Prelude.Sets.{contains}
use uno.Services.{
  down, highest_running, index, Setup, Hooks, Running, start_static_services, stop_static_services,
  active,
}
use uno.Services.RolledBack.{AgentIsLast, IsRolledBack, start_static_services_failed}
use uno.Services.Started.{through, start_static_services_returned}
use uno.Services.Stopping.{stop_static_services_lem}

abbrev cell : Setup
cell = record {
  has_static = λ svc. true;
  is_agent = λ svc. svc == 2;
  runnable = λ svc. true;
  config_id = 5;
  reloading = false;
  initial_active_static_services = [];
}

-- The world counts the starts; the router starts or not.
abbrev hooks : Bool → Hooks ℕ
hooks fails = record {
  start = λ svc w. (if fails && (svc == 1) then raise runtime_error else ok tt, w + 1);
  stop = λ svc assert_stopped w. (ok tt, w);
  take_over = λ svc w. (ok tt, w);
  start_agent = λ w. (ok tt, w);
  stop_agent = λ s. (ok tt, record s { marker = λ svc. none });
}

-- The network is active since an earlier start.
abbrev network_active : Running ℕ
network_active = record {
  marker = λ svc. if svc == 0 then some 5 else none;
  started = λ svc. false;
  world = 0;
}

abbrev all_services : List ℕ
all_services = 0 ∷ 1 ∷ 2 ∷ []

abbrev after_failure : Running ℕ
after_failure = (start_static_services cell (hooks true) all_services 2 network_active).1

router_fails :
    start_static_services cell (hooks true) all_services 2 network_active
    ≡ (raise runtime_error, after_failure)
unfolding start_static_services
router_fails = refl

only_last : AgentIsLast cell all_services
unfolding AgentIsLast
only_last = (refl, (refl, tt))

-- The network, which was active before, is not active any more.
start_static_services_failed_example :
    IsRolledBack cell (hooks true) all_services 2 [] runtime_error network_active after_failure
start_static_services_failed_example =
    start_static_services_failed cell (hooks true) all_services 2 network_active after_failure
      (refl, (refl, (refl, tt))) only_last refl router_fails

network_is_gone : after_failure.marker 0 ≡ none
unfolding start_static_services
network_is_gone = refl

abbrev after_start : Running ℕ
after_start = (start_static_services cell (hooks false) all_services 1 network_active).1

router_starts :
    start_static_services cell (hooks false) all_services 1 network_active ≡ (ok tt, after_start)
unfolding start_static_services
router_starts = refl

one_running : highest_running all_services network_active ≤ 1
unfolding highest_running
one_running = omega arith

place_of_router : index all_services 1 ≡ some 1
unfolding index
place_of_router = refl

start_static_services_returned_example : after_start.marker 1 ≡ (
    if contains (through all_services 1) 1 && not (active 1 network_active)
    then some 5
    else network_active.marker 1)
start_static_services_returned_example =
    start_static_services_returned cell (hooks false) all_services 1 1 1 network_active after_start
      refl refl place_of_router one_running router_starts

stop_static_services_lem_example :
    (((stop_static_services cell (hooks false) all_services 1 network_active).0 ≡ ok tt)
      ⊎ ((stop_static_services cell (hooks false) all_services 1 network_active).0
          ≡ raise runtime_error))
    × ((k : ℕ)
        → (stop_static_services cell (hooks false) all_services 1 network_active).1.marker k ≡ (
            if contains (through (2 ∷ 1 ∷ 0 ∷ []) 1) k
            then none
            else (down cell (hooks false) 2 network_active).1.marker k))
stop_static_services_lem_example =
    stop_static_services_lem cell (hooks false) all_services 1 2 (1 ∷ 0 ∷ []) network_active
      (refl, (refl, (refl, tt))) refl (refl, (refl, tt)) refl

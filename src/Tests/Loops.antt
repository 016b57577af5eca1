-- ===== src/Tests/Loops.antt =====
-- The loop of an agent and what it waits for (uno/agent/agent.py), `max_rate`
-- (uno/registry/versioned.py) and a WireGuard interface (uno/core/wg.py) at concrete inputs.
use uno.Prelude.{
  ℕ, ◌+◌, ◌*◌, ◌≤◌, ◌≡◌, refl, sym, ap, ◌↔◌, true, false, none, some, List, [], ◌∷◌, map, arith,
  ◌==◌, runtime_error, ok, raise, Exec,
}
use uno.Prelude.Dict.{mem}
use uno.Ip.{Network}
use uno.Uvn.{network_key}
use uno.Peers.{Owner, PeersList, Status, Peer}
use uno.Agent.{condition_reached, rated, Steps, Round, spin_rounds, goes_on, reloads_at}
use uno.Agent.Rates.{rated_lem}
use uno.Agent.Spinning.{spin_rounds_ends, spin_rounds-Explained, Explained}
use uno.Agent.Waiting.{connected_by, offline_at, reloads_at_iff}
use uno.WireGuard.{Command, Interface, Cryptokeys, Request, request_all, start, stop}
use uno.WireGuard.Allowing.{IsCryptokeys, requested, request_all-shown}
use uno.WireGuard.Lifecycle.{Ends, HasFlags, create_commands, up_commands, start-Ends, stop-Ends}
use uno.VpnConfig.{WireGuardConfig}
use uno.Tests.Agents.{initial, cell_2}

-- Calls 3 seconds apart are dropped, and the second of two calls in one second is not.
rated_lem_example :
    (rated 2 0 (10 ∷ 13 ∷ 16 ∷ []) ≡ false ∷ false ∷ false ∷ [])
    × (rated 2 0 (10 ∷ 10 ∷ []) ≡ false ∷ true ∷ [])
rated_lem_example =
    rated_lem 2 10 (13 ∷ 16 ∷ []) (10 ∷ []) (omega arith) (omega arith) (omega arith)

-- The participant counts the rounds; the exit condition holds at 7.
abbrev counting : Steps ℕ
counting = record {
  spin = λ n. (ok false, n + 1);
  until = some (λ n. (ok (n == 7), n));
  serve = λ n. (ok tt, n);
  reload = λ n. false;
  reloading = λ n. n;
}

abbrev clock : ℕ → ℕ
clock n = 2 * n

spin_rounds_ends_example : goes_on (spin_rounds counting (some 6) clock 4 0 0).0 ≡ false
spin_rounds_ends_example = spin_rounds_ends counting 6 clock 3 0 0 (omega arith)

condition_is_reached :
    spin_rounds counting (some 60) clock 9 0 0 ≡ (Round.ended condition_reached, 7)
unfolding spin_rounds
condition_is_reached = refl

spin_rounds-Explained_example :
    Explained counting
      (some 60)
      clock
      (spin_rounds counting (some 60) clock 9 0 0).0
      (spin_rounds counting (some 60) clock 9 0 0).1
spin_rounds-Explained_example = spin_rounds-Explained counting (some 60) clock 9 0 0

-- The cell 2, which was rekeyed, is online in the first round and offline in the second.
abbrev second_cell : Status → PeersList → PeersList
second_cell status l = record l {
  peers = map (λ (p : Peer). record p { status = record p.status { value = status } }) l.peers;
  status_all_cells_connected = true;
}

abbrev seen : List PeersList
seen = second_cell Status.online initial ∷ second_cell Status.offline initial ∷ []

abbrev rekeyed : List Owner
rekeyed = Owner.of_cell 1 false ∷ cell_2 ∷ []

reloads_second : reloads_at rekeyed seen false ≡ some 1
unfolding reloads_at
reloads_second = refl

reloads_at_iff_example :
    ((m : ℕ) × (reloads_at rekeyed seen false ≡ some m) × (m ≤ 1))
    ↔ ((m : ℕ) × (connected_by seen m ≡ true) × (offline_at rekeyed seen m ≡ true) × (m ≤ 1))
reloads_at_iff_example = reloads_at_iff rekeyed seen 1

abbrev config : WireGuardConfig
config = record {
  intf = record {
    name = ("uwg-{}", 0);
    privkey = "private";
    address = 0xa000001;
    netmask = 16;
    port = some 63550;
    endpoint = none;
    mtu = none;
  };
  peers =
      record {
        id = 1;
        pubkey = "public";
        psk = "preshared";
        address = 0xa000002;
        allowed = [];
        endpoint = none;
        keepalive = none;
      }
      ∷ [];
  masquerade = false;
  forward = true;
  tunnel = false;
  tunnel_root = false;
}

-- Setting the configuration fails.
abbrev no_setconf : Command → Exec ℕ (Unit {0})
no_setconf Command.setconf w = (raise runtime_error, w)
no_setconf c w = (ok tt, w + 1)

abbrev stopped : Interface ℕ
stopped = record { created = false; up = false; world = 0 }

start-Ends_example :
    Ends no_setconf
      (create_commands false none)
      up_commands
      (false, false)
      (false, true)
      (true, true)
      0
      (start no_setconf (λ w. (false, w)) config false stopped)
start-Ends_example = start-Ends no_setconf (λ w. (false, w)) config stopped

stop-Ends_example :
    let asserted =
      stop no_setconf (λ w. (false, w)) config true (record stopped { created = true }) in
    Ends no_setconf []
      (Command.link_delete ∷ [])
      (false, true)
      (false, true)
      (false, false)
      0
      (stop no_setconf (λ w. (false, w)) config false (record stopped { created = true }))
    × ((asserted.0 ≡ ok tt) × HasFlags no_setconf false false asserted.1 × (asserted.1.world ≡ 3))
stop-Ends_example =
    stop-Ends no_setconf (λ w. (false, w)) config (record stopped { created = true })

-- One peer, of which the networks are the world.
abbrev one_peer : Cryptokeys (List Network)
one_peer = record { show = λ key w. (ok w, w); set = λ key ips w. (ok tt, ips) }

one_peer-IsCryptokeys : IsCryptokeys one_peer
one_peer-IsCryptokeys = record {
  shows = λ key ips w w' u h. (w', refl, λ n. ap (λ v. mem v n) (sym (ap (λ p. p.1) h)));
}

abbrev net : ℕ → Network
net a = record { address = a; prefixlen = 32 }

abbrev requests : List Request
requests = Request.allow (net 1 ∷ net 2 ∷ []) ∷ Request.disallow (net 1 ∷ []) ∷ []

all_requested : request_all one_peer config 0 requests [] ≡ (ok tt, net 2 ∷ [])
unfolding request_all
all_requested = refl

request_all-shown_example :
    (shown : List Network) × (one_peer.show "public" (net 2 ∷ []) ≡ (ok shown, net 2 ∷ []))
    × ((n : Network) → mem shown n ≡ requested requests n (mem [] n))
request_all-shown_example =
    request_all-shown one_peer one_peer-IsCryptokeys _ config 0 requests [] (net 2 ∷ []) [] tt refl
      refl all_requested

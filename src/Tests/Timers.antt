-- ===== src/Tests/Timers.antt =====
-- The class `Timer` of uno/core/time.py at concrete inputs. The world is the time, which only
-- sleeping moves.
use uno.Prelude.{
  timeout_error, ℕ, ◌+◌, ◌≡◌, refl, Bool, true, none, some, arith, leb, assertion_error, ok, raise,
  Exec,
}
use uno.Timer.{pos, negsuc, Timer, wait}
use uno.Prelude.Dict.{is_some}
use uno.Timer.Waiting.{Explained, wait-Explained, wait_again}
use uno.Timer.Ending.{IsClock, wait_ends}

abbrev now : ℕ → ℕ × ℕ
now time = (time, time)

abbrev sleep : ℕ → ℕ → ℕ
sleep d time = d + time

-- The condition holds from this time on.
abbrev from : ℕ → Exec ℕ Bool
from start time = (ok (leb start time), time)

abbrev timer : ℕ → Timer ℕ
timer start = record {
  period = pos 1;
  check_delay = 300000;
  check_condition = some (from start);
  ts_start = none;
  world = 50;
}

waits_twice : (wait now sleep 5 (timer 600000)).0 ≡ some (ok (pos 600000))
unfolding wait
waits_twice = refl

times_out : (wait now sleep 5 (timer 6000000)).0 ≡ some (raise timeout_error)
unfolding wait
times_out = refl

never_times_out : (wait now sleep 9 (record (timer 6000000) { period = negsuc 0 })).0 ≡ none
unfolding wait
never_times_out = refl

wait-Explained_example :
    Explained now sleep (from 600000) 50 (pos 1) (wait now sleep 5 (timer 600000))
wait-Explained_example = wait-Explained now sleep (from 600000) 5 (timer 600000) refl refl

wait_again_example :
    wait now sleep 3 (wait now sleep 5 (timer 6000000)).1
    ≡ (some (raise assertion_error), (wait now sleep 5 (timer 6000000)).1)
wait_again_example = wait_again now sleep 5 3 (timer 6000000) timeout_error times_out

only_sleeping : IsClock (λ time. time) now sleep (from 6000000)
only_sleeping = record {
  now-time = λ s. refl;
  now-later = λ s. omega arith;
  sleep-later = λ d s. omega arith;
  condition-later = λ s. omega arith;
}

wait_ends_example : is_some (wait now sleep 5 (timer 6000000)).0 ≡ true
wait_ends_example =
    wait_ends (λ time. time) now sleep (from 6000000) 0 4 (timer 6000000) only_sleeping refl refl
      refl (omega arith) (omega arith)

-- ===== src/Timer.antt =====
-- uno/core/time.py: the class `Timer`. Times are numbers of microseconds, of which a `timedelta`
-- is a difference; the messages for the log are left out.
pub mod Waiting
pub mod Ending
use uno.Prelude.{
  timeout_error, ℕ, zero, suc, ◌+◌, ◌-◌, ◌*◌, ◌/◌, ◌%◌, ◌^◌, ◌≤◌, ◌<◌, max, min, ◌≡◌, refl, sym, ap,
  ◌∙◌, ◌≢◌, ◌↔◌, ◌⊎◌, inl, inr, Bool, true, false, not, ◌&&◌, ◌||◌, Option, none, some, List, [],
  ◌∷◌, ◌++◌, map, arith, ltb, leb, ◌==◌, if◌then◌else◌, ltb→lt, lt→ltb, leb→le, ==_iff, ==_refl,
  ==_comm, Bool-cases, Option-cases, length, get_elem?, take, drop, replicate, length-append,
  length-replicate, take-append-drop, All, range_from, Error, runtime_error, value_error,
  index_error, key_error, type_error, assertion_error, address_value_error, not_implemented_error,
  stop_iteration, missing_key_material, Result, ok, raise, Exec, pure, lift, and_then, ◌>>=◌,
  and_then-eq-ok,
}

pub data ℤ : Type 0 where
  pos : ℕ → ℤ
  negsuc : ℕ → ℤ

-- `ts - other`
unfoldable pub subtract : ℕ → ℕ → ℤ
subtract ts other = if leb other ts then pos (ts - other) else negsuc (other - ts - 1)

-- `elapsed.total_seconds() >= period`
unfoldable pub reached : ℤ → ℕ → Bool
reached (pos elapsed) period = leb (period * 1000000) elapsed
reached (negsuc n) period = false

-- `world` is what the timer runs in: the clock, and what the condition looks at. The period is in
-- seconds, the delay in microseconds; a delay below 0 is like 0.
pub record Timer (S : Type 0) : Type 0 where
  pub period : ℤ
  pub check_delay : ℕ
  pub check_condition : Option (Exec S Bool)
  pub ts_start : Option ℕ
  pub world : S

-- The fuel of a loop may run out before the loop has ended.
abbrev pub Loop : Type 0 → Type 0 → Type 0
Loop S A = Timer S → Option (Result A) × Timer S

abbrev pub ended : {S A : Type 0} → Result A × Timer S → Option (Result A) × Timer S
ended (r, t) = (some r, t)

-- `Timestamp.now()` and `time.sleep`
module _ {S : Type 0} (now : S → ℕ × S) (sleep : ℕ → S → S) where
  pub expired_after : ℤ → ℕ → Exec (Timer S) Bool
  unfolding reached subtract
  expired_after (negsuc n) start t = (ok false, t)
  expired_after (pos zero) start t = (ok true, t)
  expired_after (pos (suc n)) start t =
      let (ts, w) = now t.world in
      (ok (reached (subtract ts start) (suc n)), record t { world = w })

  pub expired_since : Option ℕ → Exec (Timer S) Bool
  unfolding expired_after
  expired_since none t = (raise assertion_error, t)
  expired_since (some start) t = expired_after t.period start t

  -- `expired`
  unfoldable pub expired : Exec (Timer S) Bool
  unfolding expired_since
  expired t = expired_since t.ts_start t

  pub start_new : Option ℕ → Exec (Timer S) (Unit {0})
  start_new (some start) t = (raise assertion_error, t)
  start_new none t =
      let (ts, w) = now t.world in (ok tt, record t { ts_start = some ts; world = w })

  -- `start`
  unfoldable pub start : Exec (Timer S) (Unit {0})
  unfolding start_new
  start t = start_new t.ts_start t

  pub pause : Bool → Exec (Timer S) (Unit {0})
  pause true t = (raise timeout_error, t)
  pause false t = (
    ok tt,
    record t { world = if ltb 0 t.check_delay then sleep t.check_delay t.world else t.world },
  )

  -- `check`
  unfoldable pub check : Exec (Timer S) (Unit {0})
  unfolding expired pause
  check = expired >>= pause

  pub stop_since : Option ℕ → Exec (Timer S) ℤ
  unfolding subtract
  stop_since none t = (raise assertion_error, t)
  stop_since (some start) t =
      let (ts, w) = now t.world in (ok (subtract ts start), record t { ts_start = none; world = w })

  -- `stop`
  unfoldable pub stop : Exec (Timer S) ℤ
  unfolding stop_since
  stop t = stop_since t.ts_start t

  -- `self._check_condition()`
  unfoldable pub ask : Exec S Bool → Exec (Timer S) Bool
  ask condition t = let (r, w) = condition t.world in (r, record t { world = w })

  pub checked : Loop S ℤ → Result (Unit {0}) × Timer S → Option (Result ℤ) × Timer S
  checked next (raise e, t) = (some (raise e), t)
  checked next (ok u, t) = next t

  pub asked : Loop S ℤ → Result Bool × Timer S → Option (Result ℤ) × Timer S
  unfolding checked check stop
  asked next (raise e, t) = (some (raise e), t)
  asked next (ok true, t) = ended (stop t)
  asked next (ok false, t) = checked next (check t)

  -- The loop of `wait`, with what follows it.
  unfoldable pub poll : Exec S Bool → ℕ → Loop S ℤ
  unfolding asked ask
  poll condition zero t = (none, t)
  poll condition (suc fuel) t = asked (poll condition fuel) (ask condition t)

  pub wait_for : Option (Exec S Bool) → ℕ → Loop S ℤ
  unfolding start poll checked
  wait_for none fuel t = (some (raise assertion_error), t)
  wait_for (some condition) fuel t = checked (poll condition fuel) (start t)

  -- `wait`
  unfoldable pub wait : ℕ → Loop S ℤ
  unfolding wait_for
  wait fuel t = wait_for t.check_condition fuel t

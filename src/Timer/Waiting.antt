-- ===== src/Timer/Waiting.antt =====
-- uno/core/time.py: how `Timer.wait` ends, and that it does.
use mathlib.Core.Path.{subst}
use uno.Prelude.{
  timeout_error, ℕ, zero, suc, ◌+◌, ◌*◌, ◌≡◌, refl, sym, ap, ◌∙◌, ◌⊎◌, inl, inr, Bool, true, false,
  Option, none, some, arith, leb, Bool-cases, Option-cases, Error, assertion_error, Result, ok,
  raise, Exec, ◌>>=◌,
}
use uno.Timer.{
  start_new, Loop, expired_after, ℤ, pos, negsuc, subtract, reached, Timer, expired, pause, check,
  start, stop, ask, checked, asked, poll, wait_for, wait,
}

-- What the code computes as `(ts - start).total_seconds() >= period`, without negative numbers.
pub reached-subtract :
    (ts start n : ℕ) → reached (subtract ts start) (suc n) ≡ leb (start + suc n * 1000000) ts
unfolding reached subtract
reached-subtract ts start n = elim (Bool-cases (leb start ts)) [
  | inl e ↦ rw e (ground arith)
  | inr e ↦ rw e (ground arith)
]

-- The period of a timer, in seconds, is over at a time. A negative one never is.
abbrev pub is_over : ℤ → ℕ → ℕ → Bool
is_over (negsuc n) since ts = false
is_over (pos zero) since ts = true
is_over (pos (suc n)) since ts = leb (since + suc n * 1000000) ts

-- The timer runs, since this time.
Runs : {S : Type 0} → Exec S Bool → ℕ → ℤ → Timer S → Type 0
Runs condition since period t =
    (t.ts_start ≡ some since) × (t.period ≡ period) × (t.check_condition ≡ some condition)

module _ {S : Type 0} (now : S → ℕ × S) (sleep : ℕ → S → S) (condition : Exec S Bool)
    (since : ℕ) where
  abbrev Checked : ℤ → S → Result (Unit {0}) × Timer S → Type 0
  Checked period s (ok u, t) = Runs condition since period t
  Checked period s (raise e, t) =
      (t.ts_start ≡ some since) × (e ≡ timeout_error) × (is_over period since (now s).0 ≡ true)

  -- How the loop ended, if it has.
  pub Explained : ℤ → Option (Result ℤ) × Timer S → Type 0
  Explained period (none, t) = Unit
  Explained period (some (ok elapsed), t) =
      (t.ts_start ≡ none)
      × (s : S) × ((condition s).0 ≡ ok true)
      × (elapsed ≡ subtract (now (condition s).1).0 since)
  Explained period (some (raise e), t) =
      (t.ts_start ≡ some since)
      × (s : S) × (((condition s).0 ≡ raise e)
          ⊎ (((condition s).0 ≡ ok false)
              × (e ≡ timeout_error)
              × (is_over period since (now (condition s).1).0 ≡ true)))

  expired_after-Checked :
      (period : ℤ) (t : Timer S)
      → Runs condition since period t
      → Checked period t.world ((expired_after now sleep period since >>= pause now sleep) t)
  unfolding expired_after pause Runs
  expired_after-Checked (negsuc n) t g = g
  expired_after-Checked (pos zero) t g = (g.0, refl, refl)
  expired_after-Checked (pos (suc n)) t g =
      let e = reached-subtract (now t.world).0 since n in
      elim (Bool-cases (leb (since + suc n * 1000000) (now t.world).0)) [
        | inl over ↦ rw (e, over) (g.0, refl, over)
        | inr more ↦ rw (e, more) g
      ]

  check-Checked :
      (period : ℤ) (t : Timer S)
      → Runs condition since period t
      → Checked period t.world (check now sleep t)
  unfolding check Runs expired
  check-Checked period t g = rw (g.0, g.1) (rw (g.0, g.1) at (expired_after-Checked period t g))

  checked-Explained :
      (period : ℤ) (next : Loop S ℤ) (s : S) (q : Result (Unit {0}) × Timer S)
      → (condition s).0 ≡ ok false
      → Checked period (condition s).1 q
      → ((t : Timer S) → Runs condition since period t → Explained period (next t))
      → Explained period (checked now sleep next q)
  unfolding checked Explained
  checked-Explained period next s (ok u, t) h c later = later t c
  checked-Explained period next s (raise e, t) h c later = (c.0, s, inr (h, c.1, c.2))

  asked-Explained :
      (period : ℤ) (next : Loop S ℤ) (t : Timer S) (r : Result Bool)
      → (condition t.world).0 ≡ r
      → Runs condition since period t
      → ((t : Timer S) → Runs condition since period t → Explained period (next t))
      → Explained period (asked now sleep next (r, record t { world = (condition t.world).1 }))
  unfolding asked stop Explained Runs
  asked-Explained period next t (raise e) h g later = (g.0, t.world, inl h)
  asked-Explained period next t (ok true) h g later = rw g.0 (refl, t.world, h, refl)
  asked-Explained period next t (ok false) h g later =
      checked-Explained period next t.world
        (check now sleep (record t { world = (condition t.world).1 })) h
        (check-Checked period (record t { world = (condition t.world).1 }) g) later

  poll-Explained :
      (period : ℤ) (fuel : ℕ) (t : Timer S)
      → Runs condition since period t
      → Explained period (poll now sleep condition fuel t)
  unfolding poll ask Explained
  poll-Explained period zero t g = tt
  poll-Explained period (suc fuel) t g =
      asked-Explained period (poll now sleep condition fuel) t (condition t.world).0 refl g
        (poll-Explained period fuel)

  Runs-start :
      (t : Timer S)
      → t.check_condition ≡ some condition
      → Runs condition since t.period (record t { ts_start = some since; world = (now t.world).1 })
  unfolding Runs
  Runs-start t c = (refl, refl, c)

module _ {S : Type 0} (now : S → ℕ × S) (sleep : ℕ → S → S) where
  -- The wait of a timer that has a condition and is not running: if it returns, then the condition
  -- held when it was tested last, the timer is stopped, and the time returned is that between the
  -- two readings of the clock. If it raises, then the timer still runs, and either the condition
  -- raised this exception, or it did not hold and then the period, which is not negative, was over,
  -- and this is the timeout.
  pub wait-Explained :
      (condition : Exec S Bool) (fuel : ℕ) (t : Timer S)
      → t.ts_start ≡ none
      → t.check_condition ≡ some condition
      → Explained now sleep condition (now t.world).0 t.period (wait now sleep fuel t)
  unfolding wait start
  wait-Explained condition fuel t stopped c =
      let started = record t { ts_start = some (now t.world).0; world = (now t.world).1 } in
      let explained =
        poll-Explained now sleep condition (now t.world).0 t.period fuel started
          (Runs-start now sleep condition (now t.world).0 t c) in
      rw (c, stopped) (rw c at explained)

  raise-Runs :
      (condition : Exec S Bool) (since : ℕ) (period : ℤ) (p : Option (Result ℤ) × Timer S)
      (e : Error)
      → Explained now sleep condition since period p
      → p.0 ≡ some (raise e)
      → p.1.ts_start ≡ some since
  unfolding Explained
  raise-Runs condition since period (none, t) e h failed = cc
  raise-Runs condition since period (some (ok elapsed), t) e h failed = cc
  raise-Runs condition since period (some (raise e'), t) e h failed = h.0

  -- `wait` refuses to start this timer.
  Refused : Timer S → Type 0
  Refused t = (t.check_condition ≡ none) ⊎ ((since : ℕ) × (t.ts_start ≡ some since))

  Refused-wait :
      (fuel : ℕ) (t : Timer S)
      → Refused t
      → wait now sleep fuel t ≡ (some (raise assertion_error), t)
  unfolding wait start Refused
  Refused-wait fuel t (inl c) = ap (λ x. wait_for now sleep x fuel t) c
  Refused-wait fuel t (inr r) = elim (Option-cases t.check_condition) [
    | inl c ↦ ap (λ x. wait_for now sleep x fuel t) c
    | inr c ↦
        ap (λ x. wait_for now sleep x fuel t) c.1
        ∙ ap (λ x. checked now sleep (poll now sleep c.0 fuel) (start_new now sleep x t)) r.1
  ]

  Refused-again :
      (fuel again : ℕ) (t : Timer S)
      → Refused t
      → wait now sleep again (wait now sleep fuel t).1
        ≡ (some (raise assertion_error), (wait now sleep fuel t).1)
  Refused-again fuel again t h =
      let e = Refused-wait fuel t h in
      subst (λ p. wait now sleep again p.1 ≡ (some (raise assertion_error), p.1)) (sym e)
        (Refused-wait again t h)

  -- A timer whose wait raised an exception, be it the timeout, is not stopped: every later wait of
  -- it raises AssertionError and changes nothing.
  pub wait_again :
      (fuel again : ℕ) (t : Timer S) (e : Error)
      → (wait now sleep fuel t).0 ≡ some (raise e)
      → wait now sleep again (wait now sleep fuel t).1
        ≡ (some (raise assertion_error), (wait now sleep fuel t).1)
  unfolding Refused
  wait_again fuel again t e failed = elim (Option-cases t.check_condition) [
    | inl c ↦ Refused-again fuel again t (inl c)
    | inr c ↦ elim (Option-cases t.ts_start) [
      | inr s ↦ Refused-again fuel again t (inr s)
      | inl s ↦
          let since = (now t.world).0 in
          let explained = wait-Explained c.0 fuel t s c.1 in
          let runs = raise-Runs c.0 since t.period (wait now sleep fuel t) e explained failed in
          Refused-wait again (wait now sleep fuel t).1 (inr (since, runs))
    ]
  ]

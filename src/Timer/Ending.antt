-- ===== src/Timer/Ending.antt =====
-- uno/core/time.py: a bound on how often `Timer.wait` tests its condition.
use uno.Prelude.{
  ℕ, zero, suc, ◌+◌, ◌*◌, ◌≤◌, ◌<◌, ◌≡◌, refl, inl, inr, Bool, true, false, none, some, arith, ltb,
  leb, lt→ltb, Bool-cases, Result, ok, raise, Exec,
}
use uno.Prelude.Dict.{is_some}
use uno.Timer.{ℤ, pos, Timer, expired, check, start, ask, checked, asked, poll, wait, Loop}
use uno.Timer.Waiting.{reached-subtract}

-- A clock that is not set back: sleeping takes at least the time asked for.
pub record IsClock {S : Type 0} (time : S → ℕ) (now : S → ℕ × S) (sleep : ℕ → S → S)
    (condition : Exec S Bool) : Type 0 where
  pub now-time : (s : S) → (now s).0 ≡ time s
  pub now-later : (s : S) → time s ≤ time (now s).1
  pub sleep-later : (d : ℕ) (s : S) → d + time s ≤ time (sleep d s)
  pub condition-later : (s : S) → time s ≤ time (condition s).1

-- A timer that runs since this time, with this period in seconds, which is not 0, and this delay.
RunsFor : {S : Type 0} → ℕ → ℕ → ℕ → Timer S → Type 0
RunsFor since n d t = (t.ts_start ≡ some since) × (t.period ≡ pos (suc n)) × (t.check_delay ≡ d)

module _ {S : Type 0} (time : S → ℕ) (now : S → ℕ × S) (sleep : ℕ → S → S) (condition : Exec S Bool)
    (clock : IsClock time now sleep condition) (since n d : ℕ) (delays : ltb 0 d ≡ true) where
  abbrev Slept : S → Result (Unit {0}) × Timer S → Type 0
  Slept s (raise e, t) = Unit
  Slept s (ok u, t) =
      RunsFor since n d t × (time s + 1 ≤ since + suc n * 1000000) × (d + time s ≤ time t.world)

  check-Slept : (t : Timer S) → RunsFor since n d t → Slept t.world (check now sleep t)
  unfolding check expired RunsFor
  check-Slept t g =
      let e = reached-subtract (now t.world).0 since n in
      elim (Bool-cases (leb (since + suc n * 1000000) (now t.world).0)) [
        | inl over ↦ rw (g.0, g.1, e, over) tt
        | inr more ↦
            let early : time t.world + 1 ≤ since + suc n * 1000000 =
              ground (arith, clock.now-time t.world, more) in
            let slept : d + time t.world ≤ time (sleep d (now t.world).1) =
              omega (arith, clock.sleep-later d (now t.world).1, clock.now-later t.world) in
            rw (g.0, g.1, g.2, e, more, delays) ((refl, refl, refl), early, slept)
      ]

  checked-some :
      (next : Loop S ℤ) (s : S) (q : Result (Unit {0}) × Timer S)
      → Slept s q
      → ((t : Timer S)
          → RunsFor since n d t
          → (time s + 1 ≤ since + suc n * 1000000)
          → (d + time s ≤ time t.world)
          → is_some (next t).0 ≡ true)
      → is_some (checked now sleep next q).0 ≡ true
  unfolding checked
  checked-some next s (raise e, t) h later = refl
  checked-some next s (ok u, t) h later = later t h.0 h.1 h.2

  asked-some :
      (next : Loop S ℤ) (t : Timer S) (r : Result Bool)
      → RunsFor since n d t
      → ((t' : Timer S)
          → RunsFor since n d t'
          → (time t.world + 1 ≤ since + suc n * 1000000)
          → (d + time t.world ≤ time t'.world)
          → is_some (next t').0 ≡ true)
      → is_some (asked now sleep next (r, record t { world = (condition t.world).1 })).0 ≡ true
  unfolding asked RunsFor
  asked-some next t (raise e) g later = refl
  asked-some next t (ok true) g later = refl
  asked-some next t (ok false) g later =
      let w = (condition t.world).1 in
      let asked_later = clock.condition-later t.world in
      checked-some next w (check now sleep (record t { world = w }))
        (check-Slept (record t { world = w }) g)
        (λ t' g' early slept.
          later t' g' (omega (arith, early, asked_later)) (omega (arith, slept, asked_later)))

  poll-some :
      (k : ℕ) (t : Timer S)
      → RunsFor since n d t
      → since + suc n * 1000000 ≤ time t.world + k * d
      → is_some (poll now sleep condition (suc k) t).0 ≡ true
  unfolding poll ask
  poll-some zero t g enough =
      asked-some (poll now sleep condition zero) t (condition t.world).0 g
        (λ t' g' early slept. ground arith)
  poll-some (suc k) t g enough =
      asked-some (poll now sleep condition (suc k)) t (condition t.world).0 g
        (λ t' g' early slept. poll-some k t' g' (omega arith))

-- The wait of a timer that is not running, with a period of at least a second, a delay that is
-- not 0 and a clock that is not set back: it ends within one test of its condition more than the
-- delays that make up the period, whatever the condition is.
pub wait_ends :
    {S : Type 0} (time : S → ℕ) (now : S → ℕ × S) (sleep : ℕ → S → S) (condition : Exec S Bool)
    (n k : ℕ) (t : Timer S)
    → IsClock time now sleep condition
    → t.ts_start ≡ none
    → t.check_condition ≡ some condition
    → t.period ≡ pos (suc n)
    → 0 < t.check_delay
    → suc n * 1000000 ≤ k * t.check_delay
    → is_some (wait now sleep (suc k) t).0 ≡ true
unfolding wait start RunsFor
wait_ends time now sleep condition n k t clock stopped c period delays enough =
    let since = (now t.world).0 in
    let started = record t { ts_start = some since; world = (now t.world).1 } in
    let begun : since ≤ time (now t.world).1 =
      rw (clock.now-time t.world) (clock.now-later t.world) in
    let polled =
      poll-some time now sleep condition clock since n t.check_delay (lt→ltb 0 t.check_delay delays)
        k started (refl, period, refl) (omega (arith, begun, enough)) in
    rw (c, stopped) (rw c at polled)

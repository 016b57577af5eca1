-- ===== src/Agent/Spinning.antt =====
-- uno/agent/agent.py: how and when the loop of `_spin` ends.
use uno.Agent.{
  raised, Round, tested, try_until, ended, overdue, served, goes_on, timed_out, Steps, spun, round,
  spin_rounds,
}
use uno.Prelude.{
  ℕ, zero, suc, ◌+◌, ◌≤◌, ◌≡◌, refl, inl, inr, Bool, true, false, Option, none, some, arith, leb,
  Bool-cases, Result, ok, raise, Exec,
}
use uno.Agent.{next_round, raised, ended, done_spinning, condition_reached, time_over}

-- How the loop came to an end of this kind, with this state.
pub Explained : {S : Type 0} → Steps S → Option ℕ → (ℕ → ℕ) → Round → S → Type 0
Explained steps limit clock next_round s' = Unit
Explained steps limit clock (raised e) s' = Unit
Explained {S} steps limit clock (ended done_spinning) s' = (s : S) × (steps.spin s ≡ (ok true, s'))
Explained {S} steps limit clock (ended condition_reached) s' =
    (until : Exec S Bool) × (s : S) × (steps.until ≡ some until) × (until s ≡ (ok true, s'))
Explained steps limit clock (ended time_over) s' =
    (k : ℕ) × (steps.until ≡ none) × (overdue limit (clock k) ≡ true)

module _ {S : Type 0} where
  timed_out_ends : (u : Option (Exec S Bool)) → goes_on (timed_out u) ≡ false
  unfolding timed_out
  timed_out_ends none = refl
  timed_out_ends (some until) = refl

  spun_ends :
      (steps : Steps S) (m spent : ℕ) (p : Result Bool × S)
      → m ≤ spent
      → goes_on (spun steps (some m) spent p).0 ≡ false
  unfolding spun
  spun_ends steps m spent (raise e, s) late = refl
  spun_ends steps m spent (ok true, s) late = refl
  spun_ends steps m spent (ok false, s) late =
      let over : leb m spent ≡ true = ground arith in rw over (timed_out_ends steps.until)

  overdue_ends :
      (steps : Steps S) (m spent : ℕ) (s : S)
      → m ≤ spent
      → goes_on (round steps (some m) spent s).0 ≡ false
  unfolding round
  overdue_ends steps m spent s late = spun_ends steps m spent (steps.spin s) late

  -- With a most time to spin, the loop has ended after the first round that reads at least that
  -- time, whatever the handlers, the exit condition and the services do.
  pub spin_rounds_ends :
      (steps : Steps S) (m : ℕ) (clock : ℕ → ℕ) (k n : ℕ) (s : S)
      → m ≤ clock (n + k)
      → goes_on (spin_rounds steps (some m) clock (suc k) n s).0 ≡ false
  unfolding spin_rounds
  spin_rounds_ends steps m clock zero n s late =
      rw (overdue_ends steps m (clock n) s (rw (let e : n + 0 ≡ n = omega arith in e) at late))
        (overdue_ends steps m (clock n) s (rw (let e : n + 0 ≡ n = omega arith in e) at late))
  spin_rounds_ends steps m clock (suc k) n s late =
      elim (Bool-cases (goes_on (round steps (some m) (clock n) s).0)) [
        | inr ends ↦ rw ends ends
        | inl more ↦ rw more (
            spin_rounds_ends steps m clock k (suc n) (round steps (some m) (clock n) s).1
              (rw (let e : n + suc k ≡ suc n + k = omega arith in e) at late))
      ]

module _ {S : Type 0} (steps : Steps S) (limit : Option ℕ) (clock : ℕ → ℕ) where
  abbrev IsExplained : Round × S → Type 0
  IsExplained p = Explained steps limit clock p.0 p.1

  served-IsExplained :
      (p : Result (Unit {0}) × S) → IsExplained (served steps.reload steps.reloading p)
  unfolding served Explained
  served-IsExplained (raise e, s) = tt
  served-IsExplained (ok u, s) = elim (Bool-cases (steps.reload s)) [
    | inl b ↦ rw b tt
    | inr b ↦ rw b tt
  ]

  tested-IsExplained :
      (until : Exec S Bool) (s : S) (p : Result Bool × S)
      → steps.until ≡ some until
      → until s ≡ p
      → IsExplained (tested steps p)
  unfolding tested Explained
  tested-IsExplained until s (raise e, s1) u h = tt
  tested-IsExplained until s (ok true, s1) u h = (until, s, u, h)
  tested-IsExplained until s (ok false, s1) u h = served-IsExplained (steps.serve s1)

  try_until-IsExplained :
      (u : Option (Exec S Bool)) (s : S) → steps.until ≡ u → IsExplained (try_until steps u s)
  unfolding try_until
  try_until-IsExplained none s u = served-IsExplained (steps.serve s)
  try_until-IsExplained (some until) s u = tested-IsExplained until s (until s) u refl

  timed_out-IsExplained :
      (u : Option (Exec S Bool)) (k : ℕ) (s : S)
      → steps.until ≡ u
      → overdue limit (clock k) ≡ true
      → IsExplained (timed_out u, s)
  unfolding timed_out Explained
  timed_out-IsExplained none k s u late = (k, u, late)
  timed_out-IsExplained (some until) k s u late = tt

  spun-IsExplained :
      (k : ℕ) (s : S) (p : Result Bool × S)
      → steps.spin s ≡ p
      → IsExplained (spun steps limit (clock k) p)
  unfolding spun Explained
  spun-IsExplained k s (raise e, s1) h = tt
  spun-IsExplained k s (ok true, s1) h = (s, h)
  spun-IsExplained k s (ok false, s1) h = elim (Bool-cases (overdue limit (clock k))) [
    | inl late ↦ rw late (timed_out-IsExplained steps.until k s1 refl late)
    | inr b ↦ rw b (try_until-IsExplained steps.until s1 refl)
  ]

  round-IsExplained : (k : ℕ) (s : S) → IsExplained (round steps limit (clock k) s)
  unfolding round
  round-IsExplained k s = spun-IsExplained k s (steps.spin s) refl

  -- Where the loop ends and raises nothing: the participant was done; or there is an exit condition
  -- and it held, in the state that is left; or there is none and a round read at least the most
  -- time to spin. So with an exit condition the loop never returns because of the time.
  pub spin_rounds-Explained :
      (fuel n : ℕ) (s : S)
      → Explained steps limit clock
          (spin_rounds steps limit clock fuel n s).0
          (spin_rounds steps limit clock fuel n s).1
  unfolding spin_rounds Explained
  spin_rounds-Explained zero n s = tt
  spin_rounds-Explained (suc fuel) n s =
      elim (Bool-cases (goes_on (round steps limit (clock n) s).0)) [
        | inl more ↦ rw more (spin_rounds-Explained fuel (suc n) (round steps limit (clock n) s).1)
        | inr ends ↦ rw ends (round-IsExplained n s)
      ]

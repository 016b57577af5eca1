-- ===== src/Services/Started.antt =====
-- uno/agent/agent.py: which services are up when `start_static_services` returns.
use uno.Services.{
  write_marker, take_over_static, start_static, highest_running, index, active, or_roll_back,
  start_up_to, up, Running, start_static_services, up_through, Hooks, Setup,
}
use uno.Prelude.{
  Result-cases, ℕ, ◌≤◌, ◌≡◌, refl, ap, ◌∙◌, inl, inr, true, false, not, ◌&&◌, some, List, [], ◌∷◌,
  arith, ltb, ◌==◌, if◌then◌else◌, ==_iff, Bool-cases, ok,
}
use uno.Prelude.Sets.{contains}

-- The services of a list up to the first that is the target.
abbrev pub through : List ℕ → ℕ → List ℕ
through [] target = []
through (x ∷ xs) target = if x == target then x ∷ [] else x ∷ through xs target

module _ {W : Type 0} (setup : Setup) (hooks : Hooks W) where
  -- One round of a loop that returned.
  round_returned :
      (svc : ℕ) (rest : List ℕ) (target : ℕ) (started : List ℕ) (s s' : Running W) {u : Unit {0}}
      → up_through setup hooks (svc ∷ rest) target started s ≡ (ok u, s')
      → ((v : Unit {0}) × ((up setup hooks svc s).0 ≡ ok v))
        × ((if svc == target
              then (ok u, (up setup hooks svc s).1)
              else up_through setup hooks rest target (svc ∷ started) (up setup hooks svc s).1)
            ≡ (ok u, s'))
  unfolding up_through or_roll_back
  round_returned svc rest target started s s' h = elim (Result-cases (up setup hooks svc s).0) [
    | inr (e, raised) ↦ absurd (let q = rw raised at h in cc (ap (λ p. p.0) q))
    | inl (v, returned) ↦ ((v, returned), (let q = rw returned at h in q))
  ]

  up_marker :
      (svc k : ℕ) (s : Running W) {v : Unit {0}}
      → setup.is_agent k ≡ false
      → setup.runnable k ≡ true
      → (up setup hooks svc s).0 ≡ ok v
      → (up setup hooks svc s).1.marker k
        ≡ (if (svc == k) && not (active k s) then some setup.config_id else s.marker k)
  unfolding up start_static take_over_static write_marker
  up_marker svc k s plain runs returned = ground (arith, ==_iff svc k)

  up_through_marker :
      (services : List ℕ) (target : ℕ) (started : List ℕ) (s s' : Running W) (k : ℕ) {u : Unit {0}}
      → setup.is_agent k ≡ false
      → setup.runnable k ≡ true
      → up_through setup hooks services target started s ≡ (ok u, s')
      → s'.marker k ≡ (
          if contains (through services target) k && not (active k s)
          then some setup.config_id
          else s.marker k)
  unfolding up_through
  up_through_marker [] target started s s' k plain runs h = rw (← ap (λ p. p.1) h) refl
  up_through_marker (svc ∷ rest) target started s s' k plain runs h =
      let r = round_returned svc rest target started s s' h in
      let more = r.1 in
      let here = up_marker svc k s plain runs r.0.1 in
      let s1 = (up setup hooks svc s).1 in
      elim (Bool-cases (svc == target)) [
        | inl same ↦ (let q = rw same at more in rw (← ap (λ p. p.1) q) (here ∙ ground arith))
        | inr other ↦
            (let q = rw other at more in
              up_through_marker rest target (svc ∷ started) s1 s' k plain runs q
              ∙ ground (arith, here))
      ]

  -- If `start_static_services` returns where no service at the place of the target or behind it was
  -- active: every service up to the target that is not the agent's own and can run has a marker, the
  -- one that it had, or one of the present configuration if it was not active; and those behind the
  -- target keep theirs.
  pub start_static_services_returned :
      (services : List ℕ) (target i k : ℕ) (s s' : Running W) {u : Unit {0}}
      → setup.is_agent k ≡ false
      → setup.runnable k ≡ true
      → index services target ≡ some i
      → highest_running services s ≤ i
      → start_static_services setup hooks services target s ≡ (ok u, s')
      → s'.marker k ≡ (
          if contains (through services target) k && not (active k s)
          then some setup.config_id
          else s.marker k)
  unfolding start_static_services start_up_to
  start_static_services_returned services target i k s s' plain runs found below h =
      let low : ltb i (highest_running services s) ≡ false = ground arith in
      up_through_marker services target [] s s' k plain runs (let q = rw (found, low) at h in q)

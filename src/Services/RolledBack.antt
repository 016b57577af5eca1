-- ===== src/Services/RolledBack.antt =====
-- uno/agent/agent.py: what is left when `start_static_services` raises.
use uno.Services.Starting.{up_failed, up_other, down_marker}
use uno.Services.{
  down, highest_running, or_roll_back, start_up_to, up, Running, roll_back, start_static_services,
  up_through, Hooks, Setup, index,
}
use uno.Prelude.{
  ok, ◌∙◌, Result-cases, ℕ, suc, ◌≡◌, refl, sym, ap, inl, inr, true, false, ◌||◌, none, some, List,
  [], ◌∷◌, ◌++◌, arith, ltb, ◌==◌, if◌then◌else◌, ==_iff, Bool-cases, All, Error, raise,
}
use uno.Prelude.Sets.{contains}

pub index_among :
    (services : List ℕ) (svc : ℕ)
    → contains services svc ≡ true
    → (i : ℕ) × (index services svc ≡ some i)
unfolding index
index_among [] svc among = cc
index_among (x ∷ xs) svc among = elim (Bool-cases (x == svc)) [
  | inl same ↦ (0, rw same)
  | inr other ↦ (let (i, e) = index_among xs svc (ground arith) in (suc i, rw (other, e)))
]

-- The services of a list are brought up one after the other, and none fails.
pub BringsUp : {W : Type 0} → Setup → Hooks W → List ℕ → Running W → Running W → Type 0
BringsUp setup hooks [] s s' = s ≡ s'
BringsUp setup hooks (svc ∷ rest) s s' =
    ((up setup hooks svc s).0 ≡ ok tt) × BringsUp setup hooks rest (up setup hooks svc s).1 s'

-- No service but the last is the agent.
unfoldable pub AgentIsLast : Setup → List ℕ → Type 0
AgentIsLast setup [] = Unit
AgentIsLast setup (svc ∷ []) = Unit
AgentIsLast setup (svc ∷ (next ∷ rest)) =
    (setup.is_agent svc ≡ false) × AgentIsLast setup (next ∷ rest)

-- What the `except` clause leaves: the service that failed is that of which `up` raised this error,
-- after those before it were brought up.
pub record IsRolledBack {W : Type 0} (setup : Setup) (hooks : Hooks W) (services : List ℕ)
    (target : ℕ) (started : List ℕ) (e : Error) (s s' : Running W) : Type 0 where
  pub before : List ℕ
  pub failing : ℕ
  pub after : List ℕ
  pub parts : services ≡ before ++ failing ∷ after
  pub reached : Running W
  pub brought_up : BringsUp setup hooks before s reached
  pub raised : (up setup hooks failing reached).0 ≡ raise e
  pub not_past : contains before target ≡ false
  pub markers :
      (k : ℕ)
      → s'.marker k
        ≡ (if contains before k || ((failing == k) || contains started k) then none else s.marker k)

module _ {W : Type 0} (setup : Setup) (hooks : Hooks W) where
  roll_back_marker :
      (started : List ℕ) (k : ℕ) (s : Running W)
      → All (λ svc. setup.has_static svc ≡ true) started
      → All (λ svc. setup.is_agent svc ≡ false) started
      → (roll_back setup hooks started s).marker k
        ≡ (if contains started k then none else s.marker k)
  unfolding roll_back
  roll_back_marker [] k s units others = refl
  roll_back_marker (svc ∷ rest) k s units others = ground (
    arith,
    down_marker setup hooks svc k s units.0 others.0,
    roll_back_marker rest k (down setup hooks svc s).1 units.1 others.1,
  )

  failed_at :
      (svc : ℕ) (rest : List ℕ) (target : ℕ) (started : List ℕ) (s s' : Running W) {e : Error}
      → All (λ k. setup.has_static k ≡ true) started
      → All (λ k. setup.is_agent k ≡ false) started
      → (up setup hooks svc s).0 ≡ raise e
      → s' ≡ roll_back setup hooks started (up setup hooks svc s).1
      → IsRolledBack setup hooks (svc ∷ rest) target started e s s'
  unfolding BringsUp
  failed_at svc rest target started s s' units' others' raised e = record {
    before = [];
    failing = svc;
    after = rest;
    parts = refl;
    reached = s;
    brought_up = refl;
    raised = raised;
    not_past = refl;
    markers = λ k. rw e (
        ground (
          arith,
          roll_back_marker started k (up setup hooks svc s).1 units' others',
          up_failed setup hooks svc s raised,
          up_other setup hooks svc k s,
          ==_iff svc k,
        ));
  }

  failed_later :
      (svc : ℕ) (rest : List ℕ) (target : ℕ) (started : List ℕ) (s s' : Running W) {e : Error}
      → (svc == target) ≡ false
      → (up setup hooks svc s).0 ≡ ok tt
      → IsRolledBack setup hooks rest target (svc ∷ started) e (up setup hooks svc s).1 s'
      → IsRolledBack setup hooks (svc ∷ rest) target started e s s'
  unfolding BringsUp
  failed_later svc rest target started s s' other returned r = record {
    before = svc ∷ r.before;
    failing = r.failing;
    after = r.after;
    parts = ap (◌∷◌ svc) r.parts;
    reached = r.reached;
    brought_up = (returned, r.brought_up);
    raised = r.raised;
    not_past = ground (arith, r.not_past);
    markers = λ k. ground (arith, r.markers k, up_other setup hooks svc k s);
  }

  -- A service with another behind it is not the agent.
  not_last :
      (svc : ℕ) (rest : List ℕ) (target : ℕ) (started : List ℕ) (s s' : Running W) {e : Error}
      → AgentIsLast setup (svc ∷ rest)
      → up_through setup hooks rest target started s ≡ (raise e, s')
      → (setup.is_agent svc ≡ false) × AgentIsLast setup rest
  unfolding AgentIsLast up_through
  not_last svc [] target started s s' last h = absurd (cc (ap (λ p. p.0) h))
  not_last svc (next ∷ rest) target started s s' last h = last

  up_through_failed :
      (services : List ℕ) (target : ℕ) (started : List ℕ) (s s' : Running W) {e : Error}
      → All (λ svc. setup.has_static svc ≡ true) services
      → AgentIsLast setup services
      → All (λ svc. setup.has_static svc ≡ true) started
      → All (λ svc. setup.is_agent svc ≡ false) started
      → up_through setup hooks services target started s ≡ (raise e, s')
      → IsRolledBack setup hooks services target started e s s'
  unfolding up_through or_roll_back
  up_through_failed [] target started s s' units last units' others' h =
      absurd (cc (ap (λ p. p.0) h))
  up_through_failed (svc ∷ rest) target started s s' {e = e} units last units' others' h =
      elim (Result-cases (up setup hooks svc s).0) [
        | inr (e1, raised) ↦
            let q = rw raised at h in
            failed_at svc rest target started s s' units' others' (raised ∙ ap (λ p. p.0) q)
              (sym (ap (λ p. p.1) q))
        | inl (u, returned) ↦ elim (Bool-cases (svc == target)) [
          | inl same ↦ absurd (let q = rw (returned, same) at h in cc (ap (λ p. p.0) q))
          | inr other ↦
              let s1 = (up setup hooks svc s).1 in
              let q : up_through setup hooks rest target (svc ∷ started) s1 ≡ (raise e, s') =
                rw (returned, other) at h in
              let (not_agent, last') = not_last svc rest target (svc ∷ started) s1 s' last q in
              failed_later svc rest target started s s' other returned (
                up_through_failed rest target (svc ∷ started) s1 s' units.1 last' (units.0, units')
                  (not_agent, others') q)
        ]
      ]

  -- If `start_static_services` raises for a target that is one of the services, all of which have
  -- units and of which only the last may be the agent: the error is that of the first service
  -- whose `up` raised, after those before it were brought up. The services before it are not
  -- active, also where they were active before the call; itself is not active; the target is not
  -- before it; and the markers of all other services are as before.
  pub start_static_services_failed :
      (services : List ℕ) (target : ℕ) (s s' : Running W) {e : Error}
      → All (λ svc. setup.has_static svc ≡ true) services
      → AgentIsLast setup services
      → contains services target ≡ true
      → start_static_services setup hooks services target s ≡ (raise e, s')
      → IsRolledBack setup hooks services target [] e s s'
  unfolding start_static_services start_up_to
  start_static_services_failed services target s s' units last among h =
      let (i, found) = index_among services target among in
      elim (Bool-cases (ltb i (highest_running services s))) [
        | inl above ↦ absurd (let q = rw (found, above) at h in cc (ap (λ p. p.0) q))
        | inr below ↦
            up_through_failed services target [] s s' units last tt tt
              (let q = rw (found, below) at h in q)
      ]

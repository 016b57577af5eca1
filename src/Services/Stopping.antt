-- ===== src/Services/Stopping.antt =====
-- uno/agent/agent.py and runnable.py: what `stop_static_services` and the end of a service's block
-- leave.
use uno.Services.RolledBack.{index_among}
use uno.Prelude.{
  ==_iff, sym, ap, ◌∙◌, inl, inr, Bool-cases, ℕ, ◌≡◌, refl, ◌⊎◌, true, false, none, List, [], ◌∷◌,
  ◌++◌, arith, ◌==◌, if◌then◌else◌, All, runtime_error, ok, raise,
}
use uno.Prelude.Sets.{contains}
use mathlib.Core.List.{reverse, reverse-append}
use uno.Services.Started.{through}
use uno.Services.Starting.{down_marker, down_self}
use uno.Services.{down, Running, stop_down_to, down_through, stop_static_services, Hooks, Setup}

All-append :
    {A : Type 0} (Q : A → Type 0) (front back : List A)
    → All Q back
    → All Q front
    → All Q (front ++ back)
All-append Q [] back of_back of_front = of_back
All-append Q (a ∷ front) back of_back of_front =
    (of_front.0, All-append Q front back of_back of_front.1)

All-reverse : {A : Type 0} (P : A → Type 0) (xs : List A) → All P xs → All P (reverse xs)
All-reverse P [] h = h
All-reverse P (x ∷ xs) h =
    rw (reverse-append (x ∷ []) xs)
      (All-append P (reverse xs) (x ∷ []) (h.0, tt) (All-reverse P xs h.1))

first_kept :
    (first : ℕ) (rest : List ℕ) (target k : ℕ)
    → contains (through (first ∷ rest) target) k ≡ false
    → (first == k) ≡ false
first_kept first rest target k kept = ground arith

module _ {W : Type 0} (setup : Setup) (hooks : Hooks W) where
  down_through_marker :
      (services : List ℕ) (target k : ℕ) (s : Running W)
      → All (λ svc. setup.has_static svc ≡ true) services
      → All (λ svc. setup.is_agent svc ≡ false) services
      → (down_through setup hooks services target s).1.marker k
        ≡ (if contains (through services target) k then none else s.marker k)
  unfolding down_through
  down_through_marker [] target k s units others = refl
  down_through_marker (svc ∷ rest) target k s units others = ground (
    arith,
    down_marker setup hooks svc k s units.0 others.0,
    down_through_marker rest target k (down setup hooks svc s).1 units.1 others.1,
  )

  -- The same, where the first of them may be the agent.
  down_through_first :
      (first : ℕ) (rest : List ℕ) (target k : ℕ) (s : Running W)
      → All (λ svc. setup.has_static svc ≡ true) (first ∷ rest)
      → All (λ svc. setup.is_agent svc ≡ false) rest
      → (down_through setup hooks (first ∷ rest) target s).1.marker k ≡ (
          if contains (through (first ∷ rest) target) k
          then none
          else (down setup hooks first s).1.marker k)
  unfolding down_through
  down_through_first first rest target k s units others =
      let gone = down_self setup hooks first s units.0 in
      let later = down_through_marker rest target k (down setup hooks first s).1 units.1 others in
      elim (Bool-cases (first == k)) [
        | inl same ↦
            let here =
              ap (λ n. (down setup hooks first s).1.marker n) (sym ((==_iff first k).0 same)) in
            ground (arith, later, same, here ∙ gone)
        | inr other ↦ ground (arith, later, other)
      ]

  -- The same, where a first one that is not the agent changes its own marker only.
  down_through_kept :
      (first : ℕ) (rest : List ℕ) (target k : ℕ) (s : Running W)
      → All (λ svc. setup.has_static svc ≡ true) (first ∷ rest)
      → All (λ svc. setup.is_agent svc ≡ false) rest
      → (down_through setup hooks (first ∷ rest) target s).1.marker k ≡ (
          if contains (through (first ∷ rest) target) k
          then none
          else if setup.is_agent first
          then (down setup hooks first s).1.marker k
          else s.marker k)
  down_through_kept first rest target k s units others =
      let torn = down_through_first first rest target k s units others in
      elim (Bool-cases (contains (through (first ∷ rest) target) k)) [
        | inl gone ↦ rw gone (torn ∙ rw gone refl)
        | inr kept ↦ elim (Bool-cases (setup.is_agent first)) [
          | inl agent ↦ rw (kept, agent) (torn ∙ rw kept refl)
          | inr other ↦
              rw (kept, other)
                (torn
                  ∙ rw kept (
                      down_marker setup hooks first k s units.0 other
                      ∙ rw (first_kept first rest target k kept) refl))
        ]
      ]

  -- Whatever raises in the services, all of which have units, and of which only the last may be
  -- the agent: `stop_static_services` returns or raises a RuntimeError if the target is one of
  -- them, and afterwards none of the services from the last one down to the target is active. The
  -- markers of all others are as before if the last one is not the agent, and otherwise as the end
  -- of the agent's process left them.
  pub stop_static_services_lem :
      (services : List ℕ) (target last : ℕ) (rest : List ℕ) (s : Running W)
      → All (λ svc. setup.has_static svc ≡ true) services
      → reverse services ≡ last ∷ rest
      → All (λ svc. setup.is_agent svc ≡ false) rest
      → contains services target ≡ true
      → (((stop_static_services setup hooks services target s).0 ≡ ok tt)
          ⊎ ((stop_static_services setup hooks services target s).0 ≡ raise runtime_error))
        × ((k : ℕ)
            → (stop_static_services setup hooks services target s).1.marker k ≡ (
                if contains (through (last ∷ rest) target) k
                then none
                else if setup.is_agent last
                then (down setup hooks last s).1.marker k
                else s.marker k))
  unfolding stop_static_services stop_down_to
  stop_static_services_lem services target last rest s units parts others among =
      let (i, found) = index_among services target among in
      let units' = rw parts at (All-reverse _ services units) in
      rw (found, parts) (ground arith, λ k. down_through_kept last rest target k s units' others)

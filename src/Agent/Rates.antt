-- ===== src/Agent/Rates.antt =====
-- uno/registry/versioned.py: which calls the decorator `max_rate` passes on.
use uno.Agent.{max_rate, rated}
use uno.Prelude.{ℕ, ◌+◌, ◌-◌, ◌≤◌, ◌<◌, ◌≡◌, refl, true, false, List, [], ◌∷◌, map, arith, leb}

-- Every call comes at least that long after the one before; or less long.
abbrev pub IsSparse : ℕ → ℕ → List ℕ → Type 0
IsSparse seconds last [] = Unit
IsSparse seconds last (now ∷ rest) = (last + seconds ≤ now) × IsSparse seconds now rest

abbrev pub IsDense : ℕ → ℕ → List ℕ → Type 0
IsDense seconds last [] = Unit
IsDense seconds last (now ∷ rest) = (now < last + seconds) × IsDense seconds now rest

rated_sparse :
    (seconds last : ℕ) (times : List ℕ)
    → IsSparse seconds last times
    → rated seconds last times ≡ map (λ (t : ℕ). false) times
unfolding rated max_rate
rated_sparse seconds last [] h = refl
rated_sparse seconds last (now ∷ rest) h =
    let tail = rated_sparse seconds now rest h.1 in
    let first : leb seconds (now - last) ≡ true = ground (arith, h.0) in rw (first, tail) refl

rated_dense :
    (seconds last : ℕ) (times : List ℕ)
    → 0 < seconds
    → IsDense seconds last times
    → rated seconds last times ≡ map (λ (t : ℕ). true) times
unfolding rated max_rate
rated_dense seconds last [] pos h = refl
rated_dense seconds last (now ∷ rest) pos h =
    let tail = rated_dense seconds now rest pos h.1 in
    let first : leb seconds (now - last) ≡ false = ground (arith, h.0) in rw (first, tail) refl

-- `max_rate` passes on none of the calls that keep the rate, each at least so many seconds after the
-- one before (the first one after the epoch), and all of the calls that exceed it after a first
-- call, each less than so many seconds after the one before.
pub rated_lem :
    (seconds first : ℕ) (sparse dense : List ℕ)
    → 0 < seconds
    → IsSparse seconds 0 (first ∷ sparse)
    → IsDense seconds first dense
    → (rated seconds 0 (first ∷ sparse) ≡ map (λ (t : ℕ). false) (first ∷ sparse))
      × (rated seconds 0 (first ∷ dense) ≡ false ∷ map (λ (t : ℕ). true) dense)
unfolding rated max_rate
rated_lem seconds first sparse dense pos slow quick = (
  rated_sparse seconds 0 (first ∷ sparse) slow,
  (let now : leb seconds (first - 0) ≡ true = ground (arith, slow.0) in
      rw (now, rated_dense seconds first dense pos quick) refl),
)

-- ===== src/Strategy/Crossed/Shares.antt =====
-- How the private peers are shared out (crossed_deployment_strategy.py, `priv_partition_sizes`).
use uno.Prelude.{
  ℕ, zero, suc, ◌+◌, ◌-◌, ◌*◌, ◌/◌, ◌%◌, ◌≤◌, ◌<◌, ◌≡◌, refl, ◌∙◌, inl, inr, List, [], ◌∷◌, ◌++◌,
  arith, leb, Bool-cases, length, replicate, length-append, length-replicate, All,
}
use native.Mathlib.Nat.{div-add-mod, mod-lt, div-eq_of_lt}
use uno.Strategy.Crossed.{even_shares, partition_sizes}

-- The sum of the shares.
abbrev pub total : List ℕ → ℕ
total [] = 0
total (s ∷ rest) = s + total rest

-- A share is the quotient of the two numbers, or one more.
abbrev pub IsFair : ℕ → ℕ → Type 0
IsFair quotient share = (quotient ≤ share) × (share ≤ quotient + 1)

even_shares_lem :
    (count remaining size : ℕ)
    → remaining ≤ count
    → (length (even_shares count remaining size) ≡ count)
      × (total (even_shares count remaining size) ≡ count * size + remaining)
      × All (IsFair size) (even_shares count remaining size)
unfolding even_shares
even_shares_lem zero remaining size h = (refl, omega arith, tt)
even_shares_lem (suc count) zero size h =
    let (l, t, f) = even_shares_lem count zero size (omega arith) in
    (omega (arith, l), grind (arith, t), ((omega arith, omega arith), f))
even_shares_lem (suc count) (suc remaining) size h =
    let (l, t, f) = even_shares_lem count remaining size (omega arith) in
    (omega (arith, l), grind (arith, t), ((omega arith, omega arith), f))

total-append : (xs ys : List ℕ) → total (xs ++ ys) ≡ total xs + total ys
total-append [] ys = omega arith
total-append (x ∷ xs) ys = omega (arith, total-append xs ys)

append-All : (Q : ℕ → Type 0) (ms ns : List ℕ) → All Q ns → All Q ms → All Q (ms ++ ns)
append-All Q [] ns behind before = behind
append-All Q (m ∷ ms) ns behind before = (before.0, append-All Q ms ns behind before.1)

total-replicate : (n s : ℕ) → total (replicate n s) ≡ n * s
total-replicate zero s = omega arith
total-replicate (suc n) s = grind (arith, total-replicate n s)

replicate-All : (P : ℕ → Type 0) (n s : ℕ) → P s → All P (replicate n s)
replicate-All P zero s h = tt
replicate-All P (suc n) s h = (h, replicate-All P n s h)

-- With at least one public peer: there is a share for each public peer, the shares add up to the
-- number of private peers, and each is that number divided by the number of public peers, rounded
-- down or up.
pub partition_sizes_lem :
    (private_count public_count : ℕ)
    → 0 < public_count
    → (length (partition_sizes private_count public_count) ≡ public_count)
      × (total (partition_sizes private_count public_count) ≡ private_count)
      × All (IsFair (private_count / public_count)) (partition_sizes private_count public_count)
unfolding partition_sizes
partition_sizes_lem private_count public_count pos =
    elim (Bool-cases (leb public_count private_count)) [
      | inl many ↦
          let below : private_count % public_count < public_count = mod-lt private_count pos in
          let (l, t, f) =
            even_shares_lem public_count (private_count % public_count)
              (private_count / public_count) (omega arith) in
          rw many (l, t ∙ div-add-mod private_count public_count, f)
      | inr few ↦
          let less : private_count < public_count = ground arith in
          let nothing : private_count / public_count ≡ 0 = div-eq_of_lt less in
          let ones = length-replicate {A = ℕ} private_count 1 in
          let zeros = length-replicate {A = ℕ} (public_count - private_count) 0 in
          let fair = IsFair (private_count / public_count) in
          rw few (
            length-append (replicate private_count 1) (replicate (public_count - private_count) 0)
                ∙ omega (arith, ones, zeros),
            total-append (replicate private_count 1) (replicate (public_count - private_count) 0)
                ∙ omega (
                  arith,
                  total-replicate private_count 1,
                  total-replicate (public_count - private_count) 0,
                ),
            append-All fair (replicate private_count 1) (replicate (public_count - private_count) 0)
                (replicate-All fair (public_count - private_count) 0 (omega (arith, nothing)))
                (replicate-All fair private_count 1 (omega (arith, nothing))),
          )
    ]

-- ===== src/PairedMap/Pairs.antt =====
-- The key of a pair does not depend on the order of the peers, and `pick` reads the value of one
-- of them (uno/core/paired_map.py, `pair_key` and `pick`).
use uno.Prelude.{inr, inl, ◌==◌, Bool-cases, ℕ, ◌≤◌, ◌≡◌, ◌≢◌, arith, ◌⊎◌}
use uno.PairedMap.{pair_key, pick}

-- For all peers the key is the same in both orders, and its first part is at most the second.
pub pair_key_comm :
    (a b : ℕ) → (pair_key a b ≡ pair_key b a) × ((pair_key a b).0 ≤ (pair_key a b).1)
unfolding pair_key
pair_key_comm a b = ground arith

pub pair_key_self : (a b : ℕ) → a ≤ b → pair_key a b ≡ (a, b)
unfolding pair_key
pair_key_self a b h = ground arith

-- Two pairs of peers share a key only if they are the same pair, in some order.
pub pair_key-injective :
    (a b c d : ℕ) → pair_key a b ≡ pair_key c d → ((a ≡ c) × (b ≡ d)) ⊎ ((a ≡ d) × (b ≡ c))
unfolding pair_key
pair_key-injective a b c d h = ground arith

-- For two different peers, `pick` reads the same value for a peer from both orders of the pair,
-- and the values of the two peers are the two parts of what is stored, the smaller peer's first.
pub pick_parts {ℓ} :
    {A : Type ℓ} (a b : ℕ) (val : A × A)
    → a ≢ b
    → (pick a b a val ≡ pick b a a val)
      × (((pick a b a val, pick a b b val) ≡ val) ⊎ ((pick a b b val, pick a b a val) ≡ val))
unfolding pick
pick_parts a b val h = ground arith

-- The value of a peer does not depend on the order in which the pair is named.
pub pick_comm {ℓ} :
    {A : Type ℓ} (a b target : ℕ) (val : A × A) → pick a b target val ≡ pick b a target val
unfolding pick
pick_comm a b target val = ground arith

pub pick_either {ℓ} :
    {A : Type ℓ} (a b target : ℕ) (val : A × A)
    → (pick a b target val ≡ val.0) ⊎ (pick a b target val ≡ val.1)
unfolding pick
pick_either a b target val = elim (Bool-cases ((pair_key a b).0 == target)) [
  | inl e ↦ inl (rw e)
  | inr e ↦ inr (rw e)
]

pub pick_ne : (a b : ℕ) (val : ℕ × ℕ) → a ≢ b → val.0 ≢ val.1 → pick a b a val ≢ pick a b b val
unfolding pick
pick_ne a b val ne differ = ground arith

-- ===== src/Strategy/Ring/Neighbours.antt =====
-- Left, right and across on the ring (crossed_deployment_strategy.py).
use uno.Prelude.{
  ℕ, ◌+◌, ◌-◌, ◌*◌, ◌/◌, ◌≤◌, ◌<◌, ◌≡◌, sym, ap, ◌∙◌, ◌≢◌, arith, ltb, ◌==◌, if◌then◌else◌, lt→ltb,
  ==_refl, ok,
}
use native.Mathlib.Nat.{mod-eq_of_lt, mod_self}
use native.Mathlib.Decide.{dec_lt, ℕ_discrete}
use mathlib.Core.Logic.{◌≢◌}
use uno.Strategy.Ring.{peer_left, peer_right, peer_across, crossed_count}

pub ok-injective : {a b : ℕ} → ok a ≡ ok b → a ≡ b
ok-injective h = cc

abbrev pub next : ℕ → ℕ → ℕ
next count i = if i + 1 == count then 0 else i + 1

abbrev pub previous : ℕ → ℕ → ℕ
previous count i = if i == 0 then count - 1 else i - 1

pub peer_right-eq-next : (count i : ℕ) → i < count → peer_right count i ≡ ok (next count i)
unfolding peer_right
peer_right-eq-next count i lt = elim (ℕ_discrete (i + 1) count) [
  | yes last ↦ rw (lt→ltb _ _ lt, last, mod_self count, ==_refl count)
  | no inner ↦ let small : i + 1 < count = omega arith in ground (arith, mod-eq_of_lt small)
]

pub peer_left-eq-previous : (count i : ℕ) → i < count → peer_left count i ≡ ok (previous count i)
unfolding peer_left
peer_left-eq-previous count i lt = ground arith

next-lt : (count i : ℕ) → i < count → next count i < count
next-lt count i lt = ground arith

previous-lt : (count i : ℕ) → i < count → previous count i < count
previous-lt count i lt = ground arith

previous-next : (count i : ℕ) → i < count → previous count (next count i) ≡ i
previous-next count i lt = ground arith

next-previous : (count i : ℕ) → i < count → next count (previous count i) ≡ i
next-previous count i lt = ground arith

-- On a ring of two or more, for a position on it: the peer on the right of a peer has it on its
-- left, and the peer on the left has it on its right; both are other positions of the ring.
pub peer_left-peer_right :
    (count i : ℕ)
    → 2 ≤ count
    → i < count
    → (right left : ℕ) × (peer_right count i ≡ ok right)
      × (peer_left count right ≡ ok i)
      × (peer_left count i ≡ ok left)
      × (peer_right count left ≡ ok i)
      × (right < count)
      × (left < count)
      × (right ≢ i)
      × (left ≢ i)
peer_left-peer_right count i h lt = (
  next count i,
  previous count i,
  peer_right-eq-next count i lt,
  peer_left-eq-previous count (next count i) (next-lt count i lt)
      ∙ ap ok (previous-next count i lt),
  peer_left-eq-previous count i lt,
  peer_right-eq-next count (previous count i) (previous-lt count i lt)
      ∙ ap ok (next-previous count i lt),
  next-lt count i lt,
  previous-lt count i lt,
  ground arith,
  ground arith,
)

abbrev pub across : ℕ → ℕ → ℕ
across count i = if ltb i (count / 2) then i + count / 2 else i - count / 2

pub peer_across-eq-across : (count i : ℕ) → i < count → peer_across count i ≡ ok (across count i)
unfolding peer_across
peer_across-eq-across count i lt = elim (dec_lt i (count / 2)) [
  | yes first ↦
      let inside : i + count / 2 < count = omega arith in ground (arith, mod-eq_of_lt inside)
  | no second ↦ ground arith
]

-- All but the last of an odd number of peers.
third_of_count :
    (count i : ℕ) → 4 ≤ count → i < count → crossed_count count i ≡ ok 3 → i < 2 * (count / 2)
unfolding crossed_count
third_of_count count i h lt three = ground arith

count_of_third : (count i : ℕ) → 4 ≤ count → i < 2 * (count / 2) → crossed_count count i ≡ ok 3
unfolding crossed_count
count_of_third count i h lt = ground arith

across-across : (count i : ℕ) → i < 2 * (count / 2) → across count (across count i) ≡ i
across-across count i lt = ground arith

across-lt : (count i : ℕ) → 2 ≤ count → i < 2 * (count / 2) → across count i < 2 * (count / 2)
across-lt count i h lt = ground arith

across-ne :
    (count i : ℕ)
    → 4 ≤ count
    → i < 2 * (count / 2)
    → (across count i ≢ i) × (across count i ≢ previous count i) × (across count i ≢ next count i)
across-ne count i h lt = (ground arith, ground arith, ground arith)

-- On a ring of four or more, for a position that the crossed strategy gives a third connection:
-- the peer across has a third connection too, which leads back; it is a position of the ring, and
-- it is neither the peer itself nor one on its left or right.
pub peer_across-peer_across :
    (count i : ℕ)
    → 4 ≤ count
    → i < count
    → crossed_count count i ≡ ok 3
    → (j : ℕ) × (peer_across count i ≡ ok j)
      × (peer_across count j ≡ ok i)
      × (crossed_count count j ≡ ok 3)
      × (j < count)
      × (j ≢ i)
      × (peer_left count i ≢ ok j)
      × (peer_right count i ≢ ok j)
peer_across-peer_across count i h lt three =
    let third = third_of_count count i h lt three in
    let there = across-lt count i (omega arith) third in
    let within : across count i < count = omega (arith, there) in
    let (self, left, right) = across-ne count i h third in
    (
      across count i,
      peer_across-eq-across count i lt,
      peer_across-eq-across count (across count i) within ∙ ap ok (across-across count i third),
      count_of_third count (across count i) h there,
      within,
      self,
      (λ e. left (ok-injective (sym e ∙ peer_left-eq-previous count i lt))),
      λ e. right (ok-injective (sym e ∙ peer_right-eq-next count i lt)),
    )

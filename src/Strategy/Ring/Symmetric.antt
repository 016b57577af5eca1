-- ===== src/Strategy/Ring/Symmetric.antt =====
-- The connections among public peers go both ways (crossed_deployment_strategy.py,
-- circular_deployment_strategy.py).
use uno.Prelude.{
  ℕ, zero, suc, ◌-◌, ◌%◌, ◌≤◌, ◌<◌, ◌≡◌, refl, sym, ap, ◌∙◌, ◌≢◌, not, ◌||◌, Option, some, List,
  arith, ltb, ◌==◌, if◌then◌else◌, length, Result, ok, raise,
}
use native.Mathlib.Decide.{ℕ_discrete}
use uno.Strategy.{Generated, Choices, at}
use uno.Strategy.Ring.{
  Kind, crossed, circular, peer_left, peer_right, peer_across, crossed_count, circular_count,
  ring_count, ring_connections, returns_some, generate_all_public,
}
use uno.Strategy.Ring.Neighbours.{ok-injective, peer_left-peer_right, peer_across-peer_across}

-- One of the ports that the i-th peer has leads to the j-th.
pub record Leads (g : Generated) (i j : ℕ) : Type 0 where
  pub port : ℕ
  pub total : ℕ
  pub connection : ℕ → Result (Option ℕ)
  pub counted : g.count i ≡ ok total
  pub below : port < total
  pub found : at g.connections port ≡ ok connection
  pub leads : connection i ≡ ok (some j)

some-inverse :
    (r : Result ℕ) {j : ℕ}
    → elim r [ ok m ↦ ok (some m) | raise e ↦ raise e ] ≡ ok (some j)
    → r ≡ ok j
some-inverse (ok m) h = cc
some-inverse (raise e) h = cc

some-of :
    (r : Result ℕ) {j : ℕ}
    → r ≡ ok j
    → elim r [ ok m ↦ ok (some m) | raise e ↦ raise e ] ≡ ok (some j)
some-of r h = rw h

-- Three or more peers have two or more connections each; of two peers each has one.
total_of_many :
    (kind : Kind) (count j : ℕ) → 3 ≤ count → (t : ℕ) × (ring_count kind count j ≡ ok t) × (2 ≤ t)
unfolding crossed_count circular_count
total_of_many circular count j h = (2, ground arith, omega arith)
total_of_many crossed count j h = (
  if count == 3 then 2 else if not (ltb 0 (count % 2)) || not (j == count - 1) then 3 else 2,
  ground arith,
  ground arith,
)

total_of_two : (kind : Kind) (j : ℕ) → ring_count kind 2 j ≡ ok 1
unfolding crossed_count circular_count
total_of_two circular j = refl
total_of_two crossed j = refl

total_of_some :
    (kind : Kind) (count j : ℕ) → 2 ≤ count → (t : ℕ) × (ring_count kind count j ≡ ok t) × (1 ≤ t)
total_of_some kind count j h = elim (ℕ_discrete count 2) [
  | yes two ↦ (1, rw two (total_of_two kind j), omega arith)
  | no more ↦ let (t, e, le) = total_of_many kind count j (omega arith) in (t, e, omega arith)
]

left_port :
    (kind : Kind) (count : ℕ)
    → at (ring_connections kind count) 0 ≡ ok (returns_some (peer_left count))
unfolding at
left_port crossed count = refl
left_port circular count = refl

right_port :
    (kind : Kind) (count : ℕ)
    → at (ring_connections kind count) 1 ≡ ok (returns_some (peer_right count))
unfolding at
right_port crossed count = refl
right_port circular count = refl

module _ (kind : Kind) (choices : Choices) (public : List ℕ) where
  abbrev ring : Generated
  ring = generate_all_public kind choices public

  abbrev count : ℕ
  count = length public

  left_Leads : (i j : ℕ) → 2 ≤ count → peer_left count i ≡ ok j → Leads ring i j
  unfolding generate_all_public
  left_Leads i j h e =
      let (t, counted, le) = total_of_some kind count i h in
      record {
        port = 0;
        total = t;
        connection = returns_some (peer_left count);
        counted = counted;
        below = le;
        found = left_port kind count;
        leads = some-of (peer_left count i) e;
      }

  right_Leads : (i j : ℕ) → 3 ≤ count → peer_right count i ≡ ok j → Leads ring i j
  unfolding generate_all_public
  right_Leads i j h e =
      let (t, counted, le) = total_of_many kind count i h in
      record {
        port = 1;
        total = t;
        connection = returns_some (peer_right count);
        counted = counted;
        below = le;
        found = right_port kind count;
        leads = some-of (peer_right count i) e;
      }

  -- What the ports of a ring are: on the left, on the right of three or more, and across.
  data IsPort (i j : ℕ) : Type 0 where
    is_left : peer_left count i ≡ ok j → IsPort i j
    is_right : 3 ≤ count → peer_right count i ≡ ok j → IsPort i j
    is_across :
        4 ≤ count
        → kind ≡ crossed
        → crossed_count count i ≡ ok 3
        → peer_across count i ≡ ok j
        → IsPort i j

across_Leads :
    (choices : Choices) (public : List ℕ) (i j : ℕ)
    → crossed_count (length public) i ≡ ok 3
    → peer_across (length public) i ≡ ok j
    → Leads (generate_all_public crossed choices public) i j
unfolding generate_all_public at
across_Leads choices public i j counted e = record {
  port = 2;
  total = 3;
  connection = returns_some (peer_across (length public));
  counted = counted;
  below = omega arith;
  found = refl;
  leads = some-of (peer_across (length public) i) e;
}

IsPort-Leads :
    (kind : Kind) (choices : Choices) (public : List ℕ) (i j : ℕ)
    → 2 ≤ length public
    → IsPort kind choices public i j
    → Leads (generate_all_public kind choices public) i j
IsPort-Leads kind choices public i j h (is_left e) = left_Leads kind choices public i j h e
IsPort-Leads kind choices public i j h (is_right three e) =
    right_Leads kind choices public i j three e
IsPort-Leads kind choices public i j h (is_across four k three e) =
    rw k (across_Leads choices public i j three e)

abbrev applied : Result (ℕ → Result (Option ℕ)) → ℕ → Result (Option ℕ)
applied (ok f) i = f i
applied (raise e) i = raise e

connected_by :
    (f : ℕ → Result ℕ) (i j : ℕ) (connection : ℕ → Result (Option ℕ))
    → ok (returns_some f) ≡ ok connection
    → connection i ≡ ok (some j)
    → f i ≡ ok j
connected_by f i j connection found leads =
    some-inverse (f i) (ap (λ (r : Result (ℕ → Result (Option ℕ))). applied r i) found ∙ leads)

crossed_total :
    (count i total : ℕ)
    → crossed_count count i ≡ ok total
    → (1 < total → 3 ≤ count) × (2 < total → (4 ≤ count) × (crossed_count count i ≡ ok 3))
unfolding crossed_count
crossed_total count i total h = (ground arith, ground arith)

circular_total :
    (count i total : ℕ) → circular_count count i ≡ ok total → (total ≤ 2) × (1 < total → 3 ≤ count)
unfolding circular_count
circular_total count i total h = (ground arith, ground arith)

-- Every port of a generated ring is one of these.
ring-IsPort :
    (kind : Kind) (choices : Choices) (public : List ℕ) (i j port total : ℕ)
    (connection : ℕ → Result (Option ℕ))
    → ring_count kind (length public) i ≡ ok total
    → port < total
    → at (ring_connections kind (length public)) port ≡ ok connection
    → connection i ≡ ok (some j)
    → IsPort kind choices public i j
unfolding at
ring-IsPort crossed choices public i j zero total connection counted below found leads =
    is_left (connected_by (peer_left (length public)) i j connection found leads)
ring-IsPort crossed choices public i j (suc zero) total connection counted below found leads =
    is_right ((crossed_total (length public) i total counted).0 below)
      (connected_by (peer_right (length public)) i j connection found leads)
ring-IsPort crossed choices public i j (suc (suc zero)) total connection counted below found leads =
    let (four, three) = (crossed_total (length public) i total counted).1 below in
    is_across four refl three
      (connected_by (peer_across (length public)) i j connection found leads)
ring-IsPort crossed choices public i j (suc (suc (suc p))) total connection counted below found
      leads =
    cc
ring-IsPort circular choices public i j zero total connection counted below found leads =
    is_left (connected_by (peer_left (length public)) i j connection found leads)
ring-IsPort circular choices public i j (suc zero) total connection counted below found leads =
    is_right ((circular_total (length public) i total counted).1 below)
      (connected_by (peer_right (length public)) i j connection found leads)
ring-IsPort circular choices public i j (suc (suc p)) total connection counted below found leads =
    absurd (omega (arith, (circular_total (length public) i total counted).0))

-- Of two peers, each is on the left of the other.
left_of_two :
    (count i j : ℕ) → count ≡ 2 → i < count → peer_left count i ≡ ok j → peer_left count j ≡ ok i
unfolding peer_left
left_of_two count i j two lt e = ground arith

-- A port has a port that leads back.
back :
    (kind : Kind) (choices : Choices) (public : List ℕ) (i j : ℕ)
    → 2 ≤ length public
    → i < length public
    → IsPort kind choices public i j
    → (j < length public) × (j ≢ i) × IsPort kind choices public j i
back kind choices public i j h lt (is_left e) =
    let (right, left, _, _, l, r, _, inside, _, other) =
      peer_left-peer_right (length public) i h lt in
    let same : left ≡ j = ok-injective (sym l ∙ e) in
    elim (ℕ_discrete (length public) 2) [
      | yes two ↦ (
        rw (← same) inside,
        rw (← same) other,
        is_left (left_of_two (length public) i j two lt e),
      )
      | no more ↦ (rw (← same) inside, rw (← same) other, is_right (omega arith) (rw (← same) r))
    ]
back kind choices public i j h lt (is_right three e) =
    let (right, left, r, l, _, _, inside, _, other, _) =
      peer_left-peer_right (length public) i h lt in
    let same : right ≡ j = ok-injective (sym r ∙ e) in
    (rw (← same) inside, rw (← same) other, is_left (rw (← same) l))
back kind choices public i j h lt (is_across four k three e) =
    let (there, out, home, counted, inside, other, _, _) =
      peer_across-peer_across (length public) i four lt three in
    let same : there ≡ j = ok-injective (sym out ∙ e) in
    (
      rw (← same) inside,
      rw (← same) other,
      is_across four k (rw (← same) counted) (rw (← same) home),
    )

-- On a generated ring of two or more public peers, crossed or circular, whatever the order of the
-- peers: a port of a peer leads to another peer of the ring, and that peer has a port that leads
-- back.
pub Leads-back :
    (kind : Kind) (choices : Choices) (public : List ℕ) (i j : ℕ)
    → 2 ≤ length public
    → i < length public
    → Leads (generate_all_public kind choices public) i j
    → (j < length public) × (j ≢ i) × Leads (generate_all_public kind choices public) j i
unfolding generate_all_public
Leads-back kind choices public i j h lt w =
    let (inside, other, port) = back kind choices public i j h lt (
      ring-IsPort kind choices public i j w.port w.total w.connection w.counted w.below w.found
        w.leads) in
    (inside, other, IsPort-Leads kind choices public j i h port)

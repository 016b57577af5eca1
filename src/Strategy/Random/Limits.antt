-- ===== src/Strategy/Random/Limits.antt =====
-- The limits that `_store_edge` keeps (random_deployment_strategy.py).
use uno.Prelude.{
  ℕ, ◌+◌, ◌≤◌, ◌<◌, ◌≡◌, ◌≢◌, inl, inr, true, false, not, ◌&&◌, ◌||◌, List, [], ◌∷◌, arith, ltb,
  leb, ◌==◌, if◌then◌else◌, Bool-cases, length, length-append,
}
use uno.Prelude.Sets.{contains, add, contains-add, contains-remove}
use uno.Prelude.Dict.{get, get-put, number_key}
use uno.Strategy.Random.{Graph, edges, store_edge, add_edge, update_peer_status, ensure, or_empty}

-- The three bounds on the number of links are in order.
pub record IsOrderly (g : Graph) : Type 0 where
  pub min_ok : g.min_peer_edges ≤ g.ok_peer_edges
  pub ok_max : g.ok_peer_edges ≤ g.max_peer_edges

-- No peer has more than the most links, and a peer stands in a set only if its number of links is
-- in the range of that set; a peer with a link stands in the set for its number of links.
pub record IsCounted (g : Graph) : Type 0 where
  pub limited : (p : ℕ) → length (edges g p) ≤ g.max_peer_edges
  pub full : (p : ℕ) → contains g.full_peers p ≡ true → g.max_peer_edges ≤ length (edges g p)
  pub good :
      (p : ℕ)
      → contains g.ok_peers p ≡ true
      → (g.ok_peer_edges ≤ length (edges g p)) × (length (edges g p) < g.max_peer_edges)
  pub few :
      (p : ℕ)
      → contains g.min_peers p ≡ true
      → (g.min_peer_edges ≤ length (edges g p)) × (length (edges g p) < g.ok_peer_edges)
  pub full_all :
      (p : ℕ)
      → 0 < length (edges g p)
      → g.max_peer_edges ≤ length (edges g p)
      → contains g.full_peers p ≡ true
  pub good_all :
      (p : ℕ)
      → 0 < length (edges g p)
      → g.ok_peer_edges ≤ length (edges g p)
      → length (edges g p) < g.max_peer_edges
      → contains g.ok_peers p ≡ true
  pub few_all :
      (p : ℕ)
      → 0 < length (edges g p)
      → g.min_peer_edges ≤ length (edges g p)
      → length (edges g p) < g.ok_peer_edges
      → contains g.min_peers p ≡ true

-- Links go both ways, and none leads from a peer to itself.
pub record IsGraph (g : Graph) : Type 0 where
  pub orderly : IsOrderly g
  pub counted : IsCounted g
  pub symmetric : (a b : ℕ) → contains (edges g a) b ≡ contains (edges g b) a
  pub irreflexive : (a : ℕ) → contains (edges g a) a ≡ false

length-add-le : (a : ℕ) (xs : List ℕ) → length (add a xs) ≤ length xs + 1
unfolding add
length-add-le a xs = ground (arith, length-append xs (a ∷ []))

le-length-add : (a : ℕ) (xs : List ℕ) → length xs ≤ length (add a xs)
unfolding add
le-length-add a xs = ground (arith, length-append xs (a ∷ []))

-- The edges after one of the two updates.
edges-add_edge :
    (a b : ℕ) (g : Graph) (p : ℕ)
    → edges (add_edge a b g) p ≡ (if a == p then add b (edges g a) else edges g p)
unfolding add_edge update_peer_status edges
edges-add_edge a b g p =
    ground (arith, get-put g.peer_edges a p (add b (or_empty (get g.peer_edges a))))

pub edges-ensure : (a : ℕ) (g : Graph) (p : ℕ) → edges (ensure a g) p ≡ edges g p
unfolding ensure edges
edges-ensure a g p = ground (arith, get-put g.peer_edges a p (or_empty (get g.peer_edges a)))

module _ (a b : ℕ) (g : Graph) where
  abbrev degree : ℕ
  degree = length (add b (edges g a))

  full-add_edge :
      (q : ℕ)
      → contains (add_edge a b g).full_peers q
        ≡ (leb g.max_peer_edges degree && (a == q) || contains g.full_peers q)
  unfolding add_edge
  full-add_edge q = ground (arith, contains-add a g.full_peers q)

  ok-add_edge :
      (q : ℕ)
      → contains (add_edge a b g).ok_peers q ≡ (
          if a == q
          then not (leb g.max_peer_edges degree)
            && (leb g.ok_peer_edges degree || contains g.ok_peers q)
          else contains g.ok_peers q)
  unfolding add_edge
  ok-add_edge q = ground (arith, contains-add a g.ok_peers q, contains-remove a g.ok_peers q)

  min-add_edge :
      (q : ℕ)
      → contains (add_edge a b g).min_peers q ≡ (
          if a == q
          then not (leb g.max_peer_edges degree)
            && not (leb g.ok_peer_edges degree)
            && (leb g.min_peer_edges degree || contains g.min_peers q)
          else contains g.min_peers q)
  unfolding add_edge
  min-add_edge q = ground (arith, contains-add a g.min_peers q, contains-remove a g.min_peers q)

  bounds-add_edge :
      ((add_edge a b g).max_peer_edges ≡ g.max_peer_edges)
      × ((add_edge a b g).ok_peer_edges ≡ g.ok_peer_edges)
      × ((add_edge a b g).min_peer_edges ≡ g.min_peer_edges)
  unfolding add_edge
  bounds-add_edge = (ground arith, ground arith, ground arith)

add_edge-IsCounted :
    (a b : ℕ) (g : Graph)
    → IsOrderly g
    → length (edges g a) < g.max_peer_edges
    → IsCounted g
    → IsCounted (add_edge a b g)
add_edge-IsCounted a b g o room h =
    let (most, good, least) = bounds-add_edge a b g in
    record {
      limited = λ p.
          ground (arith, most, edges-add_edge a b g p, length-add-le b (edges g a), h.limited p);
      full = λ p e. ground (arith, most, edges-add_edge a b g p, full-add_edge a b g p, h.full p);
      good = λ p e. ground (
        arith,
        most,
        good,
        edges-add_edge a b g p,
        ok-add_edge a b g p,
        h.good p,
        le-length-add b (edges g a),
      );
      few = λ p e. ground (
        arith,
        most,
        good,
        least,
        edges-add_edge a b g p,
        min-add_edge a b g p,
        h.few p,
        le-length-add b (edges g a),
      );
      full_all = λ p links e.
          ground (arith, most, edges-add_edge a b g p, full-add_edge a b g p, h.full_all p);
      good_all = λ p links e e'.
          ground (arith, most, good, edges-add_edge a b g p, ok-add_edge a b g p, h.good_all p);
      few_all = λ p links e e'. ground (
        arith,
        most,
        good,
        least,
        edges-add_edge a b g p,
        min-add_edge a b g p,
        h.few_all p,
        o.ok_max,
      );
    }

ensure-IsCounted : (a : ℕ) (g : Graph) → IsCounted g → IsCounted (ensure a g)
unfolding ensure
ensure-IsCounted a g h = record {
  limited = λ p. rw (edges-ensure a g p) (h.limited p);
  full = λ p e. rw (edges-ensure a g p) (h.full p e);
  good = λ p e. rw (edges-ensure a g p) (h.good p e);
  few = λ p e. rw (edges-ensure a g p) (h.few p e);
  full_all =
      λ p links e. h.full_all p (rw (edges-ensure a g p) at links) (rw (edges-ensure a g p) at e);
  good_all = λ p links e e'.
      h.good_all p (rw (edges-ensure a g p) at links) (rw (edges-ensure a g p) at e)
        (rw (edges-ensure a g p) at e');
  few_all = λ p links e e'.
      h.few_all p (rw (edges-ensure a g p) at links) (rw (edges-ensure a g p) at e)
        (rw (edges-ensure a g p) at e');
}

-- The edges after `_store_edge`, where both peers have room.
pub edges-both :
    (a b : ℕ) (g : Graph) (p : ℕ)
    → a ≢ b
    → edges (add_edge b a (add_edge a b g)) p
      ≡ (if b == p then add a (edges g b) else if a == p then add b (edges g a) else edges g p)
edges-both a b g p ne =
    ground
      (arith, edges-add_edge b a (add_edge a b g) p, edges-add_edge a b g p, edges-add_edge a b g b)

module _ (a b : ℕ) (g : Graph) (ne : a ≢ b) (h : IsGraph g)
    (room_a : length (edges g a) < g.max_peer_edges)
    (room_b : length (edges g b) < g.max_peer_edges) where
  abbrev linked : Graph
  linked = add_edge b a (add_edge a b g)

  linked-IsOrderly : IsOrderly linked
  linked-IsOrderly =
      let first = bounds-add_edge a b g in
      let second = bounds-add_edge b a (add_edge a b g) in
      record {
        min_ok = omega (arith, first.1, first.2, second.1, second.2, h.orderly.min_ok);
        ok_max = omega (arith, first.0, first.1, second.0, second.1, h.orderly.ok_max);
      }

  linked-IsCounted : IsCounted linked
  linked-IsCounted =
      let first = bounds-add_edge a b g in
      add_edge-IsCounted b a (add_edge a b g)
        (record {
          min_ok = omega (arith, first.1, first.2, h.orderly.min_ok);
          ok_max = omega (arith, first.0, first.1, h.orderly.ok_max);
        })
        (ground (arith, first.0, edges-add_edge a b g b))
        (add_edge-IsCounted a b g h.orderly room_a h.counted)

  linked-symmetric : (p q : ℕ) → contains (edges linked p) q ≡ contains (edges linked q) p
  linked-symmetric p q = ground (
    arith,
    edges-both a b g p ne,
    edges-both a b g q ne,
    h.symmetric p q,
    contains-add a (edges g b) q,
    contains-add b (edges g a) q,
    contains-add a (edges g b) p,
    contains-add b (edges g a) p,
  )

  linked-irreflexive : (p : ℕ) → contains (edges linked p) p ≡ false
  linked-irreflexive p = ground (
    arith,
    edges-both a b g p ne,
    h.irreflexive p,
    contains-add a (edges g b) p,
    contains-add b (edges g a) p,
  )

  linked-IsGraph : IsGraph linked
  linked-IsGraph = record {
    orderly = linked-IsOrderly;
    counted = linked-IsCounted;
    symmetric = linked-symmetric;
    irreflexive = linked-irreflexive;
  }

ensure-IsGraph : (a : ℕ) (g : Graph) → IsGraph g → IsGraph (ensure a g)
unfolding ensure
ensure-IsGraph a g h = record {
  orderly = record { min_ok = h.orderly.min_ok; ok_max = h.orderly.ok_max };
  counted = ensure-IsCounted a g h.counted;
  symmetric = λ p q. rw (edges-ensure a g p, edges-ensure a g q) (h.symmetric p q);
  irreflexive = λ p. rw (edges-ensure a g p) (h.irreflexive p);
}

-- Storing a link between two different peers keeps the invariant: links go both ways, none leads
-- from a peer to itself, no peer gets more than the most links, each peer stands only in the set
-- that its number of links calls for, and each with a link stands in it.
pub store_edge-IsGraph : (a b : ℕ) (g : Graph) → a ≢ b → IsGraph g → IsGraph (store_edge a b g)
unfolding store_edge
store_edge-IsGraph a b g0 ne h0 =
    let g = ensure b (ensure a g0) in
    let h = ensure-IsGraph b (ensure a g0) (ensure-IsGraph a g0 h0) in
    elim (Bool-cases
      (ltb (length (edges g a)) g.max_peer_edges && ltb (length (edges g b)) g.max_peer_edges)) [
        | inl room ↦ rw room (linked-IsGraph a b g ne h (ground arith) (ground arith))
        | inr full ↦ rw full h
      ]

-- Where the invariant holds, no peer stands in two of the three sets; the source asserts this of
-- every finished graph.
pub IsGraph-disjoint :
    (g : Graph) (p : ℕ)
    → IsGraph g
    → ((contains g.ok_peers p && contains g.full_peers p) ≡ false)
      × ((contains g.ok_peers p && contains g.min_peers p) ≡ false)
      × ((contains g.full_peers p && contains g.min_peers p) ≡ false)
IsGraph-disjoint g p h =
    let c = h.counted in
    (
      ground (arith, c.good p, c.full p),
      ground (arith, c.good p, c.few p),
      ground (arith, c.full p, c.few p, h.orderly.ok_max),
    )

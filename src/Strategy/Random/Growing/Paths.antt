-- ===== src/Strategy/Random/Growing/Paths.antt =====
-- The spanning trees are walks that visit no peer twice (random_deployment_strategy.py,
-- `_generate_new_spanning_tree`).
use uno.Prelude.{
  Result, Option, ℕ, zero, suc, ◌+◌, ◌%◌, ◌≤◌, ◌<◌, ◌≡◌, refl, sym, ap, ◌∙◌, ◌≢◌, inl, inr, true,
  false, ◌||◌, some, List, [], ◌∷◌, ◌++◌, map, arith, ltb, ltb→lt, ==_refl, Bool-cases, length,
  length-append, All, ok,
}
use native.Mathlib.Nat.{mod-lt}
use mathlib.Core.Path.{subst}
use mathlib.Core.List.{map-append}
use uno.Prelude.Sets.{contains, add, difference, contains-difference, contains-append, IsDistinct}
use uno.Strategy.{at, public_peers}
use uno.Strategy.Random.{Graph}
use uno.Strategy.Random.Growing.{
  Tree, complete, incomplete, pick_random, is_public, neighbors, is_empty, grow, span_tree,
}

abbrev pub edges_of : Tree → List (ℕ × ℕ)
edges_of (complete edges) = edges
edges_of (incomplete edges) = edges

-- The peers that a walk from `start` visits.
abbrev pub visits : ℕ → List (ℕ × ℕ) → List ℕ
visits start edges = start ∷ map (λ e. e.1) edges

-- Each edge starts where the one before it ended.
abbrev pub IsChain : ℕ → List (ℕ × ℕ) → ℕ → Type 0
IsChain start [] last = start ≡ last
IsChain start ((a, b) ∷ rest) last = (start ≡ a) × IsChain b rest last

-- An edge between two different peers of the graph, one of them public.
abbrev pub IsEdge : Graph → ℕ × ℕ → Type 0
IsEdge g (a, b) =
    (contains g.peers a ≡ true)
    × (contains g.peers b ≡ true)
    × (a ≢ b)
    × ((is_public g a || is_public g b) ≡ true)

-- Where a complete tree has visited as many peers as there are.
abbrev pub Spans : Graph → ℕ → Tree → Type 0
Spans g start (complete edges) = length (visits start edges) ≡ length g.peers
Spans g start (incomplete edges) = length (visits start edges) < length g.peers

pub record IsWalk (g : Graph) (start : ℕ) (t : Tree) : Type 0 where
  pub last : ℕ
  pub chain : IsChain start (edges_of t) last
  pub edges : All (IsEdge g) (edges_of t)
  pub distinct : IsDistinct (visits start (edges_of t))
  pub spans : Spans g start t

at-contains :
    (xs : List ℕ) (i : ℕ) → i < length xs → (x : ℕ) × (at xs i ≡ ok x) × (contains xs x ≡ true)
unfolding at
at-contains [] i h = elim h [ ]
at-contains (x ∷ xs) zero h = (x, refl, ground arith)
at-contains (x ∷ xs) (suc i) h =
    let (y, e, m) = at-contains xs i (omega arith) in (y, e, ground arith)

pick_random-contains :
    (roll : ℕ → ℕ) (k : ℕ) (xs : List ℕ)
    → is_empty xs ≡ false
    → (x : ℕ) × (pick_random roll k xs ≡ ok x) × (contains xs x ≡ true)
unfolding pick_random is_empty
pick_random-contains roll k [] h = cc
pick_random-contains roll k (x ∷ xs) h =
    at-contains (x ∷ xs) (roll k % length (x ∷ xs)) (mod-lt (roll k) (omega arith))

-- A neighbour is a peer that was not visited, and public if the current one is private.
neighbors_lem :
    (g : Graph) (current : ℕ) (visited : List ℕ) (other : ℕ)
    → contains (neighbors g current visited) other ≡ true
    → (contains g.peers other ≡ true)
      × (contains visited other ≡ false)
      × ((is_public g current || is_public g other) ≡ true)
unfolding neighbors public_peers
neighbors_lem g current visited other h =
    let all = contains-difference g.peers visited other in
    let public = contains-difference (difference g.peers g.private_peers) visited other in
    let both = contains-difference g.peers g.private_peers other in
    ground (arith, all, public, both)

add_new : (a : ℕ) (xs : List ℕ) → contains xs a ≡ false → add a xs ≡ xs ++ a ∷ []
unfolding add
add_new a xs h = rw h

append-IsDistinct :
    (xs : List ℕ) (a : ℕ) → IsDistinct xs → contains xs a ≡ false → IsDistinct (xs ++ a ∷ [])
append-IsDistinct [] a d h = (refl, tt)
append-IsDistinct (x ∷ xs) a d h =
    (ground (arith, contains-append xs (a ∷ []) x), append-IsDistinct xs a d.1 (ground arith))

append-IsChain :
    (start : ℕ) (edges : List (ℕ × ℕ)) (current other : ℕ)
    → IsChain start edges current
    → IsChain start (edges ++ (current, other) ∷ []) other
append-IsChain start [] current other h = (h, refl)
append-IsChain start ((a, b) ∷ rest) current other h =
    (h.0, append-IsChain b rest current other h.1)

append-All {ℓ κ} :
    {A : Type ℓ} (P : A → Type κ) (xs : List A) (a : A) → All P xs → P a → All P (xs ++ a ∷ [])
append-All P [] a h p = (p, tt)
append-All P (x ∷ xs) a h p = (h.0, append-All P xs a h.1 p)

-- What holds at the head of the loop.
record Growing (g : Graph) (start : ℕ) (rounds : ℕ) (current : ℕ) (visited : List ℕ)
    (edges : List (ℕ × ℕ)) : Type 0 where
  chain : IsChain start edges current
  admissible : All (IsEdge g) edges
  distinct : IsDistinct visited
  visited_eq : visited ≡ visits start edges
  member : contains g.peers current ≡ true
  seen : contains visited current ≡ true
  room : length visited ≤ length g.peers
  enough : length g.peers ≤ length visited + rounds

Growing-step :
    (g : Graph) (start rounds current other : ℕ) (visited : List ℕ) (edges : List (ℕ × ℕ))
    → Growing g start (suc rounds) current visited edges
    → length visited < length g.peers
    → contains (neighbors g current visited) other ≡ true
    → Growing g start rounds other (add other visited) (edges ++ (current, other) ∷ [])
Growing-step g start rounds current other visited edges w more near =
    let (inside, new, one) = neighbors_lem g current visited other near in
    rw (add_new other visited new) (record {
      chain = append-IsChain start edges current other w.chain;
      admissible =
          append-All (IsEdge g) edges (current, other) w.admissible
            (w.member, inside, ground (arith, w.seen), one);
      distinct = append-IsDistinct visited other w.distinct new;
      visited_eq =
          ap (λ (l : List ℕ). l ++ other ∷ []) w.visited_eq
          ∙ ap (λ (l : List ℕ). start ∷ l)
              (sym (map-append (λ (e : ℕ × ℕ). e.1) edges ((current, other) ∷ [])));
      member = inside;
      seen = rw (contains-append) (ground arith);
      room = omega (arith, length-append visited (other ∷ []));
      enough = omega (arith, length-append visited (other ∷ []), w.enough);
    })

finish :
    (g : Graph) (start rounds current : ℕ) (visited : List ℕ) (edges : List (ℕ × ℕ)) (t : Tree)
    → Growing g start rounds current visited edges
    → edges_of t ≡ edges
    → Spans g start t
    → IsWalk g start t
finish g start rounds current visited edges t w e spans = record {
  last = current;
  chain = rw e w.chain;
  edges = rw e w.admissible;
  distinct =
      subst IsDistinct (w.visited_eq ∙ ap (λ (l : List (ℕ × ℕ)). visits start l) (sym e))
        w.distinct;
  spans = spans;
}

visits-length :
    (g : Graph) (start rounds current : ℕ) (visited : List ℕ) (edges : List (ℕ × ℕ))
    → Growing g start rounds current visited edges
    → length visited ≡ length (visits start edges)
visits-length g start rounds current visited edges w = ap length w.visited_eq

-- From the head of the loop on, a tree comes out that is a walk.
grow-IsWalk :
    (roll : ℕ → ℕ) (rounds : ℕ) (g : Graph) (start current : ℕ) (visited : List ℕ)
    (edges : List (ℕ × ℕ))
    → Growing g start rounds current visited edges
    → (t : Tree) × (grow roll rounds g current visited edges ≡ some (ok t)) × IsWalk g start t
unfolding grow
grow-IsWalk roll zero g start current visited edges w = (
  complete edges,
  ground (arith, w.enough),
  finish g start zero current visited edges (complete edges) w refl
      (omega (arith, w.enough, w.room, visits-length g start zero current visited edges w)),
)
grow-IsWalk roll (suc rounds) g start current visited edges w =
    elim (Bool-cases (ltb (length visited) (length g.peers))) [
      | inr done ↦ (
        complete edges,
        rw done,
        finish g start (suc rounds) current visited edges (complete edges) w refl
            (ground (arith, w.room, visits-length g start (suc rounds) current visited edges w)),
      )
      | inl more ↦ elim (Bool-cases (is_empty (neighbors g current visited))) [
        | inl none_left ↦ (
          incomplete edges,
          rw (more, none_left),
          finish g start (suc rounds) current visited edges (incomplete edges) w refl
              (ground (arith, visits-length g start (suc rounds) current visited edges w)),
        )
        | inr some_left ↦
            let (other, picked, near) =
              pick_random-contains roll (length visited) (neighbors g current visited) some_left in
            let (inside, new, one) = neighbors_lem g current visited other near in
            let next =
              Growing-step g start rounds current other visited edges w (ltb→lt _ _ more) near in
            let (t, e, walk) =
              grow-IsWalk roll rounds g start other (add other visited)
                (edges ++ (current, other) ∷ []) next in
            (t, rw (more, some_left, picked, one) e, walk)
      ]
    ]

not_empty : (xs : List ℕ) → 0 < length xs → is_empty xs ≡ false
unfolding is_empty
not_empty [] h = absurd (omega arith)
not_empty (x ∷ xs) h = refl

span_tree-grow :
    (roll : ℕ → ℕ) (g : Graph) (start : ℕ) {r : Option (Result Tree)}
    → pick_random roll 0 g.peers ≡ ok start
    → grow roll (length g.peers) g start (start ∷ []) [] ≡ r
    → span_tree roll g ≡ r
unfolding span_tree
span_tree-grow roll g start picked e = rw (span_tree, picked) e

first_visit :
    (g : Graph) (start : ℕ)
    → 0 < length g.peers
    → contains g.peers start ≡ true
    → Growing g start (length g.peers) start (start ∷ []) []
first_visit g start h inside = record {
  chain = refl;
  admissible = tt;
  distinct = (refl, tt);
  visited_eq = refl;
  member = inside;
  seen = rw (==_refl start);
  room = h;
  enough = omega arith;
}

-- For a graph with peers, whatever is chosen at random: a tree is generated, with as many rounds as
-- there are peers, and none of its assertions fails. The tree is a walk: each edge starts where
-- the one before ended, joins two different peers of which one is public, and no peer is visited
-- twice; a complete tree visits as many peers as there are, an incomplete one fewer.
pub span_tree-IsWalk :
    (roll : ℕ → ℕ) (g : Graph)
    → 0 < length g.peers
    → (start : ℕ) × (t : Tree) × (span_tree roll g ≡ some (ok t)) × IsWalk g start t
span_tree-IsWalk roll g h =
    let (start, picked, inside) = pick_random-contains roll 0 g.peers (not_empty g.peers h) in
    let (t, e, walk) =
      grow-IsWalk roll (length g.peers) g start start (start ∷ []) []
        (first_visit g start h inside) in
    (start, t, span_tree-grow roll g start picked e, walk)

-- ===== src/Strategy/Random/Growing.antt =====
-- How the random strategy grows its graph (random_deployment_strategy.py): spanning trees,
-- `generate_edges`, and `_generate_deployment` with its limits.
pub mod Paths
pub mod Edges
use uno.Prelude.{
  ℕ, zero, suc, ◌+◌, ◌-◌, ◌*◌, ◌/◌, ◌%◌, ◌^◌, ◌≤◌, ◌<◌, max, min, ◌≡◌, refl, sym, ap, ◌∙◌, ◌≢◌, ◌↔◌,
  ◌⊎◌, inl, inr, Bool, true, false, not, ◌&&◌, ◌||◌, Option, none, some, List, [], ◌∷◌, ◌++◌, map,
  arith, ltb, leb, ◌==◌, if◌then◌else◌, ltb→lt, lt→ltb, leb→le, ==_iff, ==_refl, ==_comm,
  Bool-cases, Option-cases, length, get_elem?, take, drop, replicate, length-append,
  length-replicate, take-append-drop, All, range_from, Error, runtime_error, value_error,
  index_error, key_error, type_error, assertion_error, address_value_error, not_implemented_error,
  Result, ok, raise, Exec, pure, lift, and_then, ◌>>=◌, and_then-eq-ok,
}
use uno.Prelude.Sets.{contains, add, difference}
use uno.Prelude.Dict.{Dict}
use uno.Strategy.{Generated, Choices, at, public_peers}
use uno.Strategy.Static.{StaticDeployment, generate_static}
use uno.Strategy.Random.{Graph, store_edge, new_graph}

-- The edges of a spanning tree, or those of an `IncompleteSpanTree`.
pub data Tree : Type 0 where
  complete : List (ℕ × ℕ) → Tree
  incomplete : List (ℕ × ℕ) → Tree

-- `random.sample(list(peers), 1).pop()`: the k-th number of `roll` chooses; an empty set is a
-- ValueError.
unfoldable pub pick_random : (ℕ → ℕ) → ℕ → List ℕ → Result ℕ
unfolding at
pick_random roll k [] = raise value_error
pick_random roll k (x ∷ xs) = at (x ∷ xs) (roll k % length (x ∷ xs))

abbrev pub is_public : Graph → ℕ → Bool
is_public g p = contains (public_peers g.peers g.private_peers) p

-- `neighbors`
unfoldable pub neighbors : Graph → ℕ → List ℕ → List ℕ
unfolding public_peers difference
neighbors g current visited =
    if not (is_public g current)
    then difference (public_peers g.peers g.private_peers) visited
    else difference g.peers visited

is_empty : List ℕ → Bool
is_empty [] = true
is_empty (x ∷ xs) = false

-- The `while` loop of `_generate_new_spanning_tree`. None means that `rounds` ran out.
unfoldable pub grow : (ℕ → ℕ) → ℕ → Graph → ℕ → List ℕ → List (ℕ × ℕ) → Option (Result Tree)
unfolding pick_random neighbors is_empty add
grow roll zero g current visited edges =
    if ltb (length visited) (length g.peers) then none else some (ok (complete edges))
grow roll (suc rounds) g current visited edges =
    let step = λ (other : ℕ).
      grow roll rounds g other (add other visited) (edges ++ (current, other) ∷ []) in
    let picked : Option (Result Tree) =
      elim (pick_random roll (length visited) (neighbors g current visited)) [
        | raise e ↦ some (raise e)
        | ok other ↦ elim (is_public g current || is_public g other) [
          | true ↦ step other
          | false ↦ some (raise assertion_error)
        ]
      ] in
    if ltb (length visited) (length g.peers)
    then (if is_empty (neighbors g current visited) then some (ok (incomplete edges)) else picked)
    else some (ok (complete edges))

-- `_generate_new_spanning_tree`. Each round visits one more peer, so as many rounds as there are
-- peers are enough.
unfoldable pub span_tree : (ℕ → ℕ) → Graph → Option (Result Tree)
unfolding grow
span_tree roll g = elim (pick_random roll 0 g.peers) [
  | raise e ↦ some (raise e)
  | ok current ↦ grow roll (length g.peers) g current (current ∷ []) []
]

-- `for edge in span_tree: self._store_edge(*edge)`
unfoldable pub store_edges : List (ℕ × ℕ) → Graph → Graph
unfolding store_edge
store_edges [] g = g
store_edges ((a, b) ∷ rest) g = store_edges rest (store_edge a b g)

abbrev pub enough : Graph → Bool
enough g = leb (length g.peers) (length g.ok_peers + length g.full_peers)

-- `test_partial`
abbrev pub enough_partial : Graph → Bool
enough_partial g =
    leb (length g.peers) (length g.ok_peers + length g.full_peers + length g.min_peers)

-- `len(xs & ys) == 0`
unfoldable pub disjoint : List ℕ → List ℕ → Bool
disjoint [] ys = true
disjoint (x ∷ xs) ys = not (contains ys x) && disjoint xs ys

-- The assertions of the `finally` block, on the way out with `validate`.
unfoldable pub validate : Graph → Result (Unit {0})
unfolding disjoint
validate g =
    if disjoint g.ok_peers g.full_peers
      && disjoint g.ok_peers g.min_peers
      && disjoint g.full_peers g.min_peers
    then ok tt
    else raise assertion_error

-- The outcome of `generate_edges` and the graph that it leaves; None as for `grow`.
abbrev pub Outcome : Type 0
Outcome = Option (Result (Unit {0})) × Graph

-- What follows an incomplete tree, whose edges were stored only if there are more private peers.
after_incomplete : Bool → ℕ → (Graph → Outcome) → Graph → Outcome
after_incomplete more_private left retry g =
    let again = retry g in
    if more_private && enough_partial g
    then (some (ok tt), g)
    else if ltb 0 left
    then again
    else if enough_partial g
    then (some (ok tt), g)
    else (some (raise runtime_error), g)

-- One round of the loop in `generate_edges`, from the tree that was generated: `left` counts the
-- rounds to come, which are `retry`.
unfoldable pub use_tree : Option (Result Tree) → ℕ → (Graph → Outcome) → Graph → Outcome
unfolding store_edges validate public_peers after_incomplete
use_tree none left retry g = (none, g)
use_tree (some (raise e)) left retry g = (some (raise e), g)
use_tree (some (ok (complete edges))) left retry g =
    let g' = store_edges edges g in
    let again = retry g' in if enough g' then (some (validate g'), g') else again
use_tree (some (ok (incomplete edges))) left retry g =
    let more_private =
      leb (length (public_peers g.peers g.private_peers)) (length g.private_peers) in
    after_incomplete more_private left retry (if more_private then store_edges edges g else g)

-- `generate_edges`, with `tries` rounds to come; a loop that ends returns.
unfoldable pub generate_edges : (ℕ → ℕ → ℕ) → ℕ → Graph → Outcome
unfolding use_tree span_tree
generate_edges roll zero g = (some (ok tt), g)
generate_edges roll (suc left) g =
    use_tree (span_tree (roll left) g) left (λ s. generate_edges roll left s) g

-- The bounds that `_generate_deployment` computes: the fewest, the wanted and the most links.
unfoldable pub link_bounds : ℕ → ℕ → ℕ → ℕ × ℕ × ℕ
link_bounds peers_count public_count private_count =
    if leb peers_count 1
    then (0, 0, 0)
    else if leb peers_count 3
    then (1, peers_count - 1, peers_count)
    else if ltb public_count private_count
    then (1, 2, 3 + private_count - public_count)
    else (1, 2, 3)

-- The three checks of the bounds.
unfoldable pub check_bounds : ℕ → ℕ → ℕ → Result (Unit {0})
check_bounds min_peers ok_peers max_peers =
    if not (max max_peers (max min_peers ok_peers) == max_peers)
    then raise runtime_error
    else if not (min max_peers (min min_peers ok_peers) == min_peers)
    then raise runtime_error
    else if ltb max_peers ok_peers || ltb ok_peers min_peers
    then raise runtime_error
    else ok tt

edges_as_static : Choices → Dict ℕ (List ℕ) → StaticDeployment
edges_as_static choices [] = []
edges_as_static choices ((p, peers) ∷ rest) =
    (p, choices.iterate peers) ∷ edges_as_static choices rest

after_edges : Choices → Outcome → Option (Result Generated)
after_edges choices (none, g) = none
after_edges choices (some (raise e), g) = some (raise e)
after_edges choices (some (ok _), g) = some (generate_static (edges_as_static choices g.peer_edges))

abbrev pub max_tries : ℕ
max_tries = 100000

-- `_generate_deployment`; None as for `grow`, which does not happen.
unfoldable pub generate_random : (ℕ → ℕ → ℕ) → Choices → List ℕ → List ℕ → Option (Result Generated)
unfolding link_bounds check_bounds generate_edges new_graph public_peers edges_as_static after_edges
    generate_static
generate_random roll choices peers private_peers =
    let ids = choices.iterate peers in
    let public_count = length (public_peers peers private_peers) in
    let (min_peers, ok_peers, max_peers) =
      link_bounds (length peers) public_count (length private_peers) in
    elim (check_bounds min_peers ok_peers max_peers) [
      | raise e ↦ some (raise e)
      | ok _ ↦
          after_edges choices (
            generate_edges roll max_tries
              (new_graph ids private_peers min_peers ok_peers max_peers))
    ]

-- ===== src/Strategy/Random/Growing/Edges.antt =====
-- The graphs that the random strategy ends with (random_deployment_strategy.py,
-- `generate_edges`).
use uno.Prelude.{
  ℕ, ◌≤◌, ◌≡◌, refl, ◌⊎◌, true, false, ◌||◌, some, List, [], ◌∷◌, arith, runtime_error, ok, raise,
}
use uno.Prelude.Sets.{contains}
use uno.Prelude.Dict.{get, number_key}
use uno.Strategy.Random.{or_empty, Graph, edges, new_graph, no_edges}
use uno.Strategy.Random.Limits.{IsGraph}
use uno.Strategy.Random.Growing.{is_public, Outcome}

-- The invariant of the graph, and no link joins two private peers.
pub record IsSound (g : Graph) : Type 0 where
  pub graph : IsGraph g
  pub admissible :
      (a b : ℕ) → contains (edges g a) b ≡ true → (is_public g a || is_public g b) ≡ true

-- The sets of peers do not change.
abbrev SamePeers : Graph → Graph → Type 0
SamePeers g g' = (g'.peers ≡ g.peers) × (g'.private_peers ≡ g.private_peers)

-- The outcome is a sound graph, returned or with a RuntimeError.
abbrev pub IsSettled : Outcome → Type 0
IsSettled (r, g) = IsSound g × ((r ≡ some (ok tt)) ⊎ (r ≡ some (raise runtime_error)))

get-no_edges : (peers : List ℕ) (p : ℕ) → or_empty (get (no_edges peers) p) ≡ []
unfolding no_edges or_empty get
get-no_edges [] p = refl
get-no_edges (x ∷ xs) p = ground (arith, get-no_edges xs p)

edges-new_graph :
    (peers private_peers : List ℕ) (least good most p : ℕ)
    → edges (new_graph peers private_peers least good most) p ≡ []
unfolding new_graph edges
edges-new_graph peers private_peers least good most p = get-no_edges peers p

-- A new graph has no links, and is sound if its three bounds are in order.
pub new_graph-IsSound :
    (peers private_peers : List ℕ) (least good most : ℕ)
    → least ≤ good
    → good ≤ most
    → IsSound (new_graph peers private_peers least good most)
unfolding new_graph
new_graph-IsSound peers private_peers least good most h k =
    let none_at = edges-new_graph peers private_peers least good most in
    record {
      graph = record {
        orderly = record { min_ok = h; ok_max = k };
        counted = record {
          limited = λ p. rw none_at (omega arith);
          full = λ p e. cc;
          good = λ p e. cc;
          few = λ p e. cc;
          full_all =
              λ p links e. let no : 1 ≤ 0 = rw (none_at p) at links in absurd (omega (arith, no));
          good_all = λ p links e e'.
              let no : 1 ≤ 0 = rw (none_at p) at links in absurd (omega (arith, no));
          few_all = λ p links e e'.
              let no : 1 ≤ 0 = rw (none_at p) at links in absurd (omega (arith, no));
        };
        symmetric = λ a b. rw (none_at a, none_at b);
        irreflexive = λ a. rw none_at;
      };
      admissible = λ a b e. let e' : false ≡ true = rw (none_at a) at e in cc;
    }

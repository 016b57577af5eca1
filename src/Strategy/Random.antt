-- ===== src/Strategy/Random.antt =====
-- uno/registry/deployment_strategy/random_deployment_strategy.py: a graph of links that grows by
-- random spanning trees, until every peer has enough links.
pub mod Limits
pub mod Growing
use uno.Prelude.{
  ℕ, zero, suc, ◌+◌, ◌-◌, ◌*◌, ◌/◌, ◌%◌, ◌^◌, ◌≤◌, ◌<◌, max, min, ◌≡◌, refl, sym, ap, ◌∙◌, ◌≢◌, ◌↔◌,
  ◌⊎◌, inl, inr, Bool, true, false, not, ◌&&◌, ◌||◌, Option, none, some, List, [], ◌∷◌, ◌++◌, map,
  arith, ltb, leb, ◌==◌, if◌then◌else◌, ltb→lt, lt→ltb, leb→le, ==_iff, ==_refl, ==_comm,
  Bool-cases, Option-cases, length, get_elem?, take, drop, replicate, length-append,
  length-replicate, take-append-drop, All, range_from, Error, runtime_error, value_error,
  index_error, key_error, type_error, assertion_error, address_value_error, not_implemented_error,
  Result, ok, raise, Exec, pure, lift, and_then, ◌>>=◌, and_then-eq-ok,
}
use uno.Prelude.Sets.{contains, add, remove, difference}
use uno.Prelude.Dict.{Dict, get, put, number_key}
use uno.Strategy.{Generated, Choices, at, public_peers}
use uno.Strategy.Static.{StaticDeployment, generate_static}

-- `RandomDeploymentGraph`; `public_peers` is the difference of the first two.
pub record Graph : Type 0 where
  pub peers : List ℕ
  pub private_peers : List ℕ
  pub min_peer_edges : ℕ
  pub ok_peer_edges : ℕ
  pub max_peer_edges : ℕ
  pub peer_edges : Dict ℕ (List ℕ)
  pub full_peers : List ℕ
  pub ok_peers : List ℕ
  pub min_peers : List ℕ

or_empty : Option (List ℕ) → List ℕ
or_empty none = []
or_empty (some s) = s

-- `self.peer_edges.get(p, set())`
unfoldable pub edges : Graph → ℕ → List ℕ
unfolding get or_empty
edges g p = or_empty (get g.peer_edges p)

no_edges : List ℕ → Dict ℕ (List ℕ)
no_edges [] = []
no_edges (p ∷ rest) = (p, []) ∷ no_edges rest

-- `RandomDeploymentGraph.__init__`
unfoldable pub new_graph : List ℕ → List ℕ → ℕ → ℕ → ℕ → Graph
unfolding no_edges
new_graph peers private_peers min_edges ok_edges max_edges = record {
  peers = peers;
  private_peers = private_peers;
  min_peer_edges = min_edges;
  ok_peer_edges = ok_edges;
  max_peer_edges = max_edges;
  peer_edges = no_edges peers;
  full_peers = [];
  ok_peers = [];
  min_peers = [];
}

-- `_update_peer_status`: a removal of an element that is not in the set does nothing, as the
-- source tests for it first.
unfoldable pub update_peer_status : ℕ → ℕ → Graph → Graph
unfolding add remove
update_peer_status p degree g =
    if leb g.max_peer_edges degree
    then record g {
      ok_peers = remove p g.ok_peers;
      min_peers = remove p g.min_peers;
      full_peers = add p g.full_peers;
    }
    else if leb g.ok_peer_edges degree
    then record g { ok_peers = add p g.ok_peers; min_peers = remove p g.min_peers }
    else if leb g.min_peer_edges degree
    then record g { min_peers = add p g.min_peers }
    else g

-- `a_edges.add(b); _update_peer_status(a, a_edges)`
unfoldable pub add_edge : ℕ → ℕ → Graph → Graph
unfolding add put edges update_peer_status
add_edge a b g =
    let a_edges = add b (edges g a) in
    update_peer_status a (length a_edges) (record g { peer_edges = put g.peer_edges a a_edges })

-- `peer_edges[a] = peer_edges.get(a, set())`
pub ensure : ℕ → Graph → Graph
ensure a g = record g { peer_edges = put g.peer_edges a (edges g a) }

-- `_store_edge`, for two different peers
unfoldable pub store_edge : ℕ → ℕ → Graph → Graph
unfolding add_edge edges ensure
store_edge a b g0 =
    let g = ensure b (ensure a g0) in
    if ltb (length (edges g a)) g.max_peer_edges && ltb (length (edges g b)) g.max_peer_edges
    then add_edge b a (add_edge a b g)
    else g

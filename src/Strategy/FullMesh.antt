-- ===== src/Strategy/FullMesh.antt =====
-- uno/registry/deployment_strategy/fullmesh_deployment_strategy.py. Every two peers are
-- connected, unless both are private.
pub mod Mesh
use uno.Prelude.{
  ℕ, zero, suc, ◌+◌, ◌-◌, ◌*◌, ◌/◌, ◌%◌, ◌^◌, ◌≤◌, ◌<◌, max, min, ◌≡◌, refl, sym, ap, ◌∙◌, ◌≢◌, ◌↔◌,
  ◌⊎◌, inl, inr, Bool, true, false, not, ◌&&◌, ◌||◌, Option, none, some, List, [], ◌∷◌, ◌++◌, map,
  arith, ltb, leb, ◌==◌, if◌then◌else◌, ltb→lt, lt→ltb, leb→le, ==_iff, ==_refl, ==_comm,
  Bool-cases, Option-cases, length, get_elem?, take, drop, replicate, length-append,
  length-replicate, take-append-drop, All, range_from, Error, runtime_error, value_error,
  index_error, key_error, type_error, assertion_error, address_value_error, not_implemented_error,
  Result, ok, raise, Exec, pure, lift, and_then, ◌>>=◌, and_then-eq-ok,
}
use uno.Prelude.Sets.{contains}
use uno.Strategy.{Generated, Choices}
use uno.Strategy.Static.{StaticDeployment, generate_static}

-- `[b for b in self.peers for b_priv in [...] if b != a and (not a_priv or not b_priv)]`
unfoldable pub mesh_peers : List ℕ → ℕ → List ℕ → List ℕ
mesh_peers private_peers a [] = []
mesh_peers private_peers a (b ∷ rest) =
    let others = mesh_peers private_peers a rest in
    if not (b == a) && (not (contains private_peers a) || not (contains private_peers b))
    then b ∷ others
    else others

-- `graph`, and `static_deployment` from it: both iterate over the set of the peers in one order.
unfoldable pub mesh_graph : List ℕ → List ℕ → List ℕ → StaticDeployment
unfolding mesh_peers
mesh_graph private_peers peers [] = []
mesh_graph private_peers peers (a ∷ rest) =
    (a, mesh_peers private_peers a peers) ∷ mesh_graph private_peers peers rest

-- `_generate_deployment`
unfoldable pub generate_full_mesh : Choices → List ℕ → List ℕ → Result Generated
unfolding mesh_graph generate_static
generate_full_mesh choices peers private_peers =
    let ids = choices.iterate peers in generate_static (mesh_graph private_peers ids ids)

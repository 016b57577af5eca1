-- ===== src/Strategy/FullMesh/Mesh.antt =====
-- Which peers a full mesh connects (fullmesh_deployment_strategy.py).
use uno.Prelude.{
  ℕ, ◌≡◌, refl, sym, ◌∙◌, inl, inr, Bool, not, ◌&&◌, ◌||◌, List, [], ◌∷◌, arith, ◌==◌,
  if◌then◌else◌, ==_iff, Bool-cases,
}
use uno.Prelude.Sets.{contains}
use uno.Strategy.Static.{StaticDeployment}
use uno.Strategy.FullMesh.{mesh_peers, mesh_graph}

-- Two peers that the strategy may connect.
abbrev pub may_connect : List ℕ → ℕ → ℕ → Bool
may_connect private_peers a b =
    not (b == a) && (not (contains private_peers a) || not (contains private_peers b))

contains-mesh_peers :
    (private_peers : List ℕ) (a : ℕ) (peers : List ℕ) (b : ℕ)
    → contains (mesh_peers private_peers a peers) b
      ≡ (contains peers b && may_connect private_peers a b)
unfolding mesh_peers
contains-mesh_peers private_peers a [] b = refl
contains-mesh_peers private_peers a (c ∷ rest) b =
    ground (arith, contains-mesh_peers private_peers a rest b)

-- The peers that a static deployment lists for `a`.
abbrev pub listed : StaticDeployment → ℕ → List ℕ
listed [] a = []
listed ((id, peers) ∷ d) a = if id == a then peers else listed d a

listed-mesh_graph :
    (private_peers peers rest : List ℕ) (a : ℕ)
    → listed (mesh_graph private_peers peers rest) a
      ≡ (if contains rest a then mesh_peers private_peers a peers else [])
unfolding mesh_graph
listed-mesh_graph private_peers peers [] a = refl
listed-mesh_graph private_peers peers (x ∷ rest) a = elim (Bool-cases (x == a)) [
  | inl same ↦ rw same (rw ((==_iff x a).0 same))
  | inr other ↦ ground (arith, listed-mesh_graph private_peers peers rest a)
]

listed_lem :
    (private_peers peers : List ℕ) (a b : ℕ)
    → contains (listed (mesh_graph private_peers peers peers) a) b
      ≡ (contains peers a && contains peers b && may_connect private_peers a b)
listed_lem private_peers peers a b = rw (listed-mesh_graph) (elim (Bool-cases (contains peers a)) [
  | inl here ↦ rw (here, contains-mesh_peers)
  | inr absent ↦ rw absent
])

may_connect_comm :
    (private_peers peers : List ℕ) (a b : ℕ)
    → (contains peers a && contains peers b && may_connect private_peers a b)
      ≡ (contains peers b && contains peers a && may_connect private_peers b a)
may_connect_comm private_peers peers a b = ground arith

-- In the full mesh of a set of peers, a peer is listed for another exactly if both are among the
-- peers, they differ, and they are not both private; so the lists go both ways.
pub mesh_graph_lem :
    (private_peers peers : List ℕ) (a b : ℕ)
    → (contains (listed (mesh_graph private_peers peers peers) a) b
        ≡ (contains peers a && contains peers b && may_connect private_peers a b))
      × (contains (listed (mesh_graph private_peers peers peers) a) b
          ≡ contains (listed (mesh_graph private_peers peers peers) b) a)
mesh_graph_lem private_peers peers a b =
    let forth = listed_lem private_peers peers a b in
    (
      forth,
      forth ∙ may_connect_comm private_peers peers a b ∙ sym (listed_lem private_peers peers b a),
    )

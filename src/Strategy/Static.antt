-- ===== src/Strategy/Static.antt =====
-- uno/registry/deployment_strategy/static_deployment_strategy.py: connections as listed.
use uno.Prelude.{
  ℕ, suc, max, Option, none, some, List, [], ◌∷◌, map, ◌==◌, if◌then◌else◌, length, get_elem?,
  range_from, index_error, Result, ok, raise,
}
use mathlib.Core.Option
use uno.Strategy.{Generated, empty_deployment}

-- For each peer, the peers that it is connected to, in the order of its ports.
abbrev pub StaticDeployment : Type 0
StaticDeployment = List (ℕ × List ℕ)

-- `peer_ids.index(id)`, or None where it raises ValueError
unfoldable pub index_of : ℕ → List ℕ → Option ℕ
index_of id [] = none
index_of id (x ∷ xs) = if x == id then some 0 else Option.map suc (index_of id xs)

abbrev pub peer_ids : StaticDeployment → List ℕ
peer_ids [] = []
peer_ids ((id, _) ∷ d) = id ∷ peer_ids d

peers_length : Option (ℕ × List ℕ) → Result ℕ
peers_length none = raise index_error
peers_length (some (_, cell_peers)) = ok (length cell_peers)

-- `cell_peers_count`
unfoldable pub cell_peers_count : StaticDeployment → ℕ → Result ℕ
unfolding peers_length
cell_peers_count d n = peers_length (get_elem? d n)

-- `max(peers_counts or [0])`
unfoldable pub max_peers_count : StaticDeployment → ℕ
max_peers_count [] = 0
max_peers_count ((_, peers) ∷ d) = max (length peers) (max_peers_count d)

index_peer : List ℕ → Option ℕ → Result (Option ℕ)
index_peer ids none = raise index_error
index_peer ids (some res) = ok (index_of res ids)

generate_peer : StaticDeployment → ℕ → Option (ℕ × List ℕ) → Result (Option ℕ)
generate_peer d peer_b_i none = ok none
generate_peer d peer_b_i (some (_, static_peers)) =
    index_peer (peer_ids d) (get_elem? static_peers peer_b_i)

-- `_peer_generator`: an unknown position, and an unknown peer, give None.
unfoldable pub peer_generator : StaticDeployment → ℕ → ℕ → Result (Option ℕ)
unfolding index_of index_peer generate_peer
peer_generator d peer_b_i peer_a_i = generate_peer d peer_b_i (get_elem? d peer_a_i)

-- `_generate_deployment`, for the value of `static_deployment`
unfoldable pub generate_static : StaticDeployment → Result Generated
unfolding cell_peers_count max_peers_count peer_generator
generate_static [] = ok empty_deployment
generate_static d = ok (record {
  deployed_peers = peer_ids d;
  count = cell_peers_count d;
  connections = map (peer_generator d) (range_from 0 (max_peers_count d));
})

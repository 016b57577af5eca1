-- ===== src/Strategy/Ring.antt =====
-- uno/registry/deployment_strategy: the ring of public peers, from crossed_deployment_strategy.py
-- and its subclass in circular_deployment_strategy.py. Each public peer is connected to the
-- peers on its left and right, and with the crossed strategy also to the one across.
pub mod Neighbours
pub mod Symmetric
use uno.Prelude.{
  ℕ, zero, suc, ◌+◌, ◌-◌, ◌*◌, ◌/◌, ◌%◌, ◌^◌, ◌≤◌, ◌<◌, max, min, ◌≡◌, refl, sym, ap, ◌∙◌, ◌≢◌, ◌↔◌,
  ◌⊎◌, inl, inr, Bool, true, false, not, ◌&&◌, ◌||◌, Option, none, some, List, [], ◌∷◌, ◌++◌, map,
  arith, ltb, leb, ◌==◌, if◌then◌else◌, ltb→lt, lt→ltb, leb→le, ==_iff, ==_refl, ==_comm,
  Bool-cases, Option-cases, length, get_elem?, take, drop, replicate, length-append,
  length-replicate, take-append-drop, All, range_from, Error, runtime_error, value_error,
  index_error, key_error, type_error, assertion_error, address_value_error, not_implemented_error,
  Result, ok, raise, Exec, pure, lift, and_then, ◌>>=◌, and_then-eq-ok,
}
use uno.Strategy.{Generated, Choices}

-- `_peer_right`
unfoldable pub peer_right : ℕ → ℕ → Result ℕ
peer_right peer_count peer_i =
    if ltb peer_i peer_count then ok ((peer_i + 1) % peer_count) else raise assertion_error

-- `_peer_left`
unfoldable pub peer_left : ℕ → ℕ → Result ℕ
peer_left peer_count peer_i =
    if ltb peer_i peer_count
    then (if peer_i == 0 then ok (peer_count - 1) else ok (peer_i - 1))
    else raise assertion_error

-- `_peer_across`. The source's test `peer_i <= offset - 1` is `peer_i < offset`, also at offset 0.
unfoldable pub peer_across : ℕ → ℕ → Result ℕ
peer_across peer_count peer_i =
    let offset = peer_count / 2 in
    if ltb peer_i offset then ok ((peer_i + offset) % peer_count) else ok (peer_i - offset)

-- `peer_peers_count` of the crossed strategy
unfoldable pub crossed_count : ℕ → ℕ → Result ℕ
crossed_count peer_count cell_i =
    if ltb peer_count 2
    then raise assertion_error
    else if peer_count == 2
    then ok 1
    else if peer_count == 3
    then ok 2
    else if not (ltb 0 (peer_count % 2)) || not (cell_i == peer_count - 1)
    then ok 3
    else ok 2

-- `peer_peers_count` of the circular strategy
unfoldable pub circular_count : ℕ → ℕ → Result ℕ
circular_count peer_count cell_i =
    if ltb peer_count 2 then raise assertion_error else if peer_count == 2 then ok 1 else ok 2

abbrev pub returns_some : (ℕ → Result ℕ) → ℕ → Result (Option ℕ)
returns_some f n = elim (f n) [ ok m ↦ ok (some m) | raise e ↦ raise e ]

-- The two strategies differ in `_generate_deployment_all_public`.
pub data Kind : Type 0 where
  crossed circular : Kind

abbrev pub ring_count : Kind → ℕ → ℕ → Result ℕ
ring_count crossed = crossed_count
ring_count circular = circular_count

abbrev pub ring_connections : Kind → ℕ → List (ℕ → Result (Option ℕ))
ring_connections crossed peer_count =
    returns_some (peer_left peer_count)
    ∷ returns_some (peer_right peer_count)
    ∷ returns_some (peer_across peer_count)
    ∷ []
ring_connections circular peer_count =
    returns_some (peer_left peer_count) ∷ returns_some (peer_right peer_count) ∷ []

-- `_generate_deployment_all_public`
unfoldable pub generate_all_public : Kind → Choices → List ℕ → Generated
unfolding crossed_count circular_count peer_left peer_right peer_across
generate_all_public kind choices public =
    let peer_count = length public in
    record {
      deployed_peers = choices.shuffle (choices.iterate public);
      count = ring_count kind peer_count;
      connections = ring_connections kind peer_count;
    }

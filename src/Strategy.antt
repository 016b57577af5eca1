-- ===== src/Strategy.antt =====
-- uno/registry/deployment_strategy: how the peers of a UVN are connected. `deploy` (of
-- deployment_strategy.py) turns what a strategy generates into a map of ports and links; the
-- strategies are in the modules below. `deploy` is given the map of allocated links as its state.
pub mod Static
pub mod Ring
pub mod Crossed
pub mod FullMesh
pub mod Random
pub mod Ports
pub mod Endpoints
use uno.Prelude.{
  ℕ, zero, suc, ◌+◌, ◌-◌, ◌*◌, ◌/◌, ◌%◌, ◌^◌, ◌≤◌, ◌<◌, max, min, ◌≡◌, refl, sym, ap, ◌∙◌, ◌≢◌, ◌↔◌,
  ◌⊎◌, inl, inr, Bool, true, false, not, ◌&&◌, ◌||◌, Option, none, some, List, [], ◌∷◌, ◌++◌, map,
  arith, ltb, leb, ◌==◌, if◌then◌else◌, ltb→lt, lt→ltb, leb→le, ==_iff, ==_refl, ==_comm,
  Bool-cases, Option-cases, length, get_elem?, take, drop, replicate, length-append,
  length-replicate, take-append-drop, All, range_from, Error, runtime_error, value_error,
  index_error, key_error, type_error, assertion_error, address_value_error, not_implemented_error,
  Result, ok, raise, Exec, pure, lift, and_then, ◌>>=◌, and_then-eq-ok,
}
use uno.Prelude.Sets.{difference}
use uno.Prelude.Dict.{Dict, put, number_key}
use uno.PairedMap.{pick}
use uno.Links.{Link, AllocationMap, assert_link, Port, PeerLinks, LinksMap}

-- What `_generate_deployment` returns: the peers, how many connections the n-th has, and the
-- connections in turn, each from the position of a peer to that of another, or to none.
pub record Generated : Type 0 where
  pub deployed_peers : List ℕ
  pub count : ℕ → Result ℕ
  pub connections : List (ℕ → Result (Option ℕ))

-- `EMPTY_DEPLOYMENT`: with no peers the count (None in the source) is never called.
abbrev pub empty_deployment : Generated
empty_deployment = record { deployed_peers = []; count = λ n. raise type_error; connections = [] }

-- `l[i]`, for an index that is not negative
unfoldable pub at {ℓ} : {A : Type ℓ} → List A → ℕ → Result A
at [] i = raise index_error
at (x ∷ xs) zero = ok x
at (x ∷ xs) (suc i) = at xs i

-- The value of the inner dictionary for `peer_b`.
unfoldable pub port_of : ℕ → ℕ → ℕ → Link → Port
unfolding pick
port_of i peer_a peer_b l = record {
  index = i;
  local_address = pick peer_a peer_b peer_a l.addresses;
  peer_address = pick peer_a peer_b peer_b l.addresses;
  network = l.network;
}

connect : ℕ → ℕ → ℕ → Dict ℕ Port → Exec AllocationMap (Dict ℕ Port)
connect i peer_a peer_b ports = do
  linked ← assert_link peer_a peer_b
  pure (put ports peer_b (port_of i peer_a peer_b linked.0))

-- One round of the inner comprehension, once the position of the other peer is known.
connect_at : Generated → ℕ → ℕ → Option ℕ → Dict ℕ Port → Exec AllocationMap (Dict ℕ Port)
unfolding connect put port_of
connect_at g i peer_a none ports = pure ports
connect_at g i peer_a (some peer_b_n) ports = do
  peer_b ← lift (at g.deployed_peers peer_b_n)
  connect i peer_a peer_b ports

-- The inner comprehension, over the indices of the ports of `peer_a`, the n-th peer.
unfoldable pub connect_peer :
    Generated → ℕ → ℕ → List ℕ → Dict ℕ Port → Exec AllocationMap (Dict ℕ Port)
unfolding at connect_at assert_link
connect_peer g n peer_a [] ports = pure ports
connect_peer g n peer_a (i ∷ is) ports = do
  connection ← lift (at g.connections i)
  peer_b_n ← lift (connection n)
  ports' ← connect_at g i peer_a peer_b_n ports
  connect_peer g n peer_a is ports'

-- The outer comprehension, over the peers from the n-th on.
unfoldable pub connect_peers : Generated → ℕ → List ℕ → LinksMap → Exec AllocationMap LinksMap
unfolding connect_peer put
connect_peers g n [] links = pure links
connect_peers g n (peer_a ∷ rest) links = do
  ports_count ← lift (g.count n)
  ports ← connect_peer g n peer_a (range_from 0 ports_count) []
  connect_peers g (suc n) rest (put links peer_a (record { n = n; peers = ports }))

-- `public_peers`
unfoldable pub public_peers : List ℕ → List ℕ → List ℕ
unfolding difference
public_peers peers private_peers = difference peers private_peers

-- What `deploy` takes from the strategy: nothing without a public peer.
unfoldable pub generated : (List ℕ → List ℕ → Result Generated) → List ℕ → List ℕ → Result Generated
unfolding public_peers
generated generate_deployment peers private_peers =
    if ltb 0 (length (public_peers peers private_peers))
    then generate_deployment peers private_peers
    else ok empty_deployment

-- `deploy`, for a strategy's `_generate_deployment` on the peers and the private ones among them
unfoldable pub deploy :
    (List ℕ → List ℕ → Result Generated) → List ℕ → List ℕ → Exec AllocationMap LinksMap
unfolding generated connect_peers
deploy generate_deployment peers private_peers = do
  g ← lift (generated generate_deployment peers private_peers)
  connect_peers g 0 g.deployed_peers []

-- What the interpreter and the `random` module choose: the order of iteration over a set, which
-- the language leaves open, and the result of `random.shuffle`.
pub record Choices : Type 0 where
  pub iterate : List ℕ → List ℕ
  pub shuffle : List ℕ → List ℕ

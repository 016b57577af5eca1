-- ===== src/Strategy/Crossed.antt =====
-- uno/registry/deployment_strategy/crossed_deployment_strategy.py, `_generate_deployment`: the
-- public peers form a ring (Strategy/Ring), and the private peers are shared out among them.
pub mod Shares
use uno.Prelude.{
  ℕ, zero, suc, ◌+◌, ◌-◌, ◌*◌, ◌/◌, ◌%◌, ◌^◌, ◌≤◌, ◌<◌, max, min, ◌≡◌, refl, sym, ap, ◌∙◌, ◌≢◌, ◌↔◌,
  ◌⊎◌, inl, inr, Bool, true, false, not, ◌&&◌, ◌||◌, Option, none, some, List, [], ◌∷◌, ◌++◌, map,
  arith, ltb, leb, ◌==◌, if◌then◌else◌, ltb→lt, lt→ltb, leb→le, ==_iff, ==_refl, ==_comm,
  Bool-cases, Option-cases, length, get_elem?, take, drop, replicate, length-append,
  length-replicate, take-append-drop, All, range_from, Error, runtime_error, value_error,
  index_error, key_error, type_error, assertion_error, address_value_error, not_implemented_error,
  Result, ok, raise, Exec, pure, lift, and_then, ◌>>=◌, and_then-eq-ok,
}
use uno.Prelude.Sets.{add}
use uno.Prelude.Dict.{Dict, get, put, number_key}
use uno.Strategy.{Generated, Choices, at, public_peers}
use uno.Strategy.Ring.{Kind, generate_all_public}
use uno.Strategy.Static.{StaticDeployment, generate_static}

-- `priv_partition_sizes[i] += 1` for the first `remaining` of `count` equal shares
unfoldable pub even_shares : ℕ → ℕ → ℕ → List ℕ
even_shares zero remaining size = []
even_shares (suc count) zero size = size ∷ even_shares count zero size
even_shares (suc count) (suc remaining) size = (size + 1) ∷ even_shares count remaining size

-- `priv_partition_sizes`: how many private peers each public peer gets
unfoldable pub partition_sizes : ℕ → ℕ → List ℕ
unfolding even_shares
partition_sizes private_count public_count =
    if leb public_count private_count
    then even_shares public_count (private_count % public_count) (private_count / public_count)
    else replicate private_count 1 ++ replicate (public_count - private_count) 0

-- `peer_ports`, by peer; a peer with no entry has no ports yet.
abbrev pub PeerPorts : Type 0
PeerPorts = Dict ℕ (List ℕ)

or_empty : Option (List ℕ) → List ℕ
or_empty none = []
or_empty (some s) = s

-- `peer_ports[peer] = peer_ports.get(peer, set())`
unfoldable pub ensure : ℕ → PeerPorts → PeerPorts
unfolding get put or_empty
ensure peer ports = put ports peer (or_empty (get ports peer))

-- `peer_ports[peer].add(other)`, on the set that the dictionary holds
unfoldable pub add_port : ℕ → ℕ → PeerPorts → PeerPorts
unfolding get put or_empty add
add_port peer other ports = put ports peer (add other (or_empty (get ports peer)))

-- The public ports of a public peer: `for port_i in range(pub_peer_peers_count)`.
unfoldable pub public_ports : Generated → ℕ → List ℕ → Result (List ℕ)
unfolding at
public_ports g pub_i [] = ok []
public_ports g pub_i (port_i ∷ is) =
    let rest = public_ports g pub_i is in
    elim (at g.connections port_i) [
      | raise e ↦ raise e
      | ok connection ↦ elim (connection pub_i) [
        | raise e ↦ raise e
        | ok none ↦ rest
        | ok (some peer_i) ↦ elim rest [ raise e ↦ raise e | ok l ↦ ok (peer_i ∷ l) ]
      ]
    ]

-- `for peer_i in pub_peer_peers: pub_peer_ports.add(peer_ids[peer_i])`
unfoldable pub add_public : List ℕ → ℕ → List ℕ → Exec PeerPorts (Unit {0})
unfolding at add_port
add_public peer_ids pub_peer [] ports = (ok tt, ports)
add_public peer_ids pub_peer (peer_i ∷ is) ports =
    (do
      other ← lift (at peer_ids peer_i)
      λ s. add_public peer_ids pub_peer is (add_port pub_peer other s))
      ports

-- The part of the loop under `if len(self.public_peers) > 1`.
unfoldable pub connect_public : Generated → List ℕ → ℕ → ℕ → Exec PeerPorts (Unit {0})
unfolding public_ports add_public
connect_public g peer_ids pub_i pub_peer = do
  count ← lift (g.count pub_i)
  checked ← lift (if ltb 0 count && leb count 3 then ok tt else raise assertion_error)
  peers ← lift (public_ports g pub_i (range_from 0 count))
  some_peers ← lift (if ltb 0 (length peers) then ok tt else raise assertion_error)
  add_public peer_ids pub_peer peers

-- `for priv_peer in priv_peers`
unfoldable pub attach_private : ℕ → List ℕ → PeerPorts → PeerPorts
unfolding ensure add_port
attach_private pub_peer [] ports = ports
attach_private pub_peer (priv_peer ∷ rest) ports =
    attach_private pub_peer rest
      (add_port priv_peer pub_peer (add_port pub_peer priv_peer (ensure priv_peer ports)))

-- The loop over the public peers from the `pub_i`-th on; `sizes` are theirs, and `unattached` are
-- the private peers from position `priv_i` on, of which each public peer takes its share.
unfoldable pub share_out :
    Option Generated → List ℕ → ℕ → List ℕ → List ℕ → List ℕ → Exec PeerPorts (Unit {0})
unfolding connect_public attach_private ensure
share_out g peer_ids pub_i [] sizes unattached ports = (ok tt, ports)
share_out g peer_ids pub_i (pub_peer ∷ rest) [] unattached ports = (raise index_error, ports)
share_out g peer_ids pub_i (pub_peer ∷ rest) (size ∷ sizes) unattached ports =
    (do
      connected ← (elim g [
        | none ↦ pure tt
        | some ring ↦ connect_public ring peer_ids pub_i pub_peer
      ])
      λ s.
          share_out g peer_ids (suc pub_i) rest sizes (drop size unattached)
            (attach_private pub_peer (take size unattached) s))
      (ensure pub_peer ports)

ports_or_key_error : Option (List ℕ) → Result (List ℕ)
ports_or_key_error none = raise key_error
ports_or_key_error (some s) = ok s

-- `tuple((peer, tuple(peer_ports[peer])) for peer in peer_ids)`
unfoldable pub static_of : Choices → PeerPorts → List ℕ → Result StaticDeployment
unfolding get ports_or_key_error
static_of choices ports [] = ok []
static_of choices ports (peer ∷ rest) =
    let later = static_of choices ports rest in
    elim (ports_or_key_error (get ports peer)) [
      | raise e ↦ raise e
      | ok s ↦ elim later [ raise e ↦ raise e | ok l ↦ ok ((peer, choices.iterate s) ∷ l) ]
    ]

-- The part of `_generate_deployment` behind the choice of the public peers' order, which is
-- `public_ids`; `ring` connects them, if there are two or more.
unfoldable pub share_private : Choices → Option Generated → List ℕ → List ℕ → Result Generated
unfolding partition_sizes share_out static_of generate_static
share_private choices ring public_ids private_peers =
    let private_ids = choices.shuffle (choices.iterate private_peers) in
    let sizes = partition_sizes (length private_peers) (length public_ids) in
    let ids = public_ids ++ private_ids in
    let (r, ports) = share_out ring ids 0 public_ids sizes private_ids [] in
    elim r [
      | raise e ↦ raise e
      | ok _ ↦ elim (static_of choices ports ids) [ raise e ↦ raise e | ok d ↦ generate_static d ]
    ]

-- `_generate_deployment`. With no public peer the source raises StopIteration; `deploy` does not
-- call it then.
unfoldable pub generate_crossed : Kind → Choices → List ℕ → List ℕ → Result Generated
unfolding public_peers generate_all_public share_private
generate_crossed kind choices peers private_peers =
    let public = public_peers peers private_peers in
    let ring = generate_all_public kind choices public in
    let shared = share_private choices (some ring) ring.deployed_peers private_peers in
    let alone = share_private choices none (take 1 (choices.iterate public)) private_peers in
    if ltb 1 (length public) then (if length private_peers == 0 then ok ring else shared) else alone

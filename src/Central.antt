-- ===== src/Central.antt =====
-- uno/registry/vpn_keymat.py: the keys of a VPN whose peers all connect to one root
-- (`CentralizedVpnKeyMaterial`). The peer 0 stands for the root.
pub mod Complete
pub mod Material
use uno.Prelude.{
  ℕ, zero, suc, ◌+◌, ◌-◌, ◌*◌, ◌/◌, ◌%◌, ◌^◌, ◌≤◌, ◌<◌, max, min, ◌≡◌, refl, sym, ap, ◌∙◌, ◌≢◌, ◌↔◌,
  ◌⊎◌, inl, inr, Bool, true, false, not, ◌&&◌, ◌||◌, Option, none, some, List, [], ◌∷◌, ◌++◌, map,
  arith, ltb, leb, ◌==◌, if◌then◌else◌, ltb→lt, lt→ltb, leb→le, ==_iff, ==_refl, ==_comm,
  Bool-cases, Option-cases, length, get_elem?, take, drop, replicate, length-append,
  length-replicate, take-append-drop, All, range_from, Error, runtime_error, value_error,
  index_error, key_error, type_error, assertion_error, address_value_error, not_implemented_error,
  stop_iteration, missing_key_material, Result, ok, raise, Exec, pure, lift, and_then, ◌>>=◌,
  and_then-eq-ok,
}
use Prim.Native.String.{String}
use uno.Prelude.Dict.{Dict, get, put, number_key}
use uno.PairedMap.{absent, find, get_pair, or_key_error}
use uno.VpnKeys.{Fields, KeysMap, Psk, keys_assert_pair, generate_psk, or_missing}

-- The identifier of a key, behind the prefix: "root", or "peer:" and the number of the peer.
pub data KeyName : Type 0 where
  root : KeyName
  peer : ℕ → KeyName

-- `WireGuardKeyPair`, by these identifiers
pub record NamedKey : Type 0 where
  pub key_id : KeyName
  pub public : String
  pub private : String
  pub dropped : Bool

-- `world` is the state of the program `wg` and of the database for the key pairs; `peer_keys_changed` is whether
-- "peer_keys" is among the changed properties.
pub record Central (W : Type 0) : Type 0 where
  pub readonly : Bool
  pub peer_ids : List ℕ
  pub root_key : Option NamedKey
  pub peer_keys : Dict ℕ NamedKey
  pub preshared_keys : KeysMap W Psk
  pub world : W
  pub peer_keys_changed : Bool

name_key : KeyName → Result (String × String) → Result NamedKey
name_key key_id (raise e) = raise e
name_key key_id (ok keys) =
    ok (record { key_id = key_id; public = keys.1; private = keys.0; dropped = false })

module _ {W : Type 0} (genkeypair : KeyName → Exec W (String × String))
    (genkeypreshared : ℕ × ℕ → Exec W String) where
  -- `self.new_child(WireGuardKeyPair, {"key_id": ...})`
  pub new_key : KeyName → Exec (Central W) NamedKey
  unfolding name_key
  new_key key_id m =
      let (r, w) = genkeypair key_id m.world in (name_key key_id r, record m { world = w })

  pub assert_root : Option NamedKey → Exec (Central W) (Unit {0})
  unfolding new_key
  assert_root (some k) m = (ok tt, m)
  assert_root none m =
      let (r, m') = new_key root m in and_then r (λ k s. (ok tt, record s { root_key = some k })) m'

  pub assert_peer_key : ℕ → Option NamedKey → Exec (Central W) (Unit {0})
  unfolding new_key put
  assert_peer_key peer_id (some k) m = (ok tt, m)
  assert_peer_key peer_id none m =
      let (r, m') = new_key (peer peer_id) m in
      and_then r
        (λ k s.
          (ok tt, record s { peer_keys = put s.peer_keys peer_id k; peer_keys_changed = true }))
        m'

  pub assert_peer_psk : ℕ → Exec (Central W) (Psk × Bool)
  unfolding keys_assert_pair generate_psk
  assert_peer_psk peer_id m =
      let (r, psks) =
        keys_assert_pair (generate_psk genkeypreshared) 0 peer_id absent m.preshared_keys in
      (r, record m { preshared_keys = psks })

  -- The loop over the peers.
  unfoldable pub assert_peers : List ℕ → Exec (Central W) (Unit {0})
  unfolding get assert_peer_key assert_peer_psk
  assert_peers [] m = (ok tt, m)
  assert_peers (peer_id ∷ rest) m =
      let (r, m') = assert_peer_key peer_id (get m.peer_keys peer_id) m in
      and_then r (λ _. assert_peer_psk peer_id >>= (λ _. assert_peers rest)) m'

  -- `CentralizedVpnKeyMaterial.assert_keys`
  unfoldable pub assert_keys : Exec (Central W) (Unit {0})
  unfolding assert_root assert_peers
  assert_keys m =
      let (r, m') = assert_root m.root_key m in
      if m.readonly then (ok tt, m) else and_then r (λ _. assert_peers m.peer_ids) m'

-- What `get_peer_material` puts in its list.
pub data Item : Type 0 where
  of_key : NamedKey → Item
  of_psk : Psk → Item

unfoldable pub key_item : Option NamedKey → Result Item
key_item none = raise key_error
key_item (some k) = ok (of_key k)

unfoldable pub psk_item : Option Psk → Result Item
psk_item none = raise key_error
psk_item (some p) = ok (of_psk p)

unfoldable pub prepend : Result Item → Result (List Item) → Result (List Item)
prepend (raise e) rest = raise e
prepend (ok x) (raise e) = raise e
prepend (ok x) (ok rest) = ok (x ∷ rest)

module _ {W : Type 0} where
  -- The loop over the peers, for the root.
  unfoldable pub items : Bool → List ℕ → Central W → Result (List Item)
  unfolding get find prepend key_item psk_item
  items private [] m = ok []
  items private (p ∷ rest) m =
      prepend
        (if private then psk_item (find m.preshared_keys 0 p) else key_item (get m.peer_keys p))
        (items private rest m)

  -- `CentralizedVpnKeyMaterial.get_peer_material`
  unfoldable pub get_central_material : ℕ → Bool → Central W → Result (List Item)
  unfolding items or_missing
  get_central_material p private m = or_missing (
      if p == 0
      then (if private
          then prepend (key_item m.root_key) (items private m.peer_ids m)
          else items private m.peer_ids m)
      else if private
      then prepend (key_item (get m.peer_keys p))
          (prepend (psk_item (find m.preshared_keys 0 p)) (ok []))
      else prepend (key_item m.root_key) (ok []))

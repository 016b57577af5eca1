-- ===== src/PairedMap.antt =====
-- uno/core/paired_map.py: values stored once for an unordered pair of peers (`PairedValuesMap`).
-- A subclass supplies `generate_val`, a parameter here, which may change the subclass's own
-- fields (`fields`) and may raise.
pub mod Pairs
pub mod Storing
pub mod Purging
pub mod Keeping
use uno.Prelude.{
  ℕ, Bool, true, false, ◌&&◌, not, Option, none, some, List, [], ◌∷◌, ltb, ◌==◌, if◌then◌else◌,
  Result, ok, raise, runtime_error, key_error, Exec, and_then,
}
use uno.Prelude.Dict.{Dict, get, put, delete, keys, pair_is_key}

-- `pair_key`
unfoldable pub pair_key : ℕ → ℕ → ℕ × ℕ
pair_key peer_a peer_b = if ltb peer_b peer_a then (peer_b, peer_a) else (peer_a, peer_b)

-- `pick`, on a pair of values
unfoldable pub pick {ℓ} : {A : Type ℓ} → ℕ → ℕ → ℕ → A × A → A
unfolding pair_key
pick peer_a peer_b peer_target val =
    if (pair_key peer_a peer_b).0 == peer_target then val.0 else val.1

-- The argument `val` of `assert_pair`: absent, a value, or a function, whose result may be None.
pub data Supplied (V : Type 0) : Type 0 where
  absent : Supplied V
  value : V → Supplied V
  callable : (Unit {0} → Option V) → Supplied V

pub record PairedMap (F V : Type 0) : Type 0 where
  pub entries : Dict (ℕ × ℕ) V
  pub fields : F

-- A dictionary's `d[k]`
unfoldable pub or_key_error : {V : Type 0} → Option V → Result V
or_key_error none = raise key_error
or_key_error (some v) = ok v

module _ {F V : Type 0} where
  -- `self.get(self.pair_key(peer_a, peer_b))`
  unfoldable pub find : PairedMap F V → ℕ → ℕ → Option V
  unfolding get pair_key
  find m peer_a peer_b = get m.entries (pair_key peer_a peer_b)

  -- `get_pair`
  unfoldable pub get_pair : ℕ → ℕ → PairedMap F V → Result V
  unfolding find or_key_error
  get_pair peer_a peer_b m = or_key_error (find m peer_a peer_b)

  -- The fields are those of the subclass; `generate_val` does not touch the entries.
  generate : (ℕ → ℕ → Exec F (Option V)) → ℕ → ℕ → Supplied V → Exec (PairedMap F V) (Option V)
  generate generate_val peer_a peer_b absent m =
      let (r, fields) = generate_val peer_a peer_b m.fields in (r, record m { fields = fields })
  generate generate_val peer_a peer_b (value v) m = (ok (some v), m)
  generate generate_val peer_a peer_b (callable f) m = (ok (f tt), m)

  store : ℕ × ℕ → Option V → Exec (PairedMap F V) (V × Bool)
  store k none m = (raise runtime_error, m)
  store k (some v) m = (ok (v, true), record m { entries = put m.entries k v })

  stored_or :
      (ℕ → ℕ → Exec F (Option V)) → ℕ → ℕ → Supplied V → Option V → Exec (PairedMap F V) (V × Bool)
  stored_or generate_val peer_a peer_b val (some v) m = (ok (v, false), m)
  stored_or generate_val peer_a peer_b val none m =
      let (r, m') = generate generate_val peer_a peer_b val m in
      and_then r (store (pair_key peer_a peer_b)) m'

  -- `assert_pair`: the stored value and whether it was generated by this call
  unfoldable pub assert_pair :
      (ℕ → ℕ → Exec F (Option V)) → ℕ → ℕ → Supplied V → Exec (PairedMap F V) (V × Bool)
  unfolding find stored_or generate store put
  assert_pair generate_val peer_a peer_b val m =
      stored_or generate_val peer_a peer_b val (find m peer_a peer_b) m

-- `purged[k] = self[k]; del self[k]`
purge_key : {V : Type 0} → ℕ × ℕ → Option V → Exec (Dict (ℕ × ℕ) V × Dict (ℕ × ℕ) V) (Unit {0})
purge_key k none s = (raise key_error, s)
purge_key k (some v) (entries, purged) = (ok tt, (delete entries k, put purged k v))

-- The loop of `purge_peer` over the keys that the dictionary had at the start.
unfoldable pub purge_keys :
    {V : Type 0} → ℕ → List (ℕ × ℕ) → Exec (Dict (ℕ × ℕ) V × Dict (ℕ × ℕ) V) (Unit {0})
unfolding get put delete pair_key purge_key
purge_keys peer [] s = (ok tt, s)
purge_keys peer ((peer_a, peer_b) ∷ rest) s =
    let k = pair_key peer_a peer_b in
    let (r, s') = purge_key k (get s.0 k) s in
    let skipped = purge_keys peer rest s in
    let purged = and_then r (λ _. purge_keys peer rest) s' in
    if not (peer == peer_a) && not (peer == peer_b) then skipped else purged

-- `purge_peer`: what it removes, with the map that is left
unfoldable pub purge_peer : {F V : Type 0} → ℕ → Exec (PairedMap F V) (Dict (ℕ × ℕ) V)
unfolding purge_keys
purge_peer peer m =
    let (r, (entries, purged)) = purge_keys peer (keys m.entries) (m.entries, []) in
    and_then r (λ _ m'. (ok purged, m')) (record m { entries = entries })

-- ===== src/VpnKeys.antt =====
-- uno/registry/vpn_keymat.py: the keys of the links of a VPN between peers. `VpnKeysMap` is a
-- `PairedValuesMap` that notes when its content changed; `P2pVpnKeyMaterial` keeps a map of two
-- key pairs for each link, one for each end, and a map of preshared keys.
pub mod Sharing
pub mod Handing
pub mod Made
pub mod Staying
pub mod Keeping
pub mod Dropping
pub mod Returning
pub mod Missing
use uno.Prelude.{
  ℕ, zero, suc, ◌+◌, ◌-◌, ◌*◌, ◌/◌, ◌%◌, ◌^◌, ◌≤◌, ◌<◌, max, min, ◌≡◌, refl, sym, ap, ◌∙◌, ◌≢◌, ◌↔◌,
  ◌⊎◌, inl, inr, Bool, true, false, not, ◌&&◌, ◌||◌, Option, none, some, List, [], ◌∷◌, ◌++◌, map,
  arith, ltb, leb, ◌==◌, if◌then◌else◌, ltb→lt, lt→ltb, leb→le, ==_iff, ==_refl, ==_comm,
  Bool-cases, Option-cases, length, get_elem?, take, drop, replicate, length-append,
  length-replicate, take-append-drop, All, range_from, Error, runtime_error, value_error,
  index_error, key_error, type_error, assertion_error, address_value_error, not_implemented_error,
  stop_iteration, missing_key_material, Result, ok, raise, Exec, pure, lift, and_then, ◌>>=◌,
  and_then-eq-ok,
}
use Prim.Native.String.{String}
use uno.Prelude.Dict.{Dict}
use uno.PairedMap.{PairedMap, Supplied, absent, pair_key, pick, find, get_pair, assert_pair}

-- `WireGuardKeyPair` and `WireGuardPsk` (uno/registry/wg_key.py). The identifier of a key is the
-- pair, with the position for a key pair; the prefix, which a map puts before it, is left out.
pub record KeyPair : Type 0 where
  pub key_id : (ℕ × ℕ) × ℕ
  pub public : String
  pub private : String
  pub dropped : Bool

pub record Psk : Type 0 where
  pub key_id : ℕ × ℕ
  pub value : String
  pub dropped : Bool

-- The field of `VpnKeysMap` that is used here, whether "content" is among the changed
-- properties, beside the state of the program `wg`, which makes the keys,
-- and of the database.
pub record Fields (W : Type 0) : Type 0 where
  pub world : W
  pub content_changed : Bool

abbrev pub KeysMap : Type 0 → Type 0 → Type 0
KeysMap W V = PairedMap (Fields W) V

pub note_asserted : {W V : Type 0} → V × Bool → Exec (KeysMap W V) (V × Bool)
note_asserted (v, false) m = (ok (v, false), m)
note_asserted (v, true) m =
    (ok (v, true), record m { fields = record { world = m.fields.world; content_changed = true } })

-- `VpnKeysMap.assert_pair`, of a map that is not readonly
unfoldable pub keys_assert_pair :
    {W V : Type 0}
    → (ℕ → ℕ → Exec (Fields W) (Option V))
    → ℕ
    → ℕ
    → Supplied V
    → Exec (KeysMap W V) (V × Bool)
unfolding assert_pair note_asserted
keys_assert_pair generate_val peer_a peer_b val = do
  asserted ← assert_pair generate_val peer_a peer_b val
  note_asserted asserted

-- `except KeyError: raise MissingKeyMaterial(...)`
unfoldable pub or_missing : {A : Type 0} → Result A → Result A
or_missing (ok a) = ok a
or_missing (raise key_error) = raise missing_key_material
or_missing (raise e) = raise e

pub both : {A B : Type 0} → Result A → Result B → Result (A × B)
both (ok a) (ok b) = ok (a, b)
both (ok a) (raise e) = raise e
both (raise e) r = raise e

-- `VpnKeysMap._ro_assert_pair`, which returns the value alone
unfoldable pub ro_assert_pair : {W V : Type 0} → ℕ → ℕ → KeysMap W V → Result V
unfolding get_pair or_missing
ro_assert_pair peer_a peer_b m = or_missing (get_pair peer_a peer_b m)

-- `P2pVpnKeyMaterial`. Each of the two maps has its own state of `wg`.
pub record Material (W : Type 0) : Type 0 where
  pub readonly : Bool
  pub pair_keys : KeysMap W (KeyPair × KeyPair)
  pub preshared_keys : KeysMap W Psk

module _ {W : Type 0} where
  pub with_world : {A : Type 0} → Exec W A → Exec (Fields W) A
  with_world run f = let (r, w) = run f.world in (r, record f { world = w })

  -- Generating a key runs the program `wg` (`genkeypair` and `genkeypreshared` of uno/core/wg.py) and
  -- saves the key in the database under its identifier, which its constraints may refuse
  -- (`new_child` of uno/registry/versioned.py): either may raise. `genkeypair` gives the private
  -- key, then the public one.
  module _ (genkeypreshared : ℕ × ℕ → Exec W String) where
    -- `PresharedKeysMap.generate_val`
    unfoldable pub generate_psk : ℕ → ℕ → Exec (Fields W) (Option Psk)
    unfolding with_world pair_key
    generate_psk peer_a peer_b = do
      value ← with_world (genkeypreshared (pair_key peer_a peer_b))
      pure (some (record { key_id = pair_key peer_a peer_b; value = value; dropped = false }))

  module _ (genkeypair : (ℕ × ℕ) × ℕ → Exec W (String × String))
      (genkeypreshared : ℕ × ℕ → Exec W String) where
    -- `self.new_child(WireGuardKeyPair, {"key_id": ...})`
    pub new_key_pair : (ℕ × ℕ) × ℕ → Exec (Fields W) KeyPair
    unfolding with_world
    new_key_pair key_id = do
      keys ← with_world (genkeypair key_id)
      pure (record { key_id = key_id; public = keys.1; private = keys.0; dropped = false })

    -- `PairedVpnKeysMap.generate_val`
    unfoldable pub generate_key_pairs : ℕ → ℕ → Exec (Fields W) (Option (KeyPair × KeyPair))
    unfolding new_key_pair pair_key
    generate_key_pairs peer_a peer_b = do
      first ← new_key_pair (pair_key peer_a peer_b, 0)
      second ← new_key_pair (pair_key peer_a peer_b, 1)
      pure (some (first, second))

    pub assert_pair_keys : ℕ → ℕ → Exec (Material W) ((KeyPair × KeyPair) × Bool)
    unfolding keys_assert_pair generate_key_pairs
    assert_pair_keys peer_a peer_b m =
        let (r, pair_keys) = keys_assert_pair generate_key_pairs peer_a peer_b absent m.pair_keys in
        (r, record m { pair_keys = pair_keys })

    pub assert_psk : ℕ → ℕ → Exec (Material W) (Psk × Bool)
    unfolding keys_assert_pair generate_psk
    assert_psk peer_a peer_b m =
        let (r, psks) =
          keys_assert_pair (generate_psk genkeypreshared) peer_a peer_b absent m.preshared_keys in
        (r, record m { preshared_keys = psks })

    -- The body of `P2pVpnKeyMaterial.assert_pair`
    unfoldable pub assert_material : ℕ → ℕ → Exec (Material W) (((KeyPair × KeyPair) × Psk) × Bool)
    unfolding assert_pair_keys assert_psk
    assert_material peer_a peer_b = do
      keys ← assert_pair_keys peer_a peer_b
      psk ← assert_psk peer_a peer_b
      pure ((keys.0, psk.0), keys.1 || psk.1)

  -- `get_pair_material`
  unfoldable pub get_pair_material : ℕ → ℕ → Material W → Result ((KeyPair × KeyPair) × Psk)
  unfolding get_pair both or_missing
  get_pair_material peer_a peer_b m =
      or_missing
        (both (get_pair peer_a peer_b m.pair_keys) (get_pair peer_a peer_b m.preshared_keys))

  -- `P2pVpnKeyMaterial._ro_assert_pair`; a stored value is never None
  unfoldable pub ro_assert_material :
      ℕ → ℕ → Material W → Result (((KeyPair × KeyPair) × Psk) × Bool)
  unfolding get_pair_material
  ro_assert_material peer_a peer_b m = elim (get_pair_material peer_a peer_b m) [
    | ok material ↦ ok (material, false)
    | raise e ↦ raise e
  ]

  -- `P2pVpnKeyMaterial.assert_pair`. A readonly object is not changed; the maps of one that is not
  -- readonly are not readonly either (`new_child` of uno/registry/versioned.py).
  unfoldable pub p2p_assert_pair :
      ((ℕ × ℕ) × ℕ → Exec W (String × String))
      → (ℕ × ℕ → Exec W String)
      → ℕ
      → ℕ
      → Exec (Material W) (((KeyPair × KeyPair) × Psk) × Bool)
  unfolding assert_material ro_assert_material
  p2p_assert_pair genkeypair genkeypreshared peer_a peer_b m =
      if m.readonly
      then (ro_assert_material peer_a peer_b m, m)
      else assert_material genkeypair genkeypreshared peer_a peer_b m

-- What `get_peer_material` puts in its list.
pub data Secret : Type 0 where
  of_key : KeyPair → Secret
  of_psk : Psk → Secret

-- `next((p for p in pair if p != peer))`
pub other_of : ℕ → ℕ × ℕ → Result ℕ
other_of peer (a, b) =
    if not (a == peer) then ok a else if not (b == peer) then ok b else raise stop_iteration

-- `peer in pair`
abbrev pub of_pair : ℕ → ℕ × ℕ → Bool
of_pair peer (a, b) = a == peer || b == peer

pub add_key : ℕ → Bool → KeyPair × KeyPair → Result (List Secret) → Result ℕ → Result (List Secret)
add_key peer private keys rest (raise e) = raise e
add_key peer private keys (raise e) (ok other) = raise e
add_key peer private keys (ok rest) (ok other) =
    ok (of_key (pick peer other (if private then peer else other) keys) ∷ rest)

-- The loop over the pairs of keys; it can only raise StopIteration, whichever pair it stops at.
unfoldable pub keys_of : ℕ → Bool → Dict (ℕ × ℕ) (KeyPair × KeyPair) → Result (List Secret)
unfolding add_key other_of pick
keys_of peer private [] = ok []
keys_of peer private ((pair, keys) ∷ rest) =
    let after = keys_of peer private rest in
    let added = add_key peer private keys after (other_of peer pair) in
    if of_pair peer pair then added else after

-- The loop over the preshared keys.
unfoldable pub psks_of : ℕ → Dict (ℕ × ℕ) Psk → List Secret
psks_of peer [] = []
psks_of peer ((pair, psk) ∷ rest) =
    let after = psks_of peer rest in if of_pair peer pair then of_psk psk ∷ after else after

pub and_psks : List Secret → Result (List Secret) → Result (List Secret)
and_psks psks (raise e) = raise e
and_psks psks (ok keys) = ok (keys ++ psks)

-- `P2pVpnKeyMaterial.get_peer_material`
unfoldable pub get_peer_material : {W : Type 0} → ℕ → Bool → Material W → Result (List Secret)
unfolding keys_of psks_of and_psks
get_peer_material peer private m =
    and_psks (if private then psks_of peer m.preshared_keys.entries else [])
      (keys_of peer private m.pair_keys.entries)

-- ===== src/VpnKeys/Sharing.antt =====
-- The two ends of a link get the same key material (uno/registry/vpn_keymat.py, `assert_pair`,
-- `get_pair_material` and `get_peer_material` of `P2pVpnKeyMaterial`).
use uno.Prelude.{
  ℕ, ◌≡◌, refl, ap, ◌∙◌, Bool, true, false, Option, none, some, if◌then◌else◌, Result, ok, raise,
  Exec, and_then, and_then-eq-ok,
}
use Prim.Native.String.{String}
use uno.PairedMap.{or_key_error, absent, find, get_pair, assert_pair}
use uno.PairedMap.Storing.{find-assert_pair, assert_pair_found, find_comm}
use uno.VpnKeys.{
  Fields, KeysMap, KeyPair, Psk, Material, keys_assert_pair, note_asserted, p2p_assert_pair,
  assert_material, get_pair_material, ro_assert_material, both, or_missing, assert_pair_keys,
  assert_psk, generate_psk, generate_key_pairs,
}

module _ {W V : Type 0} (generate_val : ℕ → ℕ → Exec (Fields W) (Option V)) where
  pub keys_found :
      (a b : ℕ) (m : KeysMap W V) {v : V}
      → find m a b ≡ some v
      → keys_assert_pair generate_val a b absent m ≡ (ok (v, false), m)
  unfolding keys_assert_pair
  keys_found a b m h = rw (assert_pair_found generate_val a b absent m h, note_asserted)

  note-entries :
      (r : Result (V × Bool)) (m : KeysMap W V) {v : V} {new : Bool}
      → (and_then r note_asserted m).0 ≡ ok (v, new)
      → (r ≡ ok (v, new)) × ((and_then r note_asserted m).1.entries ≡ m.entries)
  unfolding note_asserted
  note-entries (ok (w, true)) m h = (h, refl)
  note-entries (ok (w, false)) m h = (h, refl)
  note-entries (raise e) m h = cc

  -- What is returned is held afterwards.
  pub find-keys_assert_pair :
      (a b : ℕ) (m : KeysMap W V) {v : V} {new : Bool}
      → (keys_assert_pair generate_val a b absent m).0 ≡ ok (v, new)
      → find (keys_assert_pair generate_val a b absent m).1 a b ≡ some v
  unfolding keys_assert_pair find
  find-keys_assert_pair a b m h =
      let e =
        note-entries (assert_pair generate_val a b absent m).0
          (assert_pair generate_val a b absent m).1 h in
      rw e.1 (find-assert_pair generate_val a b absent m e.0)

ok-injective : {A : Type 0} {a b : A} → ok a ≡ ok b → a ≡ b
ok-injective h = cc

either_way : {A : Type 0} {x y z : A} (c : Bool) → x ≡ z → y ≡ z → (if c then x else y) ≡ z
either_way true p q = p
either_way false p q = q

found_both :
    {A B : Type 0} (o : Option A) (p : Option B) {found : A × B}
    → or_missing (both (or_key_error o) (or_key_error p)) ≡ ok found
    → (o ≡ some found.0) × (p ≡ some found.1)
unfolding or_missing both or_key_error
found_both (some a) (some b) h =
    let q = ok-injective h in (ap (λ r. some r.0) q, ap (λ r. some r.1) q)
found_both (some a) none h = cc
found_both none (some b) h = cc
found_both none none h = cc

-- The maps hold this material for the link of two peers.
abbrev pub Holds : {W : Type 0} → ℕ → ℕ → (KeyPair × KeyPair) × Psk → Material W → Type 0
Holds a b material m =
    (find m.pair_keys a b ≡ some material.0) × (find m.preshared_keys a b ≡ some material.1)

pub Holds-swap :
    {W : Type 0} (a b : ℕ) (material : (KeyPair × KeyPair) × Psk) (m : Material W)
    → Holds a b material m
    → Holds b a material m
Holds-swap a b material m h =
    (find_comm m.pair_keys b a ∙ h.0, find_comm m.preshared_keys b a ∙ h.1)

Holds-get_pair_material :
    {W : Type 0} (a b : ℕ) (material : (KeyPair × KeyPair) × Psk) (m : Material W)
    → Holds a b material m
    → get_pair_material a b m ≡ ok material
unfolding get_pair_material
Holds-get_pair_material a b material m h = rw (h.0, h.1) refl

get_pair_material-Holds :
    {W : Type 0} (a b : ℕ) (m : Material W) {material : (KeyPair × KeyPair) × Psk}
    → get_pair_material a b m ≡ ok material
    → Holds a b material m
unfolding get_pair_material get_pair
get_pair_material-Holds a b m h = found_both (find m.pair_keys a b) (find m.preshared_keys a b) h

ro_assert_material-Holds :
    {W : Type 0} (a b : ℕ) (m : Material W) {material : (KeyPair × KeyPair) × Psk} {new : Bool}
    → ro_assert_material a b m ≡ ok (material, new)
    → Holds a b material m
unfolding ro_assert_material
ro_assert_material-Holds a b m {material = material} {new = new} h =
    go (get_pair_material a b m) refl h
  where
    go :
        (r : Result ((KeyPair × KeyPair) × Psk))
        → get_pair_material a b m ≡ r
        → elim r as (λ _. Result (((KeyPair × KeyPair) × Psk) × Bool)) [
          | ok x ↦ ok (x, false)
          | raise e ↦ raise e
        ]
          ≡ ok (material, new)
        → Holds a b material m
    go (ok x) e h = get_pair_material-Holds a b m (e ∙ ap (λ r. ok r.0) (ok-injective h))
    go (raise x) e h = cc

by_mode :
    {W : Type 0} (a b : ℕ) (readonly : Bool)
    (x y : Result (((KeyPair × KeyPair) × Psk) × Bool) × Material W)
    {material : (KeyPair × KeyPair) × Psk} {new : Bool}
    → (x.0 ≡ ok (material, new) → Holds a b material x.1)
    → (y.0 ≡ ok (material, new) → Holds a b material y.1)
    → (if readonly then x else y).0 ≡ ok (material, new)
    → Holds a b material (if readonly then x else y).1
by_mode a b true x y f g = f
by_mode a b false x y f g = g

module _ {W : Type 0} (genkeypair : (ℕ × ℕ) × ℕ → Exec W (String × String))
    (genkeypreshared : ℕ × ℕ → Exec W String) where
  Holds-assert_material :
      (a b : ℕ) (material : (KeyPair × KeyPair) × Psk) (m : Material W)
      → Holds a b material m
      → assert_material genkeypair genkeypreshared a b m ≡ (ok (material, false), m)
  unfolding assert_material
  Holds-assert_material a b material m h =
      rw
        (
          keys_found (generate_key_pairs genkeypair genkeypreshared) a b m.pair_keys h.0,
          keys_found (generate_psk genkeypreshared) a b m.preshared_keys h.1,
        )
        refl

  Holds-assert_pair :
      (a b : ℕ) (material : (KeyPair × KeyPair) × Psk) (m : Material W)
      → Holds a b material m
      → p2p_assert_pair genkeypair genkeypreshared a b m ≡ (ok (material, false), m)
  unfolding p2p_assert_pair ro_assert_material
  Holds-assert_pair a b material m h =
      either_way m.readonly (rw (ro_assert_material, Holds-get_pair_material a b material m h) refl)
        (Holds-assert_material a b material m h)

  assert_pair_keys-eq :
      (a b : ℕ) (m : Material W) {keys : KeyPair × KeyPair} {new : Bool}
      → (assert_pair_keys genkeypair genkeypreshared a b m).0 ≡ ok (keys, new)
      → find (assert_pair_keys genkeypair genkeypreshared a b m).1.pair_keys a b ≡ some keys
  unfolding assert_pair_keys
  assert_pair_keys-eq a b m h =
      find-keys_assert_pair (generate_key_pairs genkeypair genkeypreshared) a b m.pair_keys h

  assert_psk-eq :
      (a b : ℕ) (m : Material W) {psk : Psk} {new : Bool}
      → (assert_psk genkeypair genkeypreshared a b m).0 ≡ ok (psk, new)
      → find (assert_psk genkeypair genkeypreshared a b m).1.preshared_keys a b ≡ some psk
  unfolding assert_psk
  assert_psk-eq a b m h =
      find-keys_assert_pair (generate_psk genkeypreshared) a b m.preshared_keys h

  assert_psk-pair_keys :
      (a b : ℕ) (m : Material W)
      → (assert_psk genkeypair genkeypreshared a b m).1.pair_keys ≡ m.pair_keys
  unfolding assert_psk
  assert_psk-pair_keys a b m = refl

  assert_material-Holds :
      (a b : ℕ) (m : Material W) {material : (KeyPair × KeyPair) × Psk} {new : Bool}
      → (assert_material genkeypair genkeypreshared a b m).0 ≡ ok (material, new)
      → Holds a b material (assert_material genkeypair genkeypreshared a b m).1
  unfolding assert_material
  assert_material-Holds a b m h =
      let (keys, e, h') =
        and_then-eq-ok (assert_pair_keys genkeypair genkeypreshared a b m).0 _
          (assert_pair_keys genkeypair genkeypreshared a b m).1 h in
      let m' = (assert_pair_keys genkeypair genkeypreshared a b m).1 in
      let (psk, e', h'') =
        and_then-eq-ok (assert_psk genkeypair genkeypreshared a b m').0 _
          (assert_psk genkeypair genkeypreshared a b m').1 h' in
      let q = ok-injective h'' in
      rw (e, e')
        (
          assert_pair_keys-eq a b m e ∙ ap (λ r. some r.0.0) q,
          assert_psk-eq a b m' e' ∙ ap (λ r. some r.0.1) q,
        )

  pub p2p_assert_pair-Holds :
      (a b : ℕ) (m : Material W) {material : (KeyPair × KeyPair) × Psk} {new : Bool}
      → (p2p_assert_pair genkeypair genkeypreshared a b m).0 ≡ ok (material, new)
      → Holds a b material (p2p_assert_pair genkeypair genkeypreshared a b m).1
  unfolding p2p_assert_pair
  p2p_assert_pair-Holds a b m =
      by_mode a b m.readonly (ro_assert_material a b m, m)
        (assert_material genkeypair genkeypreshared a b m) (ro_assert_material-Holds a b m)
        (assert_material-Holds a b m)

  -- Right after `assert_pair` returned the material of a link, in either mode: another `assert_pair`
  -- for its two peers, in either order, returns the same keys, reports that nothing was generated
  -- and changes nothing, also if the material is made readonly before; and `get_pair_material`
  -- returns these keys to both peers.
  pub p2p_assert_pair-p2p_assert_pair :
      (a b : ℕ) (m : Material W) {material : (KeyPair × KeyPair) × Psk} {new : Bool}
      → (p2p_assert_pair genkeypair genkeypreshared a b m).0 ≡ ok (material, new)
      → let m' = (p2p_assert_pair genkeypair genkeypreshared a b m).1 in
        let frozen = record m' { readonly = true } in
        (p2p_assert_pair genkeypair genkeypreshared b a m' ≡ (ok (material, false), m'))
        × (p2p_assert_pair genkeypair genkeypreshared a b m' ≡ (ok (material, false), m'))
        × (p2p_assert_pair genkeypair genkeypreshared b a frozen ≡ (ok (material, false), frozen))
        × (p2p_assert_pair genkeypair genkeypreshared a b frozen ≡ (ok (material, false), frozen))
        × (get_pair_material a b m' ≡ ok material)
        × (get_pair_material b a m' ≡ ok material)
  p2p_assert_pair-p2p_assert_pair a b m {material = material} h =
      let m' = (p2p_assert_pair genkeypair genkeypreshared a b m).1 in
      let held = p2p_assert_pair-Holds a b m h in
      let held' = Holds-swap a b material m' held in
      (
        Holds-assert_pair b a material m' held',
        Holds-assert_pair a b material m' held,
        Holds-assert_pair b a material (record m' { readonly = true }) held',
        Holds-assert_pair a b material (record m' { readonly = true }) held,
        Holds-get_pair_material a b material m' held,
        Holds-get_pair_material b a material m' held',
      )

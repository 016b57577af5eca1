-- ===== src/VpnKeys/Keeping.antt =====
-- The material of a link that is held stays held while that of other links is asserted
-- (uno/registry/vpn_keymat.py, `P2pVpnKeyMaterial.assert_pair`).
use uno.Prelude.{true, false, if◌then◌else◌, Bool, ℕ, Result, ok, raise, Exec, and_then}
use Prim.Native.String.{String}
use uno.VpnKeys.{
  KeyPair, Psk, Material, generate_key_pairs, generate_psk, assert_pair_keys, assert_psk,
  assert_material, ro_assert_material, p2p_assert_pair,
}
use uno.VpnKeys.Sharing.{Holds}
use uno.VpnKeys.Staying.{stays_stored}

-- Whatever is held before is held after.
abbrev pub Keeps : {W : Type 0} → Material W → Material W → Type 0
Keeps m m' =
    (a b : ℕ) (material : (KeyPair × KeyPair) × Psk) → Holds a b material m → Holds a b material m'

-- The state after a chain, from the states after its parts.
pub and_then-Keeps :
    {W A B : Type 0} (m : Material W) (r : Result A) (f : A → Exec (Material W) B) (s : Material W)
    → Keeps m s
    → ((a : A) → Keeps m (f a s).1)
    → Keeps m (and_then r f s).1
and_then-Keeps m (ok a) f s h later = later a
and_then-Keeps m (raise e) f s h later = h

either_way-Keeps :
    {W A : Type 0} (m : Material W) (c : Bool) (x y : Result A × Material W)
    → Keeps m x.1
    → Keeps m y.1
    → Keeps m (if c then x else y).1
either_way-Keeps m true x y h k = h
either_way-Keeps m false x y h k = k

pub Keeps-trans : {W : Type 0} (l m n : Material W) → Keeps l m → Keeps m n → Keeps l n
Keeps-trans l m n h k a b material held = k a b material (h a b material held)

module _ {W : Type 0} (genkeypair : (ℕ × ℕ) × ℕ → Exec W (String × String))
    (genkeypreshared : ℕ × ℕ → Exec W String) where
  assert_pair_keys-Keeps :
      (a b : ℕ) (m : Material W) → Keeps m (assert_pair_keys genkeypair genkeypreshared a b m).1
  unfolding assert_pair_keys
  assert_pair_keys-Keeps a b m c d material held = (
    stays_stored (generate_key_pairs genkeypair genkeypreshared) a b m.pair_keys c d material.0
        held.0,
    held.1,
  )

  assert_psk-Keeps :
      (a b : ℕ) (m : Material W) → Keeps m (assert_psk genkeypair genkeypreshared a b m).1
  unfolding assert_psk
  assert_psk-Keeps a b m c d material held = (
    held.0,
    stays_stored (generate_psk genkeypreshared) a b m.preshared_keys c d material.1 held.1,
  )

  assert_material-Keeps :
      (a b : ℕ) (m : Material W) → Keeps m (assert_material genkeypair genkeypreshared a b m).1
  unfolding assert_material
  assert_material-Keeps a b m =
      let m' = (assert_pair_keys genkeypair genkeypreshared a b m).1 in
      let m'' = (assert_psk genkeypair genkeypreshared a b m').1 in
      let first = assert_pair_keys-Keeps a b m in
      let second = Keeps-trans m m' m'' first (assert_psk-Keeps a b m') in
      and_then-Keeps m (assert_pair_keys genkeypair genkeypreshared a b m).0 _ m' first (λ keys.
        and_then-Keeps m (assert_psk genkeypair genkeypreshared a b m').0 _ m'' second
          (λ psk. second))

  pub p2p_assert_pair-Keeps :
      (a b : ℕ) (m : Material W) → Keeps m (p2p_assert_pair genkeypair genkeypreshared a b m).1
  unfolding p2p_assert_pair
  p2p_assert_pair-Keeps a b m =
      either_way-Keeps m m.readonly (ro_assert_material a b m, m)
        (assert_material genkeypair genkeypreshared a b m) (λ c d material held. held)
        (assert_material-Keeps a b m)

-- ===== src/VpnKeys/Missing.antt =====
-- Readonly key material, where keys are missing (uno/registry/vpn_keymat.py, `_ro_assert_pair` and
-- `get_pair_material` of `P2pVpnKeyMaterial`).
use uno.Prelude.{
  ℕ, ◌≡◌, refl, ap, ◌∙◌, ◌⊎◌, inl, inr, Bool, true, Option, none, some, if◌then◌else◌,
  missing_key_material, raise, Exec,
}
use Prim.Native.String.{String}
use uno.PairedMap.{or_key_error, find, get_pair}
use uno.VpnKeys.{
  Material, p2p_assert_pair, assert_material, get_pair_material, ro_assert_material, both,
  or_missing,
}

by_flag : {A : Type 0} {c : Bool} → c ≡ true → (x y : A) → (if c then x else y) ≡ x
by_flag set x y = rw set refl

none_of_both :
    {A B : Type 0} (o : Option A) (p : Option B)
    → (o ≡ none) ⊎ (p ≡ none)
    → or_missing (both (or_key_error o) (or_key_error p)) ≡ raise missing_key_material
unfolding or_missing both or_key_error
none_of_both none p h = refl
none_of_both (some a) none h = refl
none_of_both (some a) (some b) (inl e) = cc
none_of_both (some a) (some b) (inr e) = cc

get_pair_material_missing :
    {W : Type 0} (a b : ℕ) (m : Material W)
    → (find m.pair_keys a b ≡ none) ⊎ (find m.preshared_keys a b ≡ none)
    → get_pair_material a b m ≡ raise missing_key_material
unfolding get_pair_material get_pair
get_pair_material_missing a b m missing =
    none_of_both (find m.pair_keys a b) (find m.preshared_keys a b) missing

ro_assert_material_missing :
    {W : Type 0} (a b : ℕ) (m : Material W)
    → (find m.pair_keys a b ≡ none) ⊎ (find m.preshared_keys a b ≡ none)
    → ro_assert_material a b m ≡ raise missing_key_material
unfolding ro_assert_material
ro_assert_material_missing a b m missing =
    rw (ro_assert_material, get_pair_material_missing a b m missing) refl

module _ {W : Type 0} (genkeypair : (ℕ × ℕ) × ℕ → Exec W (String × String))
    (genkeypreshared : ℕ × ℕ → Exec W String) where
  readonly_outcome :
      (a b : ℕ) (m : Material W)
      → m.readonly ≡ true
      → p2p_assert_pair genkeypair genkeypreshared a b m ≡ (ro_assert_material a b m, m)
  unfolding p2p_assert_pair
  readonly_outcome a b m set =
      by_flag set (ro_assert_material a b m, m) (assert_material genkeypair genkeypreshared a b m)

  -- With readonly material that lacks the key pairs or the preshared key of a link, `assert_pair`
  -- raises `MissingKeyMaterial` and changes nothing.
  pub p2p_assert_pair_missing :
      (a b : ℕ) (m : Material W)
      → m.readonly ≡ true
      → (find m.pair_keys a b ≡ none) ⊎ (find m.preshared_keys a b ≡ none)
      → p2p_assert_pair genkeypair genkeypreshared a b m ≡ (raise missing_key_material, m)
  p2p_assert_pair_missing a b m set missing =
      readonly_outcome a b m set ∙ ap (λ r. (r, m)) (ro_assert_material_missing a b m missing)

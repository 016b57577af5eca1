-- ===== src/VpnKeys/Made.antt =====
-- Every stored key is the one of its pair and its position (uno/registry/vpn_keymat.py,
-- `generate_val` of the two maps, and `assert_pair` of `P2pVpnKeyMaterial`).
use uno.Prelude.{
  ℕ, ◌<◌, ◌≡◌, sym, ap, ◌∙◌, ◌≢◌, Bool, true, false, ◌||◌, Option, some, arith, if◌then◌else◌, All,
  Result, ok, raise, Exec, pure, and_then, ◌>>=◌, and_then-eq-ok,
}
use Prim.Native.String.{String}
use uno.PairedMap.{pair_key, absent, assert_pair}
use uno.PairedMap.Keeping.{assert_pair-All}
use uno.VpnKeys.{
  Fields, KeysMap, KeyPair, Psk, Material, keys_assert_pair, note_asserted, p2p_assert_pair,
  assert_material, assert_pair_keys, assert_psk, generate_psk, generate_key_pairs, with_world,
  new_key_pair,
}

module _ {W V : Type 0} (P : (ℕ × ℕ) × V → Type 0) where
  note_asserted-All :
      (r : Result (V × Bool)) (m : KeysMap W V)
      → All P m.entries
      → All P (and_then r note_asserted m).1.entries
  unfolding note_asserted
  note_asserted-All (ok (v, true)) m h = h
  note_asserted-All (ok (v, false)) m h = h
  note_asserted-All (raise e) m h = h

  keys_assert_pair-All :
      (generate_val : ℕ → ℕ → Exec (Fields W) (Option V)) (a b : ℕ) (m : KeysMap W V)
      → ((f : Fields W) (v : V) → (generate_val a b f).0 ≡ ok (some v) → P (pair_key a b, v))
      → All P m.entries
      → All P (keys_assert_pair generate_val a b absent m).1.entries
  unfolding keys_assert_pair
  keys_assert_pair-All generate_val a b m made h =
      note_asserted-All (assert_pair generate_val a b absent m).0 _
        (assert_pair-All P generate_val a b m made h)

-- The pair is of two different peers, the smaller one first, and the keys are named after it.
abbrev pub KeysOf : (ℕ × ℕ) × (KeyPair × KeyPair) → Type 0
KeysOf (k, ks) = (k.0 < k.1) × (ks.0.key_id ≡ (k, 0)) × (ks.1.key_id ≡ (k, 1))

abbrev pub PskOf : (ℕ × ℕ) × Psk → Type 0
PskOf (k, psk) = (k.0 < k.1) × (psk.key_id ≡ k)

pub record IsMade {W : Type 0} (m : Material W) : Type 0 where
  pub keys_made : All KeysOf m.pair_keys.entries
  pub psks_made : All PskOf m.preshared_keys.entries

pair_key-lt : (a b : ℕ) → a ≢ b → (pair_key a b).0 < (pair_key a b).1
unfolding pair_key
pair_key-lt a b ne = ground arith

the_value : {A : Type 0} {a b : A} → ok a ≡ ok b → a ≡ b
the_value h = cc

some_value : {A : Type 0} {a b : A} → ok (some a) ≡ ok (some b) → a ≡ b
some_value h = cc

module _ {W : Type 0} (genkeypair : (ℕ × ℕ) × ℕ → Exec W (String × String))
    (genkeypreshared : ℕ × ℕ → Exec W String) where
  new_key_pair-key_id :
      (key_id : (ℕ × ℕ) × ℕ) (f : Fields W) {k : KeyPair}
      → (new_key_pair genkeypair genkeypreshared key_id f).0 ≡ ok k
      → k.key_id ≡ key_id
  unfolding new_key_pair
  new_key_pair-key_id key_id f h =
      let made = with_world (genkeypair key_id) f in
      let (texts, e, h') = and_then-eq-ok made.0 _ made.1 h in
      sym (ap (λ (k : KeyPair). k.key_id) (the_value h'))

  generate_key_pairs-KeysOf :
      (a b : ℕ)
      → a ≢ b
      → (f : Fields W) (v : KeyPair × KeyPair)
      → (generate_key_pairs genkeypair genkeypreshared a b f).0 ≡ ok (some v)
      → KeysOf (pair_key a b, v)
  unfolding generate_key_pairs new_key_pair
  generate_key_pairs-KeysOf a b ne f v h =
      let run = new_key_pair genkeypair genkeypreshared (pair_key a b, 0) f in
      let (first, e, h') = and_then-eq-ok run.0 _ run.1 h in
      let run' = new_key_pair genkeypair genkeypreshared (pair_key a b, 1) run.1 in
      let (second, e', h'') = and_then-eq-ok run'.0 _ run'.1 h' in
      let both = some_value h'' in
      (
        pair_key-lt a b ne,
        ap (λ (ks : KeyPair × KeyPair). ks.0.key_id) (sym both)
            ∙ new_key_pair-key_id (pair_key a b, 0) f e,
        ap (λ (ks : KeyPair × KeyPair). ks.1.key_id) (sym both)
            ∙ new_key_pair-key_id (pair_key a b, 1) run.1 e',
      )

  generate_psk-PskOf :
      (a b : ℕ)
      → a ≢ b
      → (f : Fields W) (v : Psk) → (generate_psk genkeypreshared a b f).0 ≡ ok (some v)
      → PskOf (pair_key a b, v)
  unfolding generate_psk
  generate_psk-PskOf a b ne f v h =
      let made = with_world (genkeypreshared (pair_key a b)) f in
      let (text, e, h') = and_then-eq-ok made.0 _ made.1 h in
      (pair_key-lt a b ne, sym (ap (λ (k : Psk). k.key_id) (some_value h')))

  assert_pair_keys-IsMade :
      (a b : ℕ) (m : Material W)
      → a ≢ b
      → IsMade m
      → IsMade (assert_pair_keys genkeypair genkeypreshared a b m).1
  unfolding assert_pair_keys
  assert_pair_keys-IsMade a b m ne h = record {
    keys_made =
        keys_assert_pair-All KeysOf (generate_key_pairs genkeypair genkeypreshared) a b m.pair_keys
          (generate_key_pairs-KeysOf a b ne) h.keys_made;
    psks_made = h.psks_made;
  }

  assert_psk-IsMade :
      (a b : ℕ) (m : Material W)
      → a ≢ b
      → IsMade m
      → IsMade (assert_psk genkeypair genkeypreshared a b m).1
  unfolding assert_psk
  assert_psk-IsMade a b m ne h = record {
    keys_made = h.keys_made;
    psks_made =
        keys_assert_pair-All PskOf (generate_psk genkeypreshared) a b m.preshared_keys
          (generate_psk-PskOf a b ne) h.psks_made;
  }

  after_psk-IsMade :
      (ks : (KeyPair × KeyPair) × Bool) (r : Result (Psk × Bool)) (m : Material W)
      → IsMade m
      → IsMade
          (and_then {B = ((KeyPair × KeyPair) × Psk) × Bool} r
            (λ psk. pure ((ks.0, psk.0), ks.1 || psk.1))
            m).1
  after_psk-IsMade ks (ok psk) m h = h
  after_psk-IsMade ks (raise e) m h = h

  then_psk-IsMade :
      (a b : ℕ) (r : Result ((KeyPair × KeyPair) × Bool)) (m : Material W)
      → a ≢ b
      → IsMade m
      → IsMade
          (and_then {B = ((KeyPair × KeyPair) × Psk) × Bool} r
            (λ ks.
              ◌>>=◌ {B = ((KeyPair × KeyPair) × Psk) × Bool}
                (assert_psk genkeypair genkeypreshared a b)
                (λ psk. pure ((ks.0, psk.0), ks.1 || psk.1)))
            m).1
  then_psk-IsMade a b (raise e) m ne h = h
  then_psk-IsMade a b (ok ks) m ne h =
      after_psk-IsMade ks (assert_psk genkeypair genkeypreshared a b m).0 _
        (assert_psk-IsMade a b m ne h)

  by_mode :
      (readonly : Bool) (x y : Result (((KeyPair × KeyPair) × Psk) × Bool) × Material W)
      → IsMade x.1
      → IsMade y.1
      → IsMade (if readonly then x else y).1
  by_mode true x y h k = h
  by_mode false x y h k = k

  -- For two different peers, `assert_pair` keeps the maps well made, in either mode and also when
  -- it raises: every stored pair is of two different peers, the smaller one first, its two key
  -- pairs are those of this pair, of the positions 0 and 1, and its preshared key is of this pair.
  pub p2p_assert_pair-IsMade :
      (a b : ℕ) (m : Material W)
      → a ≢ b
      → IsMade m
      → IsMade (p2p_assert_pair genkeypair genkeypreshared a b m).1
  unfolding p2p_assert_pair assert_material
  p2p_assert_pair-IsMade a b m ne h =
      by_mode m.readonly _ (assert_material genkeypair genkeypreshared a b m) h (
        then_psk-IsMade a b (assert_pair_keys genkeypair genkeypreshared a b m).0 _ ne
          (assert_pair_keys-IsMade a b m ne h))

-- ===== src/PairedMap/Keeping.antt =====
-- What holds of all that is generated holds of all that is stored (uno/core/paired_map.py,
-- `assert_pair`).
use uno.Prelude.{
  ℕ, ◌≡◌, refl, sym, ap, ◌∙◌, inl, inr, true, false, Option, none, some, [], ◌∷◌, Bool-cases, All,
  Result, ok, raise, Exec, and_then,
}
use mathlib.Core.Path.{subst}
use uno.Prelude.Dict.{Dict, get, put, pair_is_key, same_pair_iff}
use uno.PairedMap.{PairedMap, pair_key, find, absent, assert_pair, store, stored_or, generate}

module _ {V : Type 0} (j : ℕ × ℕ) (w : V) (d : Dict (ℕ × ℕ) V) (k : ℕ × ℕ) where
  pub get_here : pair_is_key.is_key j k ≡ true → get ((j, w) ∷ d) k ≡ some w
  unfolding get
  get_here h = rw h refl

  pub get_past : pair_is_key.is_key j k ≡ false → get ((j, w) ∷ d) k ≡ get d k
  unfolding get
  get_past h = rw h refl

  this : {v : V} → pair_is_key.is_key j k ≡ true → get ((j, w) ∷ d) k ≡ some v → w ≡ v
  this same found = let here = get_here same in cc

module _ {V : Type 0} (P : (ℕ × ℕ) × V → Type 0) where
  put-All : (d : Dict (ℕ × ℕ) V) (k : ℕ × ℕ) (v : V) → P (k, v) → All P d → All P (put d k v)
  unfolding put
  put-All [] k v p h = (p, tt)
  put-All ((j, w) ∷ d) k v p h = elim (Bool-cases (pair_is_key.is_key j k)) [
    | inl same ↦ rw same (subst (λ i. P (i, v)) (sym ((same_pair_iff j k).0 same)) p, h.1)
    | inr differ ↦ rw differ (h.0, put-All d k v p h.1)
  ]

  pub get-All : (d : Dict (ℕ × ℕ) V) (k : ℕ × ℕ) {v : V} → All P d → get d k ≡ some v → P (k, v)
  unfolding get
  get-All [] k h found = cc
  get-All ((j, w) ∷ d) k h found = elim (Bool-cases (pair_is_key.is_key j k)) [
    | inl same ↦
        subst P
          (ap (λ i. (i, w)) ((same_pair_iff j k).0 same)
            ∙ ap (λ x. (k, x)) (this j w d k same found))
          h.0
    | inr differ ↦ get-All d k h.1 (sym (get_past j w d k differ) ∙ found)
  ]

  module _ {F : Type 0} (generate_val : ℕ → ℕ → Exec F (Option V)) where
    store-All :
        (k : ℕ × ℕ) (r : Result (Option V)) (m : PairedMap F V)
        → ((v : V) → r ≡ ok (some v) → P (k, v))
        → All P m.entries
        → All P (and_then r (store k) m).1.entries
    unfolding store
    store-All k (ok (some v)) m made h = put-All m.entries k v (made v refl) h
    store-All k (ok none) m made h = h
    store-All k (raise e) m made h = h

    stored_or-All :
        (a b : ℕ) (o : Option V) (m : PairedMap F V)
        → ((f : F) (v : V) → (generate_val a b f).0 ≡ ok (some v) → P (pair_key a b, v))
        → All P m.entries
        → All P (stored_or generate_val a b absent o m).1.entries
    unfolding stored_or generate
    stored_or-All a b (some v) m made h = h
    stored_or-All a b none m made h =
        store-All (pair_key a b) (generate_val a b m.fields).0 _ (made m.fields) h

    -- If all that is generated has the property, all that is stored keeps it.
    pub assert_pair-All :
        (a b : ℕ) (m : PairedMap F V)
        → ((f : F) (v : V) → (generate_val a b f).0 ≡ ok (some v) → P (pair_key a b, v))
        → All P m.entries
        → All P (assert_pair generate_val a b absent m).1.entries
    unfolding assert_pair
    assert_pair-All a b m made h = stored_or-All a b (find m a b) m made h

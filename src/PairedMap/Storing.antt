-- ===== src/PairedMap/Storing.antt =====
-- What `assert_pair` stores and what later calls find (uno/core/paired_map.py).
use uno.Prelude.{
  Error, true, ℕ, Bool, false, ◌≡◌, refl, ◌≢◌, Option, none, some, arith, ◌≤◌, ok, raise, Result,
  ◌∙◌, Exec, and_then, [], ◌∷◌, All,
}
use uno.Prelude.Dict.{
  get-put, get-put_self, pair_is_key, IsUnique, put-IsUnique, keys, Dict, put, same_pair_iff,
}
use uno.PairedMap.{
  PairedMap, Supplied, absent, value, callable, pair_key, find, get_pair, assert_pair, store,
  generate, stored_or,
}
use uno.PairedMap.Pairs.{pair_key_comm}

pub find_comm : {F V : Type 0} (m : PairedMap F V) (a b : ℕ) → find m a b ≡ find m b a
unfolding find
find_comm m a b = rw ((pair_key_comm a b).0)

-- Two names for a pair, and for its link.
pub find-pair_key :
    {F V : Type 0} (m : PairedMap F V) (a b c d : ℕ)
    → pair_key a b ≡ pair_key c d
    → find m a b ≡ find m c d
unfolding find
find-pair_key m a b c d e = rw e

module _ {F V : Type 0} (generate_val : ℕ → ℕ → Exec F (Option V)) where
  -- A pair that is stored is returned as it is.
  pub assert_pair_found :
      (a b : ℕ) (val : Supplied V) (m : PairedMap F V) {v : V}
      → find m a b ≡ some v
      → assert_pair generate_val a b val m ≡ (ok (v, false), m)
  unfolding assert_pair
  assert_pair_found a b val m h = rw (h, stored_or)

  -- A pair that is not stored gets the value that `generate_val` returns.
  pub assert_pair_new :
      (a b : ℕ) (m : PairedMap F V) (v : V) (fields : F)
      → find m a b ≡ none
      → generate_val a b m.fields ≡ (ok (some v), fields)
      → assert_pair generate_val a b absent m
        ≡ (ok (v, true), record { entries = put m.entries (pair_key a b) v; fields = fields })
  unfolding assert_pair
  assert_pair_new a b m v fields h g = rw (h, stored_or, generate, g, store)

  -- What `generate_val` raises passes through, and nothing is stored.
  pub assert_pair_raises :
      (a b : ℕ) (m : PairedMap F V) (e : Error) (fields : F)
      → find m a b ≡ none
      → generate_val a b m.fields ≡ (raise e, fields)
      → assert_pair generate_val a b absent m ≡ (raise e, record m { fields = fields })
  unfolding assert_pair
  assert_pair_raises a b m e fields h g = rw (h, stored_or, generate, g)

  find-store :
      (a b : ℕ) (o : Option V) (m : PairedMap F V) {v : V} {new : Bool}
      → (store (pair_key a b) o m).0 ≡ ok (v, new)
      → find (store (pair_key a b) o m).1 a b ≡ some v
  unfolding store find
  find-store a b none m h = cc
  find-store a b (some w) m h = rw (get-put_self) (cc)

  find-and_then-store :
      (a b : ℕ) (r : Result (Option V)) (m : PairedMap F V) {v : V} {new : Bool}
      → (and_then r (store (pair_key a b)) m).0 ≡ ok (v, new)
      → find (and_then r (store (pair_key a b)) m).1 a b ≡ some v
  find-and_then-store a b (ok o) m h = find-store a b o m h
  find-and_then-store a b (raise e) m h = cc

  find-stored_or :
      (a b : ℕ) (val : Supplied V) (o : Option V) (m : PairedMap F V) {v : V} {new : Bool}
      → find m a b ≡ o
      → (stored_or generate_val a b val o m).0 ≡ ok (v, new)
      → find (stored_or generate_val a b val o m).1 a b ≡ some v
  unfolding stored_or
  find-stored_or a b val (some w) m e h = cc
  find-stored_or a b val none m e h =
      find-and_then-store a b (generate generate_val a b val m).0
        (generate generate_val a b val m).1 h

  -- What `assert_pair` returns is what the map holds for the pair afterwards.
  pub find-assert_pair :
      (a b : ℕ) (val : Supplied V) (m : PairedMap F V) {v : V} {new : Bool}
      → (assert_pair generate_val a b val m).0 ≡ ok (v, new)
      → find (assert_pair generate_val a b val m).1 a b ≡ some v
  unfolding assert_pair
  find-assert_pair a b val m h = find-stored_or a b val (find m a b) m refl h

  -- After `assert_pair` returned a value, every later call for the pair, in either order of the
  -- peers and whatever it supplies, returns that value, reports that nothing was generated and
  -- changes nothing; and `get_pair` returns that value too.
  pub assert_pair-assert_pair :
      (a b : ℕ) (val again : Supplied V) (m : PairedMap F V) {v : V} {new : Bool}
      → (assert_pair generate_val a b val m).0 ≡ ok (v, new)
      → let m' = (assert_pair generate_val a b val m).1 in
        (assert_pair generate_val a b again m' ≡ (ok (v, false), m'))
        × (assert_pair generate_val b a again m' ≡ (ok (v, false), m'))
        × (get_pair b a m' ≡ ok v)
  unfolding get_pair
  assert_pair-assert_pair a b val again m h =
      let found = find-assert_pair a b val m h in
      let found' = find_comm (assert_pair generate_val a b val m).1 b a ∙ found in
      (assert_pair_found a b again _ found, assert_pair_found b a again _ found', rw found')

  find-store_ne :
      (k : ℕ × ℕ) (o : Option V) (m : PairedMap F V) (c d : ℕ)
      → k ≢ pair_key c d
      → find (store k o m).1 c d ≡ find m c d
  unfolding store find
  find-store_ne k none m c d h = refl
  find-store_ne k (some w) m c d h = rw (get-put) (ground (arith, same_pair_iff k (pair_key c d)))

  find-and_then-store_ne :
      (k : ℕ × ℕ) (r : Result (Option V)) (m : PairedMap F V) (c d : ℕ)
      → k ≢ pair_key c d
      → find (and_then r (store k) m).1 c d ≡ find m c d
  find-and_then-store_ne k (ok o) m c d h = find-store_ne k o m c d h
  find-and_then-store_ne k (raise e) m c d h = refl

  find-generate :
      (a b : ℕ) (val : Supplied V) (m : PairedMap F V) (c d : ℕ)
      → find (generate generate_val a b val m).1 c d ≡ find m c d
  unfolding generate find
  find-generate a b absent m c d = refl
  find-generate a b (value v) m c d = refl
  find-generate a b (callable f) m c d = refl

  find-stored_or_ne :
      (a b : ℕ) (val : Supplied V) (o : Option V) (m : PairedMap F V) (c d : ℕ)
      → pair_key a b ≢ pair_key c d
      → find (stored_or generate_val a b val o m).1 c d ≡ find m c d
  unfolding stored_or
  find-stored_or_ne a b val (some w) m c d h = refl
  find-stored_or_ne a b val none m c d h =
      find-and_then-store_ne (pair_key a b) (generate generate_val a b val m).0 _ c d h
      ∙ find-generate a b val m c d

  -- `assert_pair` writes no other pair, whether it returns or raises.
  pub find-assert_pair_ne :
      (a b : ℕ) (val : Supplied V) (m : PairedMap F V) (c d : ℕ)
      → pair_key a b ≢ pair_key c d
      → find (assert_pair generate_val a b val m).1 c d ≡ find m c d
  unfolding assert_pair
  find-assert_pair_ne a b val m c d h = find-stored_or_ne a b val (find m a b) m c d h

-- The keys are in order (the smaller peer first) and no key stands twice.
abbrev pub IsOrdered : ℕ × ℕ → Type 0
IsOrdered (a, b) = a ≤ b

pub record IsValid {F V : Type 0} (m : PairedMap F V) : Type 0 where
  pub ordered : All IsOrdered (keys m.entries)
  pub unique : IsUnique (keys m.entries)

put-All-IsOrdered :
    {V : Type 0} (d : Dict (ℕ × ℕ) V) (k : ℕ × ℕ) (v : V)
    → IsOrdered k
    → All IsOrdered (keys d)
    → All IsOrdered (keys (put d k v))
unfolding put
put-All-IsOrdered [] k v hk h = (hk, tt)
put-All-IsOrdered ((i, w) ∷ d) k v hk h = ground (arith, put-All-IsOrdered d k v hk h.1)

module _ {F V : Type 0} (generate_val : ℕ → ℕ → Exec F (Option V)) where
  store-IsValid :
      (a b : ℕ) (o : Option V) (m : PairedMap F V)
      → IsValid m
      → IsValid (store (pair_key a b) o m).1
  unfolding store
  store-IsValid a b none m h = h
  store-IsValid a b (some v) m h = record {
    ordered = put-All-IsOrdered m.entries (pair_key a b) v (pair_key_comm a b).1 h.ordered;
    unique = put-IsUnique m.entries (pair_key a b) v h.unique;
  }

  and_then-store-IsValid :
      (a b : ℕ) (r : Result (Option V)) (m : PairedMap F V)
      → IsValid m
      → IsValid (and_then r (store (pair_key a b)) m).1
  and_then-store-IsValid a b (ok o) m h = store-IsValid a b o m h
  and_then-store-IsValid a b (raise e) m h = h

  generate-IsValid :
      (a b : ℕ) (val : Supplied V) (m : PairedMap F V)
      → IsValid m
      → IsValid (generate generate_val a b val m).1
  unfolding generate
  generate-IsValid a b absent m h = record { ordered = h.ordered; unique = h.unique }
  generate-IsValid a b (value v) m h = h
  generate-IsValid a b (callable f) m h = h

  stored_or-IsValid :
      (a b : ℕ) (val : Supplied V) (o : Option V) (m : PairedMap F V)
      → IsValid m
      → IsValid (stored_or generate_val a b val o m).1
  unfolding stored_or
  stored_or-IsValid a b val (some w) m h = h
  stored_or-IsValid a b val none m h =
      and_then-store-IsValid a b (generate generate_val a b val m).0 _
        (generate-IsValid a b val m h)

  -- `assert_pair` keeps the keys of the map ordered and distinct, whether it returns or raises.
  pub assert_pair-IsValid :
      (a b : ℕ) (val : Supplied V) (m : PairedMap F V)
      → IsValid m
      → IsValid (assert_pair generate_val a b val m).1
  unfolding assert_pair
  assert_pair-IsValid a b val m h = stored_or-IsValid a b val (find m a b) m h

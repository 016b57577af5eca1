-- ===== src/Prelude/Dict.antt =====
-- Python's `dict` as an association list, over any type of keys with a test for equality: an
-- assignment replaces the value in place, and a new key goes to the end, so that iteration
-- follows the order of insertion.
use mathlib.Core.Path.{◌≡◌, refl}
use mathlib.Core.Logic.{◌↔◌}
use mathlib.Core.Bool.{Bool, true, false, not, ◌&&◌, ◌||◌}
use mathlib.Core.Option.{Option, none, some}
use mathlib.Core.List.{List, [], ◌∷◌, ◌++◌}
use Prim.Native.Nat.{ℕ}
use native.Mathlib.Omega.{arith}
use uno.Prelude.Tests.{◌==◌, ==_iff, if◌then◌else◌}

-- The test by which a dictionary tells its keys apart.
pub record Keyed {κ} (K : Type κ) : Type κ where
  pub is_key : K → K → Bool
  pub is_key_iff : (j k : K) → (is_key j k ≡ true) ↔ (j ≡ k)

instance abbrev pub number_key : Keyed ℕ
number_key = record { is_key = λ j k. j == k; is_key_iff = ==_iff }

abbrev pub same_pair : ℕ × ℕ → ℕ × ℕ → Bool
same_pair (a, b) (c, d) = (a == c) && (b == d)

pub same_pair_iff : (p q : ℕ × ℕ) → (same_pair p q ≡ true) ↔ (p ≡ q)
same_pair_iff (a, b) (c, d) = ground arith

instance abbrev pub pair_is_key : Keyed (ℕ × ℕ)
pair_is_key = record { is_key = same_pair; is_key_iff = same_pair_iff }

pub is_key_refl {ℓ} : {K : Type ℓ} ⦃e : Keyed K⦄ (k : K) → e.is_key k k ≡ true
is_key_refl ⦃e⦄ k = (e.is_key_iff k k).1 refl

abbrev pub Dict {ℓ} : Type ℓ → Type ℓ → Type ℓ
Dict K V = List (K × V)

module _ {ℓ} {K V : Type ℓ} ⦃e : Keyed K⦄ where
  -- `d.get(k)`
  unfoldable pub get : Dict K V → K → Option V
  get [] k = none
  get ((j, v) ∷ d) k = if e.is_key j k then some v else get d k

  -- `d[k] = v`
  unfoldable pub put : Dict K V → K → V → Dict K V
  put [] k v = (k, v) ∷ []
  put ((j, w) ∷ d) k v = if e.is_key j k then (j, v) ∷ d else (j, w) ∷ put d k v

  -- `del d[k]`, where `k` is known to be in `d`
  unfoldable pub delete : Dict K V → K → Dict K V
  delete [] k = []
  delete ((j, w) ∷ d) k = let rest = delete d k in if e.is_key j k then rest else (j, w) ∷ rest

  pub get-put :
      (d : Dict K V) (k j : K) (v : V)
      → get (put d k v) j ≡ (if e.is_key k j then some v else get d j)
  unfolding get put
  get-put [] k j v = refl
  get-put ((i, w) ∷ d) k j v =
      ground (arith, e.is_key_iff k j, e.is_key_iff i k, e.is_key_iff i j, get-put d k j v)

  pub get-delete :
      (d : Dict K V) (k j : K) → get (delete d k) j ≡ (if e.is_key k j then none else get d j)
  unfolding get delete
  get-delete [] k j = ground arith
  get-delete ((i, w) ∷ d) k j =
      ground (arith, e.is_key_iff k j, e.is_key_iff i k, e.is_key_iff i j, get-delete d k j)

  pub get-put_self : (d : Dict K V) (k : K) (v : V) → get (put d k v) k ≡ some v
  get-put_self d k v = rw (get-put, is_key_refl)

abbrev pub keys {ℓ} : {K V : Type ℓ} → Dict K V → List K
keys [] = []
keys ((k, v) ∷ d) = k ∷ keys d

abbrev pub is_some {ℓ} : {A : Type ℓ} → Option A → Bool
is_some none = false
is_some (some a) = true

-- Membership of keys, and keys of which none stands twice.
module _ {ℓ} {K : Type ℓ} ⦃e : Keyed K⦄ where
  abbrev pub mem : List K → K → Bool
  mem [] k = false
  mem (x ∷ xs) k = e.is_key x k || mem xs k

  abbrev pub IsUnique : List K → Type 0
  IsUnique [] = Unit
  IsUnique (x ∷ xs) = (mem xs x ≡ false) × IsUnique xs

module _ {ℓ} {K : Type ℓ} ⦃e : Keyed K⦄ where
  pub mem-append : (xs ys : List K) (k : K) → mem (xs ++ ys) k ≡ (mem xs k || mem ys k)
  mem-append [] ys k = refl
  mem-append (x ∷ xs) ys k = ground (arith, mem-append xs ys k)

module _ {ℓ} {K V : Type ℓ} ⦃e : Keyed K⦄ where
  pub is_some-get : (d : Dict K V) (k : K) → is_some (get d k) ≡ mem (keys d) k
  unfolding get
  is_some-get [] k = refl
  is_some-get ((j, v) ∷ d) k = ground (arith, is_some-get d k)

  pub mem-put :
      (d : Dict K V) (k j : K) (v : V) → mem (keys (put d k v)) j ≡ (e.is_key k j || mem (keys d) j)
  unfolding put
  mem-put [] k j v = refl
  mem-put ((i, w) ∷ d) k j v =
      ground (arith, e.is_key_iff k j, e.is_key_iff i k, e.is_key_iff i j, mem-put d k j v)

  pub mem-delete :
      (d : Dict K V) (k j : K) → mem (keys (delete d k)) j ≡ (not (e.is_key k j) && mem (keys d) j)
  unfolding delete
  mem-delete [] k j = ground arith
  mem-delete ((i, w) ∷ d) k j =
      ground (arith, e.is_key_iff k j, e.is_key_iff i k, e.is_key_iff i j, mem-delete d k j)

  pub put-IsUnique :
      (d : Dict K V) (k : K) (v : V) → IsUnique (keys d) → IsUnique (keys (put d k v))
  unfolding put
  put-IsUnique [] k v h = ground arith
  put-IsUnique ((i, w) ∷ d) k v h =
      ground (arith, mem-put d k i v, e.is_key_iff i k, e.is_key_iff k i, put-IsUnique d k v h.1)

  pub delete-IsUnique : (d : Dict K V) (k : K) → IsUnique (keys d) → IsUnique (keys (delete d k))
  unfolding delete
  delete-IsUnique [] k h = h
  delete-IsUnique ((i, w) ∷ d) k h =
      ground (arith, mem-delete d k i, e.is_key_iff i k, delete-IsUnique d k h.1)

-- ===== src/Prelude/Sets.antt =====
-- Python's `set` of numbers, as a list with no element twice: membership, add, remove,
-- difference and intersection. The order of iteration of a set is not fixed by the language,
-- so code that iterates over a set takes the order as an argument.
use Prim.Native.Nat.{ℕ}
use mathlib.Core.Path.{◌≡◌, refl}
use mathlib.Core.Bool.{Bool, false, not, ◌&&◌, ◌||◌}
use mathlib.Core.List.{List, [], ◌∷◌, ◌++◌}
use native.Mathlib.Omega.{arith}
use uno.Prelude.Tests.{◌==◌, if◌then◌else◌}

-- `a in xs`
abbrev pub contains : List ℕ → ℕ → Bool
contains [] a = false
contains (x ∷ xs) a = (x == a) || contains xs a

-- `xs.add(a)`
unfoldable pub add : ℕ → List ℕ → List ℕ
add a xs = if contains xs a then xs else xs ++ a ∷ []

-- `xs.remove(a)`, where `a` is known to be in `xs`
unfoldable pub remove : ℕ → List ℕ → List ℕ
remove a [] = []
remove a (x ∷ xs) = let rest = remove a xs in if x == a then rest else x ∷ rest

-- `xs - ys`
unfoldable pub difference : List ℕ → List ℕ → List ℕ
difference [] ys = []
difference (x ∷ xs) ys = let rest = difference xs ys in if contains ys x then rest else x ∷ rest

-- `set(xs)`
unfoldable pub from_list : List ℕ → List ℕ
unfolding add
from_list [] = []
from_list (x ∷ xs) = let rest = from_list xs in if contains rest x then rest else x ∷ rest

-- No element stands twice.
abbrev pub IsDistinct : List ℕ → Type 0
IsDistinct [] = Unit
IsDistinct (x ∷ xs) = (contains xs x ≡ false) × IsDistinct xs

pub contains-append :
    (xs ys : List ℕ) (a : ℕ) → contains (xs ++ ys) a ≡ (contains xs a || contains ys a)
contains-append [] ys a = refl
contains-append (x ∷ xs) ys a = ground (arith, contains-append xs ys a)

pub contains-add :
    (b : ℕ) (xs : List ℕ) (a : ℕ) → contains (add b xs) a ≡ ((b == a) || contains xs a)
unfolding add
contains-add b xs a = ground (arith, contains-append xs (b ∷ []) a)

pub contains-remove :
    (b : ℕ) (xs : List ℕ) (a : ℕ) → contains (remove b xs) a ≡ (not (b == a) && contains xs a)
unfolding remove
contains-remove b [] a = ground arith
contains-remove b (x ∷ xs) a = ground (arith, contains-remove b xs a)

pub contains-difference :
    (xs ys : List ℕ) (a : ℕ)
    → contains (difference xs ys) a ≡ (contains xs a && not (contains ys a))
unfolding difference
contains-difference [] ys a = refl
contains-difference (x ∷ xs) ys a = ground (arith, contains-difference xs ys a)

pub ruleset set_laws = (contains-append, contains-add, contains-remove, contains-difference)

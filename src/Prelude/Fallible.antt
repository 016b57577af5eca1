-- ===== src/Prelude/Fallible.antt =====
-- `do` blocks of calls that may raise and change nothing.
use uno.Prelude.Effects.{Result, ok, raise}
use mathlib.Core.Path.{◌≡◌, refl}

infixl 10 ◌>>=◌
abbrev pub ◌>>=◌ : {A B : Type 0} → Result A → (A → Result B) → Result B
raise e >>= next = raise e
ok value >>= next = next value

pub ok-injective : {A : Type 0} {a b : A} → ok a ≡ ok b → a ≡ b
ok-injective h = cc

-- A chain that returned: what its first call returned, and what the rest did with that.
pub returned_through :
    {A B : Type 0} {last : B} (call : Result A) (next : A → Result B)
    → (call >>= next) ≡ ok last
    → (value : A) × (call ≡ ok value) × (next value ≡ ok last)
returned_through (raise e) next returned = cc
returned_through (ok value) next returned = (value, refl, returned)

-- ===== src/Prelude/Effects.antt =====
-- Exceptions as values, and methods that change an object and may raise. What was written before
-- an exception stays written, so the state comes back beside the error too.
use mathlib.Core.Path.{◌≡◌, refl}
use mathlib.Core.Logic.{◌⊎◌, inl, inr}

-- The exceptions that the modelled code raises, by class; the messages are left out.
pub data Error : Type 0 where
  runtime_error value_error index_error key_error type_error : Error
  assertion_error address_value_error not_implemented_error : Error
  stop_iteration missing_key_material clashing_networks_error attribute_error : Error
  agent_reload agent_timedout wireguard_error timeout_error : Error

pub data Result {ℓ} (A : Type ℓ) : Type ℓ where
  ok : A → Result A
  raise : Error → Result A

pub Result-cases {ℓ} :
    {A : Type ℓ} (r : Result A) → ((a : A) × (r ≡ ok a)) ⊎ ((e : Error) × (r ≡ raise e))
Result-cases (ok a) = inl (a, refl)
Result-cases (raise e) = inr (e, refl)

abbrev pub Exec {ℓ} : Type ℓ → Type ℓ → Type ℓ
Exec S A = S → Result A × S

module _ {ℓ} {S A : Type ℓ} where
  abbrev pub pure : A → Exec S A
  pure a s = (ok a, s)

  abbrev pub lift : Result A → Exec S A
  lift r s = (r, s)

module _ {ℓ} {S A B : Type ℓ} where
  abbrev pub and_then : Result A → (A → Exec S B) → Exec S B
  and_then (ok a) f s = f a s
  and_then (raise e) f s = (raise e, s)

  infixl 10 ◌>>=◌
  abbrev pub ◌>>=◌ : Exec S A → (A → Exec S B) → Exec S B
  ◌>>=◌ m f s = and_then (m s).0 f (m s).1

  -- The result after a later step that does not change it.
  pub and_then-eq-ok :
      (r : Result A) (f : A → Exec S B) (s : S) {b : B}
      → (and_then r f s).0 ≡ ok b
      → (a : A) × (r ≡ ok a) × ((f a s).0 ≡ ok b)
  and_then-eq-ok (ok a) f s h = (a, refl, h)
  and_then-eq-ok (raise e) f s h = cc

  -- The same, with the state that the chain leaves.
  pub and_then-eq-ok_state :
      (r : Result A) (f : A → Exec S B) (s : S) {b : B} {s' : S}
      → and_then r f s ≡ (ok b, s')
      → (a : A) × (r ≡ ok a) × (f a s ≡ (ok b, s'))
  and_then-eq-ok_state (ok a) f s h = (a, refl, h)
  and_then-eq-ok_state (raise e) f s h = cc

-- ===== src/Prelude/Results.antt =====
-- A Go call that returns a value and an error: the value counts only if the error is nil. An error
-- is its message. A call of an outside service also moves the world, which is a type `W` of the
-- caller's choice.
use Prim.Native.String.{String}
use mathlib.Core.Path.{◌≡◌, refl}
use mathlib.Core.Logic.{◌⊎◌, inl, inr}
use mathlib.Core.Bool.{Bool, true, false}

pub data Result {ℓ} (A : Type ℓ) : Type ℓ where
  err : String → Result A
  ok : A → Result A

module _ {ℓ κ} {A : Type ℓ} {B : Type κ} where
  -- What follows a call is done only if it gave no error.
  infixl 5 ◌>>=◌
  abbrev pub ◌>>=◌ : Result A → (A → Result B) → Result B
  err message >>= next = err message
  ok value >>= next = next value

  -- A chain of calls gives a value only if each of them does.
  pub bind-eq-ok :
      (first : Result A) (next : A → Result B) {result : B}
      → first >>= next ≡ ok result
      → (value : A) × (first ≡ ok value) × (next value ≡ ok result)
  bind-eq-ok (err message) next e = cc
  bind-eq-ok (ok value) next e = (value, refl, e)

pub ok_injective {ℓ} : {A : Type ℓ} {a b : A} → ok a ≡ ok b → a ≡ b
ok_injective e = cc

abbrev pub is_ok {ℓ} : {A : Type ℓ} → Result A → Bool
is_ok (ok a) = true
is_ok (err e) = false

pub Result-cases {ℓ} :
    {A : Type ℓ} (r : Result A) → ((a : A) × (r ≡ ok a)) ⊎ ((e : String) × (r ≡ err e))
Result-cases (ok a) = inl (a, refl)
Result-cases (err e) = inr (e, refl)

-- An action on the world.
abbrev pub Act : Type 0 → Type 0 → Type 0
Act W A = W → A × W

-- How a call ends: it returns, it panics, or the fuel of the model is used up.
pub data Outcome {ℓ} (A : Type ℓ) : Type ℓ where
  returned : A → Outcome A
  panicked : Outcome A
  out_of_fuel : Outcome A

abbrev pub then_return {ℓ κ} : {A : Type ℓ} {B : Type κ} → Outcome A → (A → Outcome B) → Outcome B
then_return (returned a) f = f a
then_return panicked f = panicked
then_return out_of_fuel f = out_of_fuel

-- ===== src/Prelude/Results.antt =====
-- JavaScript exceptions as values.
use mathlib.Core.Path.{◌≡◌, refl}

pub data Error : Type 0 where
  range_error type_error syntax_error : Error

-- What a piece of code that may throw comes to.
pub data Result {ℓ} (A : Type ℓ) : Type ℓ where
  throw : Error → Result A
  ok : A → Result A

-- An exception passes by what follows.
infixl 5 ◌>>=◌
abbrev pub ◌>>=◌ {ℓ₁ ℓ₂} :
    {A : Type ℓ₁} {B : Type ℓ₂} (code : Result A) (then_code : A → Result B) → Result B
throw thrown >>= then_code = throw thrown
ok value >>= then_code = then_code value

pub >>=-ok_parts {ℓ₁ ℓ₂} :
    {A : Type ℓ₁} {B : Type ℓ₂} (code : Result A) {then_code : A → Result B} {result : B}
    → (code >>= then_code) ≡ ok result
    → (value : A) × (then_code value ≡ ok result) × (code ≡ ok value)
>>=-ok_parts (throw thrown) e = cc
>>=-ok_parts (ok value) e = (value, e, refl)

pub ok_injective {ℓ} : {A : Type ℓ} {a b : A} → ok a ≡ ok b → a ≡ b
ok_injective e = cc

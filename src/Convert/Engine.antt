-- ===== src/Convert/Engine.antt =====
-- What convert.ts takes from the JavaScript engine: floats, TextEncoder and TextDecoder, and the
-- conversions between numbers and text. They are parameters of the model.
use mulex_fk.Prelude.{ℕ, ◌≡◌, Bool, Option, List, [], ◌∷◌, ◌++◌, length}
use mulex_fk.Prelude.Int.{ℤ}

-- A text is its list of UTF-16 code units.
abbrev pub Text : Type 0
Text = List ℕ

-- A Number: an integral value, or any other (fractional, infinite, NaN or -0).
pub data Number (Float : Type 0) : Type 0 where
  int : ℤ → Number Float
  real : Float → Number Float

pub data Value (Float : Type 0) : Type 0 where
  number : Number Float → Value Float
  bigint : ℤ → Value Float
  text : Text → Value Float
  boolean : Bool → Value Float

pub record Engine : Type 1 where
  pub Float : Type 0
  -- TextEncoder.encode and TextDecoder.decode (UTF-8)
  pub encode : Text → List ℕ
  pub decode : List ℕ → Text
  -- String(x), for numbers and bigints
  pub number_text : Number Float → Text
  pub bigint_text : ℤ → Text
  -- ToNumber and BigInt of a text; `none` is a SyntaxError
  pub text_number : Text → Number Float
  pub text_bigint : Text → Option ℤ
  -- the integer that a typed array's conversion keeps of a Number: 0 for NaN and the infinities
  pub truncate : Float → ℤ
  -- BigInt of a Number that is not integral; `none` is a RangeError (-0 gives 0)
  pub real_bigint : Float → Option ℤ
  pub real_truthy : Float → Bool
  pub nan : Float
  -- Number of a bigint
  pub bigint_number : ℤ → Number Float
  -- elements of Float32Array and Float64Array
  pub put_f32 : Number Float → List ℕ
  pub put_f64 : Number Float → List ℕ
  pub get_f32 : List ℕ → Number Float
  pub get_f64 : List ℕ → Number Float

-- What the WHATWG encoding standard and ECMAScript say of them. A text is well formed if it has no
-- lone surrogate and no byte order mark in front. NUL is one byte in UTF-8, and ends any sequence.
pub record IsStandard (E : Engine) : Type 1 where
  pub IsWellFormed : Text → Type 0
  pub encode-nul : (t : Text) → E.encode (t ++ (0 ∷ [])) ≡ E.encode t ++ (0 ∷ [])
  pub decode-encode :
      (t : Text) (rest : List ℕ)
      → IsWellFormed t
      → (more : Text) × (E.decode (E.encode t ++ (0 ∷ rest)) ≡ t ++ (0 ∷ more))
  pub length-put_f32 : (n : Number E.Float) → length (E.put_f32 n) ≡ 4
  pub length-put_f64 : (n : Number E.Float) → length (E.put_f64 n) ≡ 8

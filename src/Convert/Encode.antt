-- ===== src/Convert/Encode.antt =====
-- convert.ts: the class, fromValue and its shorthands, makeData, fromData and concatData.
use mulex_fk.Prelude.{
  ℕ, ◌+◌, ◌^◌, Bool, true, false, not, List, [], ◌∷◌, ◌++◌, length, replicate, ◌==◌, if◌then◌else◌,
  Option, none, some,
}
use mulex_fk.Prelude.Int.{ℤ, pos, negsuc, to_unsigned}
use mulex_fk.Prelude.Results.{
  Error, Result, ok, throw, range_error, type_error, syntax_error, ◌>>=◌,
}
use mulex_fk.Convert.Names.{
  TypeName, int8, int16, int32, int64, uint8, uint16, uint32, uint64, float32, float64, bool,
  string32, string128, string512, Intype, generic,
}
use mulex_fk.Convert.Engine.{Engine, Text, Number, int, real, Value, number, bigint, text, boolean}
use mulex_fk.Convert.Bytes.{Uint8Array, whole, contents, le_bytes, set_bytes}

pub record MxGenericType : Type 0 where
  pub bytes : Uint8Array
  pub intype : Intype

-- The 64-bit size and the bytes, as both makeData and fromValue write them.
unfoldable pub with_size : List ℕ → Result (List ℕ)
with_size raw = do
  let ndata = replicate (length raw + 8) 0
  sized ← set_bytes ndata (le_bytes 8 (length raw)) 0
  set_bytes sized raw 8

unfoldable pub wrap : List ℕ → Intype → Result MxGenericType
unfolding with_size
wrap raw generic = do ndata ← with_size raw; ok (record { bytes = whole ndata; intype = generic })
wrap raw intype = ok (record { bytes = whole raw; intype = intype })

unfoldable pub make_data : List ℕ → Intype → Result MxGenericType
unfolding wrap
make_data raw intype = wrap raw intype

abbrev pub from_data : Uint8Array → Intype → MxGenericType
from_data view intype = record { bytes = view; intype = intype }

module _ (E : Engine) where
  open E use {Float, encode, number_text, bigint_text, text_number, text_bigint, truncate}
  open E use {real_bigint, real_truthy, put_f32, put_f64}

  -- String(value)
  abbrev pub value_text : Value Float → Text
  value_text (number n) = number_text n
  value_text (bigint z) = bigint_text z
  value_text (text t) = t
  value_text (boolean true) = b't' ∷ b'r' ∷ b'u' ∷ b'e' ∷ []
  value_text (boolean false) = b'f' ∷ b'a' ∷ b'l' ∷ b's' ∷ b'e' ∷ []

  -- ToNumber(value); a bigint is refused
  abbrev pub to_number : Value Float → Result (Number Float)
  to_number (number n) = ok n
  to_number (bigint z) = throw type_error
  to_number (text t) = ok (text_number t)
  to_number (boolean b) = ok (int (pos (if b then 1 else 0)))

  abbrev pub number_integer : Number Float → ℤ
  number_integer (int z) = z
  number_integer (real x) = truncate x

  abbrev or_throw : Error → Option ℤ → Result ℤ
  or_throw e none = throw e
  or_throw e (some z) = ok z

  -- BigInt(value)
  abbrev pub to_bigint : Value Float → Result ℤ
  to_bigint (number (int z)) = ok z
  to_bigint (number (real x)) = or_throw range_error (real_bigint x)
  to_bigint (bigint z) = ok z
  to_bigint (text t) = or_throw syntax_error (text_bigint t)
  to_bigint (boolean b) = ok (pos (if b then 1 else 0))

  abbrev nonzero : ℤ → Bool
  nonzero (pos n) = not (n == 0)
  nonzero (negsuc n) = true

  -- value ? true : false
  abbrev pub truthy : Value Float → Bool
  truthy (number (int z)) = nonzero z
  truthy (number (real x)) = real_truthy x
  truthy (bigint z) = nonzero z
  truthy (text t) = not (length t == 0)
  truthy (boolean b) = b

  -- `data = new Uint8Array(size); data.set(encoder.encode(value + '\0'), 0)`
  abbrev fixed_text : ℕ → Value Float → Result (List ℕ)
  fixed_text size value = set_bytes (replicate size 0) (encode (value_text value ++ (0 ∷ []))) 0

  -- `new Uint8Array((new Int32Array([value])).buffer)`, for an element of `size` bytes
  abbrev int_array : ℕ → Value Float → Result (List ℕ)
  int_array size value = do
    n ← to_number value
    ok (le_bytes size (to_unsigned (256 ^ size) (number_integer n)))

  -- `new Uint8Array((new BigInt64Array([BigInt(value)])).buffer)`
  abbrev bigint_array : Value Float → Result (List ℕ)
  bigint_array value = do z ← to_bigint value; ok (le_bytes 8 (to_unsigned (256 ^ 8) z))

  abbrev float_array : (Number Float → List ℕ) → Value Float → Result (List ℕ)
  float_array put value = do n ← to_number value; ok (put n)

  -- The chain of tests on `type` in fromValue; an unknown type is logged and gives no bytes.
  unfoldable pub value_bytes : Value Float → TypeName → Result (List ℕ)
  value_bytes value string32 = fixed_text 32 value
  value_bytes value string128 = fixed_text 128 value
  value_bytes value string512 = fixed_text 512 value
  value_bytes value int8 = int_array 1 value
  value_bytes value int16 = int_array 2 value
  value_bytes value int32 = int_array 4 value
  value_bytes value int64 = bigint_array value
  value_bytes value uint8 = int_array 1 value
  value_bytes value uint16 = int_array 2 value
  value_bytes value uint32 = int_array 4 value
  value_bytes value uint64 = bigint_array value
  value_bytes value float32 = float_array put_f32 value
  value_bytes value float64 = float_array put_f64 value
  value_bytes value bool = set_bytes (replicate 1 0) ((if truthy value then 1 else 0) ∷ []) 0
  value_bytes value _ = ok []

  unfoldable pub from_value : Value Float → TypeName → Intype → Result MxGenericType
  unfolding wrap
  from_value value type intype = do raw ← value_bytes value type; wrap raw intype

  unfoldable pub str32 : Text → Intype → Result MxGenericType
  str32 value intype = from_value (text value) string32 intype

  unfoldable pub str128 : Text → Intype → Result MxGenericType
  str128 value intype = from_value (text value) string128 intype

  unfoldable pub str512 : Text → Intype → Result MxGenericType
  str512 value intype = from_value (text value) string512 intype

-- `args.forEach(x => { length += x.data.length; })`
unfoldable pub total_length : ℕ → List MxGenericType → ℕ
total_length sum [] = sum
total_length sum (x ∷ args) = total_length (sum + x.bytes.byte_length) args

-- `args.forEach(x => { mdata.set(x.data, offset); offset += x.data.length; })`
unfoldable pub copy_all : List ℕ → ℕ → List MxGenericType → Result (List ℕ)
copy_all mdata offset [] = ok mdata
copy_all mdata offset (x ∷ args) = do
  mdata' ← set_bytes mdata (contents x.bytes) offset
  copy_all mdata' (offset + x.bytes.byte_length) args

unfoldable pub concat_data : List MxGenericType → Result (List ℕ)
unfolding total_length copy_all
concat_data (x ∷ []) = ok (contents x.bytes)
concat_data args = copy_all (replicate (total_length 0 args) 0) 0 args

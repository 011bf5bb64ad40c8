-- ===== src/Convert/Numbers.antt =====
-- convert.ts: what astype makes of the integers that fromValue wrote.
use mulex_fk.Prelude.{ℕ, ◌%◌, ◌^◌, ◌<◌, ◌≡◌, refl, ap, ◌∙◌, List, [], ◌∷◌, arith, length, drop}
use mathlib.Core.Path.{ap₂}
use mulex_fk.Prelude.Int.{
  ℤ, pos, negsuc, to_unsigned, to_signed, FitsUnsigned, FitsSigned, to_unsigned-lt,
  to_unsigned_of_fits, to_signed-to_unsigned,
}
use mulex_fk.Prelude.Results.{ok}
use mulex_fk.Convert.Names
use mulex_fk.Convert.Names.{TypeName, Intype}
use mulex_fk.Convert.Engine.{Engine, Value, int}
use mulex_fk.Convert.Engine
use mulex_fk.Convert.Bytes.{le_bytes, le_value, length-le_bytes, le_value-le_bytes}
use mulex_fk.Convert.Encode.{MxGenericType, from_value, value_bytes}
use mulex_fk.Convert.Decode.{
  Output, number, read_array, bigint, astype, read_as, unsigned_word, signed_word, typed_array,
  view_bytes,
}
use mulex_fk.Convert.Framing.{wrap-Reads, typed_array_one, view_bytes_all}

-- The integer types.
pub data Word : Type 0 where
  i8 i16 i32 i64 u8 u16 u32 u64 : Word

abbrev pub name : Word → TypeName
name i8 = Names.int8
name i16 = Names.int16
name i32 = Names.int32
name i64 = Names.int64
name u8 = Names.uint8
name u16 = Names.uint16
name u32 = Names.uint32
name u64 = Names.uint64

-- What is left of an integer in such a type: its residue, read with or without a sign.
abbrev pub kept : Word → ℤ → ℤ
kept i8 z = to_signed (256 ^ 1) (to_unsigned (256 ^ 1) z)
kept i16 z = to_signed (256 ^ 2) (to_unsigned (256 ^ 2) z)
kept i32 z = to_signed (256 ^ 4) (to_unsigned (256 ^ 4) z)
kept i64 z = to_signed (256 ^ 8) (to_unsigned (256 ^ 8) z)
kept u8 z = pos (to_unsigned (256 ^ 1) z)
kept u16 z = pos (to_unsigned (256 ^ 2) z)
kept u32 z = pos (to_unsigned (256 ^ 4) z)
kept u64 z = pos (to_unsigned (256 ^ 8) z)

-- The range of the type.
abbrev pub Fits : Word → ℤ → Type 0
Fits i8 z = FitsSigned (256 ^ 1) z
Fits i16 z = FitsSigned (256 ^ 2) z
Fits i32 z = FitsSigned (256 ^ 4) z
Fits i64 z = FitsSigned (256 ^ 8) z
Fits u8 z = FitsUnsigned (256 ^ 1) z
Fits u16 z = FitsUnsigned (256 ^ 2) z
Fits u32 z = FitsUnsigned (256 ^ 4) z
Fits u64 z = FitsUnsigned (256 ^ 8) z

module _ (E : Engine) where
  -- 64-bit integers come back as a bigint, the others as a Number.
  abbrev pub read_back : Word → ℤ → Output E.Float
  read_back i64 z = bigint z
  read_back u64 z = bigint z
  read_back _ z = number (int z)

  unfoldable pub word_bytes : Word → ℤ → List ℕ
  word_bytes i8 z = le_bytes 1 (to_unsigned (256 ^ 1) z)
  word_bytes i16 z = le_bytes 2 (to_unsigned (256 ^ 2) z)
  word_bytes i32 z = le_bytes 4 (to_unsigned (256 ^ 4) z)
  word_bytes i64 z = le_bytes 8 (to_unsigned (256 ^ 8) z)
  word_bytes u8 z = le_bytes 1 (to_unsigned (256 ^ 1) z)
  word_bytes u16 z = le_bytes 2 (to_unsigned (256 ^ 2) z)
  word_bytes u32 z = le_bytes 4 (to_unsigned (256 ^ 4) z)
  word_bytes u64 z = le_bytes 8 (to_unsigned (256 ^ 8) z)

  value_bytes_word :
      (w : Word) (z : ℤ) → value_bytes E (Engine.number (int z)) (name w) ≡ ok (word_bytes w z)
  unfolding value_bytes word_bytes
  value_bytes_word i8 z = refl
  value_bytes_word i16 z = refl
  value_bytes_word i32 z = refl
  value_bytes_word i64 z = refl
  value_bytes_word u8 z = refl
  value_bytes_word u16 z = refl
  value_bytes_word u32 z = refl
  value_bytes_word u64 z = refl

  module _ (z : ℤ) (k : ℕ) (pos_k : 0 < k) (pos_m : 0 < 256 ^ k) where
    pub word_value : le_value (le_bytes k (to_unsigned (256 ^ k) z)) ≡ to_unsigned (256 ^ k) z
    word_value = le_value-le_bytes k _ (to_unsigned-lt (256 ^ k) z pos_m)

    pub signed_value :
        signed_word (le_bytes k (to_unsigned (256 ^ k) z))
        ≡ to_signed (256 ^ k) (to_unsigned (256 ^ k) z)
    signed_value =
        ap₂ (λ n v. to_signed (256 ^ n) v) (length-le_bytes k (to_unsigned (256 ^ k) z)) word_value

    module _ (offset : ℕ) (buffer : List ℕ) (aligned_k : offset % k ≡ 0)
        (r : drop offset buffer ≡ le_bytes k (to_unsigned (256 ^ k) z)) where
      one_word : typed_array k offset buffer ≡ ok (le_bytes k (to_unsigned (256 ^ k) z) ∷ [])
      one_word = typed_array_one k offset buffer _ pos_k aligned_k r (length-le_bytes k _)

      signed_array :
          read_array E k (λ w. int (signed_word w)) offset buffer
          ≡ ok (number (int (to_signed (256 ^ k) (to_unsigned (256 ^ k) z))))
      signed_array = rw one_word (ap (λ v. ok (number (int v))) signed_value)

      unsigned_array :
          read_array E k (λ w. int (unsigned_word w)) offset buffer
          ≡ ok (number (int (pos (to_unsigned (256 ^ k) z))))
      unsigned_array = rw one_word (ap (λ v. ok (number (int (pos v)))) word_value)

      one_view : view_bytes k 0 (drop offset buffer) ≡ ok (le_bytes k (to_unsigned (256 ^ k) z))
      one_view = rw r (view_bytes_all _ k (length-le_bytes k _))

  pub read_as_word :
      (w : Word) (z : ℤ) (offset : ℕ) (buffer : List ℕ)
      → offset % 8 ≡ 0
      → drop offset buffer ≡ word_bytes w z
      → read_as E (name w) offset buffer ≡ ok (read_back w (kept w z))
  unfolding read_as word_bytes
  read_as_word i8 z o b p r = signed_array z 1 (omega arith) (omega arith) o b (omega arith) r
  read_as_word i16 z o b p r = signed_array z 2 (omega arith) (omega arith) o b (omega arith) r
  read_as_word i32 z o b p r = signed_array z 4 (omega arith) (omega arith) o b (omega arith) r
  read_as_word u8 z o b p r = unsigned_array z 1 (omega arith) (omega arith) o b (omega arith) r
  read_as_word u16 z o b p r = unsigned_array z 2 (omega arith) (omega arith) o b (omega arith) r
  read_as_word u32 z o b p r = unsigned_array z 4 (omega arith) (omega arith) o b (omega arith) r
  read_as_word i64 z o b p r =
      rw (one_view z 8 (omega arith) (omega arith) o b (omega arith) r)
        (ap (λ v. ok (bigint v)) (signed_value z 8 (omega arith) (omega arith)))
  read_as_word u64 z o b p r =
      rw (one_view z 8 (omega arith) (omega arith) o b (omega arith) r)
        (ap (λ v. ok (bigint (pos v))) (word_value z 8 (omega arith) (omega arith)))

  pub word_bytes_full : (w : Word) (z : ℤ) → 0 < length (word_bytes w z)
  unfolding word_bytes
  word_bytes_full i8 z = omega (arith, length-le_bytes)
  word_bytes_full _ z = omega (arith, length-le_bytes)

  -- Whatever integer fromValue is given for an integer type, with or without a size in front, it is
  -- accepted, and astype reads back the two's complement residue of it that the type keeps.
  pub astype-from_value_word :
      (w : Word) (z : ℤ) (intype : Intype)
      → (m : MxGenericType) × (from_value E (Engine.number (int z)) (name w) intype ≡ ok m)
        × (astype E m (name w) ≡ ok (read_back w (kept w z)))
  unfolding from_value
  astype-from_value_word w z intype =
      let (m, made, r) = wrap-Reads E (word_bytes w z) intype (word_bytes_full w z) in
      (
        m,
        rw (value_bytes_word w z) made,
        r.reads (name w) ∙ read_as_word w z r.offset r.buffer r.placed r.rest,
      )

pub kept_of_Fits : (w : Word) (z : ℤ) → Fits w z → kept w z ≡ z
kept_of_Fits i8 z h = to_signed-to_unsigned (256 ^ 1) z h
kept_of_Fits i16 z h = to_signed-to_unsigned (256 ^ 2) z h
kept_of_Fits i32 z h = to_signed-to_unsigned (256 ^ 4) z h
kept_of_Fits i64 z h = to_signed-to_unsigned (256 ^ 8) z h
kept_of_Fits u8 (pos n) h = ap pos (to_unsigned_of_fits (256 ^ 1) n h)
kept_of_Fits u16 (pos n) h = ap pos (to_unsigned_of_fits (256 ^ 2) n h)
kept_of_Fits u32 (pos n) h = ap pos (to_unsigned_of_fits (256 ^ 4) n h)
kept_of_Fits u64 (pos n) h = ap pos (to_unsigned_of_fits (256 ^ 8) n h)
kept_of_Fits _ (negsuc n) h = absurd h

-- An integer in the range of its type comes back as it was.
pub astype-from_value :
    (E : Engine) (w : Word) (z : ℤ) (intype : Intype)
    → Fits w z
    → (m : MxGenericType) × (from_value E (Engine.number (int z)) (name w) intype ≡ ok m)
      × (astype E m (name w) ≡ ok (read_back E w z))
astype-from_value E w z intype h =
    let (m, made, seen) = astype-from_value_word E w z intype in
    (m, made, seen ∙ ap (λ v. ok (read_back E w v)) (kept_of_Fits w z h))

-- ===== src/Convert/Decode.antt =====
-- convert.ts: hexdump, astype, splitChunks and isEmpty.
use mulex_fk.Prelude.{
  ℕ, zero, suc, ◌+◌, ◌-◌, ◌/◌, ◌%◌, ◌^◌, Bool, true, false, ◌&&◌, not, Option, none, some, List, [],
  ◌∷◌, length, take, drop, map, reverse, leb, ltb, ◌==◌, if◌then◌else◌,
}
use mulex_fk.Prelude.Chunks.{chunk_loop}
use mulex_fk.Prelude.Int.{ℤ, pos, to_signed}
use mulex_fk.Prelude.Results.{Result, ok, throw, range_error, ◌>>=◌}
use mulex_fk.Convert.Names.{
  TypeName, int8, int16, int32, int64, uint8, uint16, uint32, uint64, float32, float64, bool,
  string, stringarray, Intype, native, generic, no_response,
}
use mulex_fk.Convert.Engine.{Engine, Text, Number, int}
use mulex_fk.Convert.Bytes.{contents, le_value}
use mulex_fk.Convert.Encode.{MxGenericType}

-- What astype returns.
pub data Output (Float : Type 0) : Type 0 where
  null : Output Float
  number : Number Float → Output Float
  numbers : List (Number Float) → Output Float
  bigint : ℤ → Output Float
  text : Text → Output Float
  texts : List Text → Output Float
  boolean : Bool → Output Float
  booleans : List Bool → Output Float

-- `text.split('\0').shift()`: what stands before the first NUL.
unfoldable pub cut_nul : Text → Text
cut_nul [] = []
cut_nul (c ∷ t) = if c == 0 then [] else c ∷ cut_nul t

abbrev is_generic : Intype → Bool
is_generic native = false
is_generic generic = true
is_generic no_response = false

-- `if(this.intype === 'generic' && this.data.byteLength > 8) { offset = 8; }`
abbrev pub size_offset : MxGenericType → ℕ
size_offset m = if is_generic m.intype && ltb 8 m.bytes.byte_length then 8 else 0

unfoldable pub is_empty : MxGenericType → Bool
is_empty m = if is_generic m.intype then leb m.bytes.byte_length 8 else m.bytes.byte_length == 0

-- The two digits that hexdump writes behind '0x'.
abbrev pub hex_byte : ℕ → ℕ × ℕ
hex_byte b = (b / 16, b % 16)

unfoldable pub hexdump : MxGenericType → List (ℕ × ℕ)
hexdump m =
    if m.bytes.byte_length == 0
    then []
    else reverse (map hex_byte (drop (size_offset m) (contents m.bytes)))

-- The number of rounds is at most the number of bytes, if `chunksize` is not 0.
unfoldable pub split_chunks : List ℕ → ℕ → Option (List (List ℕ))
unfolding chunk_loop
split_chunks args chunksize = chunk_loop (length args + 1) args chunksize 0

-- The elements of a typed array, as many as fit.
unfoldable pub elements : ℕ → ℕ → List ℕ → List (List ℕ)
elements zero size bytes = []
elements (suc n) size bytes = take size bytes ∷ elements n size (drop size bytes)

-- `new Float32Array(buffer, offset)` and its like: both the offset and what is left must be a
-- multiple of the element's size.
unfoldable pub typed_array : ℕ → ℕ → List ℕ → Result (List (List ℕ))
unfolding elements
typed_array size offset buffer =
    let left = length buffer - offset in
    if offset % size == 0 && left % size == 0
    then ok (elements (left / size) size (drop offset buffer))
    else throw range_error

-- DataView.getBigInt64 and its like, at `position` of a view.
unfoldable pub view_bytes : ℕ → ℕ → List ℕ → Result (List ℕ)
view_bytes size position view =
    if leb (position + size) (length view)
    then ok (take size (drop position view))
    else throw range_error

abbrev pub unsigned_word : List ℕ → ℤ
unsigned_word w = pos (le_value w)

abbrev pub signed_word : List ℕ → ℤ
signed_word w = to_signed (256 ^ length w) (le_value w)

abbrev is_full : Text → Bool
is_full [] = false
is_full (c ∷ t) = true

module _ (E : Engine) where
  open E use {Float, decode, get_f32, get_f64}

  abbrev pub decode_text : List ℕ → Text
  decode_text bytes = cut_nul (decode bytes)

  -- `arr.length === 1 ? arr[0] : Array.from(arr)`
  abbrev pub one_or_all : List (Number Float) → Output Float
  one_or_all (n ∷ []) = number n
  one_or_all ns = numbers ns

  abbrev pub one_or_all_bools : List ℕ → Output Float
  one_or_all_bools (b ∷ []) = boolean (b == 1)
  one_or_all_bools bs = booleans (map (λ b. not (b == 0)) bs)

  abbrev pub read_array : ℕ → (List ℕ → Number Float) → ℕ → List ℕ → Result (Output Float)
  read_array size get offset buffer = do
    words ← typed_array size offset buffer
    ok (one_or_all (map get words))

  -- The strings of the chunks, those that are empty left out.
  keep_texts : List (List ℕ) → List Text
  unfolding cut_nul
  keep_texts [] = []
  keep_texts (c ∷ cs) =
      if is_full (decode_text c) then decode_text c ∷ keep_texts cs else keep_texts cs

  -- The `none` of splitChunks is no case of the source: 512 is not 0.
  abbrev kept : Option (List (List ℕ)) → Output Float
  kept none = null
  kept (some cs) = texts (keep_texts cs)

  -- astype on a value that is not empty, for the buffer and the offset into it. The bytes behind
  -- the offset are read to the end of the buffer.
  unfoldable pub read_as : TypeName → ℕ → List ℕ → Result (Output Float)
  unfolding cut_nul typed_array view_bytes keep_texts split_chunks le_value
  read_as string offset buffer = ok (text (decode_text (drop offset buffer)))
  read_as stringarray offset buffer = ok (kept (split_chunks (drop offset buffer) 512))
  read_as float32 offset buffer = read_array 4 get_f32 offset buffer
  read_as float64 offset buffer = read_array 8 get_f64 offset buffer
  read_as int8 offset buffer = read_array 1 (λ w. int (signed_word w)) offset buffer
  read_as uint8 offset buffer = read_array 1 (λ w. int (unsigned_word w)) offset buffer
  read_as int16 offset buffer = read_array 2 (λ w. int (signed_word w)) offset buffer
  read_as uint16 offset buffer = read_array 2 (λ w. int (unsigned_word w)) offset buffer
  read_as int32 offset buffer = read_array 4 (λ w. int (signed_word w)) offset buffer
  read_as uint32 offset buffer = read_array 4 (λ w. int (unsigned_word w)) offset buffer
  read_as int64 offset buffer = do
    w ← view_bytes 8 0 (drop offset buffer)
    ok (bigint (signed_word w))
  read_as uint64 offset buffer = do
    w ← view_bytes 8 0 (drop offset buffer)
    ok (bigint (unsigned_word w))
  read_as bool offset buffer = ok (one_or_all_bools (drop offset buffer))
  read_as _ offset buffer = ok null

  unfoldable pub astype : MxGenericType → TypeName → Result (Output Float)
  unfolding read_as
  astype m type =
      if m.bytes.byte_length == 0
      then ok null
      else read_as type (size_offset m + m.bytes.byte_offset) m.bytes.buffer

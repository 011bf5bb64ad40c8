-- ===== src/Convert/Unpack.antt =====
-- convert.ts: unpack. `Ending` is about when its loop ends, `Stuck` about values on
-- which it does not go on, `Cells` about one entry, and `Rows` about the rows that servers lay out.
pub mod Ending
pub mod Stuck
pub mod Cells
pub mod Rows
use mulex_fk.Prelude.{
  ℕ, zero, suc, ◌+◌, ◌-◌, Bool, true, false, Option, none, some, List, [], ◌∷◌, length, drop, ltb,
  ◌==◌, if◌then◌else◌,
}
use mulex_fk.Prelude.Int.{ℤ}
use mulex_fk.Prelude.Results.{Error, Result, ok, throw, ◌>>=◌}
use mulex_fk.Convert.Names.{
  TypeName, int8, int16, int32, int64, uint8, uint16, uint32, uint64, float32, float64, bool, str32,
  str128, str512, bytearray, cstr,
}
use mulex_fk.Convert.Engine.{Engine, Text, Number, int}
use mulex_fk.Convert.Bytes.{le_value}
use mulex_fk.Convert.Encode.{MxGenericType}
use mulex_fk.Convert.Decode.{
  size_offset, view_bytes, unsigned_word, signed_word, cut_nul, decode_text,
}

-- An entry of a row.
pub data Field (Float : Type 0) : Type 0 where
  number : Number Float → Field Float
  bigint : ℤ → Field Float
  text : Text → Field Float
  boolean : Bool → Field Float
  bytes : List ℕ → Field Float

-- One round over the structure: an entry and the new `packoffset`, nothing at all (a cstr that is
-- empty), or an unknown type.
pub data Step (Float : Type 0) : Type 0 where
  push : Field Float → ℕ → Step Float
  stay : Step Float
  unknown : Step Float

-- What unpack returns; `running` is no value of the source: the fuel of its loop ran out.
pub data Unpacked (Float : Type 0) : Type 0 where
  null : Unpacked Float
  rows : List (List (Field Float)) → Unpacked Float
  throws : Error → Unpacked Float
  running : Unpacked Float

abbrev pub cons_row : {F : Type 0} → List (Field F) → Unpacked F → Unpacked F
cons_row row null = null
cons_row row (rows rs) = rows (row ∷ rs)
cons_row row (throws e) = throws e
cons_row row running = running

abbrev pub Row : Type 0 → Type 0
Row F = Result (Option (List (Field F) × ℕ))

abbrev pub prepend : {F : Type 0} → Field F → Row F → Row F
prepend f (throw e) = throw e
prepend f (ok none) = ok none
prepend f (ok (some (row, last))) = ok (some (f ∷ row, last))

-- `output.push(element)` and the rest of the loop, unless the row ends it.
abbrev pub after_row : {F : Type 0} → Row F → (ℕ → Unpacked F) → Unpacked F
after_row (throw e) next = throws e
after_row (ok none) next = null
after_row (ok (some (row, pos))) next = cons_row row (next pos)

module _ (E : Engine) where
  open E use {Float, get_f32, get_f64}

  abbrev pub read_word : ℕ → (List ℕ → Field Float) → List ℕ → ℕ → Result (Step Float)
  read_word size field view pos = do w ← view_bytes size pos view; ok (push (field w) (pos + size))

  -- The text is decoded from here to the end of the buffer, and cut at its first NUL.
  abbrev pub read_text : ℕ → List ℕ → ℕ → Result (Step Float)
  read_text size view pos = ok (push (text (decode_text E (drop pos view))) (pos + size))

  abbrev pub read_cstr : Text → ℕ → Step Float
  read_cstr [] pos = stay
  read_cstr (c ∷ t) pos = push (text (c ∷ t)) (pos + (length (c ∷ t) + 1))

  abbrev pub read_bytes : List ℕ → ℕ → Result (Step Float)
  read_bytes view pos = do
    w ← view_bytes 8 pos view
    raw ← view_bytes (le_value w) (pos + 8) view
    ok (push (bytes raw) (pos + 8 + le_value w))

  -- The chain of tests on `type` in unpack.
  unfoldable pub read_field : List ℕ → ℕ → TypeName → Result (Step Float)
  read_field view pos str512 = read_text 512 view pos
  read_field view pos str32 = read_text 32 view pos
  read_field view pos str128 = read_text 128 view pos
  read_field view pos float32 = read_word 4 (λ w. number (get_f32 w)) view pos
  read_field view pos float64 = read_word 8 (λ w. number (get_f64 w)) view pos
  read_field view pos int8 = read_word 1 (λ w. number (int (signed_word w))) view pos
  read_field view pos uint8 = read_word 1 (λ w. number (int (unsigned_word w))) view pos
  read_field view pos int16 = read_word 2 (λ w. number (int (signed_word w))) view pos
  read_field view pos uint16 = read_word 2 (λ w. number (int (unsigned_word w))) view pos
  read_field view pos int32 = read_word 4 (λ w. number (int (signed_word w))) view pos
  read_field view pos uint32 = read_word 4 (λ w. number (int (unsigned_word w))) view pos
  read_field view pos int64 = read_word 8 (λ w. bigint (signed_word w)) view pos
  read_field view pos uint64 = read_word 8 (λ w. bigint (unsigned_word w)) view pos
  read_field view pos bool = read_word 1 (λ w. boolean (le_value w == 1)) view pos
  read_field view pos bytearray = read_bytes view pos
  read_field view pos cstr = ok (read_cstr (decode_text E (drop pos view)) pos)
  read_field view pos _ = ok unknown

  -- `for(const type of structure)`, from an offset: the row and the new offset. `none` is the early
  -- `return null`.
  unfoldable pub read_row : List ℕ → ℕ → List TypeName → Row Float
  read_row view pos [] = ok (some ([], pos))
  read_row view pos (type ∷ structure) = elim (read_field view pos type) [
    | throw e ↦ throw e
    | ok unknown ↦ ok none
    | ok stay ↦ read_row view pos structure
    | ok (push f pos') ↦ prepend f (read_row view pos' structure)
  ]

  -- `while(packoffset < this.data.length - offset)`
  unfoldable pub unpack_loop : ℕ → ℕ → List ℕ → List TypeName → ℕ → Unpacked Float
  unpack_loop zero limit view structure pos = running
  unpack_loop (suc fuel) limit view structure pos = elim (ltb pos limit) [
    | false ↦ rows []
    | true ↦ after_row (read_row view pos structure) (unpack_loop fuel limit view structure)
  ]

  unfoldable pub unpack : ℕ → MxGenericType → List TypeName → Unpacked Float
  unfolding unpack_loop read_row read_field view_bytes cut_nul le_value
  unpack fuel m structure =
      let offset = size_offset m + m.bytes.byte_offset in
      if m.bytes.byte_length == 0
      then null
      else unpack_loop fuel (m.bytes.byte_length - offset) (drop offset m.bytes.buffer) structure 0

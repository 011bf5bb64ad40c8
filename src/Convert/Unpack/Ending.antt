-- ===== src/Convert/Unpack/Ending.antt =====
-- convert.ts: when the loop of unpack ends.
use mulex_fk.Prelude.{
  ℕ, zero, suc, ◌+◌, ◌-◌, ◌≤◌, ◌<◌, ◌≡◌, ◌≢◌, refl, ◌⊎◌, inl, inr, true, false, none, some, List,
  [], ◌∷◌, arith, drop, ltb, ltb→lt, ◌==◌, Bool-cases,
}
use mulex_fk.Prelude.Results.{Result, ok, throw, >>=-ok_parts}
use mulex_fk.Convert.Names.{TypeName, str512, cstr}
use mulex_fk.Convert.Engine.{Engine}
use mulex_fk.Convert.Encode.{MxGenericType}
use mulex_fk.Convert.Decode.{size_offset, view_bytes}
use mulex_fk.Convert.Unpack.{
  Field, Row, prepend, Step, push, stay, unknown, Unpacked, null, rows, throws, running, cons_row,
  after_row, read_field, read_row, unpack_loop, unpack, read_word,
}

-- A structure that holds a type other than 'cstr'.
abbrev pub HasFixed : List TypeName → Type 0
HasFixed [] = ⊥
HasFixed (cstr ∷ structure) = HasFixed structure
HasFixed (_ ∷ structure) = Unit

module _ (E : Engine) where
  word_advances :
      (size : ℕ) (field : List ℕ → Field E.Float) (view : List ℕ) (pos : ℕ) (f : Field E.Float)
      (p : ℕ)
      → 0 < size
      → read_word E size field view pos ≡ ok (push f p)
      → pos < p
  word_advances size field view pos f p h e =
      let (w, made, _) = >>=-ok_parts (view_bytes size pos view) e in ground arith

  read_field-push :
      (view : List ℕ) (pos : ℕ) (t : TypeName) (f : Field E.Float) (p : ℕ)
      → read_field E view pos t ≡ ok (push f p)
      → pos < p
  unfolding read_field
  read_field-push view pos str512 f p e = ground arith
  read_field-push view pos cstr f p e = ground arith
  read_field-push view pos t f p e = ground arith

  read_field-stay :
      (view : List ℕ) (pos : ℕ) (t : TypeName) → read_field E view pos t ≡ ok stay → t ≡ cstr
  unfolding read_field
  read_field-stay view pos cstr e = refl
  read_field-stay view pos t e = ground arith

  prepend_ok :
      (f : Field E.Float) (r : Row E.Float) (row : List (Field E.Float)) (last : ℕ)
      → prepend f r ≡ ok (some (row, last))
      → (rest : List (Field E.Float)) × (r ≡ ok (some (rest, last)))
  prepend_ok f (throw x) row last e = cc
  prepend_ok f (ok none) row last e = cc
  prepend_ok f (ok (some (rest, p))) row last e = (rest, ground arith)

  module _ (view : List ℕ) (pos : ℕ) (t : TypeName) (s : List TypeName) (row : List (Field E.Float))
      (last : ℕ) where
    -- The two ways in which a structure's first type is passed.
    abbrev Passed : Type 0
    Passed =
        ((read_field E view pos t ≡ ok stay) × (read_row E view pos s ≡ ok (some (row, last))))
        ⊎ ((f : Field E.Float) × (p : ℕ) × (rest : List (Field E.Float)) × (read_field E view pos t
              ≡ ok (push f p))
            × (read_row E view p s ≡ ok (some (rest, last))))

    read_row-cons : read_row E view pos (t ∷ s) ≡ ok (some (row, last)) → Passed
    unfolding read_row
    read_row-cons e = go (read_field E view pos t) refl
      where
        go : (r : Result (Step E.Float)) → read_field E view pos t ≡ r → Passed
        go (throw x) h = cc (rw (h, read_row) at e)
        go (ok unknown) h = cc (rw (h, read_row) at e)
        go (ok stay) h = inl (h, rw (h, read_row) at e)
        go (ok (push f p)) h =
            let (rest, same) =
              prepend_ok f (read_row E view p s) row last (rw (h, read_row) at e) in
            inr (f, p, rest, h, same)

  -- A row that is read ends no earlier than it starts, and later if the structure has a fixed type.
  read_row-le :
      (view : List ℕ) (pos : ℕ) (s : List TypeName) (row : List (Field E.Float)) (last : ℕ)
      → read_row E view pos s ≡ ok (some (row, last))
      → pos ≤ last
  read_row-le view pos [] row last e = unfold read_row in ground arith
  read_row-le view pos (t ∷ s) row last e = elim (read_row-cons view pos t s row last e) [
    | inl (stays, h) ↦ read_row-le view pos s row last h
    | inr (f, p, rest, read, h) ↦
        omega (arith, read_field-push view pos t f p read, read_row-le view p s rest last h)
  ]

  HasFixed-tail : (t : TypeName) (s : List TypeName) → t ≡ cstr → HasFixed (t ∷ s) → HasFixed s
  HasFixed-tail cstr s e h = h
  HasFixed-tail str512 s e h = cc
  HasFixed-tail _ s e h = cc

  read_row-lt :
      (view : List ℕ) (pos : ℕ) (s : List TypeName) (row : List (Field E.Float)) (last : ℕ)
      → HasFixed s
      → read_row E view pos s ≡ ok (some (row, last))
      → pos < last
  read_row-lt view pos [] row last fixed e = absurd fixed
  read_row-lt view pos (t ∷ s) row last fixed e = elim (read_row-cons view pos t s row last e) [
    | inl (stays, h) ↦
        read_row-lt view pos s row last (HasFixed-tail t s (read_field-stay view pos t stays) fixed)
          h
    | inr (f, p, rest, read, h) ↦
        omega (arith, read_field-push view pos t f p read, read_row-le view p s rest last h)
  ]

  cons_row-ne-running :
      (row : List (Field E.Float)) (u : Unpacked E.Float) → u ≢ running → cons_row row u ≢ running
  cons_row-ne-running row null h = λ e. cc
  cons_row-ne-running row (rows rs) h = λ e. cc
  cons_row-ne-running row (throws x) h = λ e. cc
  cons_row-ne-running row running h = λ e. h refl

  module _ (fuel limit : ℕ) (view : List ℕ) (s : List TypeName) (pos : ℕ) where
    pub unpack_loop_end :
        ltb pos limit ≡ false → unpack_loop E (suc fuel) limit view s pos ≡ rows []
    unfolding unpack_loop
    unpack_loop_end e = rw (e, unpack_loop)

    pub unpack_loop_step :
        ltb pos limit ≡ true
        → unpack_loop E (suc fuel) limit view s pos
          ≡ after_row (read_row E view pos s) (unpack_loop E fuel limit view s)
    unfolding unpack_loop
    unpack_loop_step e = rw (e, unpack_loop)

  after_row-ne-running :
      (r : Row E.Float) (next : ℕ → Unpacked E.Float)
      → ((row : List (Field E.Float)) (p : ℕ) → r ≡ ok (some (row, p)) → next p ≢ running)
      → after_row r next ≢ running
  after_row-ne-running (throw x) next h = λ e. cc
  after_row-ne-running (ok none) next h = λ e. cc
  after_row-ne-running (ok (some (row, p))) next h = cons_row-ne-running row (next p) (h row p refl)

  unpack_loop-ne-running :
      (fuel limit : ℕ) (view : List ℕ) (s : List TypeName) (pos : ℕ)
      → HasFixed s
      → limit - pos < fuel
      → unpack_loop E fuel limit view s pos ≢ running
  unpack_loop-ne-running zero limit view s pos fixed h = elim h [ ]
  unpack_loop-ne-running (suc fuel) limit view s pos fixed h = elim (Bool-cases (ltb pos limit)) [
    | inr less ↦ rw (unpack_loop_end fuel limit view s pos less) (λ e. cc)
    | inl more ↦ rw (unpack_loop_step fuel limit view s pos more) (
        after_row-ne-running (read_row E view pos s) (unpack_loop E fuel limit view s) (λ row p e.
          unpack_loop-ne-running fuel limit view s p fixed
            (omega (arith, ltb→lt pos limit more, read_row-lt view pos s row p fixed e))))
  ]

  module _ (fuel : ℕ) (m : MxGenericType) (s : List TypeName) where
    pub unpack_empty : m.bytes.byte_length ≡ 0 → unpack E fuel m s ≡ null
    unfolding unpack
    unpack_empty e = let e' : (m.bytes.byte_length == 0) ≡ true = ground arith in rw e'

    pub unpack_full :
        0 < m.bytes.byte_length
        → unpack E fuel m s
          ≡ unpack_loop E fuel
              (m.bytes.byte_length - (size_offset m + m.bytes.byte_offset))
              (drop (size_offset m + m.bytes.byte_offset) m.bytes.buffer)
              s
              0
    unfolding unpack
    unpack_full h = let e : (m.bytes.byte_length == 0) ≡ false = ground arith in rw e

  -- unpack ends on every value and every structure that holds a type other than 'cstr', in at most as
  -- many rounds as the value has bytes and one more.
  pub unpack-ne-running :
      (fuel : ℕ) (m : MxGenericType) (s : List TypeName)
      → HasFixed s
      → m.bytes.byte_length < fuel
      → unpack E fuel m s ≢ running
  unpack-ne-running fuel m s fixed h = elim (Bool-cases (ltb 0 m.bytes.byte_length)) [
    | inl full ↦
        rw (unpack_full fuel m s (ltb→lt _ _ full))
          (unpack_loop-ne-running fuel _ _ s 0 fixed (omega arith))
    | inr less ↦ rw (unpack_empty fuel m s (ground arith)) (λ e. cc)
  ]

-- ===== src/Convert/Unpack/Rows.antt =====
-- convert.ts: rows as the servers lay them out, and what unpack makes of them.
use mulex_fk.Prelude.{
  ℕ, zero, suc, ◌+◌, ◌-◌, ◌<◌, ◌≡◌, refl, ap, sym, ◌∙◌, Bool, true, false, none, some, List, [],
  ◌∷◌, ◌++◌, map, length, length-append, drop, drop-append_eq, append_assoc, ltb, ◌==◌, arith, All,
}
use mulex_fk.Prelude.Results.{Result, ok, throw}
use mulex_fk.Convert.Names.{TypeName, native, generic}
use mulex_fk.Convert.Engine.{Engine, IsStandard}
use mulex_fk.Convert.Bytes.{whole, le_bytes, length-le_bytes}
use mulex_fk.Convert.Encode.{MxGenericType, from_data}
use mulex_fk.Convert.Decode.{size_offset}
use mulex_fk.Convert.Numbers.{word_bytes_full}
use mulex_fk.Convert.Unpack.{
  Field, Step, push, stay, unknown, Unpacked, rows, cons_row, after_row, prepend, read_field,
  read_row, unpack_loop, unpack,
}
use mulex_fk.Convert.Unpack.Cells.{
  Cell, word, fixed, array, flag, type_of, field_of, bytes_of, IsFit, read_field-cell,
}

-- The bytes of a row, and of rows one after the other.
abbrev pub row_bytes : (E : Engine) → List Cell → List ℕ
row_bytes E [] = []
row_bytes E (cell ∷ cells) = bytes_of E cell ++ row_bytes E cells

abbrev pub rows_bytes : (E : Engine) → List (List Cell) → List ℕ
rows_bytes E [] = []
rows_bytes E (row ∷ rs) = row_bytes E row ++ rows_bytes E rs

module _ (E : Engine) (std : IsStandard E) where
  -- The row has an entry for each type of the structure, and each fits its type.
  abbrev pub IsRow : List TypeName → List Cell → Type 0
  IsRow structure row = (map type_of row ≡ structure) × All (IsFit E std) row

  read_row-push :
      (view : List ℕ) (pos p : ℕ) (t : TypeName) (s : List TypeName) (f : Field E.Float)
      → read_field E view pos t ≡ ok (push f p)
      → read_row E view pos (t ∷ s) ≡ prepend f (read_row E view p s)
  unfolding read_row
  read_row-push view pos p t s f e =
      ap
        (λ (r : Result (Step E.Float)). elim r [
          | throw x ↦ throw x
          | ok unknown ↦ ok none
          | ok stay ↦ read_row E view pos s
          | ok (push g q) ↦ prepend g (read_row E view q s)
        ])
        e

  read_row-cells :
      (front : List ℕ) (cells : List Cell) (back : List ℕ)
      → All (IsFit E std) cells
      → read_row E (front ++ (row_bytes E cells ++ back)) (length front) (map type_of cells)
        ≡ ok (some (map (field_of E) cells, length front + length (row_bytes E cells)))
  read_row-cells front [] back h = unfold read_row in ap (λ n. ok (some ([], n))) (omega arith)
  read_row-cells front (cell ∷ cells) back (h, hs) =
      let here : List ℕ = bytes_of E cell in
      let rest : List ℕ = row_bytes E cells in
      let next : length front + length here ≡ length (front ++ here) =
        omega (arith, length-append front here) in
      let moved : front ++ (here ++ (rest ++ back)) ≡ (front ++ here) ++ (rest ++ back) =
        sym (append_assoc front here (rest ++ back)) in
      ap (λ v. read_row E (front ++ v) (length front) (map type_of (cell ∷ cells)))
        (append_assoc here rest back)
      ∙ (read_row-push _ (length front) (length front + length here) (type_of cell)
            (map type_of cells) (field_of E cell)
            (read_field-cell E std cell front (rest ++ back) h)
          ∙ (rw (next, moved, read_row-cells (front ++ here) cells back hs)
              (ap (λ n. ok (some (map (field_of E) (cell ∷ cells), n)))
                (omega (arith, length-append front here, length-append here rest)))))

  cell_full : (cell : Cell) → 0 < length (bytes_of E cell)
  cell_full (word w z) = word_bytes_full E w z
  cell_full (fixed s t) = omega (arith, length-append (E.encode t))
  cell_full (array raw) =
      omega (arith, length-append (le_bytes 8 (length raw)) raw, length-le_bytes 8 (length raw))
  cell_full (flag b) = omega arith

  row_full :
      (t : TypeName) (s : List TypeName) (row : List Cell)
      → map type_of row ≡ t ∷ s
      → 0 < length (row_bytes E row)
  row_full t s [] e = cc
  row_full t s (cell ∷ cells) e =
      omega (arith, cell_full cell, length-append (bytes_of E cell) (row_bytes E cells))

  module _ (fuel limit : ℕ) (view : List ℕ) (structure : List TypeName) (pos : ℕ) where
    abbrev loop_test : Bool → Unpacked E.Float
    loop_test b = elim b [
      | false ↦ rows []
      | true ↦ after_row (read_row E view pos structure) (unpack_loop E fuel limit view structure)
    ]

    unpack_loop-suc :
        (b : Bool)
        → ltb pos limit ≡ b
        → unpack_loop E (suc fuel) limit view structure pos ≡ loop_test b
    unfolding unpack_loop
    unpack_loop-suc b e = ap loop_test e

  module _ (t : TypeName) (s : List TypeName) where
    unpack_loop-rows :
        (rs : List (List Cell)) (front : List ℕ) (fuel : ℕ)
        → All (IsRow (t ∷ s)) rs
        → length rs < fuel
        → unpack_loop E fuel
            (length (front ++ rows_bytes E rs))
            (front ++ rows_bytes E rs)
            (t ∷ s)
            (length front)
          ≡ rows (map (map (field_of E)) rs)
    unpack_loop-rows rs front zero h n = absurd (omega arith)
    unpack_loop-rows [] front (suc fuel) h n =
        let done : ltb (length front) (length (front ++ [])) ≡ false =
          ground (arith, length-append front []) in
        unpack_loop-suc fuel _ _ (t ∷ s) (length front) false done
    unpack_loop-rows (row ∷ rs) front (suc fuel) ((types, fits), hs) n =
        let here : List ℕ = row_bytes E row in
        let more : ltb (length front) (length (front ++ (here ++ rows_bytes E rs))) ≡ true =
          ground (
            arith,
            length-append front (here ++ rows_bytes E rs),
            length-append here (rows_bytes E rs),
            row_full t s row types,
          ) in
        let read =
          ap (λ u. read_row E (front ++ (here ++ rows_bytes E rs)) (length front) u) (sym types)
          ∙ read_row-cells front row (rows_bytes E rs) fits in
        let next : length front + length here ≡ length (front ++ here) =
          omega (arith, length-append front here) in
        let moved : front ++ (here ++ rows_bytes E rs) ≡ (front ++ here) ++ rows_bytes E rs =
          sym (append_assoc front here (rows_bytes E rs)) in
        let rest : unpack_loop E fuel (length (front ++ (here ++ rows_bytes E rs)))
              (front ++ (here ++ rows_bytes E rs)) (t ∷ s) (length front + length here)
            ≡ rows (map (map (field_of E)) rs) =
          rw (next, moved) (unpack_loop-rows rs (front ++ here) fuel hs (omega arith)) in
        unpack_loop-suc fuel _ _ (t ∷ s) (length front) true more
        ∙ (ap
              (λ r. after_row r (
                unpack_loop E fuel (length (front ++ (here ++ rows_bytes E rs)))
                  (front ++ (here ++ rows_bytes E rs)) (t ∷ s)))
              read
            ∙ ap (cons_row (map (field_of E) row)) rest)

  -- unpack on bytes from an offset on.
  unpack-from :
      (fuel : ℕ) (m : MxGenericType) (structure : List TypeName) (offset : ℕ) (view : List ℕ)
      → size_offset m + m.bytes.byte_offset ≡ offset
      → drop offset m.bytes.buffer ≡ view
      → m.bytes.byte_length - offset ≡ length view
      → 0 < m.bytes.byte_length
      → unpack E fuel m structure ≡ unpack_loop E fuel (length view) view structure 0
  unfolding unpack
  unpack-from fuel m structure offset view o v n full =
      let some_bytes : (m.bytes.byte_length == 0) ≡ false = ground arith in
      rw (some_bytes, o, v, n) refl

  module _ (t : TypeName) (s : List TypeName) where
    rows_full :
        (rs : List (List Cell))
        → All (IsRow (t ∷ s)) rs
        → 0 < length rs
        → 0 < length (rows_bytes E rs)
    rows_full [] h n = absurd (omega arith)
    rows_full (row ∷ rs) ((types, fits), hs) n =
        omega (arith, row_full t s row types, length-append (row_bytes E row) (rows_bytes E rs))

    unpack-native :
        (rs : List (List Cell)) (fuel : ℕ)
        → All (IsRow (t ∷ s)) rs
        → length rs < fuel
        → 0 < length rs
        → unpack E fuel (from_data (whole (rows_bytes E rs)) native) (t ∷ s)
          ≡ rows (map (map (field_of E)) rs)
    unpack-native rs fuel h n one =
        unpack-from fuel (from_data (whole (rows_bytes E rs)) native) (t ∷ s) 0 (rows_bytes E rs)
          refl refl (omega arith) (rows_full rs h one)
        ∙ unpack_loop-rows t s rs [] fuel h n

    unpack-generic :
        (rs : List (List Cell)) (size : List ℕ) (fuel : ℕ)
        → All (IsRow (t ∷ s)) rs
        → length rs < fuel
        → 0 < length rs
        → length size ≡ 8
        → unpack E fuel (from_data (whole (size ++ rows_bytes E rs)) generic) (t ∷ s)
          ≡ rows (map (map (field_of E)) rs)
    unpack-generic rs size fuel h n one eight =
        let view : List ℕ = rows_bytes E rs in
        let m : MxGenericType = from_data (whole (size ++ view)) generic in
        let full : 0 < length view = rows_full rs h one in
        let long : ltb 8 (length (size ++ view)) ≡ true = ground (arith, length-append size view) in
        let offset : size_offset m + 0 ≡ 8 = rw long (omega arith) in
        unpack-from fuel m (t ∷ s) 8 view offset (drop-append_eq 8 size view (sym eight))
          (omega (arith, length-append size view)) (omega (arith, length-append size view))
        ∙ unpack_loop-rows t s rs [] fuel h n

-- Rows that servers lay out one after the other, with an entry for each type of a structure (integers that
-- fit their types, well-formed texts with no NUL that leave room for one, byte arrays behind their lengths,
-- and Booleans), come back from unpack as they are, with or without a size of 8 bytes in front, if there is
-- a row and a type at least; fuel for one round more than there are rows is enough.
pub unpack-rows :
    (E : Engine) (std : IsStandard E) (t : TypeName) (s : List TypeName) (rs : List (List Cell))
    (size : List ℕ) (fuel : ℕ)
    → All (IsRow E std (t ∷ s)) rs
    → 0 < length rs
    → length size ≡ 8
    → length rs < fuel
    → (unpack E fuel (from_data (whole (size ++ rows_bytes E rs)) generic) (t ∷ s)
        ≡ rows (map (map (field_of E)) rs))
      × (unpack E fuel (from_data (whole (rows_bytes E rs)) native) (t ∷ s)
          ≡ rows (map (map (field_of E)) rs))
unpack-rows E std t s rs size fuel h one eight n =
    (unpack-generic E std t s rs size fuel h n one eight, unpack-native E std t s rs fuel h n one)

-- ===== src/Convert/Unpack/Cells.antt =====
-- convert.ts: one entry of a row, as the servers lay it out, and what unpack reads of it.
use mulex_fk.Prelude.{
  ℕ, ◌+◌, ◌-◌, ◌^◌, ◌≤◌, ◌<◌, ◌≡◌, refl, ap, sym, ◌∙◌, Bool, true, false, List, [], ◌∷◌, ◌++◌,
  length, length-append, length-replicate, replicate, drop-append, take-append_eq, append_assoc,
  leb, ◌==◌, if◌then◌else◌, arith,
}
use mulex_fk.Prelude.Int.{ℤ, pos, to_unsigned, to_signed}
use mulex_fk.Prelude.Results.{ok}
use mulex_fk.Convert.Names
use mulex_fk.Convert.Names.{TypeName}
use mulex_fk.Convert.Engine.{Engine, IsStandard, Text, int}
use mulex_fk.Convert.Bytes.{le_bytes, le_value, length-le_bytes, le_value-le_bytes}
use mulex_fk.Convert.Decode.{view_bytes, decode_text, signed_word, unsigned_word}
use mulex_fk.Convert.Numbers.{
  Word, i8, i16, i32, i64, u8, u16, u32, u64, name, Fits, word_bytes, kept, kept_of_Fits,
  word_value, signed_value,
}
use mulex_fk.Convert.Texts.{TextType, s32, s128, s512, text_size, HasNoNul, decode_text-encode}
use mulex_fk.Convert.Unpack.{
  Field, push, read_field, read_word, read_text, read_bytes, number, bigint, text, boolean, bytes,
}

-- An entry: an integer, a text of fixed size, a byte array behind its length, or a Boolean.
pub data Cell : Type 0 where
  word : Word → ℤ → Cell
  fixed : TextType → Text → Cell
  array : List ℕ → Cell
  flag : Bool → Cell

abbrev pub fixed_name : TextType → TypeName
fixed_name s32 = Names.str32
fixed_name s128 = Names.str128
fixed_name s512 = Names.str512

abbrev pub type_of : Cell → TypeName
type_of (word w z) = name w
type_of (fixed s t) = fixed_name s
type_of (array raw) = Names.bytearray
type_of (flag b) = Names.bool

module _ (E : Engine) where
  abbrev pub word_field : Word → ℤ → Field E.Float
  word_field i64 z = bigint z
  word_field u64 z = bigint z
  word_field _ z = number (int z)

  abbrev pub field_of : Cell → Field E.Float
  field_of (word w z) = word_field w z
  field_of (fixed s t) = text t
  field_of (array raw) = bytes raw
  field_of (flag b) = boolean b

  abbrev pub bytes_of : Cell → List ℕ
  bytes_of (word w z) = word_bytes E w z
  bytes_of (fixed s t) = E.encode t ++ (0 ∷ replicate (text_size s - (length (E.encode t) + 1)) 0)
  bytes_of (array raw) = le_bytes 8 (length raw) ++ raw
  bytes_of (flag b) = (if b then 1 else 0) ∷ []

module _ (E : Engine) (std : IsStandard E) where
  -- The entry fits its type.
  abbrev pub IsFit : Cell → Type 0
  IsFit (word w z) = Fits w z
  IsFit (fixed s t) = std.IsWellFormed t × HasNoNul t × (length (E.encode t) + 1 ≤ text_size s)
  IsFit (array raw) = length raw < 256 ^ 8
  IsFit (flag b) = Unit {0}

  -- A window that lies in the middle of the bytes.
  view_bytes_at :
      (size : ℕ) (front window back : List ℕ)
      → length window ≡ size
      → view_bytes size (length front) (front ++ (window ++ back)) ≡ ok window
  unfolding view_bytes
  view_bytes_at size front window back h =
      let long : leb (length front + size) (length (front ++ (window ++ back))) ≡ true =
        ground (arith, length-append front (window ++ back), length-append window back) in
      rw (long, drop-append front (window ++ back))
        (ap ok (take-append_eq size window back (sym h)))

  read_word-at :
      (size : ℕ) (field : List ℕ → Field E.Float) (front window back : List ℕ)
      → length window ≡ size
      → read_word E size field (front ++ (window ++ back)) (length front)
        ≡ ok (push (field window) (length front + length window))
  read_word-at size field front window back h =
      rw (view_bytes_at size front window back h)
        (ap (λ n. ok (push (field window) (length front + n))) (sym h))

  module _ (z : ℤ) (k : ℕ) (field : ℤ → Field E.Float) (front back : List ℕ) (pos_k : 0 < k)
      (pos_m : 0 < 256 ^ k) where
    abbrev window : List ℕ
    window = le_bytes k (to_unsigned (256 ^ k) z)

    signed-at :
        to_signed (256 ^ k) (to_unsigned (256 ^ k) z) ≡ z
        → read_word E k (λ w. field (signed_word w)) (front ++ (window ++ back)) (length front)
          ≡ ok (push (field z) (length front + length window))
    signed-at h =
        read_word-at k (λ w. field (signed_word w)) front window back (length-le_bytes k _)
        ∙ ap (λ v. ok (push (field v) (length front + length window)))
            (signed_value E z k pos_k pos_m ∙ h)

    unsigned-at :
        pos (to_unsigned (256 ^ k) z) ≡ z
        → read_word E k (λ w. field (unsigned_word w)) (front ++ (window ++ back)) (length front)
          ≡ ok (push (field z) (length front + length window))
    unsigned-at h =
        read_word-at k (λ w. field (unsigned_word w)) front window back (length-le_bytes k _)
        ∙ ap (λ v. ok (push (field v) (length front + length window)))
            (ap pos (word_value E z k pos_k pos_m) ∙ h)

  abbrev as_number : ℤ → Field E.Float
  as_number z = number (int z)

  abbrev as_bigint : ℤ → Field E.Float
  as_bigint z = bigint z

  read_field-word :
      (w : Word) (z : ℤ) (front back : List ℕ)
      → kept w z ≡ z
      → read_field E (front ++ (word_bytes E w z ++ back)) (length front) (name w)
        ≡ ok (push (word_field E w z) (length front + length (word_bytes E w z)))
  unfolding read_field word_bytes
  read_field-word i8 z f b h = signed-at z 1 as_number f b (omega arith) (omega arith) h
  read_field-word i16 z f b h = signed-at z 2 as_number f b (omega arith) (omega arith) h
  read_field-word i32 z f b h = signed-at z 4 as_number f b (omega arith) (omega arith) h
  read_field-word i64 z f b h = signed-at z 8 as_bigint f b (omega arith) (omega arith) h
  read_field-word u8 z f b h = unsigned-at z 1 as_number f b (omega arith) (omega arith) h
  read_field-word u16 z f b h = unsigned-at z 2 as_number f b (omega arith) (omega arith) h
  read_field-word u32 z f b h = unsigned-at z 4 as_number f b (omega arith) (omega arith) h
  read_field-word u64 z f b h = unsigned-at z 8 as_bigint f b (omega arith) (omega arith) h

  read_text-at :
      (s : TextType) (t : Text) (front back : List ℕ)
      → std.IsWellFormed t
      → HasNoNul t
      → length (E.encode t) + 1 ≤ text_size s
      → read_text E (text_size s) (front ++ (bytes_of E (fixed s t) ++ back)) (length front)
        ≡ ok (push (text t) (length front + length (bytes_of E (fixed s t))))
  read_text-at s t front back wf h n =
      let zeros : List ℕ = replicate (text_size s - (length (E.encode t) + 1)) 0 in
      let size : text_size s ≡ length (bytes_of E (fixed s t)) =
        omega (arith, length-append (E.encode t) (0 ∷ zeros), length-replicate {A = ℕ}) in
      ap (λ raw. ok (push (text (decode_text E raw)) (length front + text_size s)))
        (drop-append front (bytes_of E (fixed s t) ++ back)
          ∙ append_assoc (E.encode t) (0 ∷ zeros) back)
      ∙ (ap (λ u. ok (push (text u) (length front + text_size s)))
            (decode_text-encode E std t (zeros ++ back) wf h)
          ∙ ap (λ n. ok (push (text t) (length front + n))) size)

  read_bytes-at :
      (raw front back : List ℕ)
      → length raw < 256 ^ 8
      → read_bytes E (front ++ (bytes_of E (array raw) ++ back)) (length front)
        ≡ ok (push (bytes raw) (length front + length (bytes_of E (array raw))))
  read_bytes-at raw front back h =
      let size : List ℕ = le_bytes 8 (length raw) in
      let view : List ℕ = front ++ ((size ++ raw) ++ back) in
      let n : length size ≡ 8 = length-le_bytes 8 (length raw) in
      let first : view_bytes 8 (length front) view ≡ ok size =
        ap (λ v. view_bytes 8 (length front) (front ++ v)) (append_assoc size raw back)
        ∙ view_bytes_at 8 front size (raw ++ back) n in
      let value : le_value size ≡ length raw = le_value-le_bytes 8 (length raw) h in
      let start : length front + 8 ≡ length (front ++ size) =
        omega (arith, length-append front size) in
      let parts : view ≡ (front ++ size) ++ (raw ++ back) =
        ap (λ v. front ++ v) (append_assoc size raw back)
        ∙ sym (append_assoc front size (raw ++ back)) in
      let second : view_bytes (length raw) (length front + 8) view ≡ ok raw =
        rw (start, parts) (view_bytes_at (length raw) (front ++ size) raw back refl) in
      rw (first, value, second)
        (ap (λ m. ok (push (bytes raw) m)) (omega (arith, length-append size raw)))

  pub read_field-cell :
      (cell : Cell) (front back : List ℕ)
      → IsFit cell
      → read_field E (front ++ (bytes_of E cell ++ back)) (length front) (type_of cell)
        ≡ ok (push (field_of E cell) (length front + length (bytes_of E cell)))
  unfolding read_field le_value
  read_field-cell (word w z) front back h = read_field-word w z front back (kept_of_Fits w z h)
  read_field-cell (fixed s32 t) front back (wf, h, n) = read_text-at s32 t front back wf h n
  read_field-cell (fixed s128 t) front back (wf, h, n) = read_text-at s128 t front back wf h n
  read_field-cell (fixed s512 t) front back (wf, h, n) = read_text-at s512 t front back wf h n
  read_field-cell (array raw) front back h = read_bytes-at raw front back h
  read_field-cell (flag true) front back h =
      read_word-at 1 (λ w. boolean (le_value w == 1)) front (1 ∷ []) back refl ∙ refl
  read_field-cell (flag false) front back h =
      read_word-at 1 (λ w. boolean (le_value w == 1)) front (0 ∷ []) back refl ∙ refl

-- ===== src/Convert/Bytes.antt =====
-- Little-endian words, zero-filled arrays, `Uint8Array.set`, and views into a buffer.
use mulex_fk.Prelude.{
  ℕ, zero, suc, ◌+◌, ◌-◌, ◌*◌, ◌/◌, ◌%◌, ◌^◌, ◌<◌, ◌≤◌, ◌≡◌, refl, sym, ap, ◌∙◌, List, [], ◌∷◌,
  ◌++◌, length, take, drop, leb, min, arith, length-append, if◌then◌else◌, take-append_eq,
  drop-append_eq, take_all, drop-drop, true,
}
use mulex_fk.Prelude.Results.{Result, ok, throw, range_error}

-- The bytes of an element of a typed array of that width, on a little-endian machine.
unfoldable pub le_bytes : ℕ → ℕ → List ℕ
le_bytes zero n = []
le_bytes (suc k) n = (n % 256) ∷ le_bytes k (n / 256)

unfoldable pub le_value : List ℕ → ℕ
le_value [] = 0
le_value (b ∷ bs) = b + 256 * le_value bs

-- `target.set(source, offset)`
unfoldable pub set_bytes : List ℕ → List ℕ → ℕ → Result (List ℕ)
set_bytes target source offset =
    if leb (offset + length source) (length target)
    then ok (take offset target ++ (source ++ drop (offset + length source) target))
    else throw range_error

-- A Uint8Array: a window on a buffer that it may share with others.
pub record Uint8Array : Type 0 where
  pub buffer : List ℕ
  pub byte_offset : ℕ
  pub byte_length : ℕ

abbrev pub whole : List ℕ → Uint8Array
whole bytes = record { buffer = bytes; byte_offset = 0; byte_length = length bytes }

-- The bytes that the array shows.
unfoldable pub contents : Uint8Array → List ℕ
contents a = take a.byte_length (drop a.byte_offset a.buffer)

-- `a.subarray(begin)`
unfoldable pub subarray : Uint8Array → ℕ → Uint8Array
subarray a begin = record a {
  byte_offset = a.byte_offset + min begin a.byte_length;
  byte_length = a.byte_length - begin;
}

-- The engine's own invariant: a view lies inside of its buffer.
abbrev pub IsView : Uint8Array → Type 0
IsView a = a.byte_offset + a.byte_length ≤ length a.buffer

pub length-le_bytes : (k n : ℕ) → length (le_bytes k n) ≡ k
unfolding le_bytes
length-le_bytes zero n = refl
length-le_bytes (suc k) n = ap suc (length-le_bytes k (n / 256))

pub le_value-le_bytes : (k n : ℕ) → n < 256 ^ k → le_value (le_bytes k n) ≡ n
unfolding le_value le_bytes
le_value-le_bytes zero n h = omega arith
le_value-le_bytes (suc k) n h = omega (arith, le_value-le_bytes k (n / 256) (omega arith))

-- A write that fits replaces the bytes at its place and keeps the others.
pub set_bytes_fits :
    (front old back source : List ℕ) (offset : ℕ)
    → offset ≡ length front
    → length old ≡ length source
    → set_bytes (front ++ (old ++ back)) source offset ≡ ok (front ++ (source ++ back))
unfolding set_bytes
set_bytes_fits front old back source offset e k =
    let fits : leb (offset + length source) (length (front ++ (old ++ back))) ≡ true =
      ground (arith, length-append front (old ++ back), length-append old back) in
    let before : take offset (front ++ (old ++ back)) ≡ front = take-append_eq offset front _ e in
    let after : drop (offset + length source) (front ++ (old ++ back)) ≡ back = drop_after in
    rw (fits, before, after)
  where
    drop_after : drop (offset + length source) (front ++ (old ++ back)) ≡ back
    drop_after =
        sym (drop-drop (length source) offset (front ++ (old ++ back)))
        ∙ ap (drop (length source)) (drop-append_eq offset front (old ++ back) e)
        ∙ drop-append_eq (length source) old back (sym k)

-- The same, for a target that is written another way.
pub set_bytes_at :
    (target front old back source : List ℕ) (offset : ℕ)
    → target ≡ front ++ (old ++ back)
    → offset ≡ length front
    → length old ≡ length source
    → set_bytes target source offset ≡ ok (front ++ (source ++ back))
set_bytes_at target front old back source offset t e k =
    rw t (set_bytes_fits front old back source offset e k)

pub contents-whole : (bytes : List ℕ) → contents (whole bytes) ≡ bytes
unfolding contents
contents-whole bytes = take_all (length bytes) bytes (omega arith)

-- ===== src/Convert/Framing.antt =====
-- convert.ts: where astype finds the bytes that fromValue, makeData or the wire have put in place.
use mulex_fk.Prelude.{
  ℕ, ◌+◌, ◌-◌, ◌/◌, ◌%◌, ◌<◌, ◌≡◌, refl, sym, ap, List, [], ◌∷◌, ◌++◌, arith, length, length-append,
  length-drop, drop, take_all, drop-append_eq, leb, ltb, ◌==◌, true, false,
}
use mulex_fk.Prelude.Results.{ok}
use mulex_fk.Convert.Names.{TypeName, Intype, native, generic, no_response}
use mulex_fk.Convert.Engine.{Engine}
use mulex_fk.Convert.Bytes.{whole, le_bytes, length-le_bytes}
use mulex_fk.Convert.Encode.{MxGenericType, wrap}
use mulex_fk.Convert.Sized.{wrap_generic}
use mulex_fk.Convert.Decode.{astype, size_offset, read_as, typed_array, view_bytes, elements}

-- astype reads `raw` from some offset into some buffer: behind no size, or behind one of 8 bytes,
-- which is a multiple of the size of every word.
pub record Reads (E : Engine) (m : MxGenericType) (raw : List ℕ) : Type 0 where
  pub offset : ℕ
  pub buffer : List ℕ
  pub placed : offset % 8 ≡ 0
  pub rest : drop offset buffer ≡ raw
  pub reads : (t : TypeName) → astype E m t ≡ read_as E t offset buffer

Reads-plain :
    (E : Engine) (raw : List ℕ) (intype : Intype)
    → 0 < length raw
    → size_offset (record { bytes = whole raw; intype = intype }) ≡ 0
    → Reads E (record { bytes = whole raw; intype = intype }) raw
unfolding astype
Reads-plain E raw intype h p = record {
  offset = 0;
  buffer = raw;
  placed = refl;
  rest = refl;
  reads = λ t. let full : (length raw == 0) ≡ false = ground arith in rw (full, p);
}

pub wrap-Reads :
    (E : Engine) (raw : List ℕ) (intype : Intype)
    → 0 < length raw
    → (m : MxGenericType) × (wrap raw intype ≡ ok m) × Reads E m raw
unfolding wrap astype read_as
wrap-Reads E raw native h = (_, refl, Reads-plain E raw native h refl)
wrap-Reads E raw no_response h = (_, refl, Reads-plain E raw no_response h refl)
wrap-Reads E raw generic h = (
  record { bytes = whole (le_bytes 8 (length raw) ++ raw); intype = generic },
  wrap_generic raw,
  record {
    offset = 8;
    buffer = le_bytes 8 (length raw) ++ raw;
    placed = refl;
    rest = drop-append_eq 8 (le_bytes 8 (length raw)) raw (sym (length-le_bytes 8 (length raw)));
    reads = λ t.
        let n : length (le_bytes 8 (length raw) ++ raw) ≡ 8 + length raw =
          omega
            (arith, length-append (le_bytes 8 (length raw)) raw, length-le_bytes 8 (length raw)) in
        let full : (8 + length raw == 0) ≡ false = ground arith in
        let more : ltb 8 (8 + length raw) ≡ true = ground arith in rw (n, full, more);
  },
)

-- A typed array over one element's bytes has one element.
pub typed_array_one :
    (k offset : ℕ) (buffer raw : List ℕ)
    → 0 < k
    → offset % k ≡ 0
    → drop offset buffer ≡ raw
    → length raw ≡ k
    → typed_array k offset buffer ≡ ok (raw ∷ [])
unfolding typed_array elements
typed_array_one k offset buffer raw pos aligned e n =
    let left : length buffer - offset ≡ k = omega (arith, length-drop offset buffer, ap length e) in
    let no_rest : k % k ≡ 0 = grind arith in
    let one : k / k ≡ 1 = grind arith in
    rw (left, aligned, no_rest, one, e, take_all k raw (omega arith))

pub view_bytes_all : (raw : List ℕ) (k : ℕ) → length raw ≡ k → view_bytes k 0 raw ≡ ok raw
unfolding view_bytes
view_bytes_all raw k e =
    let fits : leb (0 + k) (length raw) ≡ true = ground arith in
    rw (fits, take_all k raw (omega arith))

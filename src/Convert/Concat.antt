-- ===== src/Convert/Concat.antt =====
-- convert.ts: concatData against the payloads of its arguments.
use mulex_fk.Prelude.{
  ℕ, ◌+◌, ◌≡◌, refl, ap, List, [], ◌∷◌, ◌++◌, arith, length, All, length-append, length-replicate,
  replicate, replicate-append, append-nil, append_assoc, map, length-take, length-drop, drop,
}
use mathlib.Core.List.{flatten}
use mulex_fk.Prelude.Results.{ok}
use mulex_fk.Convert.Bytes.{Uint8Array, contents, set_bytes_at, IsView}
use mulex_fk.Convert.Encode.{MxGenericType, concat_data, total_length, copy_all}

abbrev pub payload : MxGenericType → List ℕ
payload x = contents x.bytes

length-contents : (a : Uint8Array) → IsView a → length (contents a) ≡ a.byte_length
unfolding contents
length-contents a h = omega (
  arith,
  length-take a.byte_length (drop a.byte_offset a.buffer),
  length-drop a.byte_offset a.buffer,
)

total_length_lem :
    (sum : ℕ) (args : List MxGenericType)
    → All (λ x. IsView x.bytes) args
    → total_length sum args ≡ sum + length (flatten (map payload args))
unfolding total_length flatten
total_length_lem sum [] h = omega arith
total_length_lem sum (x ∷ args) h = omega (
  arith,
  total_length_lem (sum + x.bytes.byte_length) args h.1,
  length-contents x.bytes h.0,
  length-append (payload x) (flatten (map payload args)),
)

-- The copying loop, with `front` written and the rest still zero.
copy_all_lem :
    (args : List MxGenericType) (front : List ℕ) (offset : ℕ)
    → All (λ x. IsView x.bytes) args
    → offset ≡ length front
    → copy_all (front ++ replicate (length (flatten (map payload args))) 0) offset args
      ≡ ok (front ++ flatten (map payload args))
unfolding copy_all flatten
copy_all_lem [] front offset h e = refl
copy_all_lem (x ∷ args) front offset h e =
    let rest = flatten (map payload args) in
    let zeros : replicate (length (payload x ++ rest)) 0
        ≡ replicate (length (payload x)) 0 ++ replicate (length rest) 0 =
      replicate-append _ (length (payload x)) (length rest) 0 (length-append (payload x) rest) in
    let written =
      set_bytes_at (front ++ replicate (length (payload x ++ rest)) 0) front
        (replicate (length (payload x)) 0) (replicate (length rest) 0) (payload x) offset
        (ap (λ t. front ++ t) zeros) e (length-replicate (length (payload x)) 0) in
    let next =
      copy_all_lem args (front ++ payload x) (offset + x.bytes.byte_length) h.1
        (omega (arith, length-append front (payload x), length-contents x.bytes h.0)) in
    rw (written, ← append_assoc, next) (ap ok (append_assoc front (payload x) rest))

concat_loop :
    (args : List MxGenericType)
    → All (λ x. IsView x.bytes) args
    → copy_all (replicate (total_length 0 args) 0) 0 args ≡ ok (flatten (map payload args))
concat_loop args h =
    let size : total_length 0 args ≡ length (flatten (map payload args)) =
      omega (arith, total_length_lem 0 args h) in
    rw size (copy_all_lem args [] 0 h refl)

-- concatData gives the contents of its arguments in order, whatever their number, if each of them lies
-- inside of its buffer.
pub concat_data-flatten :
    (args : List MxGenericType)
    → All (λ x. IsView x.bytes) args
    → concat_data args ≡ ok (flatten (map payload args))
unfolding concat_data flatten
concat_data-flatten [] h = refl
concat_data-flatten (x ∷ []) h = rw append-nil
concat_data-flatten (x ∷ y ∷ args) h = concat_loop (x ∷ y ∷ args) h

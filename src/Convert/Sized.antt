-- ===== src/Convert/Sized.antt =====
-- convert.ts: what the size in front of a 'generic' value looks like, and how many bytes each type
-- takes.
use mulex_fk.Prelude.{
  ℕ, ◌^◌, ◌+◌, ◌≡◌, refl, sym, ap, some, List, [], ◌++◌, arith, length, length-append, length-take,
  length-drop, leb→le, length-replicate, replicate, replicate-append, append-nil, inl, inr,
  Bool-cases, leb, drop, take,
}
use mulex_fk.Prelude.Int.{to_unsigned}
use mulex_fk.Prelude.Results.{Result, ok, throw, ◌>>=◌}
use mulex_fk.Convert.Names.{
  TypeName, int8, int16, int32, int64, uint8, uint16, uint32, uint64, float32, float64, bool,
  string32, generic, size_from_type,
}
use mulex_fk.Convert.Engine.{Engine, IsStandard, Value}
use mulex_fk.Convert.Bytes.{whole, le_bytes, set_bytes, length-le_bytes, set_bytes_at}
use mulex_fk.Convert.Encode.{with_size, wrap, value_bytes, to_number, to_bigint, number_integer}

-- The size in eight bytes, then the bytes.
pub with_size_lem : (raw : List ℕ) → with_size raw ≡ ok (le_bytes 8 (length raw) ++ raw)
unfolding with_size
with_size_lem raw =
    let n = length raw in
    let zeros : replicate (n + 8) 0 ≡ replicate 8 0 ++ replicate n 0 =
      replicate-append (n + 8) 8 n 0 (omega arith) in
    let first =
      set_bytes_at (replicate (n + 8) 0) [] (replicate 8 0) (replicate n 0) (le_bytes 8 n) 0 zeros
        refl (sym (length-le_bytes 8 n)) in
    let second =
      set_bytes_at (le_bytes 8 n ++ replicate n 0) (le_bytes 8 n) (replicate n 0) [] raw 8
        (ap (λ t. le_bytes 8 n ++ t) (sym (append-nil (replicate n 0)))) (sym (length-le_bytes 8 n))
        (length-replicate n 0) in
    rw (first, second, append-nil)

-- makeData and fromValue put the size in front of the bytes exactly when asked for 'generic'.
pub wrap_generic :
    (raw : List ℕ)
    → wrap raw generic
      ≡ ok (record { bytes = whole (le_bytes 8 (length raw) ++ raw); intype = generic })
unfolding wrap
wrap_generic raw = rw (with_size_lem raw)

length-set_bytes :
    (target source : List ℕ) (offset : ℕ) {raw : List ℕ}
    → set_bytes target source offset ≡ ok raw
    → length raw ≡ length target
unfolding set_bytes
length-set_bytes target source offset {raw} e =
    elim (Bool-cases (leb (offset + length source) (length target))) [
      | inl fits ↦
          let parts = take offset target ++ (source ++ drop (offset + length source) target) in
          let same : parts ≡ raw = cc (rw fits at e) in
          rw (← same) (
            omega (
              arith,
              leb→le _ _ fits,
              length-append (take offset target) (source ++ drop (offset + length source) target),
              length-append source (drop (offset + length source) target),
              length-take offset target,
              length-drop (offset + length source) target,
            ))
      | inr wide ↦ cc (rw wide at e)
    ]

length-bind {ℓ} :
    {A : Type ℓ} (m : Result A) (f : A → List ℕ) (k : ℕ) {raw : List ℕ}
    → ((a : A) → length (f a) ≡ k)
    → (m >>= λ a. ok (f a)) ≡ ok raw
    → length raw ≡ k
length-bind (ok a) f k {raw} h e = let same : f a ≡ raw = cc e in rw (← same) (h a)
length-bind (throw x) f k h e = cc

some_eq : (m n l : ℕ) → some m ≡ some n → l ≡ m → l ≡ n
some_eq m n l s e = ground arith

module _ (E : Engine) (std : IsStandard E) (v : Value E.Float) where
  length-int :
      (k : ℕ) {raw : List ℕ}
      → (to_number E v >>= λ n. ok (le_bytes k (to_unsigned (256 ^ k) (number_integer E n))))
        ≡ ok raw
      → length raw ≡ k
  length-int k e = length-bind (to_number E v) _ k (λ n. length-le_bytes k _) e

  length-big :
      {raw : List ℕ}
      → (to_bigint E v >>= λ z. ok (le_bytes 8 (to_unsigned (256 ^ 8) z))) ≡ ok raw
      → length raw ≡ 8
  length-big e = length-bind (to_bigint E v) _ 8 (λ n. length-le_bytes 8 _) e

  -- Whatever value is given for a type of known size, if it is accepted it takes that many
  -- bytes (on an engine whose floats take 4 and 8).
  pub length-value_bytes :
      (t : TypeName) (n : ℕ) {raw : List ℕ}
      → size_from_type t ≡ some n
      → value_bytes E v t ≡ ok raw
      → length raw ≡ n
  unfolding value_bytes size_from_type
  length-value_bytes int8 n s e = some_eq 1 n _ s (length-int 1 e)
  length-value_bytes int16 n s e = some_eq 2 n _ s (length-int 2 e)
  length-value_bytes int32 n s e = some_eq 4 n _ s (length-int 4 e)
  length-value_bytes int64 n s e = some_eq 8 n _ s (length-big e)
  length-value_bytes uint8 n s e = some_eq 1 n _ s (length-int 1 e)
  length-value_bytes uint16 n s e = some_eq 2 n _ s (length-int 2 e)
  length-value_bytes uint32 n s e = some_eq 4 n _ s (length-int 4 e)
  length-value_bytes uint64 n s e = some_eq 8 n _ s (length-big e)
  length-value_bytes float32 n s e =
      some_eq 4 n _ s (length-bind (to_number E v) E.put_f32 4 std.length-put_f32 e)
  length-value_bytes float64 n s e =
      some_eq 8 n _ s (length-bind (to_number E v) E.put_f64 8 std.length-put_f64 e)
  length-value_bytes string32 n s e = some_eq 32 n _ s (length-set_bytes (replicate 32 0) _ 0 e)
  length-value_bytes bool n s e = some_eq 1 n _ s (length-set_bytes (replicate 1 0) _ 0 e)
  length-value_bytes _ n s e = cc

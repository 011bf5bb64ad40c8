-- ===== src/Convert/Texts.antt =====
-- convert.ts: texts of fixed size, written by fromValue and read by astype.
use mulex_fk.Prelude.{
  ℕ, ◌+◌, ◌-◌, ◌≤◌, ◌<◌, ◌≡◌, ◌≢◌, refl, ap, ◌∙◌, List, [], ◌∷◌, ◌++◌, arith, length, All,
  length-append, length-replicate, replicate, replicate-append, drop, append_assoc, leb, false,
  ◌==◌,
}
use mulex_fk.Prelude.Results.{ok, throw, range_error}
use mulex_fk.Convert.Names
use mulex_fk.Convert.Names.{TypeName, Intype}
use mulex_fk.Convert.Engine
use mulex_fk.Convert.Engine.{Engine, IsStandard, Text}
use mulex_fk.Convert.Bytes.{set_bytes, set_bytes_at}
use mulex_fk.Convert.Encode.{MxGenericType, from_value, value_bytes}
use mulex_fk.Convert.Decode.{text, astype, read_as, cut_nul, decode_text}
use mulex_fk.Convert.Framing.{wrap-Reads}

-- The text types of fixed size.
pub data TextType : Type 0 where
  s32 s128 s512 : TextType

abbrev pub text_name : TextType → TypeName
text_name s32 = Names.string32
text_name s128 = Names.string128
text_name s512 = Names.string512

abbrev pub text_size : TextType → ℕ
text_size s32 = 32
text_size s128 = 128
text_size s512 = 512

abbrev pub HasNoNul : Text → Type 0
HasNoNul t = All (λ c. c ≢ 0) t

-- What stands before the first NUL is the text, if it holds none itself.
pub cut_nul-append : (t more : Text) → HasNoNul t → cut_nul (t ++ (0 ∷ more)) ≡ t
unfolding cut_nul
cut_nul-append [] more h = refl
cut_nul-append (c ∷ t) more (ne, h) =
    let apart : (c == 0) ≡ false = ground arith in rw (apart, cut_nul-append t more h)

-- The write of a text with its NUL into an array of zeros.
write_text :
    (size : ℕ) (encoded : List ℕ)
    → length encoded + 1 ≤ size
    → set_bytes (replicate size 0) (encoded ++ (0 ∷ [])) 0
      ≡ ok (encoded ++ (0 ∷ replicate (size - (length encoded + 1)) 0))
write_text size encoded h =
    let source = encoded ++ (0 ∷ []) in
    let n : length source ≡ length encoded + 1 = omega (arith, length-append encoded (0 ∷ [])) in
    let back : List ℕ = replicate (size - (length encoded + 1)) 0 in
    let zeros : replicate size 0 ≡ replicate (length source) 0 ++ back =
      replicate-append size (length source) (size - (length encoded + 1)) 0 (omega arith) in
    set_bytes_at (replicate size 0) [] (replicate (length source) 0) back source 0 zeros refl
      (length-replicate (length source) 0)
    ∙ ap ok (append_assoc encoded (0 ∷ []) back)

write_text_long :
    (size : ℕ) (source : List ℕ)
    → size < length source
    → set_bytes (replicate size 0) source 0 ≡ throw range_error
unfolding set_bytes
write_text_long size source h =
    let wide : leb (0 + length source) (length {A = ℕ} (replicate size 0)) ≡ false =
      ground (arith, length-replicate {A = ℕ} size 0) in
    rw wide

module _ (E : Engine) (std : IsStandard E) where
  text_bytes : TextType → Text → List ℕ
  text_bytes s t = E.encode t ++ (0 ∷ replicate (text_size s - (length (E.encode t) + 1)) 0)

  value_bytes_text :
      (s : TextType) (t : Text)
      → length (E.encode t) + 1 ≤ text_size s
      → value_bytes E (Engine.text t) (text_name s) ≡ ok (text_bytes s t)
  unfolding value_bytes text_bytes
  value_bytes_text s32 t h = rw (std.encode-nul t) (write_text 32 (E.encode t) h)
  value_bytes_text s128 t h = rw (std.encode-nul t) (write_text 128 (E.encode t) h)
  value_bytes_text s512 t h = rw (std.encode-nul t) (write_text 512 (E.encode t) h)

  -- Whatever follows the NUL, the text is read back.
  pub decode_text-encode :
      (t : Text) (rest : List ℕ)
      → std.IsWellFormed t
      → HasNoNul t
      → decode_text E (E.encode t ++ (0 ∷ rest)) ≡ t
  decode_text-encode t rest w h =
      let (more, e) = std.decode-encode t rest w in rw e (cut_nul-append t more h)

  text_bytes_full : (s : TextType) (t : Text) → 0 < length (text_bytes s t)
  unfolding text_bytes
  text_bytes_full s t = omega (
    arith,
    length-append (E.encode t) (0 ∷ replicate (text_size s - (length (E.encode t) + 1)) 0),
  )

  read_text :
      (s : TextType) (t : Text) (offset : ℕ) (buffer : List ℕ)
      → std.IsWellFormed t
      → HasNoNul t
      → drop offset buffer ≡ text_bytes s t
      → read_as E Names.string offset buffer ≡ ok (text t)
  unfolding read_as text_bytes
  read_text s t offset buffer w h r =
      ap (λ b. ok (text (decode_text E b))) r ∙ ap (λ b. ok (text b)) (decode_text-encode t _ w h)

  -- A well-formed text with no NUL that leaves room for one comes back from any of the text types,
  -- with or without a size in front.
  pub astype-from_value_text :
      (s : TextType) (t : Text) (intype : Intype)
      → std.IsWellFormed t
      → HasNoNul t
      → length (E.encode t) + 1 ≤ text_size s
      → (m : MxGenericType) × (from_value E (Engine.text t) (text_name s) intype ≡ ok m)
        × (astype E m Names.string ≡ ok (text t))
  unfolding from_value
  astype-from_value_text s t intype w h fits =
      let full = text_bytes_full s t in
      let (m, made, r) = wrap-Reads E (text_bytes s t) intype full in
      (
        m,
        rw (value_bytes_text s t fits) made,
        r.reads Names.string ∙ read_text s t r.offset r.buffer w h r.rest,
      )

  long :
      (size : ℕ) (t : Text)
      → size < length (E.encode t) + 1
      → size < length (E.encode (t ++ (0 ∷ [])))
  long size t h = rw (std.encode-nul t) (omega (arith, length-append (E.encode t) (0 ∷ [])))

  value_bytes_text_long :
      (s : TextType) (t : Text)
      → text_size s < length (E.encode t) + 1
      → value_bytes E (Engine.text t) (text_name s) ≡ throw range_error
  unfolding value_bytes
  value_bytes_text_long s32 t h = write_text_long 32 _ (long 32 t h)
  value_bytes_text_long s128 t h = write_text_long 128 _ (long 128 t h)
  value_bytes_text_long s512 t h = write_text_long 512 _ (long 512 t h)

  -- A text that leaves no room for its NUL is refused with a RangeError, never cut.
  pub from_value-text_long :
      (s : TextType) (t : Text) (intype : Intype)
      → text_size s < length (E.encode t) + 1
      → from_value E (Engine.text t) (text_name s) intype ≡ throw range_error
  unfolding from_value
  from_value-text_long s t intype h = rw (value_bytes_text_long s t h)

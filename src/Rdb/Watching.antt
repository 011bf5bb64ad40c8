-- ===== src/Rdb/Watching.antt =====
-- rdb.ts: the frames that a watched key's event brings, as the callback of watch takes them apart.
use mulex_fk.Prelude.{
  min, ℕ, ◌+◌, ◌-◌, ◌≤◌, ◌<◌, ◌≡◌, refl, sym, ap, ◌∙◌, List, ◌∷◌, ◌++◌, arith, length,
  length-append, length-replicate, replicate, drop, drop-append_eq, append_assoc, ltb, ◌==◌, true,
  false,
}
use mulex_fk.Prelude.Int.{ℤ}
use mulex_fk.Prelude.Results.{Result, ok, ◌>>=◌}
use mulex_fk.Convert.Names
use mulex_fk.Convert.Names.{TypeName, native, generic}
use mulex_fk.Convert.Engine.{Engine, IsStandard, Text}
use mulex_fk.Convert.Bytes.{Uint8Array, whole, subarray, le_bytes, length-le_bytes}
use mulex_fk.Convert.Encode.{MxGenericType, from_data}
use mulex_fk.Convert.Decode.{Output, text, astype, read_as, decode_text}
use mulex_fk.Convert.Texts.{HasNoNul, decode_text-encode}
use mulex_fk.Convert.Numbers.{
  word_bytes_full, Word, name, Fits, read_back, word_bytes, read_as_word, kept_of_Fits,
}

-- What the program's callback is given: the key, and the value.
pub record Notice (E : Engine) : Type 0 where
  pub skey : Output E.Float
  pub svalue : MxGenericType

unfoldable pub notice : (E : Engine) → Uint8Array → Result (Notice E)
notice E view = do
  skey ← astype E (from_data view native) Names.string
  ok (record { skey = skey; svalue = from_data (subarray view 512) generic })

-- A frame as the server lays it out: the key and its NUL in 512 bytes, the size of the value, its bytes.
abbrev pub key_part : List ℕ → List ℕ
key_part encoded = encoded ++ (0 ∷ replicate (512 - (length encoded + 1)) 0)

abbrev pub frame : List ℕ → List ℕ → List ℕ
frame encoded raw = key_part encoded ++ (le_bytes 8 (length raw) ++ raw)

module _ (encoded raw : List ℕ) (fits : length encoded + 1 ≤ 512) where
  length-key_part : length (key_part encoded) ≡ 512
  length-key_part = omega (
    arith,
    length-append encoded (0 ∷ replicate (512 - (length encoded + 1)) 0),
    length-replicate {A = ℕ} (512 - (length encoded + 1)) 0,
  )

  length-frame : length (frame encoded raw) ≡ 520 + length raw
  length-frame = omega (
    arith,
    length-key_part,
    length-append (key_part encoded) (le_bytes 8 (length raw) ++ raw),
    length-append (le_bytes 8 (length raw)) raw,
    length-le_bytes 8 (length raw),
  )

  drop-frame : drop 520 (frame encoded raw) ≡ raw
  drop-frame =
      ap (drop 520) (sym (append_assoc (key_part encoded) (le_bytes 8 (length raw)) raw))
      ∙ drop-append_eq 520 (key_part encoded ++ le_bytes 8 (length raw)) raw (
          omega (
            arith,
            length-key_part,
            length-append (key_part encoded) (le_bytes 8 (length raw)),
            length-le_bytes 8 (length raw),
          ))

astype-svalue :
    (E : Engine) (t : TypeName) (bytes : List ℕ)
    → 520 < length bytes
    → astype E (from_data (subarray (whole bytes) 512) generic) t ≡ read_as E t 520 bytes
unfolding astype subarray
astype-svalue E t bytes h =
    let some_bytes : (length bytes - 512 == 0) ≡ false = ground arith in
    let more : ltb 8 (length bytes - 512) ≡ true = ground arith in
    let place : 8 + (0 + min 512 (length bytes)) ≡ 520 = omega arith in
    rw (some_bytes, more, place) refl

astype-skey :
    (E : Engine) (bytes : List ℕ)
    → 0 < length bytes
    → astype E (from_data (whole bytes) native) Names.string ≡ ok (text (decode_text E bytes))
unfolding astype read_as
astype-skey E bytes h =
    let some_bytes : (length bytes == 0) ≡ false = ground arith in rw some_bytes refl

module _ (E : Engine) (std : IsStandard E) where
  -- A frame that the server lays out for a key and an integer reaches the callback of watch as that key
  -- and as a value that astype reads as that integer: for a well-formed key without NUL that leaves
  -- room for one in 512 bytes, and an integer that fits its type.
  pub notice-frame :
      (key : Text) (v : Word) (z : ℤ)
      → std.IsWellFormed key
      → HasNoNul key
      → length (E.encode key) + 1 ≤ 512
      → Fits v z
      → (m : MxGenericType) × (notice E (whole (frame (E.encode key) (word_bytes E v z)))
          ≡ ok (record { skey = text key; svalue = m }))
        × (astype E m (name v) ≡ ok (read_back E v z))
  unfolding notice
  notice-frame key v z formed plain fits in_range =
      let raw = word_bytes E v z in
      let bytes = frame (E.encode key) raw in
      let long : 520 < length bytes =
        omega (arith, length-frame (E.encode key) raw fits, word_bytes_full E v z) in
      let rest =
        replicate (512 - (length (E.encode key) + 1)) 0 ++ (le_bytes 8 (length raw) ++ raw) in
      let laid : bytes ≡ E.encode key ++ (0 ∷ rest) = append_assoc (E.encode key) _ _ in
      let named : decode_text E bytes ≡ key =
        ap (decode_text E) laid ∙ decode_text-encode E std key rest formed plain in
      let key_seen : astype E (from_data (whole bytes) native) Names.string ≡ ok (text key) =
        astype-skey E bytes (omega arith) ∙ ap (λ k. ok (text k)) named in
      (
        from_data (subarray (whole bytes) 512) generic,
        rw key_seen refl,
        astype-svalue E (name v) bytes long
            ∙ read_as_word E v z 520 bytes refl (drop-frame (E.encode key) raw fits)
            ∙ ap (λ y. ok (read_back E v y)) (kept_of_Fits v z in_range),
      )

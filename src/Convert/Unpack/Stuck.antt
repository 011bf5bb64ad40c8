-- ===== src/Convert/Unpack/Stuck.antt =====
-- convert.ts: values on which the loop of unpack stays where it is.
use mulex_fk.Prelude.{
  ℕ, zero, suc, ◌+◌, ◌<◌, ◌≡◌, refl, ap, ◌∙◌, some, List, [], ◌∷◌, arith, drop, lt→ltb, All,
}
use mulex_fk.Prelude.Results.{ok}
use mulex_fk.Convert.Names.{TypeName, cstr}
use mulex_fk.Convert.Engine.{Engine}
use mulex_fk.Convert.Encode.{MxGenericType}
use mulex_fk.Convert.Decode.{size_offset, decode_text}
use mulex_fk.Convert.Unpack.{stay, running, read_cstr, read_field, read_row, unpack_loop, unpack}
use mulex_fk.Convert.Unpack.Ending.{unpack_loop_step, unpack_full}

module _ (E : Engine) where
  cstr_stays :
      (view : List ℕ) (pos : ℕ)
      → decode_text E (drop pos view) ≡ []
      → read_field E view pos cstr ≡ ok stay
  unfolding read_field
  cstr_stays view pos e = ap (λ t. ok (read_cstr E t pos)) e

  read_row_stay :
      (view : List ℕ) (pos : ℕ) (t : TypeName) (s : List TypeName)
      → read_field E view pos t ≡ ok stay
      → read_row E view pos (t ∷ s) ≡ read_row E view pos s
  unfolding read_row
  read_row_stay view pos t s e = rw (e, read_row)

  cstr_row :
      (view : List ℕ) (pos : ℕ) (s : List TypeName)
      → All (λ t. t ≡ cstr) s
      → decode_text E (drop pos view) ≡ []
      → read_row E view pos s ≡ ok (some ([], pos))
  cstr_row view pos [] h e = unfold read_row in refl
  cstr_row view pos (t ∷ s) (same, h) e =
      read_row_stay view pos t s (rw same (cstr_stays view pos e)) ∙ cstr_row view pos s h e

  cstr_loop :
      (fuel limit : ℕ) (view : List ℕ) (s : List TypeName) (pos : ℕ)
      → All (λ t. t ≡ cstr) s
      → decode_text E (drop pos view) ≡ []
      → pos < limit
      → unpack_loop E fuel limit view s pos ≡ running
  cstr_loop zero limit view s pos h e lt = unfold unpack_loop in refl
  cstr_loop (suc fuel) limit view s pos h e lt = rw (
    unpack_loop_step E fuel limit view s pos (lt→ltb pos limit lt),
    cstr_row view pos s h e,
    cstr_loop fuel limit view s pos h e lt,
  )

  -- On a structure of nothing but 'cstr' (or of nothing), a value that goes on behind its offset and
  -- whose text there is empty keeps the loop in place: it takes up any fuel.
  pub unpack-cstr_running :
      (fuel : ℕ) (m : MxGenericType) (s : List TypeName)
      → All (λ t. t ≡ cstr) s
      → size_offset m + m.bytes.byte_offset < m.bytes.byte_length
      → decode_text E (drop (size_offset m + m.bytes.byte_offset) m.bytes.buffer) ≡ []
      → unpack E fuel m s ≡ running
  unpack-cstr_running fuel m s h lt e =
      rw (unpack_full E fuel m s (omega arith)) (cstr_loop fuel _ _ s 0 h e (omega arith))

-- ===== src/Tests/Wire.antt =====
-- convert.ts on concrete values.
use mulex_fk.Prelude.{◌≡◌, ◌≢◌, refl, [], ◌∷◌, ◌++◌, arith}
use mulex_fk.Prelude.Int.{negsuc, pos, to_unsigned}
use mulex_fk.Prelude.Results.{ok}
use mulex_fk.Convert.Names
use mulex_fk.Convert.Names.{generic, native, size_from_type, type_from_typeid, typeid_from_type}
use mulex_fk.Convert.Engine
use mulex_fk.Convert.Engine.{int, Text}
use mulex_fk.Convert.Bytes.{whole}
use mulex_fk.Convert.Encode.{MxGenericType, from_value}
use mulex_fk.Convert.Decode.{cut_nul, astype, bigint, number, text}
use mulex_fk.Convert.Numbers.{i64, u8, astype-from_value, astype-from_value_word}
use mulex_fk.Convert.Texts.{s32, astype-from_value_text}
use mulex_fk.Convert.Unpack.{unpack, running}
use mulex_fk.Convert.Unpack.Ending.{unpack-ne-running}
use mulex_fk.Convert.Unpack.Stuck.{unpack-cstr_running}
use mulex_fk.Tests.Engines.{ascii, ascii_std}

astype-from_value_example :
    (m : MxGenericType) × (from_value ascii (Engine.number (int (negsuc 1))) Names.int64 generic
      ≡ ok m)
    × (astype ascii m Names.int64 ≡ ok (bigint (negsuc 1)))
astype-from_value_example = astype-from_value ascii i64 (negsuc 1) generic (omega arith)

-- 300 as a byte
astype-from_value_word_example :
    (m : MxGenericType) × (from_value ascii (Engine.number (int (pos 300))) Names.uint8 native
      ≡ ok m)
    × (astype ascii m Names.uint8 ≡ ok (number (int (pos 44))))
unfolding to_unsigned
astype-from_value_word_example = astype-from_value_word ascii u8 (pos 300) native

abbrev run_name : Text
run_name = 114 ∷ 117 ∷ 110 ∷ []

astype-from_value_text_example :
    (m : MxGenericType) × (from_value ascii (Engine.text run_name) Names.string32 generic ≡ ok m)
    × (astype ascii m Names.string ≡ ok (text run_name))
astype-from_value_text_example =
    astype-from_value_text ascii ascii_std s32 run_name generic tt
      ((λ e. cc), ((λ e. cc), ((λ e. cc), tt))) (omega arith)

abbrev long_name : Text
long_name = let t = run_name ++ run_name ++ run_name ++ run_name in t ++ t ++ t

abbrev one_byte : MxGenericType
one_byte = record { bytes = whole (7 ∷ []); intype = native }

-- The middle of a buffer of four bytes.
abbrev middle : MxGenericType
middle = record {
  bytes = record { buffer = 1 ∷ 2 ∷ 3 ∷ 4 ∷ []; byte_offset = 1; byte_length = 2 };
  intype = native;
}

unpack-ne-running_example : unpack ascii 2 one_byte (Names.uint8 ∷ []) ≢ running
unpack-ne-running_example = unpack-ne-running ascii 2 one_byte (Names.uint8 ∷ []) tt (omega arith)

abbrev nul : MxGenericType
nul = record { bytes = whole (0 ∷ []); intype = native }

unpack-cstr_running_example : unpack ascii 100 nul (Names.cstr ∷ []) ≡ running
unfolding cut_nul
unpack-cstr_running_example =
    unpack-cstr_running ascii 100 nul (Names.cstr ∷ []) (refl, tt) (omega arith) refl

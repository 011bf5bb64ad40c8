-- ===== src/Tests/Engines.antt =====
-- An engine for runs on concrete inputs: texts of ASCII characters, and no numbers but integers.
use mulex_fk.Prelude.{ℕ, refl, none, false, List, [], ◌∷◌}
use mulex_fk.Prelude.Int.{pos}
use mulex_fk.Convert.Engine.{Engine, IsStandard, int}

abbrev zeros_4 : List ℕ
zeros_4 = 0 ∷ 0 ∷ 0 ∷ 0 ∷ []

abbrev zeros_8 : List ℕ
zeros_8 = 0 ∷ 0 ∷ 0 ∷ 0 ∷ zeros_4

abbrev pub ascii : Engine
ascii = record {
  Float = Unit;
  encode = λ t. t;
  decode = λ bs. bs;
  number_text = λ n. [];
  bigint_text = λ z. [];
  text_number = λ t. int (pos 0);
  text_bigint = λ t. none;
  truncate = λ x. pos 0;
  real_bigint = λ x. none;
  real_truthy = λ x. false;
  nan = tt;
  bigint_number = λ z. int z;
  put_f32 = λ n. zeros_4;
  put_f64 = λ n. zeros_8;
  get_f32 = λ bs. int (pos 0);
  get_f64 = λ bs. int (pos 0);
}

abbrev pub ascii_std : IsStandard ascii
ascii_std = record {
  IsWellFormed = λ t. Unit;
  encode-nul = λ t. refl;
  decode-encode = λ t rest w. (rest, refl);
  length-put_f32 = λ n. refl;
  length-put_f64 = λ n. refl;
}

-- ===== src/Prelude/Literals.antt =====
-- The literals of the source as lists of code units: they have ASCII characters only.
use Prim.Native.Char.{code}
use Prim.Native.Nat.{ℕ}
use Prim.Native.String.{String, [], ◌∷◌}
use mathlib.Core.List.{List}

abbrev pub units : String → List ℕ
units [] = List.[]
units (c ∷ s) = List.◌∷◌ (code c) (units s)

-- ===== src/Prelude/Int.antt =====
-- Signed integers over the native numbers, and the residues that machine words keep of them.
use mulex_fk.Prelude.Tests.{ltb, if◌then◌else◌}
use Prim.Native.Nat.{ℕ, ◌+◌, ◌-◌, ◌*◌, ◌%◌, ◌<◌}
use mathlib.Core.Path.{◌≡◌}
use native.Mathlib.Omega.{arith}
use native.Mathlib.Nat.{mod-eq_of_lt, mod-lt}

-- `negsuc n` is -(n + 1).
pub data ℤ : Type 0 where
  pos : ℕ → ℤ
  negsuc : ℕ → ℤ

-- The residue modulo `m`, between 0 and m - 1.
unfoldable pub to_unsigned : ℕ → ℤ → ℕ
to_unsigned m (pos n) = n % m
to_unsigned m (negsuc n) = m - 1 - n % m

-- The two's complement reading of a word below `m`.
unfoldable pub to_signed : ℕ → ℕ → ℤ
to_signed m v = if ltb (v * 2) m then pos v else negsuc (m - 1 - v)

abbrev pub FitsUnsigned : ℕ → ℤ → Type 0
FitsUnsigned m (pos n) = n < m
FitsUnsigned m (negsuc n) = ⊥

abbrev pub FitsSigned : ℕ → ℤ → Type 0
FitsSigned m (pos n) = n * 2 < m
FitsSigned m (negsuc n) = n * 2 + 1 < m

pub to_unsigned-lt : (m : ℕ) (z : ℤ) → 0 < m → to_unsigned m z < m
unfolding to_unsigned
to_unsigned-lt m (pos n) h = mod-lt n h
to_unsigned-lt m (negsuc n) h = omega arith

pub to_unsigned_of_fits : (m n : ℕ) → n < m → to_unsigned m (pos n) ≡ n
unfolding to_unsigned
to_unsigned_of_fits m n h = mod-eq_of_lt h

pub to_signed-to_unsigned : (m : ℕ) (z : ℤ) → FitsSigned m z → to_signed m (to_unsigned m z) ≡ z
unfolding to_signed to_unsigned
to_signed-to_unsigned m (pos n) h =
    let e : n % m ≡ n = mod-eq_of_lt (omega arith) in rw e (ground arith)
to_signed-to_unsigned m (negsuc n) h =
    let e : n % m ≡ n = mod-eq_of_lt (omega arith) in rw e (ground arith)

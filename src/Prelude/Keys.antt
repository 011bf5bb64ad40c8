-- ===== src/Prelude/Keys.antt =====
-- Equality of keys, as an interface: JavaScript's SameValueZero on the keys that the program uses.
use mulex_fk.Prelude.Tests.{◌==◌ as same_number, ==_iff}
use mulex_fk.Prelude.Int.{ℤ, pos, negsuc}
use mathlib.Core.Bool.{Bool, true, false, ◌&&◌}
use mathlib.Core.List.{List, [], ◌∷◌}
use native.Mathlib.Omega.{arith}
use mathlib.Core.Logic.{◌↔◌}
use mathlib.Core.Path.{◌≡◌, refl, ap}
use Prim.Native.Nat.{ℕ}
use Prim.Native.String.{String}
use text.Mathlib.Text.{◌==◌ as same_text}
use text.Mathlib.TextEquality.{eq_iff}

-- A type whose values can be keys: a test that holds exactly of equal ones.
pub record Key {ℓ} (K : Type ℓ) : Type ℓ where
  pub same : (j k : K) → Bool
  pub same_iff : (j k : K) → (same j k ≡ true) ↔ (j ≡ k)

infix 50 ◌==◌
abbrev pub ◌==◌ {ℓ} : {K : Type ℓ} ⦃key : Key K⦄ → (j k : K) → Bool
◌==◌ ⦃key⦄ j k = key.same j k

-- Message ids.
instance abbrev pub number_key : Key ℕ
number_key = record { same = same_number; same_iff = ==_iff }

unfoldable pub same_int : ℤ → ℤ → Bool
same_int (pos m) (pos n) = same_number m n
same_int (pos m) (negsuc n) = false
same_int (negsuc m) (pos n) = false
same_int (negsuc m) (negsuc n) = same_number m n

pub same_int_iff : (y z : ℤ) → (same_int y z ≡ true) ↔ (y ≡ z)
unfolding same_int
same_int_iff (pos m) (pos n) = ((λ h. ap pos ((==_iff m n).0 h)), λ e. (==_iff m n).1 cc)
same_int_iff (pos m) (negsuc n) = ((λ h. cc), λ e. cc)
same_int_iff (negsuc m) (pos n) = ((λ h. cc), λ e. cc)
same_int_iff (negsuc m) (negsuc n) = ((λ h. ap negsuc ((==_iff m n).0 h)), λ e. (==_iff m n).1 cc)

-- Event ids.
instance abbrev pub int_key : Key ℤ
int_key = record { same = same_int; same_iff = same_int_iff }

-- Event names and paths.
instance abbrev pub string_key : Key String
string_key = record { same = same_text; same_iff = eq_iff }

module _ {ℓ} {A : Type ℓ} ⦃key : Key A⦄ where
  unfoldable pub same_list : List A → List A → Bool
  same_list [] [] = true
  same_list [] (y ∷ ys) = false
  same_list (x ∷ xs) [] = false
  same_list (x ∷ xs) (y ∷ ys) = x == y && same_list xs ys

  same_list_of_eq : (xs : List A) → same_list xs xs ≡ true
  unfolding same_list
  same_list_of_eq [] = refl
  same_list_of_eq (x ∷ xs) = ground (arith, key.same_iff x x, same_list_of_eq xs)

  eq_of_same_list : (xs ys : List A) → same_list xs ys ≡ true → xs ≡ ys
  unfolding same_list
  eq_of_same_list [] [] h = refl
  eq_of_same_list [] (y ∷ ys) h = cc
  eq_of_same_list (x ∷ xs) [] h = cc
  eq_of_same_list (x ∷ xs) (y ∷ ys) h = ground (arith, key.same_iff x y, eq_of_same_list xs ys)

  pub same_list_iff : (xs ys : List A) → (same_list xs ys ≡ true) ↔ (xs ≡ ys)
  same_list_iff xs ys = (eq_of_same_list xs ys, λ e. rw e (same_list_of_eq ys))

  -- Lists of keys, such as texts by their code units.
  instance abbrev pub list_key : Key (List A)
  list_key = record { same = same_list; same_iff = same_list_iff }

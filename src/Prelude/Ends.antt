-- ===== src/Prelude/Ends.antt =====
-- `xs.slice(-n)` for n > 0: the last items of an array.
use mulex_fk.Prelude.Lists.{length, drop, length-append, length-drop, drop-drop}
use Prim.Native.Nat.{ℕ, zero, suc, ◌-◌, ◌<◌, ◌≤◌, min}
use mathlib.Core.Path.{◌≡◌, refl, ap}
use mathlib.Core.List.{List, [], ◌∷◌, ◌++◌}
use native.Mathlib.Omega.{arith}

module _ {ℓ} {A : Type ℓ} where
  unfoldable pub slice_last : ℕ → List A → List A
  slice_last n xs = drop (length xs - n) xs

  pub slice_last-one : (n : ℕ) (x : A) → 0 < n → slice_last n (x ∷ []) ≡ x ∷ []
  unfolding slice_last
  slice_last-one n x h = let all : 1 - n ≡ 0 = omega arith in ap (λ m. drop m (x ∷ [])) all

  pub length-slice_last : (n : ℕ) (xs : List A) → length (slice_last n xs) ≡ min n (length xs)
  unfolding slice_last
  length-slice_last n xs = omega (arith, length-drop (length xs - n) xs)

  drop-append_le : (k : ℕ) (xs ys : List A) → k ≤ length xs → drop k (xs ++ ys) ≡ drop k xs ++ ys
  drop-append_le zero xs ys h = refl
  drop-append_le (suc k) [] ys h = absurd (omega arith)
  drop-append_le (suc k) (x ∷ xs) ys h = drop-append_le k xs ys (omega arith)

  -- What is cut off before is cut off after.
  pub slice_last-append :
      (n : ℕ) (xs ys : List A) → slice_last n (slice_last n xs ++ ys) ≡ slice_last n (xs ++ ys)
  unfolding slice_last
  slice_last-append n xs ys =
      let a = length xs - n in
      let moved : drop a (xs ++ ys) ≡ drop a xs ++ ys = drop-append_le a xs ys (omega arith) in
      rw (← moved, drop-drop)
        (ap (λ k. drop k (xs ++ ys)) (omega (arith, length-drop a (xs ++ ys), length-append xs ys)))

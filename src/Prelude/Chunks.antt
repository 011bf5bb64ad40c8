-- ===== src/Prelude/Chunks.antt =====
-- The loop `for(let i = 0; i < xs.length; i += size) out.push(xs.slice(i, i + size))`, which the
-- program writes in several places. Fuel counts its rounds; `none` means that the fuel ran out.
use mulex_fk.Prelude.Tests.{ltb, ltb→lt, if◌then◌else◌, Bool-cases}
use mulex_fk.Prelude.Lists.{
  length, take, drop, length-append, length-take, length-drop, take-append-drop, drop-drop,
  drop_all,
}
use Prim.Native.Nat.{ℕ, zero, suc, ◌+◌, ◌-◌, ◌≤◌, ◌<◌}
use mathlib.Core.Path.{◌≡◌, ap, sym, ◌∙◌}
use mathlib.Core.Logic.{inl, inr}
use mathlib.Core.Option
use mathlib.Core.Option.{Option, none, some}
use mathlib.Core.List.{List, [], ◌∷◌, flatten}
use native.Mathlib.Omega.{arith}

module _ {ℓ} {A : Type ℓ} where
  -- `xs.slice(i, j)` for 0 ≤ i ≤ j.
  unfoldable pub slice : List A → ℕ → ℕ → List A
  slice xs i j = take (j - i) (drop i xs)

  unfoldable pub chunk_loop : ℕ → List A → ℕ → ℕ → Option (List (List A))
  chunk_loop zero xs size i = none
  chunk_loop (suc fuel) xs size i =
      let rest = chunk_loop fuel xs size (i + size) in
      if ltb i (length xs) then Option.map (λ r. slice xs i (i + size) ∷ r) rest else some []

  -- All pieces are full, but the last one, which holds something.
  abbrev pub IsCut : ℕ → List (List A) → Type 0
  IsCut size [] = Unit
  IsCut size (c ∷ []) = (0 < length c) × (length c ≤ size)
  IsCut size (c ∷ d ∷ cs) = (length c ≡ size) × IsCut size (d ∷ cs)

  IsCut-pos :
      (size : ℕ) (c : List A) (cs : List (List A)) → 0 < size → IsCut size (c ∷ cs) → 0 < length c
  IsCut-pos size c [] h k = k.0
  IsCut-pos size c (d ∷ cs) h k = omega (arith, k.0)

  length-flatten_pos :
      (size : ℕ) (c : List A) (cs : List (List A))
      → 0 < size
      → IsCut size (c ∷ cs)
      → 0 < length (flatten (c ∷ cs))
  unfolding flatten
  length-flatten_pos size c cs h k =
      omega (arith, length-append c (flatten cs), IsCut-pos size c cs h k)

  IsCut-cons :
      (size : ℕ) (zs : List A) (cs : List (List A))
      → 0 < size
      → 0 < length zs
      → flatten cs ≡ drop size zs
      → IsCut size cs
      → IsCut size (take size zs ∷ cs)
  IsCut-cons size zs [] h pos e k = omega (arith, length-take size zs)
  IsCut-cons size zs (c ∷ cs) h pos e k = (
    omega (
      arith,
      length-take size zs,
      length-drop size zs,
      ap length e,
      length-flatten_pos size c cs h k,
    ),
    k,
  )

  -- With fuel for every round the loop cuts `xs` into pieces that give it back.
  pub chunk_loop_total :
      (fuel : ℕ) (xs : List A) (size i : ℕ)
      → 0 < size
      → length xs - i < fuel
      → (cs : List (List A)) × (chunk_loop fuel xs size i ≡ some cs)
        × IsCut size cs
        × (flatten cs ≡ drop i xs)
  unfolding chunk_loop flatten slice
  chunk_loop_total zero xs size i h k = elim k [ ]
  chunk_loop_total (suc fuel) xs size i h k = elim (Bool-cases (ltb i (length xs))) [
    | inl more ↦
        let (cs, e, cut, whole) =
          chunk_loop_total fuel xs size (i + size) h (omega (arith, ltb→lt i (length xs) more)) in
        let rest : flatten cs ≡ drop size (drop i xs) = whole ∙ sym (drop-drop size i xs) in
        let wide : i + size - i ≡ size = omega arith in
        (
          take size (drop i xs) ∷ cs,
          rw (more, e, wide),
          IsCut-cons size (drop i xs) cs h
              (omega (arith, length-drop i xs, ltb→lt i (length xs) more)) rest cut,
          rw rest (take-append-drop size (drop i xs)),
        )
    | inr less ↦ ([], rw less, tt, sym (drop_all i xs (ground arith)))
  ]

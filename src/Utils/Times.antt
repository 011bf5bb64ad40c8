-- ===== src/Utils/Times.antt =====
-- utils.ts: timestamp_tohms, on the milliseconds of a run as a natural number.
use mulex_fk.Prelude.{
  ℕ, ◌+◌, ◌*◌, ◌/◌, ◌%◌, ◌<◌, ◌≡◌, refl, arith, ltb, ltb→lt, Bool-cases, inl, inr, if◌then◌else◌,
}

-- The texts by the numbers in them: `5s`, `2m 5s`, `1h 2m 5s`, `3d 1h 2m 5s`.
pub data Hms : Type 0 where
  s : ℕ → Hms
  m_s : ℕ → ℕ → Hms
  h_m_s : ℕ → ℕ → ℕ → Hms
  d_h_m_s : ℕ → ℕ → ℕ → ℕ → Hms

unfoldable pub timestamp_tohms : ℕ → Hms
timestamp_tohms ms =
    let sec = ms / 1000 in
    let min = sec / 60 in
    let hour = min / 60 in
    let day = hour / 24 in
    if ltb sec 60
    then s sec
    else if ltb min 60
    then m_s min (sec % 60)
    else if ltb hour 24
    then h_m_s hour (min % 60) (sec % 60)
    else d_h_m_s day (hour % 24) (min % 60) (sec % 60)

-- The seconds that a text stands for.
abbrev pub seconds : Hms → ℕ
seconds (s a) = a
seconds (m_s a b) = a * 60 + b
seconds (h_m_s a b c) = (a * 60 + b) * 60 + c
seconds (d_h_m_s a b c d) = ((a * 24 + b) * 60 + c) * 60 + d

-- Each part is in its range, and the first is not 0 where there are others.
abbrev pub IsNormal : Hms → Type 0
IsNormal (s a) = a < 60
IsNormal (m_s a b) = (0 < a) × (a < 60) × (b < 60)
IsNormal (h_m_s a b c) = (0 < a) × (a < 24) × (b < 60) × (c < 60)
IsNormal (d_h_m_s a b c d) = (0 < a) × (b < 24) × (c < 60) × (d < 60)

-- The text says the whole seconds of the time, in the largest units that fit.
pub timestamp_tohms_lem :
    (ms : ℕ) → (seconds (timestamp_tohms ms) ≡ ms / 1000) × IsNormal (timestamp_tohms ms)
unfolding timestamp_tohms
timestamp_tohms_lem ms = elim (Bool-cases (ltb (ms / 1000) 60)) [
  | inl a ↦ rw a (refl, ltb→lt _ _ a)
  | inr a ↦ elim (Bool-cases (ltb (ms / 1000 / 60) 60)) [
    | inl b ↦ rw (a, b) (ground arith, (ground arith, ground arith, ground arith))
    | inr b ↦ elim (Bool-cases (ltb (ms / 1000 / 60 / 60) 24)) [
      | inl c ↦
          rw (a, b, c) (ground arith, (ground arith, ground arith, ground arith, ground arith))
      | inr c ↦
          rw (a, b, c) (ground arith, (ground arith, ground arith, ground arith, ground arith))
    ]
  ]
]

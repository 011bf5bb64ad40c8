-- ===== src/Utils/Units.antt =====
-- utils.ts: event_io_extract, and the units of bps_to_string and bytes_to_string.
use mulex_fk.Prelude.{
  ℕ, ◌+◌, ◌*◌, ◌/◌, ◌%◌, ◌^◌, ◌≤◌, ◌<◌, ◌≡◌, arith, ltb, Bool-cases, inl, inr, if◌then◌else◌,
}

-- `io >> 32 & 0xFFFFFFFF` and `io & 0xFFFFFFFF`, for a 64-bit unsigned io.
unfoldable pub event_io_extract : ℕ → record { r : ℕ; w : ℕ }
event_io_extract io = record { r = io / 2 ^ 32 % 2 ^ 32; w = io % 2 ^ 32 }

-- The two counters of an event are read back from the word that holds both.
pub event_io_extract_lem :
    (r w : ℕ)
    → r < 2 ^ 32
    → w < 2 ^ 32
    → ((event_io_extract (r * 2 ^ 32 + w)).r ≡ r) × ((event_io_extract (r * 2 ^ 32 + w)).w ≡ w)
unfolding event_io_extract
event_io_extract_lem r w h k = (omega arith, omega arith)

-- On a whole number of bytes or bits.
unfoldable pub bps_get_multiplier : ℕ → ℕ
bps_get_multiplier value =
    if ltb 0 (value / 1024)
    then (if ltb 0 (value / 1048576) then (if ltb 0 (value / 1073741824) then 3 else 2) else 1)
    else 0

-- The unit is the largest of 1, 1024, 1024² and 1024³ that the value reaches, and the first if it
-- reaches none.
pub bps_get_multiplier_lem :
    (value : ℕ)
    → (bps_get_multiplier value ≤ 3)
      × (0 < value → 1024 ^ bps_get_multiplier value ≤ value)
      × (bps_get_multiplier value < 3 → value < 1024 ^ (bps_get_multiplier value + 1))
unfolding bps_get_multiplier
bps_get_multiplier_lem value = elim (Bool-cases (ltb 0 (value / 1024))) [
  | inr a ↦ rw a (omega arith, (λ h. omega arith), (λ h. ground arith))
  | inl a ↦ elim (Bool-cases (ltb 0 (value / 1048576))) [
    | inr b ↦ rw (a, b) (omega arith, (λ h. ground arith), (λ h. ground arith))
    | inl b ↦ elim (Bool-cases (ltb 0 (value / 1073741824))) [
      | inr c ↦ rw (a, b, c) (omega arith, (λ h. ground arith), (λ h. ground arith))
      | inl c ↦ rw (a, b, c) (omega arith, (λ h. ground arith), (λ h. omega arith))
    ]
  ]
]

-- ===== src/Arrow/Timestamps/Packed.antt =====
-- An instant that is packed with its offset into 128 bits is unpacked to the same, if it is one that
-- the code lets through.
use lake_go.Prelude.{ℕ, ◌^◌, ◌<◌, ◌≡◌, ◌∙◌, ap, refl, false, inl, inr, Bool-cases, arith}
use lake_go.Prelude.Decimal.{ℤ, pos, negsuc}
use lake_go.Arrow.Timestamps.{
  Decimal128, TimeLib, signed, low_bits_of, to_int64, to_int32, less_than, micros_min, micros_max,
  clamp_micros, decimal_to_time,
}

-- The number fits a signed word whose half range is `half`.
abbrev pub Fits : ℕ → ℤ → Type 0
Fits half (pos n) = n < half
Fits half (negsuc n) = n < half

-- The micros in the low word, and the offset in the high one.
abbrev pub pack : ℤ → ℤ → Decimal128
pack micros offset = record { high_bits = offset; low_bits = low_bits_of (2 ^ 64) micros }

to_int64-pack : (z : ℤ) → Fits (2 ^ 63) z → to_int64 (low_bits_of (2 ^ 64) z) ≡ z
unfolding signed low_bits_of
to_int64-pack (pos n) h = ground arith
to_int64-pack (negsuc n) h = ground arith

to_int32-Fits : (z : ℤ) → Fits (2 ^ 31) z → to_int32 z ≡ z
unfolding signed low_bits_of
to_int32-Fits (pos n) h = ground arith
to_int32-Fits (negsuc n) h = ground arith

-- The number that is let through in place of another: it lies in the range, and is the same one where
-- that does.
pub record IsClamped (z m : ℤ) : Type 0 where
  pub from_min : less_than m micros_min ≡ false
  pub to_max : less_than micros_max m ≡ false
  pub same : less_than z micros_min ≡ false → less_than micros_max z ≡ false → m ≡ z

clamp_micros-IsClamped : (z : ℤ) → IsClamped z (clamp_micros z)
unfolding clamp_micros
clamp_micros-IsClamped z = elim (Bool-cases (less_than z micros_min)) [
  | inl low ↦ rw low (record { from_min = refl; to_max = refl; same = λ p q. cc (low, p) })
  | inr low ↦ elim (Bool-cases (less_than micros_max z)) [
    | inl high ↦
        rw (low, high) (record { from_min = refl; to_max = refl; same = λ p q. cc (high, q) })
    | inr high ↦ rw (low, high) (record { from_min = low; to_max = high; same = λ p q. refl })
  ]
]

-- Microseconds of 64 bits that are packed with an offset of 32 bits are unpacked to an instant at that
-- offset. Its microseconds lie in the range that the code lets through, and are the packed ones where
-- those do.
pub decimal_to_time-pack :
    {Z T E : Type 0} (time : TimeLib Z T E) (micros offset : ℤ)
    → Fits (2 ^ 63) micros
    → Fits (2 ^ 31) offset
    → (m : ℤ) × (decimal_to_time time (pack micros offset)
        ≡ time.in_zone (time.fixed_zone offset) (time.unix_micro m))
      × IsClamped micros m
unfolding decimal_to_time
decimal_to_time-pack time micros offset h k = (
  clamp_micros micros,
  ap (λ m. time.in_zone (time.fixed_zone (to_int32 offset)) (time.unix_micro (clamp_micros m)))
        (to_int64-pack micros h)
      ∙ ap (λ o. time.in_zone (time.fixed_zone o) (time.unix_micro (clamp_micros micros)))
          (to_int32-Fits offset k),
  clamp_micros-IsClamped micros,
)

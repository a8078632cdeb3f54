-- ===== src/Arrow/Timestamps.antt =====
-- arrow.go: the 128-bit number that stands for an instant with its offset, and the texts of instants.
-- `Z` is the type of time zones and `T` that of instants.
pub mod Packed
use lake_go.Prelude.{ℕ, ◌-◌, ◌%◌, ◌^◌, Bool, List, [], ◌∷◌, Bytes, codes, ltb, if◌then◌else◌}
use lake_go.Prelude.Decimal.{ℤ, pos, negsuc}
use lake_go.Prelude.Result.{Result, ok, err}

-- decimal128.Num: an int64 above a uint64.
pub record Decimal128 : Type 0 where
  pub high_bits : ℤ
  pub low_bits : ℕ

-- The signed number of `w` bits, two to the power of which is `m` twice over: int64 and int32 of bits.
pub signed : ℕ → ℕ → ℤ
signed half bits = if ltb bits half then pos bits else negsuc (half - 1 - (bits - half))

-- The lowest bits of a signed number, `m` being two to their number.
pub low_bits_of : ℕ → ℤ → ℕ
low_bits_of m (pos n) = n % m
low_bits_of m (negsuc n) = m - 1 - n % m

-- int64(n) of a uint64, and int32(z) of an int64
abbrev pub to_int64 : ℕ → ℤ
to_int64 n = signed (2 ^ 63) n

abbrev pub to_int32 : ℤ → ℤ
to_int32 z = signed (2 ^ 31) (low_bits_of (2 ^ 32) z)

abbrev pub less_than : ℤ → ℤ → Bool
less_than (pos a) (pos b) = ltb a b
less_than (pos a) (negsuc b) = Bool.false
less_than (negsuc a) (pos b) = Bool.true
less_than (negsuc a) (negsuc b) = ltb b a

abbrev pub micros_min : ℤ
micros_min = negsuc 377705023200999999

abbrev pub micros_max : ℤ
micros_max = pos 253402207200000000

-- clampArrowTimestampMicros
unfoldable pub clamp_micros : ℤ → ℤ
clamp_micros z =
    if less_than z micros_min then micros_min else if less_than micros_max z then micros_max else z

-- The package time.
pub record TimeLib (Z T E : Type 0) : Type 0 where
  pub utc : Z
  pub load_location : Bytes → Result E Z
  pub fixed_zone : ℤ → Z
  pub unix_micro : ℤ → T
  pub in_zone : Z → T → T
  -- the offset that `Zone` gives
  pub zone_offset : T → ℤ
  pub format : Bytes → T → Bytes
  pub parse : Bytes → Bytes → Result E T
  pub parse_in_location : Bytes → Bytes → Z → Result E T
  -- Truncate(24 * time.Hour)
  pub truncate_day : T → T

abbrev zoned_layouts : List Bytes
zoned_layouts =
    codes "2006-01-02 15:04:05.999999999Z0700"
    ∷ codes "2006-01-02 15:04:05.999999Z0700"
    ∷ codes "2006-01-02 15:04:05Z0700"
    ∷ codes "2006-01-02T15:04:05.999999999Z07:00"
    ∷ []

abbrev local_layouts : List Bytes
local_layouts =
    codes "2006-01-02 15:04:05.999999999"
    ∷ codes "2006-01-02 15:04:05.999999"
    ∷ codes "2006-01-02 15:04:05"
    ∷ []

abbrev pub date_layout : Bytes
date_layout = codes "2006-01-02"

abbrev pub micro_layout : Bytes
micro_layout = codes "2006-01-02 15:04:05.000000"

abbrev pub micro_zone_layout : Bytes
micro_zone_layout = codes "2006-01-02 15:04:05.000000 -0700"

-- The value of a call that succeeds, or what comes next.
abbrev or_rest : {E F A : Type 0} → Result E A → Result F A → Result F A
or_rest (ok a) rest = ok a
or_rest (err e) rest = rest

-- The first layout that parses, or what comes behind the loop.
first_parsed : {E F T : Type 0} → (Bytes → Result E T) → Result F T → List Bytes → Result F T
first_parsed parse rest [] = rest
first_parsed parse rest (layout ∷ layouts) =
    or_rest (parse layout) (first_parsed parse rest layouts)

module _ {Z T E : Type 0} (time : TimeLib Z T E) where
  -- arrowTimestampTZDecimalToTime
  unfoldable pub decimal_to_time : Decimal128 → T
  decimal_to_time d =
      time.in_zone (time.fixed_zone (to_int32 d.high_bits))
        (time.unix_micro (clamp_micros (to_int64 d.low_bits)))

  -- formatArrowTimestampTZDecimalValue
  unfoldable pub format_decimal_time : Decimal128 → Bytes
  format_decimal_time d =
      let ts = decimal_to_time d in
      time.format micro_zone_layout (time.in_zone (time.fixed_zone (time.zone_offset ts)) ts)

  -- parseArrowTimestampString, at a location that is not nil; `failed` is its error.
  unfoldable pub parse_timestamp_string : {F : Type 0} → F → Bytes → Z → Result F T
  unfolding first_parsed
  parse_timestamp_string failed value location =
      first_parsed (λ layout. time.parse layout value)
        (first_parsed (λ layout. time.parse_in_location layout value location) (err failed)
          local_layouts)
        zoned_layouts

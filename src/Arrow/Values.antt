-- ===== src/Arrow/Values.antt =====
-- arrow.go: the values of Arrow columns as the values of rows, and as texts. A column is the functions
-- of the Arrow library that the code calls on it.
pub mod Kinds
use lake_go.Prelude.{
  ℕ, Bool, true, false, Option, none, some, Bytes, codes, bytes_eq, map, if◌then◌else◌,
}
use lake_go.Prelude.Decimal.{ℤ, decimal, decimal_ℤ}
use lake_go.Prelude.Text.{to_upper}
use lake_go.Prelude.Result.{Result, ok, err, ◌>>=◌, map_err}
use lake_go.Types.TypeDesc.{TypeDesc, desc, TypeError}
use lake_go.Types.ColumnType.{Value}
use lake_go.Arrow.Schema.{SchemaError}
use lake_go.Arrow.Timestamps.{
  Decimal128, TimeLib, decimal_to_time, format_decimal_time, parse_timestamp_string, date_layout,
  micro_layout, micro_zone_layout,
}

-- What `GetOneForMarshal` gives. A float is its bits, and `M` holds all other values.
pub data Marshaled (T M : Type 0) : Type 0 where
  nothing : Marshaled T M
  text : Bytes → Marshaled T M
  bool : Bool → Marshaled T M
  int : ℤ → Marshaled T M
  uint : ℕ → Marshaled T M
  float32 float64 : ℕ → Marshaled T M
  raw_message : Bytes → Marshaled T M
  bytes : Bytes → Marshaled T M
  time : T → Marshaled T M
  decimal128 : Decimal128 → Marshaled T M
  other : M → Marshaled T M

-- arrow.Array: its nulls, and what the type assertions to a Decimal128 array and to a
-- marshaledArrowArray give.
pub record Column (T M : Type 0) : Type 0 where
  pub is_null : ℕ → Bool
  pub as_decimal128 : Option (ℕ → Decimal128)
  pub as_marshaled : Option (ℕ → Marshaled T M)

pub data ArrowError (E : Type 0) : Type 0 where
  library : E → ArrowError E
  bad_schema : SchemaError → ArrowError E
  bad_type : TypeError → ArrowError E
  -- "arrow column does not support row materialization: %T"
  not_marshaled : ArrowError E
  -- "unsupported arrow binary value type %T"
  bad_binary : ArrowError E
  -- "unsupported arrow timestamp value type %T"
  bad_timestamp : ArrowError E
  -- "failed to parse arrow timestamp value %q"
  unparsed_timestamp : Bytes → ArrowError E
  -- "arrow record columns and schema do not match"
  mismatch : ArrowError E
  -- a run-time panic
  panic : ArrowError E

-- The standard library: instants, floats at 32 or 64 bits, hexadecimal text and JSON.
pub record ArrowLib (Z T E M : Type 0) : Type 0 where
  pub time_lib : TimeLib Z T E
  pub format_float : ℕ → ℕ → Bytes
  pub encode_hex : Bytes → Bytes
  pub marshal : M → Result E Bytes
  pub marshal_time : T → Result E Bytes
  pub marshal_decimal : Decimal128 → Result E Bytes

abbrev bool_text : Bool → Bytes
bool_text true = codes "true"
bool_text false = codes "false"

module _ {Z T E M : Type 0} (lib : ArrowLib Z T E M) where
  -- formatArrowScalar
  pub format_scalar : Marshaled T M → Result (ArrowError E) Bytes
  format_scalar nothing = ok (codes "")
  format_scalar (text s) = ok s
  format_scalar (bool b) = ok (bool_text b)
  format_scalar (int z) = ok (decimal_ℤ z)
  format_scalar (uint n) = ok (decimal n)
  format_scalar (float32 f) = ok (lib.format_float 32 f)
  format_scalar (float64 f) = ok (lib.format_float 64 f)
  format_scalar (raw_message s) = ok s
  format_scalar (bytes s) = ok s
  format_scalar (time t) = map_err library (lib.marshal_time t)
  format_scalar (decimal128 d) = map_err library (lib.marshal_decimal d)
  format_scalar (other v) = map_err library (lib.marshal v)

  -- formatArrowDateValue
  pub format_date : Marshaled T M → Result (ArrowError E) Bytes
  format_date (text s) = map_err library (lib.time_lib.parse date_layout s) >>= λ t. ok s
  format_date (time t) =
      ok (lib.time_lib.format date_layout (lib.time_lib.in_zone lib.time_lib.utc t))
  format_date v = format_scalar v

  -- parseArrowTimestampValue, at a location that is not nil
  pub parse_timestamp : Marshaled T M → Z → Result (ArrowError E) T
  parse_timestamp (time t) location = ok t
  parse_timestamp (text s) location =
      parse_timestamp_string lib.time_lib (unparsed_timestamp s) s location
  parse_timestamp _ location = err bad_timestamp

  -- formatArrowTimestampValue
  pub format_timestamp : Marshaled T M → Z → Result (ArrowError E) Bytes
  format_timestamp v location = parse_timestamp v location >>= λ t.
      ok (lib.time_lib.format micro_layout (lib.time_lib.in_zone location t))

  -- formatArrowTimestampTZValue
  pub format_timestamp_tz : Marshaled T M → Z → Result (ArrowError E) Bytes
  format_timestamp_tz (decimal128 d) location = ok (format_decimal_time lib.time_lib d)
  format_timestamp_tz v location =
      parse_timestamp v location >>= λ t. ok (lib.time_lib.format micro_zone_layout t)

  format_binary : Marshaled T M → Result (ArrowError E) Bytes
  format_binary (bytes s) = ok (map to_upper (lib.encode_hex s))
  format_binary v = format_scalar v

  -- formatArrowValue, on a type that is not nil
  pub format_value : Bytes → Marshaled T M → Z → Result (ArrowError E) Bytes
  format_value name v location =
      if bytes_eq name (codes "Date")
      then format_date v
      else if bytes_eq name (codes "Timestamp")
      then format_timestamp v location
      else if bytes_eq name (codes "Timestamp_Tz")
      then format_timestamp_tz v location
      else if bytes_eq name (codes "Binary")
      then format_binary v
      else format_scalar v

  -- The value at a row, of a column that can be marshalled.
  abbrev marshaled_at : Column T M → ℕ → Result (ArrowError E) (Marshaled T M)
  marshaled_at c i = elim c.as_marshaled [ none ↦ err not_marshaled | some at ↦ ok (at i) ]

  format_marshaled : Bytes → Column T M → ℕ → Z → Result (ArrowError E) Bytes
  format_marshaled name c i location = marshaled_at c i >>= λ v. format_value name v location

  format_tz_column :
      Bytes → Option (ℕ → Decimal128) → Column T M → ℕ → Z → Result (ArrowError E) Bytes
  format_tz_column name (some at) c i location = ok (format_decimal_time lib.time_lib (at i))
  format_tz_column name none c i location = format_marshaled name c i location

  -- formatArrowColumnValue
  pub format_column_value : Bytes → Column T M → ℕ → Z → Result (ArrowError E) Bytes
  format_column_value name c i location =
      if bytes_eq name (codes "Timestamp_Tz")
      then format_tz_column name c.as_decimal128 c i location
      else format_marshaled name c i location

  binary_value : Marshaled T M → Result (ArrowError E) (Value T)
  binary_value (bytes s) = ok (Value.blob s)
  binary_value (text s) = ok (Value.blob s)
  binary_value _ = err bad_binary

  -- materializeArrowBinaryDriverValue
  pub materialize_binary_value : Column T M → ℕ → Result (ArrowError E) (Value T)
  materialize_binary_value c i = marshaled_at c i >>= binary_value

  date_value : Marshaled T M → Result (ArrowError E) T
  date_value (time t) = ok (lib.time_lib.truncate_day (lib.time_lib.in_zone lib.time_lib.utc t))
  date_value (text s) = map_err library (lib.time_lib.parse date_layout s)
  date_value v = format_date v >>= λ s. map_err library (lib.time_lib.parse date_layout s)

  abbrev instant_of : Result (ArrowError E) T → Result (ArrowError E) (Value T)
  instant_of r = r >>= λ t. ok (Value.instant t)

  -- materializeArrowDateDriverValue
  pub materialize_date_value : Column T M → ℕ → Result (ArrowError E) (Value T)
  materialize_date_value c i = instant_of (marshaled_at c i >>= date_value)

  -- materializeArrowTimestampDriverValue
  pub materialize_timestamp_value : Column T M → ℕ → Z → Result (ArrowError E) (Value T)
  materialize_timestamp_value c i location = instant_of (
      marshaled_at c i >>= λ v.
      parse_timestamp v location >>= λ t. ok (lib.time_lib.in_zone location t))

  tz_value : Option (ℕ → Decimal128) → Column T M → ℕ → Z → Result (ArrowError E) T
  tz_value (some at) c i location = ok (decimal_to_time lib.time_lib (at i))
  tz_value none c i location = marshaled_at c i >>= λ v. parse_timestamp v location

  -- materializeArrowTimestampTZDriverValue
  pub materialize_timestamp_tz_value : Column T M → ℕ → Z → Result (ArrowError E) (Value T)
  materialize_timestamp_tz_value c i location = instant_of (tz_value c.as_decimal128 c i location)

  -- materializeArrowDriverValue, by the name of a type that is not nil
  unfoldable pub materialize_driver_value :
      Bytes → Column T M → ℕ → Z → Result (ArrowError E) (Value T)
  unfolding materialize_binary_value binary_value materialize_date_value date_value format_date
      format_scalar materialize_timestamp_value parse_timestamp materialize_timestamp_tz_value
      tz_value format_column_value format_tz_column format_marshaled format_value format_timestamp
      format_timestamp_tz format_binary
  materialize_driver_value name c i location =
      if bytes_eq name (codes "Null")
      then ok Value.null
      else if bytes_eq name (codes "Binary")
      then materialize_binary_value c i
      else if bytes_eq name (codes "Date")
      then materialize_date_value c i
      else if bytes_eq name (codes "Timestamp")
      then materialize_timestamp_value c i location
      else if bytes_eq name (codes "Timestamp_Tz")
      then materialize_timestamp_tz_value c i location
      else format_column_value name c i location >>= λ s. ok (Value.text s)

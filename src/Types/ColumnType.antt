-- ===== src/Types/ColumnType.antt =====
-- columntype.go: the column types and `NewColumnType`. A type with a method of its own for each
-- operation is a constructor here. `Z` is the type of time zones and `T` that of instants.
pub mod Kinds
pub mod Names
pub mod Nulls
pub mod Panics
use mathlib.Core.Option
use lake_go.Prelude.{
  map, Bool, true, false, ◌&&◌, Option, none, some, ◌++◌, if◌then◌else◌, Bytes, codes, bytes_eq,
}
use lake_go.Prelude.Decimal.{ℤ, decimal_ℤ}
use lake_go.Prelude.Result.{Result, ok, err, ◌>>=◌, map_err}
use lake_go.Types.TypeDesc.{TypeDesc, desc, Descs, nil, cons, TypeError, parse_type_desc, normalize}
use lake_go.Types.Binary.{
  BinaryOutputFormat, hex, HttpJsonResultMode, driver, Decoders, materialize_binary,
  parse_binary_output_format, parse_http_json_result_mode,
}

-- The Go types that values are scanned to.
pub data ScanType : Type 0 where
  string bool int8 int16 int32 int64 uint8 uint16 uint32 uint64 float32 float64 : ScanType
  time bytes : ScanType

-- `driver.Value`, as far as rows hold it.
pub data Value (T : Type 0) : Type 0 where
  null : Value T
  text : Bytes → Value T
  blob : Bytes → Value T
  instant : T → Value T

pub data ColumnType (Z : Type 0) : Type 0 where
  unknown : Bytes → TypeDesc → ColumnType Z
  simple : Bytes → ScanType → Bool → Bool → ColumnType Z
  timestamp : Z → Bool → ColumnType Z
  timestamp_tz : Bool → ColumnType Z
  date : Bool → ColumnType Z
  decimal : ℤ → ℤ → Bool → ColumnType Z
  binary : BinaryOutputFormat → HttpJsonResultMode → Bool → ColumnType Z

pub record ColumnTypeOptions (Z : Type 0) : Type 0 where
  pub format_null_as_str : Bool
  pub timezone : Z
  pub binary_output_format : BinaryOutputFormat
  pub http_json_result_mode : HttpJsonResultMode

-- What the standard library parses: instants by layout, 64-bit integers, binary text.
pub record Parsers (Z T E : Type 0) : Type 0 where
  pub utc : Z
  pub parse_in_location : Bytes → Bytes → Z → Result E T
  pub parse_int : Bytes → Result E ℤ
  pub decoders : Decoders E

pub data ColumnError (E : Type 0) : Type 0 where
  bad_type : TypeError → ColumnError E
  malformed_precision : E → ColumnError E
  malformed_scale : E → ColumnError E
  -- the run-time panic of an index out of range
  panic : ColumnError E

-- isNullable
abbrev pub wrap_name : Bool → Bytes → Bytes
wrap_name nullable s = if nullable then s ++ codes " NULL" else s

abbrev pub check_null : Bool → Bytes → Bool
check_null nullable s = nullable && bytes_eq s (codes "NULL")

-- The switch of `NewColumnType` on the names of simple types.
unfoldable pub simple_scan_type : Bytes → Option ScanType
simple_scan_type name =
    if bytes_eq name (codes "Boolean")
    then some bool
    else if bytes_eq name (codes "Int8")
    then some int8
    else if bytes_eq name (codes "Int16")
    then some int16
    else if bytes_eq name (codes "Int32")
    then some int32
    else if bytes_eq name (codes "Int64")
    then some int64
    else if bytes_eq name (codes "UInt8")
    then some uint8
    else if bytes_eq name (codes "UInt16")
    then some uint16
    else if bytes_eq name (codes "UInt32")
    then some uint32
    else if bytes_eq name (codes "UInt64")
    then some uint64
    else if bytes_eq name (codes "Float32")
    then some float32
    else if bytes_eq name (codes "Float64")
    then some float64
    else none

-- The value at hand, or what the rest of the switch gives.
abbrev pub or_else : {E A : Type 0} → Option A → Result E A → Result E A
or_else (some a) rest = ok a
or_else none rest = rest

module _ {Z T E : Type 0} (lib : Parsers Z T E) where
  abbrev pub default_column_type_options : ColumnTypeOptions Z
  default_column_type_options = record {
    format_null_as_str = false;
    timezone = lib.utc;
    binary_output_format = hex;
    http_json_result_mode = driver;
  }

  -- `case "Decimal"`
  pub decimal_column : Bool → Descs → Result (ColumnError E) (ColumnType Z)
  decimal_column nullable nil = err panic
  decimal_column nullable (cons (desc p _ _) nil) =
      map_err malformed_precision (lib.parse_int p) >>= λ precision. err panic
  decimal_column nullable (cons (desc p _ _) (cons (desc s _ _) _)) = do
    precision ← map_err malformed_precision (lib.parse_int p)
    scale ← map_err malformed_scale (lib.parse_int s)
    ok (decimal precision scale nullable)

  -- The switch of `NewColumnType`.
  unfoldable pub column_of_desc :
      Bytes → ColumnTypeOptions Z → TypeDesc → Result (ColumnError E) (ColumnType Z)
  unfolding decimal_column
  column_of_desc db_type opts (desc name nullable args) =
      if bytes_eq name (codes "String")
      then ok (simple (wrap_name nullable name) string nullable false)
      else or_else
          (Option.map
            (λ scan. simple (wrap_name nullable name) scan nullable opts.format_null_as_str)
            (simple_scan_type name))
          (if bytes_eq name (codes "Timestamp")
            then ok (timestamp opts.timezone nullable)
            else if bytes_eq name (codes "Timestamp_Tz")
            then ok (timestamp_tz nullable)
            else if bytes_eq name (codes "Date")
            then ok (date nullable)
            else if bytes_eq name (codes "Binary")
            then ok (binary opts.binary_output_format opts.http_json_result_mode nullable)
            else if bytes_eq name (codes "Decimal")
            then decimal_column nullable args
            else ok (unknown db_type (desc name nullable args)))

  pub normalized :
      Bytes → ColumnTypeOptions Z → Option TypeDesc → Result (ColumnError E) (ColumnType Z)
  normalized db_type opts none = err panic
  normalized db_type opts (some d) = column_of_desc db_type opts d

  -- `NewColumnType`, on options that are given.
  unfoldable pub new_column_type :
      Bytes → ColumnTypeOptions Z → Result (ColumnError E) (ColumnType Z)
  unfolding normalized
  new_column_type db_type opts =
      map_err bad_type (parse_type_desc db_type) >>= λ d. normalized db_type opts (normalize d)

  -- `Parse`
  unfoldable pub parse_value : ColumnType Z → Bytes → Result E (Value T)
  parse_value (unknown _ _) s = ok (text s)
  parse_value (simple _ _ nullable parse_null) s =
      if nullable && parse_null && bytes_eq s (codes "NULL") then ok null else ok (text s)
  parse_value (timestamp tz nullable) s =
      if check_null nullable s
      then ok null
      else lib.parse_in_location (codes "2006-01-02 15:04:05.999999") s tz >>= λ t. ok (instant t)
  parse_value (timestamp_tz nullable) s =
      if check_null nullable s
      then ok null
      else lib.parse_in_location (codes "2006-01-02 15:04:05.999999 -0700") s lib.utc >>= λ t.
          ok (instant t)
  parse_value (date nullable) s =
      if check_null nullable s
      then ok null
      else lib.parse_in_location (codes "2006-01-02") s lib.utc >>= λ t. ok (instant t)
  parse_value (decimal _ _ _) s = ok (text s)
  parse_value (binary format mode nullable) s =
      if check_null nullable s
      then ok null
      else materialize_binary lib.decoders s format mode >>= λ b. ok (blob b)

module _ {Z : Type 0} where
  -- `Nullable`: the answer, and whether it is known.
  unfoldable pub nullable_of : ColumnType Z → Bool × Bool
  nullable_of (unknown _ _) = (false, false)
  nullable_of (simple _ _ nullable _) = (nullable, true)
  nullable_of (timestamp _ nullable) = (nullable, true)
  nullable_of (timestamp_tz nullable) = (nullable, true)
  nullable_of (date nullable) = (nullable, true)
  nullable_of (decimal _ _ nullable) = (nullable, true)
  nullable_of (binary _ _ nullable) = (nullable, true)

  unfoldable pub database_type_name : ColumnType Z → Bytes
  database_type_name (unknown db_type _) = db_type
  database_type_name (simple db_type _ _ _) = db_type
  database_type_name (timestamp _ nullable) = wrap_name nullable (codes "Timestamp")
  database_type_name (timestamp_tz nullable) = wrap_name nullable (codes "Timestamp_Tz")
  database_type_name (date nullable) = wrap_name nullable (codes "Date")
  database_type_name (decimal p s nullable) =
      wrap_name nullable
        (codes "Decimal(" ++ (decimal_ℤ p ++ (codes ", " ++ (decimal_ℤ s ++ codes ")"))))
  database_type_name (binary _ _ nullable) = wrap_name nullable (codes "Binary")

  unfoldable pub scan_type : ColumnType Z → ScanType
  scan_type (unknown _ _) = string
  scan_type (simple _ scan _ _) = scan
  scan_type (timestamp _ _) = time
  scan_type (timestamp_tz _) = time
  scan_type (date _) = time
  scan_type (decimal _ _ _) = string
  scan_type (binary _ _ _) = bytes

  pub precision_scale : ColumnType Z → Option (ℤ × ℤ)
  precision_scale (decimal p s _) = some (p, s)
  precision_scale _ = none

  pub desc_of : ColumnType Z → TypeDesc
  desc_of (unknown _ d) = d
  desc_of (simple db_type _ nullable _) = desc db_type nullable nil
  desc_of (timestamp _ nullable) = desc (codes "Timestamp") nullable nil
  desc_of (timestamp_tz nullable) = desc (codes "Timestamp_Tz") nullable nil
  desc_of (date nullable) = desc (codes "Date") nullable nil
  desc_of (decimal p s nullable) =
      desc (codes "Decimal") nullable
        (cons (desc (decimal_ℤ p) false nil) (cons (desc (decimal_ℤ s) false nil) nil))
  desc_of (binary _ _ nullable) = desc (codes "Binary") nullable nil

-- ===== src/Arrow/Schema.antt =====
-- arrow.go: `dataFieldsFromArrowSchema`, which writes the fields of an Arrow schema as column types. A
-- type of the Arrow library that the code looks for is a constructor, and `other` is any other one.
pub mod Texts
pub mod Reads
pub mod Desc
pub mod Bases
pub mod RoundTrip
use lake_go.Prelude.{
  Bool, true, false, not, ◌&&◌, Option, none, some, List, [], ◌∷◌, ◌++◌, if◌then◌else◌, Bytes,
  codes, bytes_eq, map,
}
use lake_go.Prelude.Decimal.{ℤ, decimal_ℤ}
use lake_go.Prelude.Result.{Result, ok, err, ◌>>=◌}
use lake_go.Query.Response.{DataField}

mutual
  pub data ArrowType : Type 0 where
    null boolean int8 int16 int32 int64 uint8 uint16 uint32 uint64 float32 float64 : ArrowType
    binary large_binary fixed_size_binary string large_string string_view : ArrowType
    timestamp date32 : ArrowType
    -- the precision and the scale
    decimal64 decimal128 decimal256 : ℤ → ℤ → ArrowType
    list large_list : ArrowField → ArrowType
    arrow_map : ArrowField → ArrowField → ArrowType
    struct : ArrowFields → ArrowType
    fixed_size_list : ArrowType → ℤ → ArrowType
    other : ArrowType

  -- The name, the type, whether it is nullable, and the metadata of the key "Extension".
  pub data ArrowField : Type 0 where
    field : Bytes → ArrowType → Bool → Option Bytes → ArrowField

  pub data ArrowFields : Type 0 where
    nil : ArrowFields
    cons : ArrowField → ArrowFields → ArrowFields

pub data SchemaError : Type 0 where
  -- "unsupported vector arrow field %q with type %T"
  bad_vector : Bytes → SchemaError
  -- "unsupported vector element type for field %q: %s"
  bad_vector_element : Bytes → SchemaError
  -- "unsupported arrow extension type %q"
  bad_extension : Bytes → SchemaError
  -- "unsupported arrow data type for field %q: %T"
  bad_type : Bytes → SchemaError

-- strings.Join(parts, ", ")
abbrev pub join_tail : List Bytes → Bytes
join_tail [] = []
join_tail (x ∷ xs) = b',' ∷ b' ' ∷ (x ++ join_tail xs)

abbrev pub join : List Bytes → Bytes
join [] = []
join (x ∷ xs) = x ++ join_tail xs

-- A name with arguments, as the formats "Array(%s)", "Map(%s, %s)" and the like write it.
abbrev pub call : Bytes → List Bytes → Bytes
call name parts = name ++ (b'(' ∷ (join parts ++ b')' ∷ []))

abbrev decimal_name : ℤ → ℤ → Bytes
decimal_name precision scale = call (codes "Decimal") (decimal_ℤ precision ∷ decimal_ℤ scale ∷ [])

-- `case arrowExtensionVector`
pub vector_name : Bytes → ArrowType → Result SchemaError Bytes
vector_name name (fixed_size_list float32 n) = ok (call (codes "Vector") (decimal_ℤ n ∷ []))
vector_name name (fixed_size_list _ n) = err (bad_vector_element name)
vector_name name _ = err (bad_vector name)

-- The extensions that stand for the type of their own name.
pub named_extension : Bytes → Option Bytes
named_extension e =
    if bytes_eq e (codes "EmptyArray")
    then some (codes "EmptyArray")
    else if bytes_eq e (codes "EmptyMap")
    then some (codes "EmptyMap")
    else if bytes_eq e (codes "Variant")
    then some (codes "Variant")
    else if bytes_eq e (codes "Bitmap")
    then some (codes "Bitmap")
    else if bytes_eq e (codes "Geometry")
    then some (codes "Geometry")
    else if bytes_eq e (codes "Geography")
    then some (codes "Geography")
    else if bytes_eq e (codes "Interval")
    then some (codes "Interval")
    else if bytes_eq e (codes "TimestampTz")
    then some (codes "Timestamp_Tz")
    else none

-- The switch on the extension.
pub extension_result : Bytes → ArrowType → Bytes → Option Bytes → Result SchemaError Bytes
extension_result name type e (some known) = ok known
extension_result name type e none =
    if bytes_eq e (codes "Vector") then vector_name name type else err (bad_extension e)

pub extension_name : Bytes → ArrowType → Bytes → Result SchemaError Bytes
unfolding extension_result
extension_name name type e = extension_result name type e (named_extension e)

abbrev pub nullable_name : Bool → Bytes → Bytes
nullable_name nullable base =
    if nullable && not (bytes_eq base (codes "Null"))
    then call (codes "Nullable") (base ∷ [])
    else base

unfoldable mutual
  unfolding extension_name named_extension vector_name

  -- dataTypeStringFromArrowField
  pub data_type_string : ArrowField → Result SchemaError Bytes
  data_type_string (field name type nullable extension) =
      base_data_type_string name type extension >>= λ base. ok (nullable_name nullable base)

  -- baseDataTypeStringFromArrowField
  pub base_data_type_string : Bytes → ArrowType → Option Bytes → Result SchemaError Bytes
  base_data_type_string name type (some e) = extension_name name type e
  base_data_type_string name null none = ok (codes "Null")
  base_data_type_string name boolean none = ok (codes "Boolean")
  base_data_type_string name int8 none = ok (codes "Int8")
  base_data_type_string name int16 none = ok (codes "Int16")
  base_data_type_string name int32 none = ok (codes "Int32")
  base_data_type_string name int64 none = ok (codes "Int64")
  base_data_type_string name uint8 none = ok (codes "UInt8")
  base_data_type_string name uint16 none = ok (codes "UInt16")
  base_data_type_string name uint32 none = ok (codes "UInt32")
  base_data_type_string name uint64 none = ok (codes "UInt64")
  base_data_type_string name float32 none = ok (codes "Float32")
  base_data_type_string name float64 none = ok (codes "Float64")
  base_data_type_string name binary none = ok (codes "Binary")
  base_data_type_string name large_binary none = ok (codes "Binary")
  base_data_type_string name fixed_size_binary none = ok (codes "Binary")
  base_data_type_string name string none = ok (codes "String")
  base_data_type_string name large_string none = ok (codes "String")
  base_data_type_string name string_view none = ok (codes "String")
  base_data_type_string name timestamp none = ok (codes "Timestamp")
  base_data_type_string name date32 none = ok (codes "Date")
  base_data_type_string name (decimal64 p s) none = ok (decimal_name p s)
  base_data_type_string name (decimal128 p s) none = ok (decimal_name p s)
  base_data_type_string name (decimal256 p s) none = ok (decimal_name p s)
  base_data_type_string name (list f) none =
      data_type_string f >>= λ inner. ok (call (codes "Array") (inner ∷ []))
  base_data_type_string name (large_list f) none =
      data_type_string f >>= λ inner. ok (call (codes "Array") (inner ∷ []))
  base_data_type_string name (arrow_map k v) none = do
    key ← data_type_string k
    value ← data_type_string v
    ok (call (codes "Map") (key ∷ value ∷ []))
  base_data_type_string name (struct fs) none =
      struct_parts fs >>= λ parts. ok (call (codes "Tuple") parts)
  base_data_type_string name (fixed_size_list _ _) none = err (bad_type name)
  base_data_type_string name other none = err (bad_type name)

  -- The loop over the fields of a struct.
  pub struct_parts : ArrowFields → Result SchemaError (List Bytes)
  struct_parts nil = ok []
  struct_parts (cons f fs) = do
    inner ← data_type_string f
    parts ← struct_parts fs
    ok (inner ∷ parts)

abbrev pub field_name : ArrowField → Bytes
field_name (field name _ _ _) = name

-- dataFieldsFromArrowSchema, on a schema that is not nil
unfoldable pub data_fields : ArrowFields → Result SchemaError (List DataField)
data_fields nil = ok []
data_fields (cons f fs) = do
  kind ← data_type_string f
  fields ← data_fields fs
  ok (record { name = field_name f; kind = kind } ∷ fields)

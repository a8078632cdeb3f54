-- ===== src/Arrow/Schema/Desc.antt =====
-- The column type that an Arrow field stands for, apart from how the code writes it.
use lake_go.Prelude.{
  Bool, true, false, not, ◌&&◌, Option, none, some, [], Bytes, codes, if◌then◌else◌,
}
use lake_go.Prelude.Decimal.{ℤ, decimal_ℤ}
use lake_go.Types.TypeDesc.{TypeDesc, desc, Descs, nil, cons, set_nullable}
use lake_go.Arrow.Schema.{
  ArrowType, ArrowField, ArrowFields, null, boolean, int8, int16, int32, int64, uint8, uint16,
  uint32, uint64, float32, float64, binary, large_binary, fixed_size_binary, string, large_string,
  string_view, timestamp, date32, decimal64, decimal128, decimal256, list, large_list, arrow_map,
  struct, fixed_size_list, other, field, named_extension,
}

abbrev pub named : Bytes → TypeDesc
named name = desc name false nil

abbrev pub one : TypeDesc → Descs
one d = cons d nil

abbrev pub decimal_desc : ℤ → ℤ → TypeDesc
decimal_desc p s =
    desc (codes "Decimal") false (cons (named (decimal_ℤ p)) (one (named (decimal_ℤ s))))

-- The type of an Arrow vector.
abbrev pub vector_desc : ArrowType → TypeDesc
vector_desc (fixed_size_list type n) = desc (codes "Vector") false (one (named (decimal_ℤ n)))
vector_desc type = named []

abbrev pub extension_desc : ArrowType → Option Bytes → TypeDesc
extension_desc type (some known) = named known
extension_desc type none = vector_desc type

-- The null type has no nullable version.
abbrev pub is_null_type : Option Bytes → ArrowType → Bool
is_null_type (some e) _ = false
is_null_type none null = true
is_null_type none _ = false

abbrev pub nullable_desc : Bool → TypeDesc → TypeDesc
nullable_desc nullable d = if nullable then desc (codes "Nullable") false (one d) else d

-- The column type that an Arrow field stands for.
unfoldable mutual
  unfolding named_extension

  pub field_desc : ArrowField → TypeDesc
  field_desc (field name type nullable extension) =
      nullable_desc (nullable && not (is_null_type extension type)) (base_desc type extension)

  pub base_desc : ArrowType → Option Bytes → TypeDesc
  base_desc type (some e) = extension_desc type (named_extension e)
  base_desc null none = named (codes "Null")
  base_desc boolean none = named (codes "Boolean")
  base_desc int8 none = named (codes "Int8")
  base_desc int16 none = named (codes "Int16")
  base_desc int32 none = named (codes "Int32")
  base_desc int64 none = named (codes "Int64")
  base_desc uint8 none = named (codes "UInt8")
  base_desc uint16 none = named (codes "UInt16")
  base_desc uint32 none = named (codes "UInt32")
  base_desc uint64 none = named (codes "UInt64")
  base_desc float32 none = named (codes "Float32")
  base_desc float64 none = named (codes "Float64")
  base_desc binary none = named (codes "Binary")
  base_desc large_binary none = named (codes "Binary")
  base_desc fixed_size_binary none = named (codes "Binary")
  base_desc string none = named (codes "String")
  base_desc large_string none = named (codes "String")
  base_desc string_view none = named (codes "String")
  base_desc timestamp none = named (codes "Timestamp")
  base_desc date32 none = named (codes "Date")
  base_desc (decimal64 p s) none = decimal_desc p s
  base_desc (decimal128 p s) none = decimal_desc p s
  base_desc (decimal256 p s) none = decimal_desc p s
  base_desc (list f) none = desc (codes "Array") false (one (field_desc f))
  base_desc (large_list f) none = desc (codes "Array") false (one (field_desc f))
  base_desc (arrow_map k v) none =
      desc (codes "Map") false (cons (field_desc k) (one (field_desc v)))
  base_desc (struct fs) none = desc (codes "Tuple") false (field_descs fs)
  base_desc (fixed_size_list _ _) none = named []
  base_desc other none = named []

  pub field_descs : ArrowFields → Descs
  field_descs ArrowFields.nil = nil
  field_descs (ArrowFields.cons f fs) = cons (field_desc f) (field_descs fs)

-- The type of the column, with whether it is nullable: what `Normalize` makes of it.
unfoldable pub normal_desc : ArrowField → TypeDesc
unfolding base_desc
normal_desc (field name type nullable extension) =
    if nullable && not (is_null_type extension type)
    then set_nullable (base_desc type extension)
    else base_desc type extension

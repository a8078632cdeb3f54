-- ===== src/Arrow/Schema/RoundTrip.antt =====
-- What the code writes for an Arrow schema is read back as the types of its fields.
use mathlib.Core.Option
use lake_go.Prelude.{
  ap, ◌≡◌, refl, Bool, true, false, not, ◌&&◌, some, List, [], ◌∷◌, Bytes, if◌then◌else◌,
}
use lake_go.Prelude.Result.{ok, OnOk, returns, OnOk-bind, OnOk-ok}
use lake_go.Types.TypeDesc.{TypeDesc, parse_type_desc, normalize, set_nullable}
use lake_go.Query.Response.{DataField}
use lake_go.Arrow.Schema.{ArrowField, ArrowFields, field, data_type_string, field_name, data_fields}
use lake_go.Arrow.Schema.Texts.{Reads-parse_type_desc}
use lake_go.Arrow.Schema.Desc.{is_null_type, nullable_desc, field_desc, normal_desc}
use lake_go.Arrow.Schema.Bases.{nullable_Reads, base_data_type_string-Bases}

normalize-nullable_desc :
    (b : Bool) (d : TypeDesc)
    → normalize d ≡ some d
    → normalize (nullable_desc b d) ≡ some (if b then set_nullable d else d)
unfolding normalize
normalize-nullable_desc false d h = h
normalize-nullable_desc true d h = ap (Option.map set_nullable) h

-- The type that is written for a field is read back, to the type of the field.
pub record IsColumn (f : ArrowField) (t : Bytes) : Type 0 where
  pub parsed : parse_type_desc t ≡ ok (field_desc f)
  pub normal : normalize (field_desc f) ≡ some (normal_desc f)

data_type_string-IsColumn : (f : ArrowField) → OnOk (IsColumn f) (data_type_string f)
unfolding data_type_string field_desc normal_desc
data_type_string-IsColumn (field name type nullable extension) =
    OnOk-bind _ (base_data_type_string-Bases name type extension) (λ t h.
      let b : Bool = is_null_type extension type in
      returns (record {
        parsed = Reads-parse_type_desc (nullable_Reads nullable b h);
        normal = normalize-nullable_desc (nullable && not b) _ h.normal;
      }))

-- The fields have the names of those of the schema, and types that are read back to theirs.
abbrev pub ReadBack : ArrowFields → List DataField → Type 0
ReadBack ArrowFields.nil [] = Unit
ReadBack ArrowFields.nil (d ∷ ds) = ⊥
ReadBack (ArrowFields.cons f fs) [] = ⊥
ReadBack (ArrowFields.cons f fs) (d ∷ ds) =
    (d.name ≡ field_name f) × IsColumn f d.kind × ReadBack fs ds

data_fields_all : (fs : ArrowFields) → OnOk (ReadBack fs) (data_fields fs)
unfolding data_fields
data_fields_all ArrowFields.nil = returns tt
data_fields_all (ArrowFields.cons f fs) =
    OnOk-bind _ (data_type_string-IsColumn f)
      (λ t c. OnOk-bind _ (data_fields_all fs) (λ ds h. returns (refl, c, h)))

-- The column types that are written for an Arrow schema, one for each field and under its name, are
-- read back by `ParseTypeDesc` and `Normalize` to the types of the fields: lists, maps, structs and
-- extensions to any depth, nullable where the field is and is not of the null type.
pub data_fields-ReadBack :
    (fs : ArrowFields) {ds : List DataField} → data_fields fs ≡ ok ds → ReadBack fs ds
data_fields-ReadBack fs e = OnOk-ok (data_fields_all fs) e

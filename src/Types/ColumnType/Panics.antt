-- ===== src/Types/ColumnType/Panics.antt =====
-- Type texts at which `NewColumnType` reads an argument that is not there.
use lake_go.Prelude.{◌≡◌, ◌⊎◌, inl, inr, Bool, Bytes, codes}
use lake_go.Prelude.Result.{ok, err, map_err}
use lake_go.Types.TypeDesc.{desc, nil, parse_type_desc, normalize}
use lake_go.Types.ColumnType.{
  ColumnTypeOptions, Parsers, panic, new_column_type, column_of_desc, simple_scan_type,
}

-- A type text that is read as `Nullable` or `Decimal` with no argument panics, in the place of an
-- error.
pub new_column_type-panic :
    {Z T E : Type 0} (lib : Parsers Z T E) (opts : ColumnTypeOptions Z) (db_type name : Bytes)
    (nullable : Bool)
    → (name ≡ codes "Nullable") ⊎ (name ≡ codes "Decimal")
    → parse_type_desc db_type ≡ ok (desc name nullable nil)
    → new_column_type lib db_type opts ≡ err panic
unfolding new_column_type normalize column_of_desc simple_scan_type
new_column_type-panic lib opts db_type name nullable (inl n) h = rw (h, map_err) (rw n)
new_column_type-panic lib opts db_type name nullable (inr n) h = rw (h, map_err) (rw n)

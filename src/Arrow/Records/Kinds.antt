-- ===== src/Arrow/Records/Kinds.antt =====
-- A value of a column has the same Go type whether it comes in JSON or in Arrow.
use lake_go.Prelude.{ℕ, ◌≡◌, Bool, some, Bytes, codes, bytes_eq, if_both}
use lake_go.Prelude.Result.{ok, OnOk, returns}
use lake_go.Types.TypeDesc.{TypeDesc, desc, Descs, parse_type_desc, normalize}
use lake_go.Types.ColumnType.{ColumnTypeOptions, Parsers, new_column_type}
use lake_go.Types.ColumnType.Kinds.{HasKind, kind_of_name, OfKind, new_column_type-OfKind}
use lake_go.Arrow.Values.{Column, ArrowLib}
use lake_go.Arrow.Values.Kinds.{materialize_driver_value-HasKind}
use lake_go.Arrow.Records.{cell}

cell-HasKind :
    {Z T E M : Type 0} (arrow : ArrowLib Z T E M) (name : Bytes) (c : Column T M) (i : ℕ)
    (location : Z)
    → OnOk (HasKind (kind_of_name name)) (cell arrow name c i location)
unfolding cell
cell-HasKind arrow name c i location =
    if_both (OnOk (HasKind (kind_of_name name))) (bytes_eq name (codes "Null")) (returns tt) (
      if_both (OnOk (HasKind (kind_of_name name))) (c.is_null i) (returns tt)
        (materialize_driver_value-HasKind arrow name c i location))

-- The type of a column decides the Go type of its values that are not null, be they read from an
-- Arrow column or parsed from a page in JSON: a string, bytes or a time. Of its scan type it is the
-- same where that is bytes or a time, and a string otherwise.
pub column_kinds :
    {Z T E M : Type 0} (arrow : ArrowLib Z T E M) (lib : Parsers Z T E) (db_type : Bytes)
    (opts : ColumnTypeOptions Z) (nullable : Bool) (args : Descs) (name : Bytes) {d : TypeDesc}
    → parse_type_desc db_type ≡ ok d
    → normalize d ≡ some (desc name nullable args)
    → (c : Column T M) (i : ℕ) (location : Z)
    → OnOk (HasKind (kind_of_name name)) (cell arrow name c i location)
      × OnOk (OfKind lib (kind_of_name name)) (new_column_type lib db_type opts)
column_kinds arrow lib db_type opts nullable args name p n c i location = (
  cell-HasKind arrow name c i location,
  new_column_type-OfKind lib db_type opts nullable args name p n,
)

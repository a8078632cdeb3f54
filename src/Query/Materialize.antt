-- ===== src/Query/Materialize.antt =====
-- result_rows.go: `materializeJSONQueryRows`, which reads the texts of a page by the types of its
-- schema, and `parse_schema` of rows.go.
pub mod Ragged
pub mod Same
use lake_go.Prelude.{
  ℕ, Bool, true, false, not, Option, none, some, List, [], ◌∷◌, length, drop, ◌==◌, if◌then◌else◌,
  Bytes,
}
use lake_go.Prelude.Result.{Result, ok, err, ◌>>=◌, map_err}
use lake_go.Types.Binary.{parse_binary_output_format, parse_http_json_result_mode}
use lake_go.Types.ColumnType.{
  Value, null, ColumnType, ColumnTypeOptions, Parsers, ColumnError, default_column_type_options,
  new_column_type, parse_value,
}
use lake_go.Query.Response.{DataField, Settings, QueryResponse, is_nil}

pub data RowsError (E : Type 0) : Type 0 where
  -- "query rows and schema do not match" and the like
  mismatch : RowsError E
  bad_location : E → RowsError E
  -- "newTextRows: failed to create a data parser for the type '%s'"
  bad_column : Bytes → ColumnError E → RowsError E
  bad_value : E → RowsError E
  -- the run-time panic of an index out of range
  panic : RowsError E

pub record Schema (Z : Type 0) : Type 0 where
  pub columns : List Bytes
  pub types : List (ColumnType Z)

abbrev pub width_is : Option (List DataField) → ℕ → Bool
width_is none n = false
width_is (some fields) n = length fields == n

module _ {Z T E : Type 0} (lib : Parsers Z T E) where
  -- The loop of `parse_schema`.
  unfoldable pub parse_fields :
      ColumnTypeOptions Z → List DataField → Result (RowsError E) (Schema Z)
  parse_fields opts [] = ok (record { columns = []; types = [] })
  parse_fields opts (f ∷ fields) = do
    t ← map_err (bad_column f.kind) (new_column_type lib f.kind opts)
    rest ← parse_fields opts fields
    ok (record { columns = f.name ∷ rest.columns; types = t ∷ rest.types })

  unfoldable pub parse_schema :
      Option (List DataField) → ColumnTypeOptions Z → Result (RowsError E) (Schema Z)
  parse_schema none opts = ok (record { columns = []; types = [] })
  parse_schema (some fields) opts = parse_fields opts fields

  -- One cell; `types` are those of its column and of the columns behind it.
  unfoldable pub parse_cell : List (ColumnType Z) → Option Bytes → Result (RowsError E) (Value T)
  parse_cell types none = ok null
  parse_cell [] (some s) = err panic
  parse_cell (t ∷ types) (some s) = map_err bad_value (parse_value lib t s)

  unfoldable pub parse_row :
      List (ColumnType Z) → List (Option Bytes) → Result (RowsError E) (List (Value T))
  parse_row types [] = ok []
  parse_row types (v ∷ row) = do
    x ← parse_cell types v
    xs ← parse_row (drop 1 types) row
    ok (x ∷ xs)

  unfoldable pub parse_rows :
      List (ColumnType Z)
      → List (List (Option Bytes))
      → Result (RowsError E) (List (List (Value T)))
  parse_rows types [] = ok []
  parse_rows types (row ∷ rows) = do
    x ← parse_row types row
    xs ← parse_rows types rows
    ok (x ∷ xs)

  module _ (load_location : Bytes → Result E Z) where
    abbrev with_location : ColumnTypeOptions Z → Bytes → Result (RowsError E) (ColumnTypeOptions Z)
    with_location opts name =
        if is_nil name
        then ok opts
        else map_err bad_location (load_location name) >>= λ z. ok (record opts { timezone = z })

    -- queryResponseColumnTypeOptions
    unfoldable pub column_type_options :
        Option Settings → Result (RowsError E) (ColumnTypeOptions Z)
    column_type_options none = ok (default_column_type_options lib)
    column_type_options (some s) =
        with_location
          (record (default_column_type_options lib) {
            binary_output_format = parse_binary_output_format s.binary_output_format;
            http_json_result_mode = parse_http_json_result_mode s.http_json_result_mode;
          })
          s.timezone

    abbrev has_rows : Option (List (List (Value T))) → Bool
    has_rows (some (row ∷ rows)) = true
    has_rows _ = false

    -- The rows, where there are raw ones to read.
    materialize_data :
        QueryResponse T → List (List (Option Bytes)) → Result (RowsError E) (QueryResponse T)
    materialize_data r [] = ok r
    materialize_data r (row ∷ rows) =
        if not (width_is r.schema (length row))
        then err mismatch
        else column_type_options r.settings >>= λ opts. parse_schema r.schema opts >>= λ schema.
            parse_rows schema.types (row ∷ rows) >>= λ typed.
            ok (record r { data_rows = []; typed_rows = some typed })

    -- materializeJSONQueryRows, on a response that is not nil
    unfoldable pub materialize_json_query_rows :
        QueryResponse T → Result (RowsError E) (QueryResponse T)
    unfolding materialize_data
    materialize_json_query_rows r =
        if has_rows r.typed_rows then ok r else materialize_data r r.data_rows

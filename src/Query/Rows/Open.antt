-- ===== src/Query/Rows/Open.antt =====
-- rows.go: `newNextRows`, with `columnTypeOptions` of connection.go.
use lake_go.Prelude.{
  Bool, true, false, not, ◌&&◌, Option, none, some, List, [], ◌∷◌, length, if◌then◌else◌, Bytes,
}
use lake_go.Prelude.Result.{Result, ok, err, ◌>>=◌, map_err}
use lake_go.Types.Binary.{parse_binary_output_format, parse_http_json_result_mode}
use lake_go.Types.ColumnType.{ColumnTypeOptions, Parsers, default_column_type_options}
use lake_go.Query.Response.{QueryResponse, Settings, is_nil, typed_of}
use lake_go.Query.Materialize.{
  RowsError, mismatch, bad_location, width_is, parse_schema, materialize_json_query_rows,
}
use lake_go.Query.Rows.{NextRows, head_row}

-- What the connection's configuration says of the columns.
pub record ColumnConfig (Z : Type 0) : Type 0 where
  pub location : Option Z
  pub binary_output_format : Option Bytes
  pub http_json_result_mode : Option Bytes

abbrev pub has_row : {A : Type 0} → List (List A) → Bool
has_row [] = false
has_row (row ∷ rows) = true

module _ {Z : Type 0} where
  first_of : Option Z → Option Z → Z → Z
  first_of (some z) other default = z
  first_of none (some z) default = z
  first_of none none default = default

  set_format : Option Bytes → ColumnTypeOptions Z → ColumnTypeOptions Z
  set_format none opts = opts
  set_format (some s) opts = record opts { binary_output_format = parse_binary_output_format s }

  set_mode : Option Bytes → ColumnTypeOptions Z → ColumnTypeOptions Z
  set_mode none opts = opts
  set_mode (some s) opts = record opts { http_json_result_mode = parse_http_json_result_mode s }

module _ {Z T E : Type 0} (lib : Parsers Z T E) (load_location : Bytes → Result E Z) where
  -- columnTypeOptions
  pub conn_column_type_options : ColumnConfig Z → Option Z → ColumnTypeOptions Z
  conn_column_type_options cfg location =
      let opts = default_column_type_options lib in
      set_mode cfg.http_json_result_mode (
        set_format cfg.binary_output_format
          (record opts { timezone = first_of location cfg.location opts.timezone }))

  pub locate : Option Settings → Result (RowsError E) (Option Z)
  locate none = ok none
  locate (some s) =
      if is_nil s.timezone
      then ok none
      else map_err bad_location (load_location s.timezone) >>= λ z. ok (some z)

  materialize_raw : QueryResponse T → Result (RowsError E) (QueryResponse T)
  materialize_raw r = elim r.typed_rows [
    | none ↦ materialize_json_query_rows lib load_location r
    | some rows ↦ ok r
  ]

  open_rows : ColumnConfig Z → QueryResponse T → Result (RowsError E) (NextRows Z T)
  open_rows cfg r =
      if has_row (typed_of r.typed_rows)
        && not (width_is r.schema (length (head_row (typed_of r.typed_rows))))
      then err mismatch
      else locate r.settings >>= λ location.
          parse_schema lib r.schema (conn_column_type_options cfg location) >>= λ schema.
          ok (record {
            columns = schema.columns;
            types = schema.types;
            is_closed = false;
            resp_data = some r;
          })

  -- newNextRows
  unfoldable pub new_next_rows :
      ColumnConfig Z → QueryResponse T → Result (RowsError E) (NextRows Z T)
  unfolding open_rows materialize_raw
  new_next_rows cfg r =
      if has_row r.data_rows && not (width_is r.schema (length (head_row r.data_rows)))
      then err mismatch
      else materialize_raw r >>= λ r'. open_rows cfg r'

-- ===== src/Query/Materialize/Ragged.antt =====
-- Pages whose rows are not all as wide as the schema.
use lake_go.Prelude.{refl, ◌≡◌, true, none, some, List, [], ◌∷◌, ◌++◌, length, arith, Bytes, Option}
use lake_go.Prelude.Result.{Result, ok, err, ok_of_bind}
use lake_go.Types.ColumnType.{Value, ColumnType, ColumnTypeOptions, Parsers}
use lake_go.Query.Response.{QueryResponse}
use lake_go.Query.Materialize.{
  panic, Schema, width_is, column_type_options, parse_schema, parse_cell, parse_row, parse_rows,
  materialize_json_query_rows,
}

module _ {Z T E : Type 0} (lib : Parsers Z T E) where
  parse_row-panic :
      (types : List (ColumnType Z)) (before after : List (Option Bytes)) (s : Bytes)
      {vs : List (Value T)}
      → parse_row lib types before ≡ ok vs
      → length before ≡ length types
      → parse_row lib types (before ++ some s ∷ after) ≡ err panic
  unfolding parse_row parse_cell
  parse_row-panic [] [] after s h n = refl
  parse_row-panic [] (v ∷ before) after s h n = absurd (omega arith)
  parse_row-panic (t ∷ types) [] after s h n = absurd (omega arith)
  parse_row-panic (t ∷ types) (v ∷ before) after s h n =
      let (x, p, q) = ok_of_bind (parse_cell lib (t ∷ types) v) _ h in
      let (xs, p', q') = ok_of_bind (parse_row lib types before) _ q in
      rw (p, parse_row-panic types before after s p' (omega arith))

  -- A page panics when its first row is as wide as the schema and readable, and its second is
  -- wider, with a value in the first place too many, and readable up to there.
  pub materialize-panic :
      (load_location : Bytes → Result E Z) (r : QueryResponse T) (opts : ColumnTypeOptions Z)
      (schema : Schema Z) (first before after : List (Option Bytes)) (s : Bytes)
      (rest : List (List (Option Bytes))) {us vs : List (Value T)}
      → r.typed_rows ≡ none
      → r.data_rows ≡ first ∷ (before ++ some s ∷ after) ∷ rest
      → width_is r.schema (length first) ≡ true
      → column_type_options lib load_location r.settings ≡ ok opts
      → parse_schema lib r.schema opts ≡ ok schema
      → parse_row lib schema.types first ≡ ok us
      → parse_row lib schema.types before ≡ ok vs
      → length before ≡ length schema.types
      → materialize_json_query_rows lib load_location r ≡ err panic
  unfolding materialize_json_query_rows parse_rows
  materialize-panic load_location r opts schema first before after s rest t d w o p f b n =
      rw (t, d, w, o, p, f, parse_row-panic schema.types before after s b n)

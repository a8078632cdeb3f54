-- ===== src/Query/Materialize/Same.antt =====
-- Reading the rows of a page leaves the rest of the response.
use lake_go.Prelude.{◌≡◌, refl, Option, some, List, [], ◌∷◌, inl, inr, Bytes, length, Bool-cases}
use lake_go.Prelude.Result.{Result, ok, ok_of_bind}
use lake_go.Types.ColumnType.{Parsers}
use lake_go.Query.Response.{QueryResponse}
use lake_go.Query.Materialize.{
  width_is, column_type_options, parse_schema, parse_rows, has_rows, materialize_data,
  materialize_json_query_rows,
}

-- The responses differ in their rows only.
pub record IsRest {T : Type 0} (r r' : QueryResponse T) : Type 0 where
  pub error_same : r'.error ≡ r.error
  pub session_same : r'.session ≡ r.session
  pub next_same : r'.next_uri ≡ r.next_uri
  pub final_same : r'.final_uri ≡ r.final_uri

pub IsRest-ok :
    {T E : Type 0} (a r : QueryResponse T) {r' : QueryResponse T}
    → IsRest a r
    → ◌≡◌ {A = Result E (QueryResponse T)} (ok r) (ok r')
    → IsRest a r'
IsRest-ok a r {r'} s h = let e : r ≡ r' = cc in rw (← e) s

module _ {Z T E : Type 0} (lib : Parsers Z T E) (load_location : Bytes → Result E Z) where
  materialize_data-IsRest :
      (r : QueryResponse T) (rows : List (List (Option Bytes))) {r' : QueryResponse T}
      → materialize_data lib load_location r rows ≡ ok r'
      → IsRest r r'
  unfolding materialize_data
  materialize_data-IsRest r [] h =
      IsRest-ok r r
        (record { error_same = refl; session_same = refl; next_same = refl; final_same = refl }) h
  materialize_data-IsRest r (row ∷ rows) h = elim (Bool-cases (width_is r.schema (length row))) [
    | inl w ↦
        let (opts, p, h1) =
          ok_of_bind (column_type_options lib load_location r.settings) _ (rw w at h) in
        let (schema, q, h2) = ok_of_bind (parse_schema lib r.schema opts) _ h1 in
        let (typed, t, h3) = ok_of_bind (parse_rows lib schema.types (row ∷ rows)) _ h2 in
        IsRest-ok r (record r { data_rows = []; typed_rows = some typed })
          (record { error_same = refl; session_same = refl; next_same = refl; final_same = refl })
          h3
    | inr w ↦ cc (rw w at h)
  ]

  pub materialize_json_query_rows-IsRest :
      (r : QueryResponse T) {r' : QueryResponse T}
      → materialize_json_query_rows lib load_location r ≡ ok r'
      → IsRest r r'
  unfolding materialize_json_query_rows
  materialize_json_query_rows-IsRest r h =
      elim (Bool-cases (has_rows lib load_location r.typed_rows)) [
        | inl w ↦
            IsRest-ok r r
              (record {
                error_same = refl;
                session_same = refl;
                next_same = refl;
                final_same = refl;
              })
              (rw w at h)
        | inr w ↦ materialize_data-IsRest r r.data_rows (rw w at h)
      ]

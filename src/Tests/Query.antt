-- ===== src/Tests/Query.antt =====
-- Tests of the rows of a query.
use lake_go.Query.Rows.{NextError, eof, next, Pager, NextRows}
use lake_go.Query.Rows.Closing.{Polled, none_polled, one_polled, poll_failed, next-failed}
use lake_go.Query.Materialize.{
  column_type_options, Schema, parse_schema, parse_fields, parse_row, parse_cell,
  materialize_json_query_rows, panic,
}
use lake_go.Prelude.Result.{Result, ok, err}
use lake_go.Prelude.{
  ◌≡◌, refl, false, Option, none, some, List, [], ◌∷◌, arith, Bytes, codes, bytes_eq, if◌then◌else◌,
}
use lake_go.Types.TypeDesc.{
  desc, nil, normalize, parse_type_desc, parse_fuel, type_loop, type_step, type_end,
}
use lake_go.Types.ColumnType.{
  ColumnType, default_column_type_options, new_column_type, column_of_desc, simple_scan_type,
  parse_value, Value, text, unknown,
}
use lake_go.Query.Materialize.Ragged.{materialize-panic}
use lake_go.Query.Sync.Gather.{Gathers, poll_until_query_end-Streams}
use lake_go.Prelude.Text.{contains}
use lake_go.Client.Errors.{other}
use lake_go.Query.Response.{QueryResponse, read_finished}
use lake_go.Query.Rows.Stream.{Streams, last_page, more_pages, IsPage}
use lake_go.Query.Rows.Stream.Drain.{Drains, next-Drains}
use lake_go.Tests.Types.{parsers}

abbrev Row : Type 0
Row = List (Value Bytes)

-- A page with rows and the URI of the next page.
abbrev pub page : Option (List Row) → Bytes → QueryResponse Bytes
page rows uri = record {
  id = codes "q1";
  node_id = [];
  session = none;
  settings = none;
  schema = none;
  data_rows = [];
  typed_rows = rows;
  error = none;
  stats = none;
  final_uri = codes "/q1/end";
  next_uri = uri;
  kill_uri = [];
}

abbrev first : Row
first = text (codes "a") ∷ []

abbrev second : Row
second = text (codes "b") ∷ []

abbrev page_one : QueryResponse Bytes
page_one = page (some (first ∷ [])) (codes "/2")

abbrev page_two : QueryResponse Bytes
page_two = page none (codes "/3")

abbrev page_three : QueryResponse Bytes
page_three = page (some (second ∷ [])) []

-- The state is the list of the calls.
abbrev pub server : Pager Bytes (List Bytes)
server = record {
  poll_query = λ uri log. (
    if bytes_eq uri (codes "/2")
        then ok page_two
        else if bytes_eq uri (codes "/3")
        then ok page_three
        else if bytes_eq uri (codes "/8")
        then ok (page none (codes "/9"))
        else err (other []),
    uri ∷ log,
  );
  close_query = λ uri log. uri ∷ log;
  kill_query = λ uri log. uri ∷ log;
  close_detached = λ uri log. uri ∷ log;
}

abbrev map_column : ColumnType Bytes
map_column = unknown (codes "Map") (desc (codes "Map") false nil)

abbrev pub rows : NextRows Bytes Bytes
rows = record {
  columns = codes "x" ∷ [];
  types = map_column ∷ [];
  is_closed = false;
  resp_data = some page_one;
}

one-IsPage : IsPage 1 page_one
one-IsPage = record { no_raw = refl; no_error = refl; wide = (refl, tt) }

two-IsPage : IsPage 1 page_two
two-IsPage = record { no_raw = refl; no_error = refl; wide = tt }

three-IsPage : IsPage 1 page_three
three-IsPage = record { no_raw = refl; no_error = refl; wide = (refl, tt) }

server-Streams :
    Streams server 1 2 page_one []
      (first ∷ second ∷ [])
      (codes "/q1/end")
      (codes "/3" ∷ codes "/2" ∷ [])
unfolding read_finished contains
server-Streams =
    more_pages one-IsPage refl refl (more_pages two-IsPage refl refl (last_page three-IsPage refl))

next-Drains_example :
    Drains server parsers 3 rows []
      (first ∷ second ∷ [])
      (codes "/q1/end" ∷ codes "/3" ∷ codes "/2" ∷ [])
next-Drains_example =
    next-Drains server parsers 3 (first ∷ second ∷ []) rows 2 refl refl server-Streams
      (ground arith)

poll_until_query_end-Streams_example :
    Gathers server 1 3 page_one []
      (first ∷ second ∷ [])
      (codes "/q1/end")
      (codes "/3" ∷ codes "/2" ∷ [])
poll_until_query_end-Streams_example =
    poll_until_query_end-Streams server 1 2 3 server-Streams (ground arith)

-- One column, and a second row of two values.
abbrev ragged : QueryResponse Bytes
ragged = record (page none []) {
  schema = some (record { name = codes "x"; kind = codes "Map" } ∷ []);
  data_rows = (some (codes "1") ∷ []) ∷ (some (codes "2") ∷ some (codes "3") ∷ []) ∷ [];
}

abbrev location : Bytes → Result Bytes Bytes
location s = ok s

abbrev one_column : Schema Bytes
one_column = record { columns = codes "x" ∷ []; types = map_column ∷ [] }

options_run :
    column_type_options parsers location ragged.settings ≡ ok (default_column_type_options parsers)
unfolding column_type_options
options_run = refl

schema_run :
    parse_schema parsers ragged.schema (default_column_type_options parsers) ≡ ok one_column
unfolding parse_schema parse_fields new_column_type normalize column_of_desc simple_scan_type
    parse_type_desc parse_fuel type_loop type_step type_end
schema_run = refl

cell_run : (s : Bytes) → parse_row parsers (map_column ∷ []) (some s ∷ []) ≡ ok (text s ∷ [])
unfolding parse_row parse_cell parse_value
cell_run s = refl

materialize-panic_example : materialize_json_query_rows parsers location ragged ≡ err panic
materialize-panic_example =
    materialize-panic parsers location ragged (default_column_type_options parsers) one_column
      (some (codes "1") ∷ []) (some (codes "2") ∷ []) [] (codes "3") [] refl refl refl options_run
      schema_run (cell_run (codes "1")) (cell_run (codes "2")) refl

-- A page whose next URI the server does not know.
abbrev lost : QueryResponse Bytes
lost = page none (codes "/9")

abbrev lost_rows : NextRows Bytes Bytes
lost_rows = record rows { resp_data = some (page none (codes "/8")) }

lost_unfinished : read_finished lost ≡ false
unfolding read_finished contains
lost_unfinished = refl

-- A page with no row, in front of it.
abbrev before_lost : QueryResponse Bytes
before_lost = page none (codes "/8")

before_unfinished : read_finished before_lost ≡ false
unfolding read_finished contains
before_unfinished = refl

lost-Polled : Polled server parsers 2 1 before_lost [] lost (codes "/8" ∷ [])
lost-Polled =
    one_polled (record { no_error = refl; no_row = refl; unfinished = before_unfinished }) refl refl
      none_polled

next-failed_example :
    (next server parsers 2 lost_rows 1 [] ≡ (
      err (NextError.page (other [])),
      (record lost_rows { resp_data = none }, codes "/q1/end" ∷ codes "/9" ∷ codes "/8" ∷ []),
    ))
    × (next server parsers 2 (record lost_rows { resp_data = none }) 1 []
        ≡ (err eof, (record lost_rows { resp_data = none }, [])))
next-failed_example =
    next-failed server parsers 2 lost_rows 1 before_lost lost [] (codes "/8" ∷ [])
      (codes "/q1/end" ∷ codes "/9" ∷ codes "/8" ∷ []) [] (other []) refl refl refl refl lost-Polled
      (record { no_error = refl; no_row = refl; unfinished = lost_unfinished })
      (poll_failed refl refl) (ground arith)

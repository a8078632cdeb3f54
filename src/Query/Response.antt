-- ===== src/Query/Response.antt =====
-- query.go: `QueryResponse`, a page of a query's result, and its cells. `T` is the type of instants.
use lake_go.Prelude.{
  ℕ, Bool, true, false, ◌||◌, Option, none, some, List, [], ◌∷◌, length, get_elem?, Bytes, codes,
  if◌then◌else◌,
}
use lake_go.Prelude.Decimal.{ℤ, pos}
use lake_go.Prelude.Result.{Result, ok}
use lake_go.Prelude.Text.{contains}
use lake_go.Client.Errors.{QueryError}
use lake_go.Types.ColumnType.{Value, text}

pub record DataField : Type 0 where
  pub name : Bytes
  pub kind : Bytes

pub record Settings : Type 0 where
  pub timezone : Bytes
  pub binary_output_format : Bytes
  pub http_json_result_mode : Bytes

-- A slice of a response may be nil, which is not the empty one.
pub record QueryResponse (T : Type 0) : Type 0 where
  pub id : Bytes
  pub node_id : Bytes
  pub session : Option Bytes
  pub settings : Option Settings
  pub schema : Option (List DataField)
  pub data_rows : List (List (Option Bytes))
  pub typed_rows : Option (List (List (Value T)))
  pub error : Option QueryError
  -- the text of the statistics, which only the tracker reads
  pub stats : Option Bytes
  pub final_uri : Bytes
  pub next_uri : Bytes
  pub kill_uri : Bytes

abbrev pub is_nil : Bytes → Bool
is_nil [] = true
is_nil (c ∷ s) = false

at_cell : {A : Type 0} → List (List A) → ℕ → ℕ → Option A
at_cell rows i j = elim (get_elem? rows i) [ none ↦ none | some row ↦ get_elem? row j ]

names_rows : Option (List DataField) → Bool
names_rows (some (f ∷ fields)) = contains f.name (codes "number of rows")
names_rows _ = false

affected : {E : Type 0} → (Bytes → Result E ℤ) → Option Bytes → Result E ℤ
affected parse_int none = ok (pos 0)
affected parse_int (some s) = parse_int s

module _ {T : Type 0} where
  -- ReadFinished
  unfoldable pub read_finished : QueryResponse T → Bool
  read_finished r = is_nil r.next_uri || contains r.next_uri (codes "/final")

  abbrev pub row_count : Option (List (List (Value T))) → List (List (Option Bytes)) → ℕ
  row_count (some rows) _ = length rows
  row_count none rows = length rows

  -- bufferedRowCount
  abbrev pub buffered_row_count : QueryResponse T → ℕ
  buffered_row_count r = row_count r.typed_rows r.data_rows

  -- The rows of the slice, which nil has none of.
  abbrev pub typed_of : Option (List (List (Value T))) → List (List (Value T))
  typed_of none = []
  typed_of (some rows) = rows

  raw_cell : Option (Option Bytes) → Option (Value T)
  raw_cell (some (some s)) = some (text s)
  raw_cell _ = none

  -- cellValue: a typed cell, or the text of a raw one.
  pub cell_value : QueryResponse T → ℕ → ℕ → Option (Value T)
  cell_value r i j = elim (at_cell (typed_of r.typed_rows) i j) [
    | some v ↦ some v
    | none ↦ raw_cell (at_cell r.data_rows i j)
  ]

  text_of : Option (Value T) → Option Bytes
  text_of (some (text s)) = some s
  text_of _ = none

  -- cellString
  pub cell_string : QueryResponse T → ℕ → ℕ → Option Bytes
  cell_string r i j = text_of (cell_value r i j)

  -- parseAffectedRows
  pub parse_affected_rows : {E : Type 0} → (Bytes → Result E ℤ) → QueryResponse T → Result E ℤ
  parse_affected_rows parse_int r =
      if names_rows r.schema then affected parse_int (cell_string r 0 0) else ok (pos 0)

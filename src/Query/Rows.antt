-- ===== src/Query/Rows.antt =====
-- rows.go: the rows of a query as database/sql reads them, page by page.
pub mod Closing
pub mod Keeps
pub mod Open
pub mod Stream
use lake_go.Prelude.{
  ℕ, zero, suc, Bool, true, false, not, ◌&&◌, ◌||◌, Option, none, some, List, [], ◌∷◌, length, ◌==◌,
  if◌then◌else◌, Bytes, codes, ◌++◌,
}
use lake_go.Prelude.Result.{Result, ok, err, ◌>>=◌, map_err}
use lake_go.Client.Errors.{
  Failure, QueryError, query_failed, other, out_of_fuel, is_canceled, query_error_text,
}
use lake_go.Types.ColumnType.{Value, ColumnType, ColumnTypeOptions, Parsers}
use lake_go.Query.Response.{
  QueryResponse, Settings, is_nil, read_finished, buffered_row_count, typed_of,
}
use lake_go.Query.Materialize.{
  RowsError, mismatch, bad_location, Schema, width_is, parse_schema, parse_row,
  materialize_json_query_rows,
}

-- The calls of the client that the rows make, on a state of the client and the world. `CloseQuery`
-- and `KillQuery` read the final and the kill URI of the response, and their error is always nil.
pub record Pager (T S : Type 0) : Type 0 where
  pub poll_query : Bytes → S → Result Failure (QueryResponse T) × S
  pub close_query : Bytes → S → S
  pub kill_query : Bytes → S → S
  -- CloseQuery with context.WithoutCancel
  pub close_detached : Bytes → S → S

pub record NextRows (Z T : Type 0) : Type 0 where
  pub columns : List Bytes
  pub types : List (ColumnType Z)
  pub is_closed : Bool
  pub resp_data : Option (QueryResponse T)

pub data NextError (E : Type 0) : Type 0 where
  -- io.EOF
  eof : NextError E
  -- "Next dest must has same size as the Columns() are wide"
  bad_dest : NextError E
  -- "internal error, …"
  internal : NextError E
  page : Failure → NextError E
  field : RowsError E → NextError E

abbrev pub has_error : Option QueryError → Bool
has_error none = false
has_error (some e) = true

abbrev pub head_row : {A : Type 0} → List (List A) → List A
head_row [] = []
head_row (row ∷ rows) = row

abbrev pub tail_rows : {A : Type 0} → List A → List A
tail_rows [] = []
tail_rows (row ∷ rows) = rows

abbrev pub tail_typed :
    {T : Type 0} → Option (List (List (Value T))) → Option (List (List (Value T)))
tail_typed none = none
tail_typed (some []) = some []
tail_typed (some (row ∷ rows)) = some rows

-- A row leaves the page.
abbrev pub pop : {T : Type 0} → QueryResponse T → QueryResponse T
pop r = record r { data_rows = tail_rows r.data_rows; typed_rows = tail_typed r.typed_rows }

module _ {T S : Type 0} (pager : Pager T S) where
  -- What follows a poll, where `next` is the loop.
  on_page :
      (QueryResponse T → S → Result Failure (QueryResponse T) × S)
      → QueryResponse T
      → Option QueryError
      → S
      → Result Failure (QueryResponse T) × S
  on_page next r none s = next r s
  on_page next r (some e) s =
      (err (other (codes "query error: " ++ query_error_text e)), pager.close_query r.final_uri s)

  after_poll :
      (QueryResponse T → S → Result Failure (QueryResponse T) × S)
      → QueryResponse T
      → Result Failure (QueryResponse T) × S
      → Result Failure (QueryResponse T) × S
  after_poll next r (err e, s) = (
    err e,
    if is_canceled e then pager.kill_query r.kill_uri s else pager.close_query r.final_uri s,
  )
  after_poll next r (ok r', s) = on_page next r' r'.error s

  -- The loop polls while the page at hand holds no row and is not the last.
  unfoldable pub wait_loop : ℕ → QueryResponse T → S → Result Failure (QueryResponse T) × S
  unfolding after_poll on_page
  wait_loop zero r s = (err out_of_fuel, s)
  wait_loop (suc n) r s =
      let polled = after_poll (wait_loop n) r (pager.poll_query r.next_uri s) in
      if not (read_finished r) && (buffered_row_count r == 0 && not (has_error r.error))
      then polled
      else (ok r, s)

  first_error : ℕ → QueryResponse T → Option QueryError → S → Result Failure (QueryResponse T) × S
  first_error fuel r (some e) s = (err (query_failed e), s)
  first_error fuel r none s = wait_loop fuel r s

  unfoldable pub wait_for_data : ℕ → QueryResponse T → S → Result Failure (QueryResponse T) × S
  unfolding first_error
  wait_for_data fuel r s = first_error fuel r r.error s

  module _ {Z E : Type 0} (lib : Parsers Z T E) where
    close_response : Option (QueryResponse T) → S → S
    close_response none s = s
    close_response (some r) s =
        if not (is_nil r.final_uri) then pager.close_detached r.final_uri s else s

    -- The page is let go where it was closed.
    closed_response : Option (QueryResponse T) → Option (QueryResponse T)
    closed_response none = none
    closed_response (some r) = if not (is_nil r.final_uri) then none else some r

    unfoldable pub do_close : NextRows Z T → S → NextRows Z T × S
    unfolding close_response closed_response
    do_close rows s = if rows.is_closed then (rows, s) else (
      record rows { is_closed = true; resp_data = closed_response rows.resp_data },
      close_response rows.resp_data s,
    )

    abbrev pub Step : Type 0
    Step = Result (NextError E) (List (Value T)) × (NextRows Z T × S)

    row_result :
        NextRows Z T → List (Value T) → List (Option Bytes) → Result (NextError E) (List (Value T))
    row_result rows (v ∷ typed) (t ∷ line) = err internal
    row_result rows (v ∷ typed) [] =
        if not (length (v ∷ typed) == length rows.columns) then err internal else ok (v ∷ typed)
    row_result rows [] line =
        if not (length line == length rows.columns)
        then err internal
        else map_err field (parse_row lib rows.types line)

    end_of_rows : NextRows Z T × S → Step
    end_of_rows closed = (err eof, closed)

    take_row : NextRows Z T → QueryResponse T → S → Step
    take_row rows r s =
        if buffered_row_count r == 0
        then end_of_rows (do_close (record rows { resp_data = some r }) s)
        else (
          row_result rows (head_row (typed_of r.typed_rows)) (head_row r.data_rows),
          (record rows { resp_data = some (pop r) }, s),
        )

    after_wait : NextRows Z T → Result Failure (QueryResponse T) × S → Step
    after_wait rows (err e, s) = (err (page e), (record rows { resp_data = none }, s))
    after_wait rows (ok r, s) = take_row rows r s

    next_of : ℕ → NextRows Z T → Option (QueryResponse T) → S → Step
    next_of fuel rows none s = (err eof, (rows, s))
    next_of fuel rows (some r) s =
        if buffered_row_count r == 0
        then after_wait rows (wait_for_data fuel r s)
        else take_row rows r s

    -- `Next`, for a destination of so many values; `fuel` bounds the pages with no row.
    unfoldable pub next : ℕ → NextRows Z T → ℕ → S → Step
    unfolding next_of after_wait take_row end_of_rows row_result
    next fuel rows dest s =
        if not (dest == length rows.columns)
        then (err bad_dest, (rows, s))
        else if rows.is_closed
        then (err eof, (rows, s))
        else next_of fuel rows rows.resp_data s

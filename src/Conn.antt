-- ===== src/Conn.antt =====
-- connection.go, stmt.go and transaction.go: statements on a connection. A connection is the client's
-- state, with whether the client is there and whether the connection was closed; the calls of the client
-- are an interface.
pub mod Closing
pub mod Session
pub mod Driven
use lake_go.Prelude.{
  ℕ, ◌≡◌, refl, Bool, true, false, not, Option, none, some, List, [], ◌∷◌, if◌then◌else◌, Bytes,
  codes,
}
use lake_go.Prelude.Decimal.{ℤ}
use lake_go.Prelude.Result.{Result, ok, err, map_err}
use lake_go.Client.Errors.{Failure, QueryError}
use lake_go.Sql.Scanner.{placeholders}
use lake_go.Sql.Splice.{BuildError}
use lake_go.Query.Response.{QueryResponse, is_nil}
use lake_go.Query.Materialize.{RowsError}
use lake_go.Query.Rows.{Pager, NextRows, wait_for_data}

-- The client as a connection calls it.
pub record Calls (T S : Type 0) : Type 0 where
  pub query_sync : Bytes → S → Result Failure (QueryResponse T) × S
  pub start_query : Bytes → S → Result Failure (QueryResponse T) × S
  pub pager : Pager T S
  pub logout : S → S
  -- sessionState.TxnState, where there is a session state
  pub txn_state : S → Option Bytes

pub data ConnError (E : Type 0) : Type 0 where
  building : BuildError → ConnError E
  failed : Failure → ConnError E
  -- "query failed: %w"
  start_failed : Failure → ConnError E
  -- "query error: %+v"
  reported : QueryError → ConnError E
  bad_rows : RowsError E → ConnError E
  bad_count : E → ConnError E
  -- driver.ErrBadConn
  bad_conn : ConnError E
  -- errStmtClosed
  stmt_closed : ConnError E
  -- the run-time panic of a nil pointer
  panic : ConnError E

-- LakeConn
pub record Conn (S : Type 0) : Type 0 where
  pub has_rest : Bool
  pub closed : Bool
  pub client : S

-- What the statements are built and read by: buildQuery, parseAffectedRows and newNextRows.
pub record Reading (V Z T E : Type 0) : Type 0 where
  pub build : Bytes → List V → Option (List ℕ) → Result BuildError Bytes
  pub affected_rows : QueryResponse T → Result E ℤ
  pub next_rows : QueryResponse T → Result (RowsError E) (NextRows Z T)

-- lakeStmt
pub record Stmt : Type 0 where
  pub query : Bytes
  pub placeholders : List ℕ
  pub closed : Bool

module _ {V Z T E S : Type 0} (calls : Calls T S) (reading : Reading V Z T E) where
  abbrev pub Done : Type 0 → Type 0
  Done A = Result (ConnError E) A × Conn S

  abbrev in_client : Conn S → S → Conn S
  in_client dc s = record dc { client = s }

  exec_result : Conn S → Result Failure (QueryResponse T) × S → Done ℤ
  exec_result dc (err e, s) = (err (failed e), in_client dc s)
  exec_result dc (ok r, s) = (map_err bad_count (reading.affected_rows r), in_client dc s)

  exec_built : Conn S → Result BuildError Bytes → Done ℤ
  exec_built dc (err e) = (err (building e), dc)
  exec_built dc (ok sql) =
      let done = exec_result dc (calls.query_sync sql dc.client) in
      if dc.has_rest then done else (err panic, dc)

  -- LakeConn.exec, with the number of rows of its result
  unfoldable pub exec : Bytes → Option (List ℕ) → List V → Conn S → Done ℤ
  unfolding exec_built exec_result
  exec query placeholders args dc = exec_built dc (reading.build query args placeholders)

  -- The deferred CloseQuery of a query that fails.
  unfoldable pub closed_query : QueryResponse T → S → S
  closed_query r s = if not (is_nil r.final_uri) then calls.pager.close_query r.final_uri s else s

  finish_rows :
      Conn S → QueryResponse T → S → Result (RowsError E) (NextRows Z T) → Done (NextRows Z T)
  finish_rows dc r s (err e) = (err (bad_rows e), in_client dc (closed_query r s))
  finish_rows dc r s (ok rows) = (ok rows, in_client dc s)

  wait_rows : Conn S → QueryResponse T → Result Failure (QueryResponse T) × S → Done (NextRows Z T)
  wait_rows dc r (err e, s) = (err (failed e), in_client dc (closed_query r s))
  wait_rows dc r (ok r', s) = finish_rows dc r s (reading.next_rows r')

  -- The fuel bounds the polls of waitForData.
  begin_rows : ℕ → Conn S → QueryResponse T → Option QueryError → S → Done (NextRows Z T)
  begin_rows fuel dc r (some e) s = (err (reported e), in_client dc (closed_query r s))
  begin_rows fuel dc r none s = wait_rows dc r (wait_for_data calls.pager fuel r s)

  query_started : ℕ → Conn S → Result Failure (QueryResponse T) × S → Done (NextRows Z T)
  query_started fuel dc (err e, s) = (err (start_failed e), in_client dc s)
  query_started fuel dc (ok r, s) = begin_rows fuel dc r r.error s

  query_built : ℕ → Conn S → Result BuildError Bytes → Done (NextRows Z T)
  query_built fuel dc (err e) = (err (building e), dc)
  query_built fuel dc (ok sql) =
      let done = query_started fuel dc (calls.start_query sql dc.client) in
      if dc.has_rest then done else (err panic, dc)

  -- LakeConn.query
  unfoldable pub conn_query : ℕ → Bytes → Option (List ℕ) → List V → Conn S → Done (NextRows Z T)
  unfolding query_built query_started begin_rows wait_rows finish_rows
  conn_query fuel query placeholders args dc =
      query_built fuel dc (reading.build query args placeholders)

  done_unit : Done ℤ → Done (Unit {0})
  done_unit (err e, dc) = (err e, dc)
  done_unit (ok n, dc) = (ok tt, dc)

  -- BeginTx
  unfoldable pub begin_tx : Conn S → Done (Unit {0})
  unfolding done_unit
  begin_tx dc =
      let done = done_unit (exec (codes "BEGIN") none [] dc) in
      if dc.has_rest then done else (err bad_conn, dc)

  commit_in : Option Bytes → Conn S → Done (Unit {0})
  commit_in none dc = (err panic, dc)
  commit_in (some []) dc = (ok tt, dc)
  commit_in (some (c ∷ state)) dc = done_unit (exec (codes "COMMIT") none [] dc)

  -- lakeTx.Commit and lakeTx.Rollback
  unfoldable pub commit : Conn S → Done (Unit {0})
  unfolding commit_in done_unit
  commit dc = if dc.has_rest then commit_in (calls.txn_state dc.client) dc else (err bad_conn, dc)

  unfoldable pub rollback : Conn S → Done (Unit {0})
  unfolding done_unit
  rollback dc =
      let done = done_unit (exec (codes "ROLLBACK") none [] dc) in
      if dc.has_rest then done else (err bad_conn, dc)

  -- LakeConn.Close, with cleanup: the client logs out, whatever comes of it, and is let go. Only the first
  -- call of Close does anything.
  unfoldable pub close_conn : Conn S → Done (Unit {0})
  close_conn dc =
      if dc.closed
      then (ok tt, dc)
      else if dc.has_rest
      then (ok tt, record { has_rest = false; closed = true; client = calls.logout dc.client })
      else (err panic, record dc { closed = true })

  -- PrepareContext
  unfoldable pub prepare : Bytes → Conn S → Done Stmt
  prepare query dc =
      if dc.has_rest
      then (ok (record { query = query; placeholders = placeholders query; closed = false }), dc)
      else (err bad_conn, dc)

  -- Stmt.Exec and Stmt.Query, with or without a context
  unfoldable pub stmt_exec : Stmt → List V → Conn S → Done ℤ
  stmt_exec stmt args dc =
      let done = exec stmt.query (some stmt.placeholders) args dc in
      if stmt.closed then (err stmt_closed, dc) else done

  unfoldable pub stmt_query : ℕ → Stmt → List V → Conn S → Done (NextRows Z T)
  stmt_query fuel stmt args dc =
      let done = conn_query fuel stmt.query (some stmt.placeholders) args dc in
      if stmt.closed then (err stmt_closed, dc) else done

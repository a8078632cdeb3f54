-- ===== src/Conn/Session.antt =====
-- Whatever is done on a connection, its client keeps what the calls of the client keep.
use lake_go.Prelude.{
  ℕ, not, Option, none, some, List, [], ◌∷◌, Bytes, codes, if_both, if◌then◌else◌,
}
use lake_go.Prelude.Decimal.{ℤ}
use lake_go.Prelude.Result.{Result, ok, err}
use lake_go.Client.Errors.{Failure, QueryError}
use lake_go.Sql.Splice.{BuildError}
use lake_go.Types.ColumnType.{Parsers}
use lake_go.Query.Response.{QueryResponse, is_nil}
use lake_go.Query.Materialize.{RowsError}
use lake_go.Query.Rows.{NextRows, do_close, next}
use lake_go.Query.Rows.Keeps.{wait_for_data_keeps, do_close_keeps, next_keeps}
use lake_go.Query.Sync.Invariant.{PagerKeeps}
use lake_go.Conn.{
  Calls, Conn, Reading, Stmt, Done, exec_result, exec_built, exec, closed_query, finish_rows,
  wait_rows, begin_rows, query_started, query_built, conn_query, done_unit, begin_tx, commit_in,
  commit, rollback, close_conn, stmt_exec, stmt_query,
}

-- The calls of the client keep the property of its state.
pub record CallsKeep {T S : Type 0} (calls : Calls T S) (I : S → Type 0) : Type 0 where
  pub sync_keeps : (sql : Bytes) (s : S) → I s → I (calls.query_sync sql s).1
  pub start_keeps : (sql : Bytes) (s : S) → I s → I (calls.start_query sql s).1
  pub pager_keeps : PagerKeeps calls.pager I
  pub logout_keeps : (s : S) → I s → I (calls.logout s)

-- What database/sql does with a connection, its statements, its transaction and its rows.
pub data Operation (V Z T : Type 0) : Type 0 where
  run_exec : Bytes → Option (List ℕ) → List V → Operation V Z T
  run_query : ℕ → Bytes → Option (List ℕ) → List V → Operation V Z T
  run_stmt_exec : Stmt → List V → Operation V Z T
  run_stmt_query : ℕ → Stmt → List V → Operation V Z T
  run_begin run_commit run_rollback run_close : Operation V Z T
  run_next : ℕ → NextRows Z T → ℕ → Operation V Z T
  run_close_rows : NextRows Z T → Operation V Z T

module _ {V Z T E S : Type 0} (calls : Calls T S) (reading : Reading V Z T E) (I : S → Type 0)
    (sync : (sql : Bytes) (s : S) → I s → I (calls.query_sync sql s).1) where
  abbrev Executed : {A : Type 0} → Done calls reading A → Type 0
  Executed r = I r.1.client

  exec_result-Kept :
      (dc : Conn S) (r : Result Failure (QueryResponse T) × S)
      → I r.1
      → Executed (exec_result calls reading dc r)
  unfolding exec_result
  exec_result-Kept dc (err e, s) i = i
  exec_result-Kept dc (ok r, s) i = i

  exec_built-Kept :
      (dc : Conn S) (sql : Result BuildError Bytes)
      → I dc.client
      → Executed (exec_built calls reading dc sql)
  unfolding exec_built
  exec_built-Kept dc (err e) i = i
  exec_built-Kept dc (ok sql) i =
      if_both {A = Done calls reading ℤ} Executed dc.has_rest
        (exec_result-Kept dc _ (sync sql dc.client i)) i

  exec-Kept :
      (sql : Bytes) (at : Option (List ℕ)) (args : List V) (dc : Conn S)
      → I dc.client
      → Executed (exec calls reading sql at args dc)
  unfolding exec
  exec-Kept sql at args dc i = exec_built-Kept dc (reading.build sql args at) i

  -- A statement of the transaction.
  done_exec-Kept :
      (sql : Bytes) (dc : Conn S)
      → I dc.client
      → Executed (done_unit calls reading (exec calls reading sql none [] dc))
  unfolding done_unit
  done_exec-Kept sql dc i = split _ (exec-Kept sql none [] dc i)
    where
      split : (r : Done calls reading ℤ) → Executed r → Executed (done_unit calls reading r)
      split (err e, dc) k = k
      split (ok n, dc) k = k

  commit_in-Kept :
      (state : Option Bytes) (dc : Conn S)
      → I dc.client
      → Executed (commit_in calls reading state dc)
  unfolding commit_in
  commit_in-Kept none dc i = i
  commit_in-Kept (some []) dc i = i
  commit_in-Kept (some (c ∷ state)) dc i = done_exec-Kept (codes "COMMIT") dc i

  -- COMMIT and ROLLBACK make the synchronous call only.
  pub commit-Kept : (dc : Conn S) → I dc.client → Executed (commit calls reading dc)
  unfolding commit
  commit-Kept dc i =
      if_both {A = Done calls reading (Unit {0})} Executed dc.has_rest
        (commit_in-Kept (calls.txn_state dc.client) dc i) i

  pub rollback-Kept : (dc : Conn S) → I dc.client → Executed (rollback calls reading dc)
  unfolding rollback
  rollback-Kept dc i =
      if_both {A = Done calls reading (Unit {0})} Executed dc.has_rest
        (done_exec-Kept (codes "ROLLBACK") dc i) i

module _ {V Z T E S : Type 0} (calls : Calls T S) (reading : Reading V Z T E)
    (lib : Parsers Z T E) where
  -- Rows whose connection was closed have no client to call.
  in_rows : Conn S → S → Conn S
  in_rows dc s = if dc.has_rest then record dc { client = s } else dc

  -- The connection after an operation.
  unfoldable pub operate : Operation V Z T → Conn S → Conn S
  unfolding in_rows
  operate (run_exec sql at args) dc = (exec calls reading sql at args dc).1
  operate (run_query fuel sql at args) dc = (conn_query calls reading fuel sql at args dc).1
  operate (run_stmt_exec stmt args) dc = (stmt_exec calls reading stmt args dc).1
  operate (run_stmt_query fuel stmt args) dc = (stmt_query calls reading fuel stmt args dc).1
  operate run_begin dc = (begin_tx calls reading dc).1
  operate run_commit dc = (commit calls reading dc).1
  operate run_rollback dc = (rollback calls reading dc).1
  operate run_close dc = (close_conn calls reading dc).1
  operate (run_next fuel rows dest) dc =
      in_rows dc (next calls.pager lib fuel rows dest dc.client).1.1
  operate (run_close_rows rows) dc = in_rows dc (do_close calls.pager lib rows dc.client).1

  module _ (I : S → Type 0) (keeps : CallsKeep calls I) where
    abbrev Kept : {A : Type 0} → Done calls reading A → Type 0
    Kept r = I r.1.client

    closed_query_keeps : (r : QueryResponse T) (s : S) → I s → I (closed_query calls reading r s)
    unfolding closed_query
    closed_query_keeps r s i =
        if_both I (not (is_nil r.final_uri)) (keeps.pager_keeps.close_keeps r.final_uri s i) i

    finish_rows-Kept :
        (dc : Conn S) (r : QueryResponse T) (s : S) (rows : Result (RowsError E) (NextRows Z T))
        → I s
        → Kept (finish_rows calls reading dc r s rows)
    unfolding finish_rows
    finish_rows-Kept dc r s (err e) i = closed_query_keeps r s i
    finish_rows-Kept dc r s (ok rows) i = i

    wait_rows-Kept :
        (dc : Conn S) (r : QueryResponse T) (w : Result Failure (QueryResponse T) × S)
        → I w.1
        → Kept (wait_rows calls reading dc r w)
    unfolding wait_rows
    wait_rows-Kept dc r (err e, s) i = closed_query_keeps r s i
    wait_rows-Kept dc r (ok r', s) i = finish_rows-Kept dc r s (reading.next_rows r') i

    begin_rows-Kept :
        (fuel : ℕ) (dc : Conn S) (r : QueryResponse T) (e : Option QueryError) (s : S)
        → I s
        → Kept (begin_rows calls reading fuel dc r e s)
    unfolding begin_rows
    begin_rows-Kept fuel dc r (some e) s i = closed_query_keeps r s i
    begin_rows-Kept fuel dc r none s i =
        wait_rows-Kept dc r _ (wait_for_data_keeps calls.pager I keeps.pager_keeps fuel r s i)

    query_started-Kept :
        (fuel : ℕ) (dc : Conn S) (r : Result Failure (QueryResponse T) × S)
        → I r.1
        → Kept (query_started calls reading fuel dc r)
    unfolding query_started
    query_started-Kept fuel dc (err e, s) i = i
    query_started-Kept fuel dc (ok r, s) i = begin_rows-Kept fuel dc r r.error s i

    query_built-Kept :
        (fuel : ℕ) (dc : Conn S) (sql : Result BuildError Bytes)
        → I dc.client
        → Kept (query_built calls reading fuel dc sql)
    unfolding query_built
    query_built-Kept fuel dc (err e) i = i
    query_built-Kept fuel dc (ok sql) i =
        if_both {A = Done calls reading (NextRows Z T)} Kept dc.has_rest
          (query_started-Kept fuel dc _ (keeps.start_keeps sql dc.client i)) i

    conn_query-Kept :
        (fuel : ℕ) (sql : Bytes) (at : Option (List ℕ)) (args : List V) (dc : Conn S)
        → I dc.client
        → Kept (conn_query calls reading fuel sql at args dc)
    unfolding conn_query
    conn_query-Kept fuel sql at args dc i = query_built-Kept fuel dc (reading.build sql args at) i

    in_rows_keeps : (dc : Conn S) (s : S) → I dc.client → I s → I (in_rows dc s).client
    unfolding in_rows
    in_rows_keeps dc s i j = if_both {A = Conn S} (λ d. I d.client) dc.has_rest j i

    pub operate_keeps :
        (op : Operation V Z T) (dc : Conn S) → I dc.client → I (operate op dc).client
    unfolding operate in_rows begin_tx close_conn stmt_exec stmt_query
    operate_keeps (run_exec sql at args) dc i =
        exec-Kept calls reading I keeps.sync_keeps sql at args dc i
    operate_keeps (run_query fuel sql at args) dc i = conn_query-Kept fuel sql at args dc i
    operate_keeps (run_stmt_exec stmt args) dc i =
        if_both {A = Done calls reading ℤ} Kept stmt.closed i
          (exec-Kept calls reading I keeps.sync_keeps stmt.query (some stmt.placeholders) args dc i)
    operate_keeps (run_stmt_query fuel stmt args) dc i =
        if_both {A = Done calls reading (NextRows Z T)} Kept stmt.closed i
          (conn_query-Kept fuel stmt.query (some stmt.placeholders) args dc i)
    operate_keeps run_begin dc i =
        if_both {A = Done calls reading (Unit {0})} Kept dc.has_rest
          (done_exec-Kept calls reading I keeps.sync_keeps (codes "BEGIN") dc i) i
    operate_keeps run_commit dc i = commit-Kept calls reading I keeps.sync_keeps dc i
    operate_keeps run_rollback dc i = rollback-Kept calls reading I keeps.sync_keeps dc i
    operate_keeps run_close dc i = if_both {A = Done calls reading (Unit {0})} Kept dc.closed i (
        if_both {A = Done calls reading (Unit {0})} Kept dc.has_rest
          (keeps.logout_keeps dc.client i) i)
    operate_keeps (run_next fuel rows dest) dc i =
        in_rows_keeps dc _ i
          (next_keeps calls.pager I keeps.pager_keeps lib fuel rows dest dc.client i)
    operate_keeps (run_close_rows rows) dc i =
        in_rows_keeps dc _ i (do_close_keeps calls.pager I keeps.pager_keeps lib rows dc.client i)

module _ {X V Z T E S : Type 0} (calls : X → Calls T S) (reading : Reading V Z T E)
    (lib : Parsers Z T E) where
  -- The connection after operations, each with what its calls of the client depend on.
  unfoldable pub session : List (X × Operation V Z T) → Conn S → Conn S
  session [] dc = dc
  session ((x, op) ∷ ops) dc = session ops (operate (calls x) reading lib op dc)

  -- Whatever statements are executed on a connection, in whatever order, with rows read and closed between
  -- them, and with the connection closed, its client keeps what each of its calls keeps.
  pub session_keeps :
      (I : S → Type 0) (keeps : (x : X) → CallsKeep (calls x) I) (ops : List (X × Operation V Z T))
      (dc : Conn S)
      → I dc.client
      → I (session ops dc).client
  unfolding session
  session_keeps I keeps [] dc i = i
  session_keeps I keeps ((x, op) ∷ ops) dc i =
      session_keeps I keeps ops _ (operate_keeps (calls x) reading lib I (keeps x) op dc i)

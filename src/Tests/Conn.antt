-- ===== src/Tests/Conn.antt =====
-- Tests of the statements of a connection.
use lake_go.Prelude.{some, ◌≡◌, refl, false, true, none, [], ◌∷◌, List, Bytes, codes}
use lake_go.Prelude.Decimal.{ℤ}
use lake_go.Prelude.Result.{ok, err}
use lake_go.Client.Errors.{QueryError, other}
use lake_go.Query.Response.{QueryResponse}
use lake_go.Tests.Query.{server, page, rows}
use lake_go.Conn.{Calls, Conn, Reading, closed_query, conn_query, close_conn}
use lake_go.Conn.Closing.{Refuses, close_conn-Refuses}

abbrev broken : QueryError
broken = record { code = ℤ.pos 1025; message = []; kind = []; detail = [] }

-- The answer to a query is an error of the query.
abbrev answer : QueryResponse Bytes
answer = record (page none []) { error = some broken }

-- The state is the list of the calls.
abbrev calls : Calls Bytes (List Bytes)
calls = record {
  query_sync = λ sql log. (err (other []), sql ∷ log);
  start_query = λ sql log. (ok answer, sql ∷ log);
  pager = server;
  logout = λ log. codes "logout" ∷ log;
  txn_state = λ log. none;
}

abbrev pub reading : Reading Bytes Bytes Bytes Bytes
reading = record {
  build = λ query args placeholders. ok query;
  affected_rows = λ r. ok (ℤ.pos 0);
  next_rows = λ r. ok rows;
}

abbrev conn : Conn (List Bytes)
conn = record { has_rest = true; closed = false; client = [] }

conn_query_run :
    (conn_query calls reading 2 (codes "SELECT 1") none [] conn).1.client
    ≡ codes "/q1/end" ∷ codes "SELECT 1" ∷ []
unfolding conn_query closed_query
conn_query_run = refl

close_conn-Refuses_example :
    (close_conn calls reading conn).0 ≡ ok tt
    × (close_conn calls reading conn).1.client ≡ codes "logout" ∷ []
    × Refuses calls reading (close_conn calls reading conn).1
close_conn-Refuses_example = close_conn-Refuses calls reading conn refl refl

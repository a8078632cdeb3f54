-- ===== src/Conn/Closing.antt =====
-- Queries that fail are closed, and a connection that was closed refuses.
use lake_go.Prelude.{◌≡◌, refl, true, false, Bytes}
use lake_go.Prelude.Result.{Result, ok, err}
use lake_go.Query.Response.{QueryResponse}
use lake_go.Query.Rows.{NextRows}
use lake_go.Conn.{
  Calls, ConnError, bad_conn, Conn, Reading, Done, closed_query, begin_tx, commit, rollback,
  close_conn, prepare,
}

module _ {V Z T E S : Type 0} (calls : Calls T S) (reading : Reading V Z T E) where
  -- What is left where a query was started and then failed: its final URI is closed.
  pub data IsClosed (r : QueryResponse T) : Done calls reading (NextRows Z T) → Type 0 where
    opened : {rows : NextRows Z T} {dc : Conn S} → IsClosed r (ok rows, dc)
    shut :
        {e : ConnError E} {dc : Conn S} (s : S)
        → dc.client ≡ closed_query calls reading r s
        → IsClosed r (err e, dc)

  -- What stands of a connection that was closed.
  pub record Refuses (dc : Conn S) : Type 0 where
    close_again : close_conn calls reading dc ≡ (ok tt, dc)
    no_begin : begin_tx calls reading dc ≡ (err bad_conn, dc)
    no_prepare : (query : Bytes) → prepare calls reading query dc ≡ (err bad_conn, dc)
    no_commit : commit calls reading dc ≡ (err bad_conn, dc)
    no_rollback : rollback calls reading dc ≡ (err bad_conn, dc)

  Refuses-shut : (s : S) → Refuses (record { has_rest = false; closed = true; client = s })
  unfolding close_conn begin_tx prepare commit rollback
  Refuses-shut s = record {
    close_again = refl;
    no_begin = refl;
    no_prepare = λ query. refl;
    no_commit = refl;
    no_rollback = refl;
  }

  -- Closing a connection that is open and has its client logs the client out once; after that, closing it
  -- again does nothing, and BeginTx, Prepare, Commit and Rollback fail with driver.ErrBadConn and change
  -- nothing.
  pub close_conn-Refuses :
      (dc : Conn S)
      → dc.closed ≡ false
      → dc.has_rest ≡ true
      → (close_conn calls reading dc).0 ≡ ok tt
        × (close_conn calls reading dc).1.client ≡ calls.logout dc.client
        × Refuses (close_conn calls reading dc).1
  unfolding close_conn
  close_conn-Refuses dc fresh there =
      rw (fresh, there) (refl, refl, Refuses-shut (calls.logout dc.client))

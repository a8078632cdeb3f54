-- ===== src/Conn/Driven.antt =====
-- connection.go over client.go: the client as the connection calls it.
pub mod Endpoint
pub mod Opened
pub mod Transaction
use lake_go.Prelude.{ℕ, Bool, true, false, Option, none, some, List, [], ◌∷◌, Bytes, codes, map}
use lake_go.Prelude.Decimal.{ℤ}
use lake_go.Prelude.Result.{Result, ok, err}
use lake_go.Client.Errors.{Failure, wrap}
use lake_go.Client.State.{Client, SessionState}
use lake_go.Client.Context.{check_query_id, tx_context}
use lake_go.Client.Request.{Ctx, Reader}
use lake_go.Client.Retry.{Retrier}
use lake_go.Client.Verify.{VerifyResponse, verify, logout}
use lake_go.Client.Login.{initialize_connection_info}
use lake_go.Client.Open.{Extras, Fresh, new_api_client}
use lake_go.Dsn.{Config, DsnError, DsnLib}
use lake_go.Dsn.Parse.{UrlLib, parse_dsn}
use lake_go.Query.Calls.Send.{Setting, Call, query_sync, start_query, client_pager, background_ctx}
use lake_go.Conn.{Calls, Conn, ConnError, Reading, begin_tx, commit, rollback}

-- sessionState.TxnState, where there is a session state
state_txn : Option SessionState → Option Bytes
state_txn none = none
state_txn (some s) = some s.txn_state

-- The context of an operation: its values, the id that checkQueryID makes where it has none, and its Err.
pub record Asking (W : Type 0) : Type 0 where
  pub ctx : Ctx
  pub uuid : Bytes
  pub ctx_err : W → Option Failure

-- lakeTx, which keeps a context: its values and its Err.
pub record Tx (W : Type 0) : Type 0 where
  pub ctx : Ctx
  pub ctx_err : W → Option Failure

-- txContext: the context of a transaction, from that of BeginTx, which is never done.
unfoldable pub tx_of : {W : Type 0} → Asking W → Tx W
tx_of q = record { ctx = tx_context q.ctx; ctx_err = λ w. none }

-- The context of COMMIT or ROLLBACK, with the id that checkQueryID would make for it.
unfoldable pub asking_of : {W : Type 0} → Tx W → Bytes → Asking W
asking_of tx uuid = record { ctx = tx.ctx; uuid = uuid; ctx_err = tx.ctx_err }

-- The setting of an operation, behind checkQueryID.
unfoldable pub asked_setting : {W Z T E : Type 0} → Setting W Z T E → Asking W → Setting W Z T E
asked_setting set q = record set {
  env = record set.env { ctx_err = q.ctx_err };
  ctx = check_query_id q.uuid q.ctx;
}

module _ {W Z T E : Type 0} (retrier : Retrier) (set : Setting W Z T E) where
  -- Logout with the context of the connection, which is `context.Background()`; its error is dropped.
  pub logged_out : Client × W → Client × W
  logged_out s = (logout set.background background_ctx s).1

  -- The client's calls; the fuel bounds the polls of each query.
  unfoldable pub client_calls : ℕ → Calls T (Client × W)
  unfolding logged_out state_txn
  client_calls fuel = record {
    query_sync = query_sync retrier set fuel;
    start_query = start_query retrier set;
    pager = client_pager retrier set;
    logout = logged_out;
    txn_state = λ s. state_txn s.0.session_state;
  }

  abbrev failed_ping : Result Failure (Unit {0}) → Result Failure (Unit {0})
  failed_ping (err e) = err (wrap (codes "ping failed") e)
  failed_ping (ok done) = ok tt

  pinged : Call W (Unit {0}) → Call W (Unit {0})
  pinged (r, s) = (failed_ping r, s)

  -- Ping; `pause` is the sleep of 200 ms.
  unfoldable pub ping : (W → W) → Reader set.env VerifyResponse → Client × W → Call W (Unit {0})
  unfolding pinged
  ping pause read s = pinged (verify set.env set.ctx pause read set.marshal_login set.read_login s)

  opened_conn : Call W (Unit {0}) → Call W (Unit {0})
  opened_conn (err e, s) = (err e, logged_out s)
  opened_conn (ok done, s) = (ok tt, s)

  module _ (fresh : Fresh W) (extras : Extras) where
    initialized : Client × W → Call W (Unit {0})
    initialized (c, w) =
        initialize_connection_info set.env set.marshal_login set.read_login c set.ctx w

    -- buildLakeConn: the client of the connection that is opened, or was not.
    unfoldable pub build_lake_conn : {D : Type 0} → Config D → W → Call W (Unit {0})
    unfolding opened_conn initialized logged_out
    build_lake_conn cfg w = opened_conn (initialized (new_api_client cfg fresh extras w))

    module _ {D F : Type 0} (std : DsnLib D F) (url : UrlLib) where
      open_parsed : Result (DsnError F) (Config D) → W → Result (DsnError F) (Call W (Unit {0}))
      open_parsed (err e) w = err e
      open_parsed (ok cfg) w = ok (build_lake_conn cfg w)

      -- LakeDriver.Open, where `set.ctx` is that of `context.Background()`.
      unfoldable pub open_dsn : Bytes → W → Result (DsnError F) (Call W (Unit {0}))
      unfolding open_parsed
      open_dsn dsn w = open_parsed (parse_dsn std url dsn) w

-- The client's calls with the context of an operation.
abbrev pub asked_calls :
    {W Z T E : Type 0} → Retrier → Setting W Z T E → ℕ → Asking W → Calls T (Client × W)
asked_calls retrier set fuel q = client_calls retrier (asked_setting set q) fuel

module _ {V W Z T E X : Type 0} (retrier : Retrier) (set : Setting W Z T E)
    (reading : Reading V Z T X) (fuel : ℕ) where
  abbrev pub Ended : Type 0 → Type 0
  Ended A = Result (ConnError X) A × Conn (Client × W)

  begun : Asking W → Ended (Unit {0}) → Ended (Tx W)
  begun q (err e, dc) = (err e, dc)
  begun q (ok done, dc) = (ok (tx_of q), dc)

  -- BeginTx with a context, and the transaction that it returns.
  unfoldable pub begin_asked : Asking W → Conn (Client × W) → Ended (Tx W)
  unfolding begun
  begin_asked q dc = begun q (begin_tx (asked_calls retrier set fuel q) reading dc)

  -- Commit and Rollback of a transaction
  unfoldable pub commit_asked : Tx W → Bytes → Conn (Client × W) → Ended (Unit {0})
  commit_asked tx uuid dc = commit (asked_calls retrier set fuel (asking_of tx uuid)) reading dc

  unfoldable pub rollback_asked : Tx W → Bytes → Conn (Client × W) → Ended (Unit {0})
  rollback_asked tx uuid dc = rollback (asked_calls retrier set fuel (asking_of tx uuid)) reading dc

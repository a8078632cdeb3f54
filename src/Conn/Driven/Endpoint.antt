-- ===== src/Conn/Driven/Endpoint.antt =====
-- The client of a connection sends requests to the configured endpoint only.
use lake_go.Prelude.{Bytes, ℕ}
use lake_go.Client.State.{Client}
use lake_go.Client.Retry.{Retrier, IsRetrier}
use lake_go.Client.Verify.Endpoint.{logout-Holds}
use lake_go.Query.Calls.Send.{Setting, background_ctx}
use lake_go.Query.Calls.Send.Keeps.{SettingKeeps}
use lake_go.Query.Calls.Send.Whole.{Holds, query_sync-Holds, start_query-Holds, client_pager-Holds}
use lake_go.Conn.Session.{CallsKeep}
use lake_go.Conn.Driven.{client_calls, logged_out}

module _ {W Z T E : Type 0} (retrier : Retrier) (law : IsRetrier retrier) (set : Setting W Z T E)
    (endpoint : Bytes) (P : W → Type 0) (keeps : SettingKeeps set endpoint P) where
  -- Logging out with the context of the connection keeps what requests to the endpoint keep.
  pub logged_out-Holds :
      (s : Client × W)
      → Holds retrier law set endpoint P keeps s
      → Holds retrier law set endpoint P keeps (logged_out retrier set s)
  unfolding logged_out
  logged_out-Holds s h = logout-Holds set.background background_ctx P endpoint keeps.there s h

  -- Every call of the client that a connection makes, to run, start, poll, close or kill a query or to log
  -- out, leaves its endpoint and keeps every property of the world that requests to the endpoint keep, and
  -- with them the token loader, the pauses, the tracker and the route hints.
  pub client_calls-CallsKeep :
      (fuel : ℕ)
      → CallsKeep (client_calls retrier set fuel) (Holds retrier law set endpoint P keeps)
  unfolding client_calls
  client_calls-CallsKeep fuel = record {
    sync_keeps = query_sync-Holds retrier law set endpoint P keeps fuel;
    start_keeps = start_query-Holds retrier law set endpoint P keeps;
    pager_keeps = client_pager-Holds retrier law set endpoint P keeps;
    logout_keeps = logged_out-Holds;
  }

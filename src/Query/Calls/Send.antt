-- ===== src/Query/Calls/Send.antt =====
-- client.go: `startQueryRequestWithTransport`, `pollQueryWithTransport`, `CloseQuery`, `KillQuery`,
-- `PollQuery`, `StartQuery`, `querySyncWithTransport` and `InsertWithStage`, which make the requests.
pub mod Requests
pub mod Keeps
pub mod Kept
pub mod Whole
use mathlib.Core.Option
use lake_go.Prelude.{
  ℕ, suc, Bool, true, false, not, Option, none, some, [], ◌∷◌, ◌++◌, if◌then◌else◌, Bytes, codes,
  map,
}
use lake_go.Prelude.Text.{starts_with}
use lake_go.Prelude.Decimal.{ℤ}
use lake_go.Prelude.Result.{Result, ok, err}
use lake_go.Client.Errors.{Failure, QueryError, wrap, query_failed, other, query_error_text}
use lake_go.Client.State.{Client, SessionState, StringMap, is_nil, need_sticky, refresh_route_hint}
use lake_go.Client.Retry.{RequestType, query, page, final, kill, Action, Retrier, do_retry}
use lake_go.Client.Request.{Ctx, Env, Exchange, Reader, HttpResponse, get_header, do_request}
use lake_go.Client.Login.{LoginRequest, initialize_connection_info}
use lake_go.Query.Response.{QueryResponse}
use lake_go.Query.Calls.{
  Transport, auto, QueryRequest, StageAttachmentConfig, Host, no_response, use_arrow,
  sync_transport, poll_transport, get_pagination_config, decode_query_response, json_type,
  arrow_stream,
}
use lake_go.Query.Calls.Settle.{Fetched, answered, nothing, finish_poll, finalize_query_response}
use lake_go.Query.Rows.{Pager}
use lake_go.Query.Sync.{poll_until_query_end}

-- What a call of the client leaves: a value or an error, with the client and the world.
abbrev pub Call : Type 0 → Type 0 → Type 0
Call W A = Result Failure A × (Client × W)

pub error_of : {A : Type 0} → Result Failure A → Option Failure
error_of (ok a) = none
error_of (err e) = some e

-- `fmt.Errorf("query error: %+v", resp.Error)`
abbrev pub sync_error : QueryError → Failure
sync_error e = other (codes "query error: " ++ query_error_text e)

-- The environment of a call, and that of a call with `context.Background()`.
pub record Setting (W Z T E : Type 0) : Type 0 where
  pub env : Env W
  pub background : Env W
  pub host : Host W Z T E
  pub ctx : Ctx
  pub marshal_login : LoginRequest → Bytes
  pub read_login : HttpResponse → Option ℤ → Option ℤ × Option Failure

abbrev pub background_ctx : Ctx
background_ctx = record { user_agent = none; query_id = none }

-- context.WithoutCancel
abbrev pub without_cancel : {W : Type 0} → Env W → Env W
without_cancel env = record env { ctx_err = λ w. none }

module _ {W Z T E : Type 0} (retrier : Retrier) (set : Setting W Z T E) where
  pause : {R : Type 0} → ℕ → Exchange R W → Exchange R W
  pause seconds x = record x { world = set.host.sleep seconds x.world }

  json_reader : HttpResponse → QueryResponse T → QueryResponse T × Option Failure
  json_reader h r =
      if starts_with (codes "application/json") (get_header (codes "Content-Type") h.headers)
      then (let (r', e) = set.host.unmarshal h.body r in
          (r', Option.map (wrap (codes "failed to unmarshal response body")) e))
      else (r, none)

  raw_reader : HttpResponse → Option HttpResponse → Option HttpResponse × Option Failure
  raw_reader h r = (some h, none)

  unit_reader : HttpResponse → Unit {0} → Unit {0} × Option Failure
  unit_reader h r = (tt, none)

  -- A request that is answered in JSON, with the attempts that it takes.
  fetch_json : Client → RequestType → Bytes → Bytes → Bytes → Bool → W → Fetched T × (StringMap × W)
  fetch_json c t method path body sticky w =
      let (r, x) =
        do_retry retrier pause t
          (do_request set.env c set.ctx method path body sticky json_type json_reader)
          (record { resp = no_response; headers = []; world = w }) in
      (answered x.resp (error_of r), (x.headers, x.world))

  -- What an attempt in Arrow has: the response that is decoded so far, and the headers of it.
  abbrev Decoded : Type 0
  Decoded = Exchange (Option HttpResponse) W

  decode_raw :
      StringMap → Option HttpResponse → Decoded → Result Failure (QueryResponse T) × Decoded
  decode_raw before none x =
      (err (other (codes "empty query response")), record x { headers = before })
  decode_raw before (some raw) x = (decode_query_response set.host raw, x)

  after_raw :
      StringMap → Result Failure (Unit {0}) × Decoded → Result Failure (QueryResponse T) × Decoded
  after_raw before (err e, x) = (err e, record x { headers = before })
  after_raw before (ok done, x) = decode_raw before x.resp x

  -- doRequestRaw: the rounds of doRequest, with the response as it came; the media type is JSON's where
  -- none is given.
  pub do_request_raw :
      Client → Bytes → Bytes → Bytes → Bool → Bytes → Decoded → Result Failure (Unit {0}) × Decoded
  do_request_raw c method path body sticky accept x =
      do_request set.env c set.ctx method path body sticky
        (if is_nil accept then json_type else accept) raw_reader x

  -- An attempt in Arrow: `doRequestRaw`, and the decoding of what it read.
  arrow_attempt : Client → Bytes → Bytes → Bytes → Bool → Action Decoded (QueryResponse T)
  arrow_attempt c method path body sticky x =
      after_raw x.headers (do_request_raw c method path body sticky arrow_stream x)

  fetched_of : Result Failure (QueryResponse T) → Fetched T
  fetched_of (ok r) = answered r none
  fetched_of (err e) = nothing e

  fetch_arrow :
      Client → RequestType → Bytes → Bytes → Bytes → Bool → W → Fetched T × (StringMap × W)
  fetch_arrow c t method path body sticky w =
      let (r, x) =
        do_retry retrier pause t (arrow_attempt c method path body sticky)
          (record { resp = none; headers = []; world = w }) in
      (fetched_of r, (x.headers, x.world))

  pub fetch :
      Bool → Client → RequestType → Bytes → Bytes → Bytes → Bool → W → Fetched T × (StringMap × W)
  fetch arrow c t method path body sticky w =
      if arrow
      then fetch_arrow c t method path body sticky w
      else fetch_json c t method path body sticky w

  settle_poll : Client → Fetched T × (StringMap × W) → Call W (QueryResponse T)
  settle_poll c (f, (headers, w)) = finish_poll set.host f c w

  -- pollQueryWithTransport
  unfoldable pub poll_query_with : Transport → Client → Bytes → W → Call W (QueryResponse T)
  unfolding settle_poll
  poll_query_with t c uri w =
      settle_poll c (fetch (use_arrow c (poll_transport c t)) c page (codes "GET") uri [] true w)

  unfoldable pub initialize : Client → W → Call W (Unit {0})
  initialize c w = initialize_connection_info set.env set.marshal_login set.read_login c set.ctx w

  poll_initialized : Bytes → Call W (Unit {0}) → Call W (QueryResponse T)
  poll_initialized uri (err e, s) = (err e, s)
  poll_initialized uri (ok done, (c, w)) = poll_query_with auto c uri w

  -- PollQuery
  unfoldable pub poll_query : Bytes → Client × W → Call W (QueryResponse T)
  unfolding poll_initialized
  poll_query uri (c, w) = poll_initialized uri (initialize c w)

  -- A request whose result is dropped.
  pub send_end : Env W → Ctx → RequestType → Client → Bytes → W → W
  send_end env ctx t c uri w =
      if is_nil uri
      then w
      else (do_retry retrier pause t
          (do_request env c ctx (codes "GET") uri [] true json_type unit_reader)
          (record { resp = tt; headers = []; world = w })).1.world

  -- CloseQuery, with the final URI of the response
  unfoldable pub close_query : Bytes → Client × W → Client × W
  close_query uri (c, w) = (c, send_end set.env set.ctx final c uri w)

  -- CloseQuery with context.WithoutCancel, as the rows call it
  unfoldable pub close_detached : Bytes → Client × W → Client × W
  close_detached uri (c, w) = (c, send_end (without_cancel set.env) set.ctx final c uri w)

  -- KillQuery, with the kill URI, as its callers call it
  unfoldable pub kill_query : Bytes → Client × W → Client × W
  kill_query uri (c, w) = (c, send_end set.background background_ctx kill c uri w)

  -- The client as the rows see it.
  unfoldable pub client_pager : Pager T (Client × W)
  client_pager = record {
    poll_query = poll_query;
    close_query = close_query;
    kill_query = kill_query;
    close_detached = close_detached;
  }

  -- The client as `pollUntilQueryEndWithTransport` sees it.
  unfoldable pub transport_pager : Transport → Pager T (Client × W)
  transport_pager t = record {
    poll_query = λ uri (c, w). poll_query_with t c uri w;
    close_query = close_query;
    kill_query = kill_query;
    close_detached = close_detached;
  }

  -- NextQuery, and the route hint of a new query
  begin_query : Client → W → Client × W
  begin_query c w =
      let (hint, w') = set.host.rand_route_hint w in
      (refresh_route_hint (record c { query_seq = suc c.query_seq }) hint, w')

  settle_query : Client → Fetched T × (StringMap × W) → Call W (QueryResponse T)
  settle_query c (f, (headers, w)) =
      finalize_query_response set.host (get_header (codes "X-DATABEND-ROUTE-HINT") headers) f c w

  pub with_arrow_version : Bool → QueryRequest → QueryRequest
  with_arrow_version arrow request =
      if arrow then record request { arrow_result_version_max = some 2 } else request

  start_begun : Transport → QueryRequest → Client × W → Call W (QueryResponse T)
  start_begun t request (c, w) =
      let arrow = use_arrow c t in
      settle_query c (
        fetch arrow c query (codes "POST") (codes "/v1/query")
          (set.host.marshal (with_arrow_version arrow request)) (need_sticky c) w)

  -- startQueryRequestWithTransport
  unfoldable pub start_query_request :
      Transport → QueryRequest → Client → W → Call W (QueryResponse T)
  unfolding start_begun settle_query begin_query
  start_query_request t request c w = start_begun t request (begin_query c w)

  -- startQuery
  unfoldable pub start_query_with : Transport → Bytes → Client → W → Call W (QueryResponse T)
  start_query_with t sql c w =
      start_query_request t
        (record {
          session = c.session_state_raw;
          sql = sql;
          pagination = get_pagination_config c;
          arrow_result_version_max = none;
          stage_attachment = none;
        })
        c w

  start_initialized : Bytes → Call W (Unit {0}) → Call W (QueryResponse T)
  start_initialized sql (err e, s) = (err e, s)
  start_initialized sql (ok done, (c, w)) = start_query_with auto sql c w

  -- StartQuery
  unfoldable pub start_query : Bytes → Client × W → Call W (QueryResponse T)
  unfolding start_initialized
  start_query sql (c, w) = start_initialized sql (initialize c w)

  abbrev closing : Bytes → Call W (QueryResponse T) → Call W (QueryResponse T)
  closing uri (r, s) = (r, close_query uri s)

  -- What follows the start of a query that is waited for; the started query is closed at the end.
  gather :
      (QueryError → Failure)
      → ℕ
      → Transport
      → Bytes
      → QueryResponse T
      → Option QueryError
      → Client × W
      → Call W (QueryResponse T)
  gather fail fuel t uri r (some e) s = closing uri (err (fail e), s)
  gather fail fuel t uri r none s = closing uri (poll_until_query_end (transport_pager t) fuel r s)

  started :
      (QueryError → Failure) → ℕ → Transport → Call W (QueryResponse T) → Call W (QueryResponse T)
  started fail fuel t (err e, s) = (err e, s)
  started fail fuel t (ok r, s) = gather fail fuel t r.final_uri r r.error s

  -- querySyncWithTransport; the fuel bounds the polls
  unfoldable pub query_sync_with : ℕ → Transport → Bytes → Client → W → Call W (QueryResponse T)
  unfolding started gather
  query_sync_with fuel t sql c w =
      let t' = sync_transport c t in started sync_error fuel t' (start_query_with t' sql c w)

  sync_initialized : ℕ → Bytes → Call W (Unit {0}) → Call W (QueryResponse T)
  sync_initialized fuel sql (err e, s) = (err e, s)
  sync_initialized fuel sql (ok done, (c, w)) = query_sync_with fuel auto sql c w

  -- QuerySync
  unfoldable pub query_sync : ℕ → Bytes → Client × W → Call W (QueryResponse T)
  unfolding sync_initialized
  query_sync fuel sql (c, w) = sync_initialized fuel sql (initialize c w)

  -- InsertWithStage, with the options given
  unfoldable pub insert_with_stage :
      ℕ → Bytes → StageAttachmentConfig → Client × W → Call W (QueryResponse T)
  unfolding started gather
  insert_with_stage fuel sql stage (c, w) =
      started (λ e. wrap (codes "query error:") (query_failed e)) fuel auto
        (start_query_request auto
          (record {
            session = c.session_state_raw;
            sql = sql;
            pagination = get_pagination_config c;
            arrow_result_version_max = none;
            stage_attachment = some stage;
          })
          c w)

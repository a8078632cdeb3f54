-- ===== src/Query/Calls/Send/Kept.antt =====
-- A query that is waited for, over what each of its requests keeps.
use lake_go.Client.Errors.{Failure, QueryError}
use lake_go.Prelude.{
  true, Option, none, some, Bytes, codes, [], ℕ, suc, Bool, false, not, refl, if◌then◌else◌,
}
use lake_go.Prelude.Result.{ok, err}
use lake_go.Client.State.{Client, in_active_transaction, StringMap, need_sticky, refresh_route_hint}
use lake_go.Client.Retry.{Retrier, IsRetrier, page, query, final}
use lake_go.Query.Response.{QueryResponse}
use lake_go.Query.Calls.{
  QueryRequest, StageAttachmentConfig, Transport, auto, use_arrow, poll_transport, sync_transport,
}
use lake_go.Query.Calls.Settle.{Fetched}
use lake_go.Query.Calls.Settle.Unchanged.{
  IsUnchanged, finish_poll-Held, finalize_query_response-Held,
}
use lake_go.Query.Sync.Invariant.{PagerKeeps, poll_until_query_end_keeps}
use lake_go.Query.Calls.Send.{
  Setting, insert_with_stage, start_query, start_initialized, Call, fetch, initialize, settle_poll,
  settle_query, poll_query_with, poll_query, poll_initialized, close_query, close_detached,
  without_cancel, kill_query, client_pager, transport_pager, begin_query, start_begun,
  start_query_request, start_query_with, gather, started, query_sync_with, query_sync,
  sync_initialized, with_arrow_version, sync_error,
}
use lake_go.Query.Calls.Send.Requests.{RequestsKeep, fetch_keeps_of, send_end_keeps_of}

-- The count of queries and the route hint of a new query.
next_query-IsUnchanged :
    (c : Client) (hint : Bytes)
    → IsUnchanged c (refresh_route_hint (record c { query_seq = suc c.query_seq }) hint)
unfolding refresh_route_hint
next_query-IsUnchanged c hint =
    hinted (in_active_transaction (record c { query_seq = suc c.query_seq }))
  where
    hinted :
        (b : Bool)
        → IsUnchanged c (
            if not b
            then record c { query_seq = suc c.query_seq; route_hint = hint }
            else record c { query_seq = suc c.query_seq })
    hinted true = record {
      same_endpoint = refl;
      same_agent = refl;
      same_restored = refl;
      same_initialized = refl;
    }
    hinted false = record {
      same_endpoint = refl;
      same_agent = refl;
      same_restored = refl;
      same_initialized = refl;
    }

-- What a query needs to keep the property of the world, for clients that fit: its requests, its kills, the
-- login before it and what it does besides.
pub record QueryKeeps {W Z T E : Type 0} (retrier : Retrier) (set : Setting W Z T E)
    (Fit : Client → Type 0) (P : W → Type 0) : Type 1 where
  pub fits : (c d : Client) → IsUnchanged c d → Fit c → Fit d
  pub sends : (c : Client) → Fit c → RequestsKeep set.env set.ctx c P
  pub detached : (c : Client) → Fit c → RequestsKeep (without_cancel set.env) set.ctx c P
  pub kills :
      (uri : Bytes) (c : Client) (w : W) → Fit c → P w → P (kill_query retrier set uri (c, w)).1
  pub starts :
      (c : Client) (w : W)
      → Fit c
      → P w
      → Fit (initialize retrier set c w).1.0 × P (initialize retrier set c w).1.1
  pub sleeps : (n : ℕ) (w : W) → P w → P (set.host.sleep n w)
  pub tracks : (id stats : Bytes) (w : W) → P w → P (set.host.track id stats w)
  pub hints : (w : W) → P w → P (set.host.rand_route_hint w).1

module _ {W Z T E : Type 0} (retrier : Retrier) (law : IsRetrier retrier) (set : Setting W Z T E)
    (Fit : Client → Type 0) (P : W → Type 0) (keeps : QueryKeeps retrier set Fit P) where
  -- The client still fits, and the property of the world holds.
  abbrev pub Held : Client × W → Type 0
  Held s = Fit s.0 × P s.1

  settle_poll-Held :
      (c : Client) (x : Fetched T × (StringMap × W))
      → Fit c
      → P x.1.1
      → Held (settle_poll retrier set c x).1
  unfolding settle_poll
  settle_poll-Held c (f, (headers, w)) e p =
      finish_poll-Held set.host Fit P keeps.fits keeps.tracks f c w (e, p)

  poll_query_with-Held :
      (t : Transport) (c : Client) (uri : Bytes) (w : W)
      → Held (c, w)
      → Held (poll_query_with retrier set t c uri w).1
  unfolding poll_query_with
  poll_query_with-Held t c uri w (e, p) =
      let arrow = use_arrow c (poll_transport c t) in
      settle_poll-Held c (fetch retrier set arrow c page (codes "GET") uri [] true w) e (
        fetch_keeps_of retrier law set P keeps.sleeps arrow c page (codes "GET") uri [] true w
          (keeps.sends c e) p)

  initialize-Held : (c : Client) (w : W) → Held (c, w) → Held (initialize retrier set c w).1
  initialize-Held c w (e, p) = keeps.starts c w e p

  poll_query-Held : (uri : Bytes) (s : Client × W) → Held s → Held (poll_query retrier set uri s).1
  unfolding poll_query poll_initialized
  poll_query-Held uri (c, w) h = split (initialize retrier set c w) (initialize-Held c w h)
    where
      split : (r : Call W (Unit {0})) → Held r.1 → Held (poll_initialized retrier set uri r).1
      split (err e, s) k = k
      split (ok done, (c', w')) k = poll_query_with-Held auto c' uri w' k

  close_query-Held : (uri : Bytes) (s : Client × W) → Held s → Held (close_query retrier set uri s)
  unfolding close_query
  close_query-Held uri (c, w) (e, p) = (
    e,
    send_end_keeps_of retrier law set P keeps.sleeps set.env set.ctx final c uri w (keeps.sends c e)
        p,
  )

  close_detached-Held :
      (uri : Bytes) (s : Client × W) → Held s → Held (close_detached retrier set uri s)
  unfolding close_detached
  close_detached-Held uri (c, w) (e, p) = (
    e,
    send_end_keeps_of retrier law set P keeps.sleeps (without_cancel set.env) set.ctx final c uri w
        (keeps.detached c e) p,
  )

  kill_query-Held : (uri : Bytes) (s : Client × W) → Held s → Held (kill_query retrier set uri s)
  unfolding kill_query
  kill_query-Held uri (c, w) (e, p) = (e, keeps.kills uri c w e p)

  -- The client as the rows see it.
  pub client_pager-PagerKeeps : PagerKeeps (client_pager retrier set) Held
  unfolding client_pager
  client_pager-PagerKeeps = record {
    poll_keeps = poll_query-Held;
    close_keeps = close_query-Held;
    kill_keeps = kill_query-Held;
    detached_keeps = close_detached-Held;
  }

  transport_pager-PagerKeeps : (t : Transport) → PagerKeeps (transport_pager retrier set t) Held
  unfolding transport_pager
  transport_pager-PagerKeeps t = record {
    poll_keeps = λ uri s. poll_query_with-Held t s.0 uri s.1;
    close_keeps = close_query-Held;
    kill_keeps = kill_query-Held;
    detached_keeps = close_detached-Held;
  }

  begin_query-Held : (c : Client) (w : W) → Held (c, w) → Held (begin_query retrier set c w)
  unfolding begin_query
  begin_query-Held c w (e, p) =
      (keeps.fits c _ (next_query-IsUnchanged c (set.host.rand_route_hint w).0) e, keeps.hints w p)

  settle_query-Held :
      (c : Client) (x : Fetched T × (StringMap × W))
      → Fit c
      → P x.1.1
      → Held (settle_query retrier set c x).1
  unfolding settle_query
  settle_query-Held c (f, (headers, w)) e p =
      finalize_query_response-Held set.host Fit P keeps.fits keeps.tracks _ f c w (e, p)

  start_begun-Held :
      (t : Transport) (request : QueryRequest) (s : Client × W)
      → Held s
      → Held (start_begun retrier set t request s).1
  unfolding start_begun
  start_begun-Held t request (c, w) (e, p) =
      let arrow = use_arrow c t in
      let body = set.host.marshal (with_arrow_version retrier set arrow request) in
      settle_query-Held c
        (fetch retrier set arrow c query (codes "POST") (codes "/v1/query") body (need_sticky c) w)
        e
        (fetch_keeps_of retrier law set P keeps.sleeps arrow c query (codes "POST")
          (codes "/v1/query") body (need_sticky c) w (keeps.sends c e) p)

  start_query_with-Held :
      (t : Transport) (sql : Bytes) (c : Client) (w : W)
      → Held (c, w)
      → Held (start_query_with retrier set t sql c w).1
  unfolding start_query_with start_query_request
  start_query_with-Held t sql c w h =
      start_begun-Held t _ (begin_query retrier set c w) (begin_query-Held c w h)

  gather-Held :
      (fail : QueryError → Failure) (fuel : ℕ) (t : Transport) (uri : Bytes) (r : QueryResponse T)
      (e : Option QueryError) (s : Client × W)
      → Held s
      → Held (gather retrier set fail fuel t uri r e s).1
  unfolding gather
  gather-Held fail fuel t uri r (some e) s h = close_query-Held uri s h
  gather-Held fail fuel t uri r none s h = close_query-Held uri _ (
      poll_until_query_end_keeps (transport_pager retrier set t) Held (transport_pager-PagerKeeps t)
        fuel r s h)

  started-Held :
      (fail : QueryError → Failure) (fuel : ℕ) (t : Transport) (r : Call W (QueryResponse T))
      → Held r.1
      → Held (started retrier set fail fuel t r).1
  unfolding started
  started-Held fail fuel t (err e, s) h = h
  started-Held fail fuel t (ok r, s) h = gather-Held fail fuel t r.final_uri r r.error s h

  pub query_sync-Held :
      (fuel : ℕ) (sql : Bytes) (s : Client × W)
      → Held s
      → Held (query_sync retrier set fuel sql s).1
  unfolding query_sync sync_initialized query_sync_with
  query_sync-Held fuel sql (c, w) h = split (initialize retrier set c w) (initialize-Held c w h)
    where
      split : (r : Call W (Unit {0})) → Held r.1 → Held (sync_initialized retrier set fuel sql r).1
      split (err e, s) k = k
      split (ok done, (c', w')) k =
          started-Held sync_error fuel (sync_transport c' auto)
            (start_query_with retrier set (sync_transport c' auto) sql c' w')
            (start_query_with-Held (sync_transport c' auto) sql c' w' k)

  pub insert_with_stage-Held :
      (fuel : ℕ) (sql : Bytes) (stage : StageAttachmentConfig) (s : Client × W)
      → Held s
      → Held (insert_with_stage retrier set fuel sql stage s).1
  unfolding insert_with_stage start_query_request
  insert_with_stage-Held fuel sql stage (c, w) h =
      started-Held _ fuel auto _ (start_begun-Held auto _ _ (begin_query-Held c w h))

  pub start_query-Held :
      (sql : Bytes) (s : Client × W) → Held s → Held (start_query retrier set sql s).1
  unfolding start_query start_initialized
  start_query-Held sql (c, w) h = split (initialize retrier set c w) (initialize-Held c w h)
    where
      split : (r : Call W (Unit {0})) → Held r.1 → Held (start_initialized retrier set sql r).1
      split (err e, s) k = k
      split (ok done, (c', w')) k = start_query_with-Held auto sql c' w' k

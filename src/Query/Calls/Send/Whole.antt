-- ===== src/Query/Calls/Send/Whole.antt =====
-- A whole query sends no request but to the configured endpoint.
use lake_go.Prelude.{◌≡◌, ◌∙◌, Bytes, ℕ}
use lake_go.Client.State.{Client}
use lake_go.Client.Retry.{Retrier, IsRetrier, kill}
use lake_go.Client.Login.Keeps.{initialize_connection_info-Holds}
use lake_go.Query.Calls.{StageAttachmentConfig}
use lake_go.Query.Sync.Invariant.{PagerKeeps}
use lake_go.Query.Calls.Send.{
  Setting, without_cancel, insert_with_stage, start_query, initialize, kill_query, background_ctx,
  client_pager, query_sync,
}
use lake_go.Query.Calls.Send.Keeps.{
  SettingKeeps, send_end_keeps, IsKept-client, RequestsKeep-endpoint,
}
use lake_go.Query.Calls.Send.Kept.{
  QueryKeeps, query_sync-Held, start_query-Held, insert_with_stage-Held, client_pager-PagerKeeps,
}

module _ {W Z T E : Type 0} (retrier : Retrier) (law : IsRetrier retrier) (set : Setting W Z T E)
    (endpoint : Bytes) (P : W → Type 0) (keeps : SettingKeeps set endpoint P) where
  -- The endpoint is still the configured one, and the property of the world holds.
  abbrev pub Holds : Client × W → Type 0
  Holds s = (s.0.api_endpoint ≡ endpoint) × P s.1

  abbrev OnEndpoint : Client → Type 0
  OnEndpoint c = c.api_endpoint ≡ endpoint

  endpoint-QueryKeeps : QueryKeeps retrier set OnEndpoint P
  unfolding kill_query initialize
  endpoint-QueryKeeps = record {
    fits = λ c d same e. same.same_endpoint ∙ e;
    sends = λ c e.
        RequestsKeep-endpoint retrier law set endpoint P keeps set.env set.ctx c e keeps.here;
    detached = λ c e.
        RequestsKeep-endpoint retrier law set endpoint P keeps (without_cancel set.env) set.ctx c e
          (record { send_keeps = keeps.here.send_keeps; load_keeps = keeps.here.load_keeps });
    kills = λ uri c w e p.
        send_end_keeps retrier law set endpoint P keeps set.background background_ctx kill c uri w
          keeps.there e p;
    starts = λ c w e p.
        let (e', p') =
          initialize_connection_info-Holds set.env set.marshal_login set.read_login P c
            (IsKept-client set.env c set.read_login P endpoint e keeps.here) set.ctx w p in
        (e' ∙ e, p');
    sleeps = keeps.sleep_keeps;
    tracks = keeps.track_keeps;
    hints = keeps.hint_keeps;
  }

  -- Reading the rows of a query through the client, whatever URIs the server names, sends requests to
  -- the configured endpoint only, and the endpoint stays as it is.
  pub client_pager-Holds : PagerKeeps (client_pager retrier set) Holds
  client_pager-Holds = client_pager-PagerKeeps retrier law set OnEndpoint P endpoint-QueryKeeps

  -- A query that is waited for, from the login to the request that closes it, with all retries and
  -- whatever URIs the server names, keeps every property of the world that requests to the configured
  -- endpoint keep: no other request is sent. The client's endpoint stays as it is.
  pub query_sync-Holds :
      (fuel : ℕ) (sql : Bytes) (s : Client × W)
      → Holds s
      → Holds (query_sync retrier set fuel sql s).1
  query_sync-Holds = query_sync-Held retrier law set OnEndpoint P endpoint-QueryKeeps

  -- An insert from a stage goes to the configured endpoint too.
  pub insert_with_stage-Holds :
      (fuel : ℕ) (sql : Bytes) (stage : StageAttachmentConfig) (s : Client × W)
      → Holds s
      → Holds (insert_with_stage retrier set fuel sql stage s).1
  insert_with_stage-Holds = insert_with_stage-Held retrier law set OnEndpoint P endpoint-QueryKeeps

  -- A query that is started goes to the configured endpoint too, with the login before it.
  pub start_query-Holds :
      (sql : Bytes) (s : Client × W) → Holds s → Holds (start_query retrier set sql s).1
  start_query-Holds = start_query-Held retrier law set OnEndpoint P endpoint-QueryKeeps

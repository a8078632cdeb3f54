-- ===== src/Query/Calls/Settle/Session.antt =====
-- A response that reports an error still moves the session on.
use mathlib.Core.Option
use lake_go.Prelude.{◌≡◌, ◌∙◌, ap, arith, Option, none, some, Bytes, codes}
use lake_go.Prelude.Result.{Result, ok, err, map_err}
use lake_go.Client.Errors.{Failure, QueryError, query_failed, wrap}
use lake_go.Client.State.{Client}
use lake_go.Query.Response.{QueryResponse}
use lake_go.Query.Materialize.{RowsError}
use lake_go.Query.Materialize.Same.{IsRest, materialize_json_query_rows-IsRest}
use lake_go.Query.Calls.{Host, materialize, rows_failure}
use lake_go.Query.Calls.Settle.{
  answered, finish_poll, finalize_query_response, apply_session_state, set_node, set_hint, outcome,
  keep_poll, keep_query, keep_poll_rows, keep_query_rows,
}

-- The node and the route hint are no part of the session.
set_hint-session :
    (hint : Bytes) (c : Client)
    → ((set_hint hint c).session_state_raw ≡ c.session_state_raw)
      × ((set_hint hint c).session_state ≡ c.session_state)
unfolding set_hint
set_hint-session hint c = ground arith

set_node-session : (node : Bytes) (c : Client) → (set_node node c).session_state ≡ c.session_state
unfolding set_node
set_node-session node c = ground arith

module _ {W Z T E : Type 0} (host : Host W Z T E) where
  map_err-ok :
      (m : Result (RowsError E) (QueryResponse T)) {r : QueryResponse T}
      → map_err (rows_failure host) m ≡ ok r
      → m ≡ ok r
  map_err-ok (ok r) h = cc
  map_err-ok (err e) h = cc

  pub materialize-IsRest :
      (r : QueryResponse T) {r' : QueryResponse T} → materialize host r ≡ ok r' → IsRest r r'
  unfolding materialize
  materialize-IsRest r h =
      materialize_json_query_rows-IsRest host.parsers host.load_location r (map_err-ok _ h)

  keep-session :
      (r : QueryResponse T) (failed : Option Failure) (hint raw : Bytes) (c : Client) (w : W)
      (e : QueryError)
      → r.error ≡ some e
      → r.session ≡ some raw
      → ((keep_poll host r failed c w).0 ≡ err (wrap (codes "query error") (query_failed e)))
        × ((keep_query host hint r failed c w).0
            ≡ err (wrap (codes "query error") (query_failed e)))
        × ((keep_poll host r failed c w).1.0 ≡ apply_session_state host (some raw) c)
        × ((keep_query host hint r failed c w).1.0.session_state_raw ≡ some raw)
        × ((keep_query host hint r failed c w).1.0.session_state
            ≡ Option.map (host.unmarshal_session raw) c.session_state)
  unfolding keep_poll keep_query outcome apply_session_state
  keep-session r failed hint raw c w e h s =
      let (p, q) =
        set_hint-session hint (apply_session_state host r.session (set_node r.node_id c)) in
      (
        rw h,
        rw h,
        rw s,
        p ∙ rw s,
        q ∙ rw s (ap (Option.map (host.unmarshal_session raw)) (set_node-session r.node_id c)),
      )

  -- A response with an error of the query, whose rows can be read, fails the poll and the start of a
  -- query alike with that error, whether or not the request failed too, and the session state that it
  -- brings is taken over all the same.
  pub finish-session :
      (r r' : QueryResponse T) (failed : Option Failure) (hint raw : Bytes) (c : Client) (w : W)
      (e : QueryError)
      → materialize host r ≡ ok r'
      → r.error ≡ some e
      → r.session ≡ some raw
      → ((finish_poll host (answered r failed) c w).0
          ≡ err (wrap (codes "query error") (query_failed e)))
        × ((finalize_query_response host hint (answered r failed) c w).0
            ≡ err (wrap (codes "query error") (query_failed e)))
        × ((finish_poll host (answered r failed) c w).1.0 ≡ apply_session_state host (some raw) c)
        × ((finalize_query_response host hint (answered r failed) c w).1.0.session_state_raw
            ≡ some raw)
        × ((finalize_query_response host hint (answered r failed) c w).1.0.session_state
            ≡ Option.map (host.unmarshal_session raw) c.session_state)
  unfolding finish_poll finalize_query_response keep_poll_rows keep_query_rows
  finish-session r r' (some f) hint raw c w e m h s = keep-session r (some f) hint raw c w e h s
  finish-session r r' none hint raw c w e m h s =
      let same = materialize-IsRest r m in
      rw m (keep-session r' none hint raw c w e (same.error_same ∙ h) (same.session_same ∙ s))

-- ===== src/Query/Calls/Settle.antt =====
-- client.go: what the client keeps of a response: `applySessionState`, `finalizeQueryResponse`, and the
-- end of `pollQueryWithTransport`.
pub mod Session
pub mod Unchanged
use mathlib.Core.Option
use lake_go.Prelude.{map, Bool, not, Option, none, some, [], ◌∷◌, if◌then◌else◌, Bytes, codes}
use lake_go.Prelude.Result.{Result, ok, err}
use lake_go.Client.Errors.{Failure, QueryError, query_failed, wrap}
use lake_go.Client.State.{Client, is_nil}
use lake_go.Query.Response.{QueryResponse}
use lake_go.Query.Calls.{Host, wrap_error, materialize}

-- What a request leaves: a response, which may be filled in part, with the error of the request, or
-- the error alone.
pub data Fetched (T : Type 0) : Type 0 where
  answered : QueryResponse T → Option Failure → Fetched T
  nothing : Failure → Fetched T

-- A response that holds an error fails, whether the request did or not.
outcome :
    {T : Type 0}
    → Bytes
    → QueryResponse T
    → Option QueryError
    → Option Failure
    → Result Failure (QueryResponse T)
outcome message r (some e) failed = err (wrap (codes "query error") (query_failed e))
outcome message r none (some f) = err (wrap_error message f)
outcome message r none none = ok r

set_node : Bytes → Client → Client
set_node node c = if not (is_nil node) then record c { node_id = node } else c

set_hint : Bytes → Client → Client
set_hint hint c = if not (is_nil hint) then record c { route_hint = hint } else c

module _ {W Z T E : Type 0} (host : Host W Z T E) where
  -- applySessionState
  unfoldable pub apply_session_state : Option Bytes → Client → Client
  apply_session_state none c = c
  apply_session_state (some raw) c = record c {
    session_state_raw = some raw;
    session_state = Option.map (host.unmarshal_session raw) c.session_state;
  }

  tracked : Bytes → Option Bytes → W → W
  tracked id none w = w
  tracked id (some stats) w = host.track id stats w

  -- trackStats
  pub track_stats : QueryResponse T → W → W
  track_stats r w = tracked r.id r.stats w

  keep_poll :
      QueryResponse T
      → Option Failure
      → Client
      → W
      → Result Failure (QueryResponse T) × (Client × W)
  keep_poll r failed c w = (
    outcome (codes "failed to query page") r r.error failed,
    (apply_session_state r.session c, track_stats r w),
  )

  keep_poll_rows :
      Result Failure (QueryResponse T)
      → Client
      → W
      → Result Failure (QueryResponse T) × (Client × W)
  keep_poll_rows (err e) c w =
      (err (wrap_error (codes "failed to materialize query rows") e), (c, w))
  keep_poll_rows (ok r) c w = keep_poll r none c w

  -- The end of pollQueryWithTransport.
  unfoldable pub finish_poll :
      Fetched T → Client → W → Result Failure (QueryResponse T) × (Client × W)
  unfolding keep_poll_rows keep_poll outcome
  finish_poll (nothing e) c w = (err (wrap_error (codes "failed to query page") e), (c, w))
  finish_poll (answered r (some f)) c w = keep_poll r (some f) c w
  finish_poll (answered r none) c w = keep_poll_rows (materialize host r) c w

  keep_query :
      Bytes
      → QueryResponse T
      → Option Failure
      → Client
      → W
      → Result Failure (QueryResponse T) × (Client × W)
  keep_query hint r failed c w = (
    outcome (codes "failed to do query request") r r.error failed,
    (set_hint hint (apply_session_state r.session (set_node r.node_id c)), track_stats r w),
  )

  keep_query_rows :
      Bytes
      → Result Failure (QueryResponse T)
      → Client
      → W
      → Result Failure (QueryResponse T) × (Client × W)
  keep_query_rows hint (err e) c w =
      (err (wrap_error (codes "failed to materialize query rows") e), (c, w))
  keep_query_rows hint (ok r) c w = keep_query hint r none c w

  -- finalizeQueryResponse, with the route hint of the headers
  unfoldable pub finalize_query_response :
      Bytes → Fetched T → Client → W → Result Failure (QueryResponse T) × (Client × W)
  unfolding keep_query_rows keep_query outcome set_node set_hint
  finalize_query_response hint (nothing e) c w =
      (err (wrap_error (codes "failed to do query request") e), (set_hint hint c, w))
  finalize_query_response hint (answered r (some f)) c w = keep_query hint r (some f) c w
  finalize_query_response hint (answered r none) c w = keep_query_rows hint (materialize host r) c w

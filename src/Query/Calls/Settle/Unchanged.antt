-- ===== src/Query/Calls/Settle/Unchanged.antt =====
-- What the client keeps of a response does not change what its requests are made of.
use lake_go.Prelude.{◌≡◌, ◌∙◌, refl, Option, none, some, Bytes, [], ◌∷◌}
use lake_go.Prelude.Result.{Result, ok, err}
use lake_go.Client.Errors.{Failure}
use lake_go.Client.State.{Client}
use lake_go.Query.Response.{QueryResponse}
use lake_go.Query.Calls.{Host, materialize}
use lake_go.Query.Calls.Settle.{
  Fetched, answered, nothing, finish_poll, finalize_query_response, apply_session_state, set_node,
  set_hint, keep_poll_rows, keep_query_rows, track_stats, tracked,
}

-- What a response does not change of a client: where its requests go, its user agent, and whether it is
-- initialised.
pub record IsUnchanged (c d : Client) : Type 0 where
  pub same_endpoint : d.api_endpoint ≡ c.api_endpoint
  pub same_agent : d.user_agent ≡ c.user_agent
  pub same_restored : d.state_restored ≡ c.state_restored
  pub same_initialized : d.connection_info_initialized ≡ c.connection_info_initialized

abbrev pub unchanged : (c : Client) → IsUnchanged c c
unchanged c = record {
  same_endpoint = refl;
  same_agent = refl;
  same_restored = refl;
  same_initialized = refl;
}

then_unchanged : (c d e : Client) → IsUnchanged c d → IsUnchanged d e → IsUnchanged c e
then_unchanged c d e h k = record {
  same_endpoint = k.same_endpoint ∙ h.same_endpoint;
  same_agent = k.same_agent ∙ h.same_agent;
  same_restored = k.same_restored ∙ h.same_restored;
  same_initialized = k.same_initialized ∙ h.same_initialized;
}

set_hint-IsUnchanged : (hint : Bytes) (c : Client) → IsUnchanged c (set_hint hint c)
unfolding set_hint
set_hint-IsUnchanged [] c = unchanged c
set_hint-IsUnchanged (b ∷ hint) c = record {
  same_endpoint = refl;
  same_agent = refl;
  same_restored = refl;
  same_initialized = refl;
}

set_node-IsUnchanged : (node : Bytes) (c : Client) → IsUnchanged c (set_node node c)
unfolding set_node
set_node-IsUnchanged [] c = unchanged c
set_node-IsUnchanged (b ∷ node) c = record {
  same_endpoint = refl;
  same_agent = refl;
  same_restored = refl;
  same_initialized = refl;
}

module _ {W Z T E : Type 0} (host : Host W Z T E) (Fit : Client → Type 0) (P : W → Type 0)
    (fits : (c d : Client) → IsUnchanged c d → Fit c → Fit d)
    (track_keeps : (id stats : Bytes) (w : W) → P w → P (host.track id stats w)) where
  abbrev Held : Client × W → Type 0
  Held s = Fit s.0 × P s.1

  apply_session_state-IsUnchanged :
      (raw : Option Bytes) (c : Client) → IsUnchanged c (apply_session_state host raw c)
  unfolding apply_session_state
  apply_session_state-IsUnchanged none c = unchanged c
  apply_session_state-IsUnchanged (some raw) c = record {
    same_endpoint = refl;
    same_agent = refl;
    same_restored = refl;
    same_initialized = refl;
  }

  track_stats_keeps : (r : QueryResponse T) (w : W) → P w → P (track_stats host r w)
  unfolding track_stats tracked
  track_stats_keeps r w p = split r.stats
    where
      split : (stats : Option Bytes) → P (tracked host r.id stats w)
      split none = p
      split (some stats) = track_keeps r.id stats w p

  keep_poll-Held :
      (r : QueryResponse T) (c : Client) (w : W)
      → Held (c, w)
      → Held (apply_session_state host r.session c, track_stats host r w)
  keep_poll-Held r c w (e, p) =
      (fits c _ (apply_session_state-IsUnchanged r.session c) e, track_stats_keeps r w p)

  pub finish_poll-Held :
      (f : Fetched T) (c : Client) (w : W) → Held (c, w) → Held (finish_poll host f c w).1
  unfolding finish_poll keep_poll_rows
  finish_poll-Held (nothing e) c w h = h
  finish_poll-Held (answered r (some f)) c w h = keep_poll-Held r c w h
  finish_poll-Held (answered r none) c w h = split (materialize host r)
    where
      split : (m : Result Failure (QueryResponse T)) → Held (keep_poll_rows host m c w).1
      split (ok r') = keep_poll-Held r' c w h
      split (err e) = h

  keep_query-Held :
      (hint : Bytes) (r : QueryResponse T) (c : Client) (w : W)
      → Held (c, w)
      → Held (
        set_hint hint (apply_session_state host r.session (set_node r.node_id c)),
        track_stats host r w,
      )
  keep_query-Held hint r c w (e, p) = (
    fits c _
        (then_unchanged c _ _ (set_node-IsUnchanged r.node_id c) (
          then_unchanged (set_node r.node_id c) _ _
            (apply_session_state-IsUnchanged r.session (set_node r.node_id c))
            (set_hint-IsUnchanged hint _)))
        e,
    track_stats_keeps r w p,
  )

  pub finalize_query_response-Held :
      (hint : Bytes) (f : Fetched T) (c : Client) (w : W)
      → Held (c, w)
      → Held (finalize_query_response host hint f c w).1
  unfolding finalize_query_response keep_query_rows
  finalize_query_response-Held hint (nothing e) c w (h, p) =
      (fits c _ (set_hint-IsUnchanged hint c) h, p)
  finalize_query_response-Held hint (answered r (some f)) c w h = keep_query-Held hint r c w h
  finalize_query_response-Held hint (answered r none) c w h = split (materialize host r)
    where
      split : (m : Result Failure (QueryResponse T)) → Held (keep_query_rows host hint m c w).1
      split (ok r') = keep_query-Held hint r' c w h
      split (err e) = h

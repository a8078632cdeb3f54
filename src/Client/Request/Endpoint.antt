-- ===== src/Client/Request/Endpoint.antt =====
-- Every request that `doRequest` sends goes to the configured endpoint.
use lake_go.Prelude.{Bool, Bytes}
use lake_go.Client.State.{Client}
use lake_go.Client.Url.Endpoint.{StaysOn, make_url-StaysOn}
use lake_go.Client.Request.{Ctx, HttpRequest, Env, Exchange, Reader, make_headers, do_request}
use lake_go.Client.Request.Keeps.{KeptBy, headers_keep, do_request_keeps_of}

module _ {W R : Type 0} (env : Env W) (c : Client) (read : Reader env R) where
  abbrev OnEndpoint : HttpRequest → Type 0
  OnEndpoint req = StaysOn env.parse_url c.api_endpoint req.url

  -- A property of the world that requests to the endpoint and the token loader keep.
  abbrev pub IsKept : (W → Type 0) → Type 0
  IsKept P = KeptBy env OnEndpoint P

  module _ (P : W → Type 0) (kept : IsKept P) where
    pub make_headers_keeps : (ctx : Ctx) (w : W) → P w → P (make_headers env c ctx w).1
    make_headers_keeps = headers_keep env c read OnEndpoint P kept

    -- A property of the world that holds before `doRequest` holds after it, if the token loader
    -- keeps it and every request to the configured endpoint does: whatever path the server named,
    -- no other request is sent.
    pub do_request_keeps :
        (ctx : Ctx) (method path body : Bytes) (sticky : Bool) (accept : Bytes) (x : Exchange R W)
        → P x.world
        → P (do_request env c ctx method path body sticky accept read x).1.world
    do_request_keeps ctx method path body sticky accept x h =
        do_request_keeps_of env c read OnEndpoint P kept ctx method path body sticky accept x
          (λ url h p q. make_url-StaysOn env.parse_url c.api_endpoint path p) h

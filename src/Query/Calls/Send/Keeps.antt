-- ===== src/Query/Calls/Send/Keeps.antt =====
-- Whole queries send no request but to the configured endpoint.
use lake_go.Prelude.{◌≡◌, Bool, Bytes, ℕ}
use lake_go.Client.State.{Client}
use lake_go.Client.Url.Endpoint.{StaysOn}
use lake_go.Client.Retry.{RequestType, Retrier, IsRetrier}
use lake_go.Client.Request.{Ctx, Env, Reader, HttpRequest}
use lake_go.Client.Request.Endpoint.{IsKept, do_request_keeps}
use lake_go.Query.Calls.Send.{Setting, fetch, send_end}
use lake_go.Query.Calls.Send.Requests.{RequestsKeep, fetch_keeps_of, send_end_keeps_of}

-- The world of requests: those to the endpoint and the token loader keep the property.
pub record EnvKeeps {W : Type 0} (env : Env W) (endpoint : Bytes) (P : W → Type 0) : Type 0 where
  pub send_keeps :
      (req : HttpRequest) (w : W)
      → StaysOn env.parse_url endpoint req.url
      → P w
      → P (env.send req w).1
  pub load_keeps : (force : Bool) (w : W) → P w → P (env.load_token force w).1

-- The rest of what a query uses keeps it too.
pub record SettingKeeps {W Z T E : Type 0} (set : Setting W Z T E) (endpoint : Bytes)
    (P : W → Type 0) : Type 0 where
  pub here : EnvKeeps set.env endpoint P
  pub there : EnvKeeps set.background endpoint P
  pub sleep_keeps : (n : ℕ) (w : W) → P w → P (set.host.sleep n w)
  pub track_keeps : (id stats : Bytes) (w : W) → P w → P (set.host.track id stats w)
  pub hint_keeps : (w : W) → P w → P (set.host.rand_route_hint w).1

pub IsKept-client :
    {W R : Type 0} (env : Env W) (c : Client) (read : Reader env R) (P : W → Type 0)
    (endpoint : Bytes)
    → c.api_endpoint ≡ endpoint
    → EnvKeeps env endpoint P
    → IsKept env c read P
IsKept-client env c read P endpoint e k = record {
  send_keeps = λ req w s. k.send_keeps req w (rw e at s);
  load_keeps = k.load_keeps;
}

module _ {W Z T E : Type 0} (retrier : Retrier) (law : IsRetrier retrier) (set : Setting W Z T E)
    (endpoint : Bytes) (P : W → Type 0) (keeps : SettingKeeps set endpoint P) where
  -- The state of a call is right: the endpoint is still the configured one, and the property holds.
  abbrev pub Holds : Client × W → Type 0
  Holds s = (s.0.api_endpoint ≡ endpoint) × P s.1

  pub RequestsKeep-endpoint :
      (env : Env W) (ctx : Ctx) (c : Client)
      → c.api_endpoint ≡ endpoint
      → EnvKeeps env endpoint P
      → RequestsKeep env ctx c P
  RequestsKeep-endpoint env ctx c e k R read method path body sticky accept x =
      do_request_keeps env c read P (IsKept-client env c read P endpoint e k) ctx method path body
        sticky accept x

  pub fetch_keeps :
      (arrow : Bool) (c : Client) (t : RequestType) (method path body : Bytes) (sticky : Bool)
      (w : W)
      → c.api_endpoint ≡ endpoint
      → P w
      → P (fetch retrier set arrow c t method path body sticky w).1.1
  fetch_keeps arrow c t method path body sticky w e p =
      fetch_keeps_of retrier law set P keeps.sleep_keeps arrow c t method path body sticky w
        (RequestsKeep-endpoint set.env set.ctx c e keeps.here) p

  pub send_end_keeps :
      (env : Env W) (ctx : Ctx) (t : RequestType) (c : Client) (uri : Bytes) (w : W)
      → EnvKeeps env endpoint P
      → c.api_endpoint ≡ endpoint
      → P w
      → P (send_end retrier set env ctx t c uri w)
  send_end_keeps env ctx t c uri w k e p =
      send_end_keeps_of retrier law set P keeps.sleep_keeps env ctx t c uri w
        (RequestsKeep-endpoint env ctx c e k) p

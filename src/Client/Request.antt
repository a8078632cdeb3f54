-- ===== src/Client/Request.antt =====
-- client.go: `makeHeaders` and `doRequest`, and `doRequestRaw` of arrow.go.
pub mod Keeps
pub mod Endpoint
pub mod Carries
pub mod Rotation
use lake_go.Prelude.{
  zero, suc, true, ◌&&◌, ℕ, String, Bool, false, not, Option, none, some, [], ◌∷◌, ◌++◌, ltb, leb,
  ◌==◌, if◌then◌else◌, Bytes, codes, bytes_eq,
}
use lake_go.Prelude.Result.{Result, ok, err, ◌>>=◌, map_err}
use lake_go.Prelude.Text.{starts_with}
use lake_go.Client.Errors.{
  Failure, do_request_failed, read_response_failed, other, wrap, new_api_error,
}
use lake_go.Client.State.{
  Client, AuthMethod, user_password, access_token, no_auth, auth_method, get_query_id, is_nil,
  StringMap,
}
use lake_go.Client.Url.{Url, make_url}

-- The values that the client reads from a context.
pub record Ctx : Type 0 where
  pub user_agent : Option Bytes
  pub query_id : Option Bytes

pub record HttpRequest : Type 0 where
  pub method : Bytes
  pub url : Bytes
  pub host : Bytes
  pub headers : StringMap
  pub body : Bytes

pub record HttpResponse : Type 0 where
  pub status : ℕ
  pub headers : StringMap
  pub body : Bytes

-- `http.Client.Do` fails, or reading the body does, or there is a response.
pub data Outcome : Type 0 where
  no_response : Bytes → Outcome
  unreadable : Bytes → Outcome
  received : HttpResponse → Outcome

-- What the client uses and does not implement. `W` is the state of the world outside.
pub record Env (W : Type 0) : Type 0 where
  pub parse_url : Bytes → Option Url
  pub base64 : Bytes → Bytes
  pub version : Bytes
  pub read_body : Bytes → Bytes × Bytes
  -- ctx.Done and ctx.Err
  pub ctx_err : W → Option Failure
  pub send : HttpRequest → W → Outcome × W
  -- LoadAccessToken, which may be forced to rotate
  pub load_token : Bool → W → Result Failure Bytes × W

-- Header.Set and Header.Get
unfoldable pub set_header : Bytes → Bytes → StringMap → StringMap
set_header k v [] = (k, v) ∷ []
set_header k v ((j, w) ∷ h) =
    let rest = set_header k v h in if bytes_eq j k then (k, v) ∷ h else (j, w) ∷ rest

unfoldable pub get_header : Bytes → StringMap → Bytes
get_header k [] = []
get_header k ((j, w) ∷ h) = let rest = get_header k h in if bytes_eq j k then w else rest

abbrev set_unless_empty : String → Bytes → StringMap → StringMap
set_unless_empty k v h = if is_nil v then h else set_header (codes k) v h

pub user_agent_header : Bytes → Bytes → Bytes
user_agent_header version agent =
    if is_nil agent
    then codes "lake-go/" ++ version
    else codes "lake-go/" ++ (version ++ (codes " (" ++ (agent ++ codes ")")))

abbrev pub or_value : Option Bytes → Bytes → Bytes
or_value none d = d
or_value (some v) d = v

-- The headers but the last one.
unfoldable pub base_headers : Bytes → Client → Ctx → StringMap
unfolding user_agent_header
base_headers version c ctx =
    let h = set_header (codes "X-DATABEND-ROUTE") (codes "warehouse") [] in
    let h =
      set_header (codes "User-Agent")
        (user_agent_header version (or_value ctx.user_agent c.user_agent)) h in
    let h = set_unless_empty "X-DATABEND-TENANT" c.tenant h in
    let h = set_unless_empty "X-DATABEND-WAREHOUSE" c.warehouse h in
    let h = set_unless_empty "X-DATABEND-ROUTE-HINT" c.route_hint h in
    set_header (codes "X-DATABEND-QUERY-ID") (or_value ctx.query_id (get_query_id c)) h

-- The hint of the error for a status, and no error for 200. 401 is looked at first.
unfoldable pub status_hint : ℕ → Option Bytes
status_hint status =
    if status == 401
    then some (codes "authorization failed")
    else if ltb 500 status
    then some (codes "please retry again later")
    else if status == 500
    then some (codes "internal server error")
    else if leb 400 status
    then some (codes "please check your arguments")
    else if not (status == 200)
    then some (codes "unexpected HTTP StatusCode")
    else none

-- What a request reads into: the response value, the headers and the world.
pub record Exchange (R W : Type 0) : Type 0 where
  pub resp : R
  pub headers : StringMap
  pub world : W

module _ {W : Type 0} (env : Env W) where
  bearer : StringMap → Result Failure Bytes × W → Result Failure StringMap × W
  bearer h (ok token, w) = (ok (set_header (codes "Authorization") (codes "Bearer " ++ token) h), w)
  bearer h (err e, w) = (err (wrap (codes "failed to load access token") e), w)

  authorize : AuthMethod → Client → StringMap → W → Result Failure StringMap × W
  authorize user_password c h w = (
    ok (
        set_header (codes "Authorization")
          (codes "Basic " ++ env.base64 (c.user ++ (b':' ∷ c.password))) h),
    w,
  )
  authorize access_token c h w = bearer h (env.load_token false w)
  authorize no_auth c h w = (err (other (codes "no user password or access token")), w)

  -- makeHeaders
  unfoldable pub make_headers : Client → Ctx → W → Result Failure StringMap × W
  unfolding authorize bearer
  make_headers c ctx w = authorize (auth_method c) c (base_headers env.version c ctx) w

  -- How a response is read into the response value, with the error of reading it.
  abbrev pub Reader : Type 0 → Type 0
  Reader R = HttpResponse → R → R × Option Failure

  read_result :
      {R : Type 0} → Option Failure → Exchange R W → Result Failure (Unit {0}) × Exchange R W
  read_result none x = (ok tt, x)
  read_result (some e) x = (err e, x)

  refuse :
      {R : Type 0} → Bytes → HttpResponse → Exchange R W → Result Failure (Unit {0}) × Exchange R W
  refuse hint r x = (err (new_api_error env.read_body hint r.status r.body), x)

  abbrev is_access_token : AuthMethod → Bool
  is_access_token access_token = true
  is_access_token _ = false

  -- LoadAccessToken with forceRotate; its result is dropped.
  rotate : {R : Type 0} → Exchange R W → Exchange R W
  rotate x = record x { world = (env.load_token true x.world).1 }

  abbrev pub Round : Type 0 → Type 0
  Round R = Exchange R W → Result Failure (Unit {0}) × Exchange R W

  -- On 401, where a token may be rotated and a round is left, the next round; else the error.
  or_again : {R : Type 0} → Bytes → HttpResponse → Bool → Option (Round R) → Round R
  or_again hint r true (some again) x = again (rotate x)
  or_again hint r _ _ x = refuse hint r x

  on_status :
      {R : Type 0}
      → HttpResponse
      → Bool
      → Option (Round R)
      → Option Bytes
      → Option Failure
      → Round R
  on_status r may_rotate retry none failed x = read_result failed x
  on_status r may_rotate retry (some hint) failed x =
      or_again hint r (r.status == 401 && may_rotate) retry x

  -- The rest of a round, behind `Do`.
  on_outcome :
      {R : Type 0}
      → Client
      → Reader R
      → Option (Round R)
      → Exchange R W
      → Outcome × W
      → Result Failure (Unit {0}) × Exchange R W
  on_outcome c read retry x (no_response text, w) =
      (err (wrap text do_request_failed), record x { world = w })
  on_outcome c read retry x (unreadable text, w) =
      (err (wrap text read_response_failed), record x { world = w })
  on_outcome c read retry x (received r, w) =
      let (resp, failed) = read r x.resp in
      on_status r (is_access_token (auth_method c)) retry (status_hint r.status) failed
        (record { resp = resp; headers = r.headers; world = w })

  round_ctx :
      {R : Type 0} → Client → Reader R → HttpRequest → Option (Round R) → Option Failure → Round R
  round_ctx c read req retry (some e) x = (err (wrap (codes "context done") e), x)
  round_ctx c read req retry none x = on_outcome c read retry x (env.send req x.world)

  -- One round of the loop; `retry` is the next one.
  pub round : {R : Type 0} → Client → Reader R → HttpRequest → Option (Round R) → Round R
  round c read req retry x = round_ctx c read req retry (env.ctx_err x.world) x

  -- The loop, with the number of rounds that may follow the first.
  unfoldable pub attempt : {R : Type 0} → ℕ → Client → Reader R → HttpRequest → Round R
  unfolding round round_ctx on_outcome on_status or_again rotate refuse read_result
  attempt zero c read req = round c read req none
  attempt (suc left) c read req = round c read req (some (attempt left c read req))

  -- What `doRequest` sets besides `makeHeaders`.
  pub request_headers : Client → Bytes → Bool → Bytes → StringMap → StringMap
  request_headers c method sticky accept h =
      let h =
        if sticky && not (is_nil c.node_id)
        then set_header (codes "X-DATABEND-STICKY-NODE") c.node_id h
        else h in
      let h =
        if bytes_eq method (codes "GET") && not (is_nil c.node_id)
        then set_header (codes "X-DATABEND-NODE-ID") c.node_id h
        else h in
      let h = set_header (codes "Content-Type") (codes "application/json; charset=utf-8") h in
      set_header (codes "Accept") accept h

  with_headers :
      {R : Type 0}
      → Client
      → Bytes
      → Bytes
      → Bytes
      → Bool
      → Bytes
      → Reader R
      → Exchange R W
      → Result Failure StringMap × W
      → Result Failure (Unit {0}) × Exchange R W
  with_headers c url method body sticky accept read x (err e, w) =
      (err (wrap (codes "failed to make request headers") e), record x { world = w })
  with_headers c url method body sticky accept read x (ok h, w) =
      attempt 1 c read
        (record {
          method = method;
          url = url;
          host = c.host;
          headers = request_headers c method sticky accept h;
          body = body;
        })
        (record x { world = w })

  -- `doRequest`, and `doRequestRaw`, which reads the response another way.
  unfoldable pub do_request :
      {R : Type 0} → Client → Ctx → Bytes → Bytes → Bytes → Bool → Bytes → Reader R → Round R
  unfolding with_headers request_headers
  do_request c ctx method path body sticky accept read x =
      elim (make_url env.parse_url c.api_endpoint path) [
        | err e ↦ (err e, x)
        | ok url ↦ with_headers c url method body sticky accept read x (make_headers c ctx x.world)
      ]

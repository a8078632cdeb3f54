-- ===== src/Client/Request/Rotation.antt =====
-- The token of the request behind a 401.
use lake_go.Prelude.{
  ◌≡◌, ◌∙◌, refl, Bool, true, false, ◌==◌, ◌&&◌, Option, none, some, ◌++◌, Bytes, codes, ap,
}
use lake_go.Prelude.Result.{ok}
use lake_go.Client.State.{Client, access_token, auth_method, StringMap}
use lake_go.Client.Errors.{Failure}
use lake_go.Client.Url.{make_url}
use lake_go.Client.Request.{
  Ctx, HttpRequest, HttpResponse, Outcome, no_response, unreadable, received, Env, Exchange, Reader,
  attempt, status_hint, set_header, get_header, base_headers, bearer, authorize, make_headers,
  request_headers, with_headers, do_request, on_outcome, on_status, or_again, read_result, refuse,
  round_ctx, round,
}
use lake_go.Client.Request.Carries.{get_header-set_header, request_headers_other}

module _ {W R : Type 0} (env : Env W) (c : Client) (read : Reader env R) where
  -- A round that is the last leaves the world as sending left it.
  on_status-world :
      (r : HttpResponse) (b : Bool) (hint : Option Bytes) (f : Option Failure) (x : Exchange R W)
      → (on_status env r b none hint f x).1.world ≡ x.world
  unfolding on_status read_result or_again refuse
  on_status-world r b none none x = refl
  on_status-world r b none (some e) x = refl
  on_status-world r b (some hint) f x = last (r.status == 401 && b)
    where
      last : (again : Bool) → (or_again env hint r again none x).1.world ≡ x.world
      last true = refl
      last false = refl

  on_outcome-world :
      (x : Exchange R W) (o : Outcome × W) → (on_outcome env c read none x o).1.world ≡ o.1
  unfolding on_outcome
  on_outcome-world x (no_response text, w) = refl
  on_outcome-world x (unreadable text, w) = refl
  on_outcome-world x (received r, w) = on_status-world r _ _ _ _

  -- The answer of the server is 401, and the context is not done once the token was rotated.
  pub record IsUnauthorized (o : Outcome × W) : Type 0 where
    pub response : HttpResponse
    pub is_received : o.0 ≡ received response
    pub unauthorized : response.status ≡ 401
    pub not_done : env.ctx_err (env.load_token true o.1).1 ≡ none

  -- The request, the rotation of the token, and the request again.
  abbrev pub twice : HttpRequest → W → W
  twice req w = (env.send req (env.load_token true (env.send req w).1).1).1

  attempt-last :
      (req : HttpRequest) (x : Exchange R W)
      → env.ctx_err x.world ≡ none
      → (attempt env 0 c read req x).1.world ≡ (env.send req x.world).1
  unfolding attempt round round_ctx
  attempt-last req x d = rw d (on_outcome-world x (env.send req x.world))

  attempt-rotation :
      (req : HttpRequest) (x : Exchange R W) (r : HttpResponse) (w : W)
      → auth_method c ≡ access_token
      → env.ctx_err x.world ≡ none
      → env.send req x.world ≡ (received r, w)
      → r.status ≡ 401
      → attempt env 1 c read req x
        ≡ attempt env 0 c read req (record {
          resp = (read r x.resp).0;
          headers = r.headers;
          world = (env.load_token true w).1;
        })
  unfolding attempt status_hint
  attempt-rotation req x r w a d s k = simp (d, s, k, a)

  attempt-twice :
      (req : HttpRequest) (x : Exchange R W)
      → auth_method c ≡ access_token
      → env.ctx_err x.world ≡ none
      → IsUnauthorized (env.send req x.world)
      → (attempt env 1 c read req x).1.world ≡ twice req x.world
  attempt-twice req x a d u =
      let sent : env.send req x.world ≡ (received u.response, (env.send req x.world).1) =
        ap (λ o. (o, (env.send req x.world).1)) u.is_received in
      ap (λ out. out.1.world) (attempt-rotation req x u.response _ a d sent u.unauthorized)
      ∙ attempt-last req _ u.not_done

  make_headers-bearer :
      (ctx : Ctx) (token : Bytes) (v w : W)
      → auth_method c ≡ access_token
      → env.load_token false v ≡ (ok token, w)
      → make_headers env c ctx v ≡ (
        ok (
            set_header
              (codes "Authorization")
              (codes "Bearer " ++ token)
              (base_headers env.version c ctx)),
        w,
      )
  unfolding make_headers authorize bearer
  make_headers-bearer ctx token v w a l = simp (a, l)

  -- With an access token, and where the context is not done, `doRequest` on a server that answers 401 sends
  -- a request twice and has the token rotated in between. Both times the request is the same one, with the
  -- token that was loaded before the rotation, so that a token that is rotated is not used by the call.
  pub do_request-rotation :
      (ctx : Ctx) (method path body : Bytes) (sticky : Bool) (accept url token : Bytes)
      (x : Exchange R W) (w : W)
      → auth_method c ≡ access_token
      → make_url env.parse_url c.api_endpoint path ≡ ok url
      → env.load_token false x.world ≡ (ok token, w)
      → env.ctx_err w ≡ none
      → ((req : HttpRequest) → IsUnauthorized (env.send req w))
      → (req : HttpRequest) × (get_header (codes "Authorization") req.headers
          ≡ codes "Bearer " ++ token)
        × ((do_request env c ctx method path body sticky accept read x).1.world ≡ twice req w)
  unfolding do_request with_headers
  do_request-rotation ctx method path body sticky accept url token x w a u l d refused =
      let h : StringMap =
        set_header (codes "Authorization") (codes "Bearer " ++ token)
          (base_headers env.version c ctx) in
      let made : make_headers env c ctx x.world ≡ (ok h, w) =
        make_headers-bearer ctx token x.world w a l in
      let req : HttpRequest = record {
        method = method;
        url = url;
        host = c.host;
        headers = request_headers env c method sticky accept h;
        body = body;
      } in
      (
        req,
        request_headers_other env c (codes "Authorization") method sticky accept h refl refl refl
              refl
            ∙ get_header-set_header (codes "Authorization") _ _,
        rw (u, do_request, made) (attempt-twice req (record x { world = w }) a d (refused req)),
      )

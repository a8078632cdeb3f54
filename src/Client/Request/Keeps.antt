-- ===== src/Client/Request/Keeps.antt =====
-- What `doRequest` keeps of the world, where every request that it sends is of some kind.
use lake_go.Prelude.{ℕ, zero, suc, ◌≡◌, refl, Bool, true, false, Option, none, some, Bytes}
use lake_go.Prelude.Result.{Result, ok, err}
use lake_go.Client.Errors.{Failure}
use lake_go.Client.State.{
  Client, AuthMethod, user_password, access_token, no_auth, auth_method, StringMap,
}
use lake_go.Client.Url.{make_url}
use lake_go.Client.Request.{
  Ctx, HttpRequest, HttpResponse, Outcome, no_response, unreadable, received, Env, Exchange, Reader,
  Round, bearer, authorize, make_headers, refuse, rotate, read_result, or_again, on_status,
  on_outcome, round_ctx, attempt, request_headers, with_headers, do_request, status_hint,
}

-- A property of the world that the requests of a kind and the token loader keep.
pub record KeptBy {W : Type 0} (env : Env W) (Good : HttpRequest → Type 0) (P : W → Type 0)
    : Type 0 where
  pub send_keeps : (req : HttpRequest) (w : W) → Good req → P w → P (env.send req w).1
  pub load_keeps : (force : Bool) (w : W) → P w → P (env.load_token force w).1

module _ {W R : Type 0} (env : Env W) (c : Client) (read : Reader env R) where
  module _ (Good : HttpRequest → Type 0) (P : W → Type 0) (kept : KeptBy env Good P) where
    abbrev Keeps : Result Failure (Unit {0}) × Exchange R W → Type 0
    Keeps r = P (r.1).world

    read_result-Keeps :
        (f : Option Failure) (x : Exchange R W) → P x.world → Keeps (read_result env f x)
    unfolding read_result
    read_result-Keeps none x h = h
    read_result-Keeps (some e) x h = h

    abbrev RetryKeeps : Option (Round env R) → Type 0
    RetryKeeps none = Unit
    RetryKeeps (some again) = (x : Exchange R W) → P x.world → Keeps (again x)

    or_again-Keeps :
        (hint : Bytes) (r : HttpResponse) (b : Bool) (retry : Option (Round env R))
        (x : Exchange R W)
        → RetryKeeps retry
        → P x.world
        → Keeps (or_again env hint r b retry x)
    unfolding or_again refuse rotate
    or_again-Keeps hint r true (some again) x k h = k _ (kept.load_keeps true x.world h)
    or_again-Keeps hint r true none x k h = h
    or_again-Keeps hint r false retry x k h = h

    on_status-Keeps :
        (r : HttpResponse) (b : Bool) (retry : Option (Round env R)) (hint : Option Bytes)
        (f : Option Failure) (x : Exchange R W)
        → RetryKeeps retry
        → P x.world
        → Keeps (on_status env r b retry hint f x)
    unfolding on_status
    on_status-Keeps r b retry none f x k h = read_result-Keeps f x h
    on_status-Keeps r b retry (some hint) f x k h = or_again-Keeps hint r _ retry x k h

    on_outcome-Keeps :
        (retry : Option (Round env R)) (x : Exchange R W) (o : Outcome × W)
        → RetryKeeps retry
        → P o.1
        → Keeps (on_outcome env c read retry x o)
    unfolding on_outcome
    on_outcome-Keeps retry x (no_response text, w) k h = h
    on_outcome-Keeps retry x (unreadable text, w) k h = h
    on_outcome-Keeps retry x (received r, w) k h =
        on_status-Keeps r _ retry (status_hint r.status) _ _ k h

    round-Keeps :
        (req : HttpRequest) (retry : Option (Round env R)) (done : Option Failure)
        (x : Exchange R W)
        → Good req
        → RetryKeeps retry
        → P x.world
        → Keeps (round_ctx env c read req retry done x)
    unfolding round_ctx
    round-Keeps req retry (some e) x s k h = h
    round-Keeps req retry none x s k h =
        on_outcome-Keeps retry x (env.send req x.world) k (kept.send_keeps req x.world s h)

    attempt-Keeps :
        (n : ℕ) (req : HttpRequest) (x : Exchange R W)
        → Good req
        → P x.world
        → Keeps (attempt env n c read req x)
    unfolding attempt
    attempt-Keeps zero req x s h = round-Keeps req none _ x s tt h
    attempt-Keeps (suc n) req x s h =
        round-Keeps req (some (attempt env n c read req)) _ x s (λ y k. attempt-Keeps n req y s k) h

    authorize_keeps : (a : AuthMethod) (h : StringMap) (w : W) → P w → P (authorize env a c h w).1
    unfolding authorize bearer
    authorize_keeps user_password h w k = k
    authorize_keeps access_token h w k =
        bearer_keeps (env.load_token false w) (kept.load_keeps false w k)
      where
        bearer_keeps : (r : Result Failure Bytes × W) → P r.1 → P (bearer env h r).1
        bearer_keeps (ok token, w) k = k
        bearer_keeps (err e, w) k = k
    authorize_keeps no_auth h w k = k

    pub headers_keep : (ctx : Ctx) (w : W) → P w → P (make_headers env c ctx w).1
    unfolding make_headers
    headers_keep ctx w p = authorize_keeps (auth_method c) _ w p

    -- What `doRequest` sends where the URL and the headers are made.
    abbrev pub Sends : Ctx → Bytes → Bytes → Bytes → Bool → Bytes → W → Type 0
    Sends ctx method path body sticky accept w =
        (url : Bytes) (h : StringMap)
        → make_url env.parse_url c.api_endpoint path ≡ ok url
        → (make_headers env c ctx w).0 ≡ ok h
        → Good (record {
          method = method;
          url = url;
          host = c.host;
          headers = request_headers env c method sticky accept h;
          body = body;
        })

    with_headers-Keeps :
        (url method body : Bytes) (sticky : Bool) (accept : Bytes) (x : Exchange R W)
        (r : Result Failure StringMap × W)
        → ((h : StringMap)
            → r.0 ≡ ok h
            → Good (record {
              method = method;
              url = url;
              host = c.host;
              headers = request_headers env c method sticky accept h;
              body = body;
            }))
        → P r.1
        → Keeps (with_headers env c url method body sticky accept read x r)
    unfolding with_headers
    with_headers-Keeps url method body sticky accept x (err e, w) s k = k
    with_headers-Keeps url method body sticky accept x (ok h, w) s k =
        attempt-Keeps 1 _ _ (s h refl) k

    pub do_request_keeps_of :
        (ctx : Ctx) (method path body : Bytes) (sticky : Bool) (accept : Bytes) (x : Exchange R W)
        → Sends ctx method path body sticky accept x.world
        → P x.world
        → P (do_request env c ctx method path body sticky accept read x).1.world
    unfolding do_request
    do_request_keeps_of ctx method path body sticky accept x s h =
        split (make_url env.parse_url c.api_endpoint path) refl
      where
        split :
            (u : Result Failure Bytes)
            → make_url env.parse_url c.api_endpoint path ≡ u
            → P (do_request env c ctx method path body sticky accept read x).1.world
        split (err e) p = rw (p, do_request) h
        split (ok url) p =
            rw (p, do_request)
              (with_headers-Keeps url method body sticky accept x _ (λ h. s url h p)
                (headers_keep ctx x.world h))

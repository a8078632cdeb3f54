-- ===== src/Query/Calls/Send/Requests.antt =====
-- The requests of a query keep what each `doRequest` keeps, with all retries.
use lake_go.Prelude.{Bool, true, false, Option, none, some, Bytes, [], ◌∷◌, ℕ}
use lake_go.Prelude.Result.{Result, ok, err}
use lake_go.Client.Errors.{Failure}
use lake_go.Client.State.{Client, StringMap}
use lake_go.Client.Retry.{RequestType, Retrier, IsRetrier}
use lake_go.Client.Retry.Invariant.{do_retry_keeps}
use lake_go.Client.Request.{Ctx, Env, Exchange, Reader, HttpResponse, do_request}
use lake_go.Query.Response.{QueryResponse}
use lake_go.Query.Calls.Send.{
  Setting, fetch, fetch_json, fetch_arrow, arrow_attempt, do_request_raw, after_raw, decode_raw,
  pause, send_end,
}

-- Every request of a client with a context keeps the property.
abbrev pub RequestsKeep : {W : Type 0} → Env W → Ctx → Client → (W → Type 0) → Type 1
RequestsKeep {W} env ctx c P =
    (R : Type 0) (read : Reader env R) (method path body : Bytes) (sticky : Bool) (accept : Bytes)
    (x : Exchange R W)
    → P x.world
    → P (do_request env c ctx method path body sticky accept read x).1.world

module _ {W Z T E : Type 0} (retrier : Retrier) (law : IsRetrier retrier) (set : Setting W Z T E)
    (P : W → Type 0) (sleeps : (n : ℕ) (w : W) → P w → P (set.host.sleep n w)) where
  fetch_json_keeps :
      (c : Client) (t : RequestType) (method path body : Bytes) (sticky : Bool) (w : W)
      → RequestsKeep set.env set.ctx c P
      → P w
      → P (fetch_json retrier set c t method path body sticky w).1.1
  unfolding fetch_json pause
  fetch_json_keeps c t method path body sticky w sends p =
      do_retry_keeps (λ (x : Exchange (QueryResponse T) W). P x.world) retrier law _ t _ _
        (λ n x q. sleeps n x.world q) (λ x q. sends _ _ method path body sticky _ x q) p

  after_raw_keeps :
      (before : StringMap) (r : Result Failure (Unit {0}) × Exchange (Option HttpResponse) W)
      → P r.1.world
      → P (after_raw retrier set before r).1.world
  unfolding after_raw decode_raw
  after_raw_keeps before (err e, x) p = p
  after_raw_keeps before (ok done, x) p = split x.resp
    where
      split : (o : Option HttpResponse) → P (decode_raw retrier set before o x).1.world
      split none = p
      split (some raw) = p

  fetch_arrow_keeps :
      (c : Client) (t : RequestType) (method path body : Bytes) (sticky : Bool) (w : W)
      → RequestsKeep set.env set.ctx c P
      → P w
      → P (fetch_arrow retrier set c t method path body sticky w).1.1
  unfolding fetch_arrow pause arrow_attempt do_request_raw
  fetch_arrow_keeps c t method path body sticky w sends p =
      do_retry_keeps (λ (x : Exchange (Option HttpResponse) W). P x.world) retrier law _ t _ _
        (λ n x q. sleeps n x.world q)
        (λ x q. after_raw_keeps x.headers _ (sends _ _ method path body sticky _ x q)) p

  pub fetch_keeps_of :
      (arrow : Bool) (c : Client) (t : RequestType) (method path body : Bytes) (sticky : Bool)
      (w : W)
      → RequestsKeep set.env set.ctx c P
      → P w
      → P (fetch retrier set arrow c t method path body sticky w).1.1
  unfolding fetch
  fetch_keeps_of true c t method path body sticky w sends p =
      fetch_arrow_keeps c t method path body sticky w sends p
  fetch_keeps_of false c t method path body sticky w sends p =
      fetch_json_keeps c t method path body sticky w sends p

  pub send_end_keeps_of :
      (env : Env W) (ctx : Ctx) (t : RequestType) (c : Client) (uri : Bytes) (w : W)
      → RequestsKeep env ctx c P
      → P w
      → P (send_end retrier set env ctx t c uri w)
  unfolding send_end pause
  send_end_keeps_of env ctx t c [] w sends p = p
  send_end_keeps_of env ctx t c (b ∷ uri) w sends p =
      do_retry_keeps (λ (x : Exchange (Unit {0}) W). P x.world) retrier law _ t _ _
        (λ n x q. sleeps n x.world q) (λ x q. sends _ _ _ _ _ true _ x q) p

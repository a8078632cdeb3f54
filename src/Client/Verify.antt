-- ===== src/Client/Verify.antt =====
-- client.go: `Verify`, which `Ping` calls, and `Logout`.
pub mod Verified
pub mod Endpoint
use lake_go.Prelude.{
  ℕ, zero, suc, Bool, true, false, not, ◌&&◌, ◌||◌, Option, none, some, [], ◌∷◌, ◌++◌,
  if◌then◌else◌, Bytes, codes, bytes_eq,
}
use lake_go.Prelude.Decimal.{ℤ}
use lake_go.Prelude.Result.{Result, ok, err}
use lake_go.Client.Errors.{Failure, other, wrap, is_bad_gateway}
use lake_go.Client.State.{Client, SessionState, is_nil, need_sticky, need_keep_alive}
use lake_go.Client.Request.{Ctx, Env, Exchange, Reader, Round, HttpResponse, do_request}
use lake_go.Client.Login.{LoginRequest, initialize_connection_info}

-- The roles are not read.
pub record VerifyResponse : Type 0 where
  pub tenant : Bytes
  pub user : Bytes

abbrev pub json_type : Bytes
json_type = codes "application/json; charset=utf-8"

-- A name that the client has is not the one that the server gives.
abbrev pub differs : Bytes → Bytes → Bool
differs own given = not (is_nil own) && not (bytes_eq given own)

abbrev mismatch_text : Bytes → Bytes → Bytes → Bytes
mismatch_text label own given =
    label ++ (codes " mismatch, expected: " ++ (own ++ (codes ", got: " ++ given)))

-- What is checked of the answer.
pub check_verified : Client → VerifyResponse → Result Failure (Unit {0})
check_verified c r =
    if differs c.tenant r.tenant
    then err (other (mismatch_text (codes "verify tenant") c.tenant r.tenant))
    else if differs c.user r.user
    then err (other (mismatch_text (codes "verify user") c.user r.user))
    else ok tt

abbrev pub no_answer : VerifyResponse
no_answer = record { tenant = []; user = [] }

module _ {W : Type 0} (env : Env W) (ctx : Ctx) (pause : W → W)
    (read : Reader env VerifyResponse) where
  pub verify_request : Client → Round env VerifyResponse
  verify_request c x =
      do_request env c ctx (codes "POST") (codes "/v1/verify") [] false json_type read x

  rested : Exchange VerifyResponse W → Exchange VerifyResponse W
  rested x = record x { world = pause x.world }

  -- What follows an attempt; `again` is the rest of the loop.
  after_attempt :
      Bool
      → Round env VerifyResponse
      → Result Failure (Unit {0}) × Exchange VerifyResponse W
      → Result Failure (Unit {0}) × Exchange VerifyResponse W
  after_attempt left again (ok done, x) = (ok tt, x)
  after_attempt left again (err e, x) =
      let next = again (rested x) in if left && is_bad_gateway e then next else (err e, x)

  -- The loop, with the number of attempts that may follow the first.
  unfoldable pub verify_loop : ℕ → Client → Round env VerifyResponse
  unfolding after_attempt verify_request rested
  verify_loop zero c x = after_attempt false (λ y. (ok tt, y)) (verify_request c x)
  verify_loop (suc left) c x = after_attempt true (verify_loop left c) (verify_request c x)

  pub verify_end :
      Client
      → Result Failure (Unit {0}) × Exchange VerifyResponse W
      → Result Failure (Unit {0}) × (Client × W)
  verify_end c (err e, x) = (err (wrap (codes "verify failed") e), (c, x.world))
  verify_end c (ok done, x) = (check_verified c x.resp, (c, x.world))

  module _ (marshal : LoginRequest → Bytes) (read_login : Reader env (Option ℤ)) where
    verify_initialized :
        Result Failure (Unit {0}) × (Client × W) → Result Failure (Unit {0}) × (Client × W)
    verify_initialized (err e, s) = (err (wrap (codes "initialize connection failed") e), s)
    verify_initialized (ok done, (c, w)) =
        verify_end c (verify_loop 2 c (record { resp = no_answer; headers = []; world = w }))

    -- Verify
    unfoldable pub verify : Client × W → Result Failure (Unit {0}) × (Client × W)
    unfolding verify_initialized verify_end check_verified
    verify (c, w) = verify_initialized (initialize_connection_info env marshal read_login c ctx w)

module _ {W : Type 0} (env : Env W) (ctx : Ctx) where
  no_reader : HttpResponse → Unit {0} → Unit {0} × Option Failure
  no_reader h r = (tt, none)

  logout_request : Client → W → Result Failure (Unit {0}) × Exchange (Unit {0}) W
  logout_request c w =
      do_request env c ctx (codes "POST") (codes "/v1/session/logout") [] (need_sticky c) json_type
        no_reader (record { resp = tt; headers = []; world = w })

  -- Logout
  unfoldable pub logout : Client × W → Result Failure (Unit {0}) × (Client × W)
  unfolding logout_request no_reader
  logout (c, w) =
      let (r, x) = logout_request c w in
      if c.session_logged_in || need_keep_alive c then (r, (c, x.world)) else (ok tt, (c, w))

-- ===== src/Client/Verify/Endpoint.antt =====
-- Verifying and logging out send requests to the configured endpoint only.
use lake_go.Client.Login.{LoginRequest}
use lake_go.Prelude.{
  ℕ, zero, suc, ◌≡◌, ◌∙◌, Bool, true, false, ◌&&◌, ◌||◌, Option, [], Bytes, codes, if_both,
}
use lake_go.Prelude.Decimal.{ℤ}
use lake_go.Prelude.Result.{Result, ok, err}
use lake_go.Client.Errors.{Failure, is_bad_gateway}
use lake_go.Client.State.{Client, need_sticky, need_keep_alive}
use lake_go.Client.Request.{Ctx, Env, Exchange, Reader, Round}
use lake_go.Client.Request.Endpoint.{IsKept, do_request_keeps}
use lake_go.Query.Calls.Send.Keeps.{EnvKeeps, IsKept-client}
use lake_go.Client.Login.Keeps.{initialize_connection_info-Holds}
use lake_go.Client.Verify.{
  VerifyResponse, no_answer, verify_request, rested, after_attempt, verify_loop, verify_end,
  verify_initialized, verify, logout_request, no_reader, logout, json_type,
}

module _ {W : Type 0} (env : Env W) (ctx : Ctx) (pause : W → W) (read : Reader env VerifyResponse)
    (P : W → Type 0) (c : Client) (kept : IsKept env c read P)
    (pause_keeps : (w : W) → P w → P (pause w)) where
  after_attempt_keeps :
      (left : Bool) (again : Round env VerifyResponse)
      (r : Result Failure (Unit {0}) × Exchange VerifyResponse W)
      → ((x : Exchange VerifyResponse W) → P x.world → P (again x).1.world)
      → P r.1.world
      → P (after_attempt env ctx pause read left again r).1.world
  unfolding after_attempt rested
  after_attempt_keeps left again (ok done, x) k p = p
  after_attempt_keeps left again (err e, x) k p =
      if_both {A = Result Failure (Unit {0}) × Exchange VerifyResponse W} (λ t. P t.1.world)
        (left && is_bad_gateway e) (k _ (pause_keeps x.world p)) p

  verify_request_keeps :
      (x : Exchange VerifyResponse W)
      → P x.world
      → P (verify_request env ctx pause read c x).1.world
  unfolding verify_request
  verify_request_keeps x p =
      do_request_keeps env c read P kept ctx (codes "POST") (codes "/v1/verify") [] false json_type
        x p

  verify_loop_keeps :
      (left : ℕ) (x : Exchange VerifyResponse W)
      → P x.world
      → P (verify_loop env ctx pause read left c x).1.world
  unfolding verify_loop
  verify_loop_keeps zero x p =
      after_attempt_keeps false (λ y. (ok tt, y)) (verify_request env ctx pause read c x) (λ y q. q)
        (verify_request_keeps x p)
  verify_loop_keeps (suc left) x p =
      after_attempt_keeps true (verify_loop env ctx pause read left c)
        (verify_request env ctx pause read c x) (verify_loop_keeps left) (verify_request_keeps x p)

module _ {W : Type 0} (env : Env W) (ctx : Ctx) (P : W → Type 0) (endpoint : Bytes)
    (keeps : EnvKeeps env endpoint P) where
  -- The endpoint is still the configured one, and the property of the world holds.
  abbrev Holds : Client × W → Type 0
  Holds s = (s.0.api_endpoint ≡ endpoint) × P s.1

  -- Logging out sends a request to the configured endpoint or none.
  pub logout-Holds : (s : Client × W) → Holds s → Holds (logout env ctx s).1
  unfolding logout logout_request no_reader
  logout-Holds (c, w) (e, p) =
      if_both {A = Result Failure (Unit {0}) × (Client × W)} (λ r. Holds r.1)
        (c.session_logged_in || need_keep_alive c)
        (
          e,
          do_request_keeps env c (no_reader env ctx) P
              (IsKept-client env c (no_reader env ctx) P endpoint e keeps) ctx (codes "POST")
              (codes "/v1/session/logout") [] (need_sticky c) json_type _ p,
        )
        (e, p)

  module _ (pause : W → W) (read : Reader env VerifyResponse) (marshal : LoginRequest → Bytes)
      (read_login : Reader env (Option ℤ)) (pause_keeps : (w : W) → P w → P (pause w)) where
    verify_end-Holds :
        (c : Client) (r : Result Failure (Unit {0}) × Exchange VerifyResponse W)
        → c.api_endpoint ≡ endpoint
        → P r.1.world
        → Holds (verify_end env ctx pause read c r).1
    unfolding verify_end
    verify_end-Holds c (err e, x) on p = (on, p)
    verify_end-Holds c (ok done, x) on p = (on, p)

    verify_initialized-Holds :
        (r : Result Failure (Unit {0}) × (Client × W))
        → Holds r.1
        → Holds (verify_initialized env ctx pause read marshal read_login r).1
    unfolding verify_initialized
    verify_initialized-Holds (err e, s) h = h
    verify_initialized-Holds (ok done, (c, w)) (e, p) =
        verify_end-Holds c
          (verify_loop env ctx pause read 2 c
            (record { resp = no_answer; headers = []; world = w }))
          e
          (verify_loop_keeps env ctx pause read P c (IsKept-client env c read P endpoint e keeps)
            pause_keeps 2 _ p)

    -- Verifying, with the login before it, sends requests to the configured endpoint only.
    pub verify-Holds :
        (s : Client × W) → Holds s → Holds (verify env ctx pause read marshal read_login s).1
    unfolding verify
    verify-Holds (c, w) (e, p) =
        let (e', p') =
          initialize_connection_info-Holds env marshal read_login P c
            (IsKept-client env c read_login P endpoint e keeps) ctx w p in
        verify_initialized-Holds _ (e' ∙ e, p')

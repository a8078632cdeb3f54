-- ===== src/Client/Login/Keeps.antt =====
-- Initialising a connection leaves the endpoint, and sends requests to it only.
use lake_go.Prelude.{
  ◌≡◌, refl, true, false, Bool, Option, none, inl, inr, Bool-cases, Bytes, if◌then◌else◌, codes, [],
}
use lake_go.Prelude.Decimal.{ℤ}
use lake_go.Prelude.Result.{Result, ok, err}
use lake_go.Client.Errors.{Failure, is_not_found}
use lake_go.Client.State.{Client, set_arrow_capability}
use lake_go.Client.Context.{without_query_id}
use lake_go.Client.Request.{Ctx, Env, Exchange, Reader}
use lake_go.Client.Request.Endpoint.{IsKept, do_request_keeps}
use lake_go.Client.Login.{
  login_request_from_session, LoginRequest, initialize_connection_info, on_login, login, logged_in,
  without_login,
}

module _ {W : Type 0} (env : Env W) (marshal : LoginRequest → Bytes) (read : Reader env (Option ℤ))
    (P : W → Type 0) (c : Client) (kept : IsKept env c read P) where
  abbrev Holds : Client × W → Type 0
  Holds s = (s.0.api_endpoint ≡ c.api_endpoint) × P s.1

  on_login-Holds :
      (r : Result Failure (Unit {0}) × Exchange (Option ℤ) W)
      → P r.1.world
      → Holds (on_login env marshal read c r).1
  unfolding on_login logged_in without_login set_arrow_capability
  on_login-Holds (ok done, x) p = (refl, p)
  on_login-Holds (err e, x) p = elim (Bool-cases (is_not_found e)) [
    | inl k ↦ rw k (refl, p)
    | inr k ↦ rw k (refl, p)
  ]

  pub initialize_connection_info-Holds :
      (ctx : Ctx) (w : W) → P w → Holds (initialize_connection_info env marshal read c ctx w).1
  unfolding initialize_connection_info login without_login set_arrow_capability
  initialize_connection_info-Holds ctx w p =
      split c.state_restored c.connection_info_initialized c.login_enabled
    where
      split :
          (a b l : Bool)
          → Holds
              (if a
                then (ok tt, (c, w))
                else if b
                then (ok tt, (c, w))
                else if l
                then on_login env marshal read c (login env marshal read c ctx w)
                else (ok tt, (without_login c, w))).1
      split true b l = (refl, p)
      split false true l = (refl, p)
      split false false true = on_login-Holds (login env marshal read c ctx w) (
          do_request_keeps env c read P kept (without_query_id ctx) (codes "POST")
            (codes "/v1/session/login") (marshal (login_request_from_session c.session_state)) false
            (codes "application/json; charset=utf-8")
            (record { resp = none; headers = []; world = w }) p)
      split false false false = (refl, p)

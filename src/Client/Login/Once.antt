-- ===== src/Client/Login/Once.antt =====
-- A connection is initialised once.
use lake_go.Prelude.{
  ◌∙◌, ◌≡◌, ◌⊎◌, sym, ap, arith, true, false, Option, inl, inr, Bytes, Bool-cases,
}
use lake_go.Prelude.Decimal.{ℤ}
use lake_go.Prelude.Result.{Result, ok, err}
use lake_go.Client.Errors.{Failure, is_not_found}
use lake_go.Client.State.{Client}
use lake_go.Client.Request.{Ctx, Env, Exchange, Reader}
use lake_go.Client.Login.{
  LoginRequest, initialize_connection_info, on_login, login, logged_in, without_login,
}

module _ {W : Type 0} (env : Env W) (marshal : LoginRequest → Bytes)
    (read : Reader env (Option ℤ)) where
  done_stays :
      (c : Client) (ctx : Ctx) (w : W)
      → c.connection_info_initialized ≡ true
      → initialize_connection_info env marshal read c ctx w ≡ (ok tt, (c, w))
  unfolding initialize_connection_info
  done_stays c ctx w h = ground arith

  on_login-done :
      (c : Client) (r : Result Failure (Unit {0}) × Exchange (Option ℤ) W) {c' : Client} {w' : W}
      → on_login env marshal read c r ≡ (ok tt, (c', w'))
      → c'.connection_info_initialized ≡ true
  unfolding on_login logged_in without_login
  on_login-done c (ok done, x) h = sym (ap (λ q. q.1.0.connection_info_initialized) h)
  on_login-done c (err e, x) h = elim (Bool-cases (is_not_found e)) [
    | inl k ↦ sym (ap (λ q. q.1.0.connection_info_initialized) (rw k at h))
    | inr k ↦ cc (rw k at h)
  ]

  restored_stays :
      (c : Client) (ctx : Ctx) (w : W)
      → c.state_restored ≡ true
      → initialize_connection_info env marshal read c ctx w ≡ (ok tt, (c, w))
  unfolding initialize_connection_info
  restored_stays c ctx w h = ground arith

  logs_in :
      (c : Client) (ctx : Ctx) (w : W)
      → c.state_restored ≡ false
      → c.connection_info_initialized ≡ false
      → c.login_enabled ≡ true
      → initialize_connection_info env marshal read c ctx w
        ≡ on_login env marshal read c (login env marshal read c ctx w)
  unfolding initialize_connection_info
  logs_in c ctx w r q l = ground arith

  -- Success leaves the client as it was and restored, or marked as initialised.
  initialize_connection_info-done :
      (c : Client) (ctx : Ctx) (w : W) {c' : Client} {w' : W}
      → initialize_connection_info env marshal read c ctx w ≡ (ok tt, (c', w'))
      → (c'.state_restored ≡ true) ⊎ (c'.connection_info_initialized ≡ true)
  unfolding initialize_connection_info without_login
  initialize_connection_info-done c ctx w h = elim (Bool-cases c.state_restored) [
    | inl r ↦ inl (sym (ap (λ q. q.1.0.state_restored) (rw r at h)))
    | inr r ↦ elim (Bool-cases c.connection_info_initialized) [
      | inl q ↦ inr (sym (ap (λ q. q.1.0.connection_info_initialized) (rw (r, q) at h)))
      | inr q ↦ elim (Bool-cases c.login_enabled) [
        | inl l ↦
            inr (on_login-done c (login env marshal read c ctx w) (sym (logs_in c ctx w r q l) ∙ h))
        | inr l ↦ inr (sym (ap (λ q. q.1.0.connection_info_initialized) (rw (r, q, l) at h)))
      ]
    ]
  ]

  -- An initialisation that succeeds is the last one: on the client that it leaves, another does
  -- nothing, neither to the client nor to the world.
  pub initialize_connection_info-again :
      (c : Client) (ctx next : Ctx) (w t : W) {c' : Client} {w' : W}
      → initialize_connection_info env marshal read c ctx w ≡ (ok tt, (c', w'))
      → initialize_connection_info env marshal read c' next t ≡ (ok tt, (c', t))
  initialize_connection_info-again c ctx next w t {c'} h =
      elim (initialize_connection_info-done c ctx w h) [
        | inl r ↦ restored_stays c' next t r
        | inr q ↦ done_stays c' next t q
      ]

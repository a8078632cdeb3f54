-- ===== src/Client/Login.antt =====
-- client.go: `initializeConnectionInfo` and `login`, once for each connection.
pub mod Once
pub mod Keeps
use lake_go.Prelude.{Bool, true, false, not, Option, none, some, [], if◌then◌else◌, Bytes, codes}
use lake_go.Prelude.Decimal.{ℤ}
use lake_go.Prelude.Result.{Result, ok, err}
use lake_go.Client.Errors.{Failure, is_not_found}
use lake_go.Client.State.{Client, SessionState, StringMap, is_nil, set_arrow_capability}
use lake_go.Client.Context.{without_query_id}
use lake_go.Client.Request.{Ctx, Env, Exchange, Reader, get_header, do_request}

pub record LoginRequest : Type 0 where
  pub database : Bytes
  pub role : Bytes
  pub settings : StringMap

-- loginRequestFromSession
pub login_request_from_session : Option SessionState → LoginRequest
login_request_from_session none = record { database = []; role = []; settings = [] }
login_request_from_session (some state) = record {
  database = state.database;
  role = state.role;
  settings = state.settings;
}

-- The session ID of the headers, where they have one.
abbrev pub session_id_of : Bytes → Bytes → Bytes
session_id_of id old = if is_nil id then old else id

-- What `login` and its caller set on success; the answer names the latest Arrow version.
pub logged_in : Client → Option ℤ → StringMap → Client
logged_in c version headers =
    record (set_arrow_capability
      (record c {
        session_id =
            session_id_of (get_header (codes "X-DATABEND-SESSION-ID") headers) c.session_id;
        session_logged_in = true;
      })
      version) { connection_info_initialized = true }

pub without_login : Client → Client
without_login c = record (set_arrow_capability c none) { connection_info_initialized = true }

-- `marshal` is json.Marshal.
module _ {W : Type 0} (env : Env W) (marshal : LoginRequest → Bytes)
    (read : Reader env (Option ℤ)) where
  -- A server with no such path is one that needs no login.
  on_login :
      Client
      → Result Failure (Unit {0}) × Exchange (Option ℤ) W
      → Result Failure (Unit {0}) × (Client × W)
  on_login c (ok done, x) = (ok tt, (logged_in c x.resp x.headers, x.world))
  on_login c (err e, x) =
      if not (is_not_found e) then (err e, (c, x.world)) else (ok tt, (without_login c, x.world))

  login : Client → Ctx → W → Result Failure (Unit {0}) × Exchange (Option ℤ) W
  login c ctx w =
      do_request env c (without_query_id ctx) (codes "POST") (codes "/v1/session/login")
        (marshal (login_request_from_session c.session_state)) false
        (codes "application/json; charset=utf-8") read
        (record { resp = none; headers = []; world = w })

  unfoldable pub initialize_connection_info :
      Client → Ctx → W → Result Failure (Unit {0}) × (Client × W)
  unfolding on_login login logged_in without_login
  initialize_connection_info c ctx w =
      if c.state_restored
      then (ok tt, (c, w))
      else if c.connection_info_initialized
      then (ok tt, (c, w))
      else if c.login_enabled
      then on_login c (login c ctx w)
      else (ok tt, (without_login c, w))

-- ===== src/Tests/Calls.antt =====
-- Tests of whole queries.
use lake_go.Prelude.{false, ◌≡◌, refl, none, some, [], ◌∷◌, Bytes, codes, if◌then◌else◌, bytes_eq}
use lake_go.Prelude.Decimal.{ℤ}
use lake_go.Prelude.Result.{ok, err}
use lake_go.Client.Errors.{QueryError, query_failed, wrap}
use lake_go.Client.State.{SessionState}
use lake_go.Client.Request.{HttpResponse, received, Env}
use lake_go.Query.Response.{QueryResponse}
use lake_go.Query.Materialize.{materialize_json_query_rows}
use lake_go.Query.Calls.{Host, no_response, materialize}
use lake_go.Query.Calls.Settle.{answered, finish_poll, finalize_query_response, apply_session_state}
use lake_go.Query.Calls.Settle.Session.{finish-session}
use lake_go.Query.Calls.Send.{Setting}
use lake_go.Query.Calls.Send.Keeps.{EnvKeeps, SettingKeeps}
use lake_go.Tests.Types.{parsers}
use lake_go.Tests.Client.{endpoint, client, Log, AllOn, ctx, env, marshal, read_version}

-- The first answer names a next page, and the others do not.
abbrev answer : Log → Bytes
answer [] = codes "1"
answer (target ∷ w) = codes "2"

abbrev pub json_answer : Bytes → HttpResponse
json_answer body = record {
  status = 200;
  headers = (codes "Content-Type", codes "application/json") ∷ [];
  body = body;
}

abbrev serving : Env Log
serving = record env { send = λ req w. (received (json_answer (answer w)), req.url ∷ w) }

abbrev pub page_of : Bytes → QueryResponse Bytes
page_of body = record no_response {
  id = codes "q";
  final_uri = codes "/v1/query/q/final";
  next_uri = if bytes_eq body (codes "1") then codes "/v1/query/q/page/1" else [];
}

abbrev pub session_of : Bytes → SessionState
session_of raw = record {
  database = raw;
  role = [];
  secondary_roles = none;
  settings = [];
  txn_state = [];
  need_sticky = false;
  need_keep_alive = false;
}

abbrev pub any_host : {W : Type 0} → Host W Bytes Bytes Bytes
any_host = record {
  parsers = parsers;
  load_location = λ s. ok s;
  error_text = λ e. e;
  column_error_text = λ e. [];
  unmarshal = λ body r. (page_of body, none);
  unmarshal_session = λ raw s. session_of raw;
  marshal = λ request. request.sql;
  decode_arrow = λ body. ok no_response;
  track = λ id stats w. w;
  sleep = λ n w. w;
  rand_route_hint = λ w. (codes "hint", w);
}

abbrev pub host : Host Log Bytes Bytes Bytes
host = any_host

abbrev pub setting : Setting Log Bytes Bytes Bytes
setting = record {
  env = serving;
  background = serving;
  host = any_host;
  ctx = ctx;
  marshal_login = marshal;
  read_login = read_version;
}

serving-EnvKeeps : EnvKeeps serving endpoint AllOn
serving-EnvKeeps = record { send_keeps = λ req w s h. (s, h); load_keeps = λ force w h. h }

pub setting-SettingKeeps : SettingKeeps setting endpoint AllOn
setting-SettingKeeps = record {
  here = serving-EnvKeeps;
  there = serving-EnvKeeps;
  sleep_keeps = λ n w h. h;
  track_keeps = λ id stats w h. h;
  hint_keeps = λ w h. h;
}

abbrev broken : QueryError
broken = record { code = ℤ.pos 1025; message = []; kind = []; detail = [] }

abbrev with_session : QueryResponse Bytes
with_session = record no_response { session = some (codes "{}"); error = some broken }

with_session_run : materialize host with_session ≡ ok with_session
unfolding materialize materialize_json_query_rows
with_session_run = refl

finish-session_example :
    ((finish_poll host (answered with_session none) client []).0
      ≡ err (wrap (codes "query error") (query_failed broken)))
    × ((finalize_query_response host (codes "h") (answered with_session none) client []).0
        ≡ err (wrap (codes "query error") (query_failed broken)))
    × ((finish_poll host (answered with_session none) client []).1.0
        ≡ apply_session_state host (some (codes "{}")) client)
    × ((finalize_query_response host
          (codes "h")
          (answered with_session none)
          client
          []).1.0.session_state_raw
        ≡ some (codes "{}"))
    × ((finalize_query_response host
          (codes "h")
          (answered with_session none)
          client
          []).1.0.session_state
        ≡ none)
finish-session_example =
    finish-session host with_session with_session none (codes "h") (codes "{}") client [] broken
      with_session_run refl refl

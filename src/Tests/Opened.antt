-- ===== src/Tests/Opened.antt =====
-- Tests of a connection from its data source name on. The server is that of the tests of whole queries.
use lake_go.Prelude.{◌≡◌, refl, true, false, Option, none, some, List, [], ◌∷◌, ◌++◌, Bytes, codes}
use lake_go.Prelude.Result.{ok}
use lake_go.Client.State.{set_arrow_capability, auth_method}
use lake_go.Client.Open.{Extras, Fresh}
use lake_go.Client.Url.Endpoint.{StaysOn}
use lake_go.Client.Request.{Env, Reader, do_request, make_headers, attempt, status_hint}
use lake_go.Client.Url.{Url, make_url}
use lake_go.Client.Login.{initialize_connection_info}
use lake_go.Client.Verify.{VerifyResponse, verify, verify_loop}
use lake_go.Client.Verify.Verified.{Verified, verify-Verified}
use lake_go.Dsn.Parse.{is_https}
use lake_go.Query.Calls.Send.{Setting, Call}
use lake_go.Query.Calls.Send.Keeps.{EnvKeeps, SettingKeeps}
use lake_go.Query.Calls.Send.Whole.{Holds}
use lake_go.Conn.Session.{Operation, run_exec, run_begin, run_commit, run_close, session, CallsKeep}
use lake_go.Conn.Driven.{
  Asking, tx_of, asking_of, asked_calls, client_calls, build_lake_conn, open_dsn,
}
use lake_go.Conn.Driven.Endpoint.{client_calls-CallsKeep}
use lake_go.Conn.Driven.Opened.{session_of_dsn-Holds}
use lake_go.Tests.Types.{parsers}
use lake_go.Tests.Client.{
  Log, retrier, retrier-IsRetrier, endpoint, AllOn, no_login, ctx, marshal, read_version,
}
use lake_go.Tests.Calls.{setting, setting-SettingKeeps}
use lake_go.Tests.Conn.{reading}
use lake_go.Tests.Dsn.{std, url, parsed_config, parse_dsn_run, lake_dsn}

abbrev lake : Bytes
lake = codes "https" ++ (codes "://" ++ parsed_config.host)

-- Every text is a URL of the endpoint.
abbrev one_url : Bytes → Option Url
one_url s =
    some (record { scheme = codes "https"; opaque = []; host = codes "lake:443"; path = [] })

abbrev lake_env : Env Log
lake_env = record setting.env { parse_url = one_url }

abbrev lake_setting : Setting Log Bytes Bytes Bytes
lake_setting = record setting { env = lake_env; background = lake_env }

abbrev AllLake : Log → Type 0
AllLake [] = Unit
AllLake (target ∷ w) = StaysOn one_url lake target × AllLake w

lake-EnvKeeps : EnvKeeps lake_env lake AllLake
lake-EnvKeeps = record { send_keeps = λ req w s h. (s, h); load_keeps = λ force w h. h }

lake-SettingKeeps : SettingKeeps lake_setting lake AllLake
lake-SettingKeeps = record {
  here = lake-EnvKeeps;
  there = lake-EnvKeeps;
  sleep_keeps = λ n w h. h;
  track_keeps = λ id stats w h. h;
  hint_keeps = λ w h. h;
}

abbrev fresh : Fresh Log
fresh = record {
  new_uuid = λ w. (codes "uuid", w);
  rand_route_hint = λ w. (codes "hint", w);
  marshal_session = λ s. codes "{}";
}

abbrev extras : Extras
extras = record { has_loader = false; user_agent = [] }

abbrev opened_result : Call Log (Unit {0})
opened_result = build_lake_conn retrier lake_setting fresh extras parsed_config []

open_run : open_dsn retrier lake_setting fresh extras std url lake_dsn [] ≡ ok opened_result
unfolding open_dsn
open_run = simp parse_dsn_run

https_run : is_https (codes "https") ≡ true
unfolding is_https
https_run = refl

-- A context with an id and a user agent.
abbrev pub named_asking : Asking Log
named_asking = record {
  ctx = record { user_agent = some (codes "job"); query_id = some (codes "q1") };
  uuid = codes "a-1";
  ctx_err = λ w. none;
}

abbrev operations : List (Asking Log × Operation Bytes Bytes Bytes)
operations =
    (named_asking, run_begin)
    ∷ (record named_asking { ctx = ctx }, run_exec (codes "INSERT INTO t VALUES (1)") none [])
    ∷ (asking_of (tx_of named_asking) (codes "b-2"), run_commit)
    ∷ (record named_asking { ctx = ctx }, run_close)
    ∷ []

session_of_dsn-Holds_example :
    Holds retrier retrier-IsRetrier lake_setting lake AllLake lake-SettingKeeps
      (session
        (asked_calls retrier lake_setting 3)
        reading
        parsers
        operations
        (record { has_rest = true; closed = false; client = opened_result.1 })).client
session_of_dsn-Holds_example =
    session_of_dsn-Holds retrier retrier-IsRetrier lake_setting lake AllLake lake-SettingKeeps fresh
      extras (λ w h. h) (λ w h. h) std url lake_dsn parsed_config _ [] opened_result 3 reading
      parsers operations parse_dsn_run refl https_run refl open_run tt

client_calls-CallsKeep_example :
    CallsKeep
      (client_calls retrier setting 3)
      (Holds retrier retrier-IsRetrier setting endpoint AllOn setting-SettingKeeps)
client_calls-CallsKeep_example =
    client_calls-CallsKeep retrier retrier-IsRetrier setting endpoint AllOn setting-SettingKeeps 3

-- The server names the tenant of the client, which has no user.
abbrev verified : VerifyResponse
verified = record { tenant = codes "t"; user = codes "someone" }

abbrev read_verify : Reader setting.env VerifyResponse
read_verify h r = (verified, none)

verify_run :
    (verify setting.env ctx (λ w. w) read_verify marshal read_version (no_login, [])).0 ≡ ok tt
unfolding verify verify_loop initialize_connection_info do_request make_headers make_url
    set_arrow_capability auth_method attempt status_hint
verify_run = refl

verify-Verified_example :
    Verified setting.env ctx (λ w. w) read_verify marshal read_version (no_login, [])
verify-Verified_example =
    verify-Verified setting.env ctx (λ w. w) read_verify marshal read_version (no_login, [])
      verify_run

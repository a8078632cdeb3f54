-- ===== src/Tests/Headers.antt =====
-- Tests of the headers of requests, and of the texts that hide secrets.
use lake_go.Prelude.{◌≡◌, ◌≢◌, refl, true, false, Option, none, some, List, [], ◌∷◌, Bytes, codes}
use lake_go.Prelude.Result.{ok}
use lake_go.Prelude.Decimal.{ℤ}
use lake_go.Client.Errors.{Failure, ApiError, api, wrap, error_text}
use lake_go.Client.State.{Client}
use lake_go.Client.Request.{HttpRequest, HttpResponse, Env, received}
use lake_go.Client.Request.Carries.{Carries}
use lake_go.Query.Calls.Send.{Setting}
use lake_go.Conn.Driven.{Asking}
use lake_go.Conn.{Conn}
use lake_go.Client.Redact.{responses, wrapped, client_text, config_text, texts-redacted}
use lake_go.Tests.Calls.{any_host, json_answer, session_of}
use lake_go.Tests.Client.{client, parse_url}
use lake_go.Tests.Dsn.{parsed_config}

-- The world is the list of the requests so far; the server answers each with one page.
abbrev Requests : Type 0
Requests = List HttpRequest

abbrev logging : Env Requests
logging = record {
  parse_url = parse_url;
  base64 = λ s. s;
  version = codes "v1";
  read_body = λ s. ([], []);
  ctx_err = λ w. none;
  send = λ req w. (received (json_answer (codes "2")), req ∷ w);
  load_token = λ force w. (ok (codes "token"), w);
}

abbrev no_reader : HttpResponse → Option ℤ → Option ℤ × Option Failure
no_reader r v = (v, none)

-- The requests without a context of their own go elsewhere.
abbrev elsewhere : Env Requests
elsewhere = record logging { send = λ req w. (received (json_answer (codes "2")), w) }

abbrev logged_setting : Setting Requests Bytes Bytes Bytes
logged_setting = record {
  env = logging;
  background = elsewhere;
  host = any_host;
  ctx = record { user_agent = none; query_id = none };
  marshal_login = λ r. codes "{}";
  read_login = no_reader;
}

abbrev begun : Asking Requests
begun = record {
  ctx = record { user_agent = some (codes "job"); query_id = some (codes "q1") };
  uuid = codes "a-1";
  ctx_err = λ w. none;
}

-- Every request so far has the id of COMMIT, and the user agent of BEGIN.
abbrev AllCommit : Requests → Type 0
AllCommit [] = Unit
AllCommit (req ∷ w) = Carries logging (codes "b2") (codes "job") req × AllCommit w

-- In a transaction.
abbrev ready : Client
ready = record client {
  connection_info_initialized = true;
  session_state = some (record (session_of []) { txn_state = codes "Active" });
}

abbrev ready_conn : Conn (Client × Requests)
ready_conn = record { has_rest = true; closed = false; client = (ready, []) }

-- An answer of the server with status 500, and this text.
abbrev answer : Bytes → ApiError
answer text = record {
  body_error = [];
  body_message = [];
  resp_text = text;
  status_code = 500;
  hint = [];
}

first_secret : codes "p" ≢ []
first_secret h = cc

second_secret : codes "hunter2" ≢ []
second_secret h = cc

texts-redacted_example :
    (client_text (some (record client { password = codes "p" }))
      ≡ client_text (some (record client { password = codes "hunter2" })))
    × (config_text (some (record parsed_config { password = codes "p"; access_token = codes "p" }))
        ≡ config_text (
            some (record parsed_config {
              password = codes "hunter2";
              access_token = codes "hunter2";
            })))
    × (error_text (wrap (codes "context") (api (answer (codes "a"))))
        ≡ error_text (wrap (codes "context") (api (answer (codes "b")))))
texts-redacted_example =
    texts-redacted client parsed_config (codes "p") (codes "hunter2") (codes "p") (codes "hunter2")
      _ _ first_secret second_secret first_secret second_secret
      (wrapped (codes "context") (responses _ _ refl refl))

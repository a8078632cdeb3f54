-- ===== src/Tests/Client.antt =====
-- Tests of the requests of the client.
use lake_go.Prelude.{
  ◌≡◌, ◌⊎◌, refl, inl, inr, Bool, true, false, ℕ, zero, suc, Option, none, some, List, [], ◌∷◌,
  ◌++◌, Bytes, codes, if◌then◌else◌, arith,
}
use lake_go.Prelude.Decimal.{ℤ}
use lake_go.Client.State.{set_arrow_capability, Client, access_token, auth_method}
use lake_go.Client.Login.{LoginRequest, initialize_connection_info}
use lake_go.Prelude.Text.{starts_with}
use lake_go.Prelude.Result.{Result, ok, err}
use lake_go.Client.Errors.{Failure, do_request_failed, other}
use lake_go.Client.Url.{Url, make_url}
use lake_go.Client.Url.Endpoint.{StaysOn}
use lake_go.Client.Request.{
  Ctx, HttpRequest, HttpResponse, received, Env, Exchange, Reader, do_request, get_header,
}
use lake_go.Client.Request.Endpoint.{IsKept, do_request_keeps}
use lake_go.Client.Request.Rotation.{do_request-rotation}
use lake_go.Client.Retry.{Action, Retrier, IsRetrier}

-- One server, and paths on it.
abbrev pub parse_url : Bytes → Option Url
parse_url s =
    if starts_with (codes "https://lake") s
    then some (record { scheme = codes "https"; opaque = []; host = codes "lake"; path = [] })
    else if starts_with (codes "/") s
    then some (record { scheme = []; opaque = []; host = []; path = s })
    else none

abbrev pub endpoint : Bytes
endpoint = codes "https://lake"

make_url_run : make_url parse_url endpoint (codes "/v1/query") ≡ ok (codes "https://lake/v1/query")
unfolding make_url
make_url_run = refl

-- The client of a test, with a token loader.
abbrev pub client : Client
client = record {
  session_id = codes "s1";
  query_seq = 1;
  api_endpoint = codes "https://lake";
  host = [];
  tenant = codes "t";
  warehouse = [];
  user = [];
  password = [];
  has_token_loader = true;
  session_state_raw = none;
  session_state = none;
  route_hint = [];
  node_id = codes "n1";
  query_result_format = codes "json";
  state_restored = false;
  login_enabled = true;
  arrow_checked = false;
  arrow_enabled = false;
  session_logged_in = false;
  connection_info_initialized = false;
  user_agent = [];
  wait_time_seconds = ℤ.pos 0;
  max_rows_in_buffer = ℤ.pos 0;
  max_rows_per_page = ℤ.pos 0;
}

-- The world is the list of the targets so far; the server refuses every token.
abbrev pub Log : Type 0
Log = List Bytes

abbrev pub refused : HttpResponse
refused = record { status = 401; headers = []; body = codes "{}" }

abbrev pub env : Env Log
env = record {
  parse_url = parse_url;
  base64 = λ s. s;
  version = codes "v1";
  read_body = λ s. ([], []);
  ctx_err = λ w. none;
  send = λ req w. (received refused, req.url ∷ w);
  load_token = λ force w. (ok (codes "token"), w);
}

abbrev read_unit : Reader env (Unit {0})
read_unit r u = (u, none)

abbrev pub AllOn : Log → Type 0
AllOn [] = Unit
AllOn (target ∷ w) = StaysOn parse_url endpoint target × AllOn w

AllOn-IsKept : IsKept env client read_unit AllOn
AllOn-IsKept = record { send_keeps = λ req w s h. (s, h); load_keeps = λ force w h. h }

abbrev start : Exchange (Unit {0}) Log
start = record { resp = tt; headers = []; world = [] }

abbrev pub ctx : Ctx
ctx = record { user_agent = none; query_id = none }

do_request_keeps_example :
    AllOn
      (do_request env client ctx
        (codes "GET")
        (codes "/v1/query")
        []
        true
        (codes "json")
        read_unit
        start).1.world
do_request_keeps_example =
    do_request_keeps env client read_unit AllOn AllOn-IsKept ctx (codes "GET") (codes "/v1/query")
      [] true (codes "json") start tt

with_token : auth_method client ≡ access_token
unfolding auth_method
with_token = refl

target_run :
    make_url env.parse_url client.api_endpoint (codes "/v1/query")
    ≡ ok (codes "https://lake/v1/query")
unfolding make_url
target_run = refl

do_request-rotation_example :
    (req : HttpRequest) × (get_header (codes "Authorization") req.headers
      ≡ codes "Bearer " ++ codes "token")
    × ((do_request env client ctx
          (codes "GET")
          (codes "/v1/query")
          []
          true
          (codes "json")
          read_unit
          start).1.world
        ≡ req.url ∷ req.url ∷ [])
do_request-rotation_example =
    do_request-rotation env client read_unit ctx (codes "GET") (codes "/v1/query") [] true
      (codes "json") (codes "https://lake/v1/query") (codes "token") start [] with_token target_run
      refl refl
      (λ req. record {
        response = refused;
        is_received = refl;
        unauthorized = refl;
        not_done = refl;
      })

-- What a loop does behind an attempt, with the attempts that are left.
after_try :
    {S A : Type 0}
    → (ℕ → S → S)
    → ℕ
    → Option (Action S A)
    → (Failure → Bool)
    → Result Failure A × S
    → Result Failure A × S
after_try pause delay next test (ok a, s) = (ok a, s)
after_try pause delay none test (err e, s) = (err e, s)
after_try pause delay (some next) test (err e, s) =
    let rest = next (pause delay s) in if test e then rest else (err e, s)

-- A loop that does what the documentation says.
pub retry_loop : {S A : Type 0} → (ℕ → S → S) → ℕ → ℕ → (Failure → Bool) → Action S A → Action S A
retry_loop pause delay zero test f s = (err (other []), s)
retry_loop pause delay (suc zero) test f s = after_try pause delay none test (f s)
retry_loop pause delay (suc (suc n)) test f s =
    after_try pause delay (some (retry_loop pause delay (suc n) test f)) test (f s)

abbrev pub retrier : Retrier
retrier = record { retry_do = retry_loop }

retry_once :
    {S A : Type 0} (pause : ℕ → S → S) (delay left : ℕ) (test : Failure → Bool) (f : Action S A)
    (s : S) (a : A) (s' : S)
    → f s ≡ (ok a, s')
    → retry_loop pause delay (suc left) test f s ≡ (ok a, s')
unfolding retry_loop after_try
retry_once pause delay zero test f s a s' h = rw h
retry_once pause delay (suc n) test f s a s' h = rw h

retry_stop :
    {S A : Type 0} (pause : ℕ → S → S) (delay left : ℕ) (test : Failure → Bool) (f : Action S A)
    (s : S) (e : Failure) (s' : S)
    → f s ≡ (err e, s')
    → (test e ≡ false) ⊎ (left ≡ 0)
    → retry_loop pause delay (suc left) test f s ≡ (err e, s')
unfolding retry_loop after_try
retry_stop pause delay zero test f s e s' h t = rw h
retry_stop pause delay (suc n) test f s e s' h (inl t) = rw (h, t)
retry_stop pause delay (suc n) test f s e s' h (inr t) = absurd (omega arith)

pub retrier-IsRetrier : IsRetrier retrier
unfolding retry_loop after_try
retrier-IsRetrier = record {
  once_ok = retry_once;
  give_up = retry_stop;
  again = λ pause delay left test f s e s' h t. rw (h, t);
}

-- Two attempts fail, and the third one does not.
abbrev third : Action ℕ ℕ
third zero = (err do_request_failed, 1)
third (suc zero) = (err do_request_failed, 2)
third (suc (suc n)) = (ok 7, suc (suc n))

abbrev no_pause : ℕ → ℕ → ℕ
no_pause delay s = s

-- A server that asks for no login.
abbrev pub no_login : Client
no_login = record client { login_enabled = false }

abbrev initialized : Client
initialized = record no_login {
  arrow_enabled = false;
  arrow_checked = true;
  connection_info_initialized = true;
}

abbrev pub read_version : Reader env (Option ℤ)
read_version r v = (v, none)

abbrev pub marshal : LoginRequest → Bytes
marshal s = codes "{}"

initialize_run :
    initialize_connection_info env marshal read_version no_login ctx [] ≡ (ok tt, (initialized, []))
unfolding initialize_connection_info set_arrow_capability
initialize_run = refl

-- ===== src/Dsn.antt =====
-- dsn.go: the configuration, and its text as a data source name. The loaders, the tracker and the user
-- agent of a `Config` are set by the program only, and have no part in this.
pub mod Parse
pub mod Lost
use lake_go.Prelude.{
  zero, suc, ◌+◌, Bool, true, false, not, ◌&&◌, ◌||◌, Option, none, some, List, [], ◌∷◌, ◌++◌,
  if◌then◌else◌, Bytes, codes, bytes_eq, map,
}
use lake_go.Prelude.Decimal.{ℤ, decimal_ℤ}
use lake_go.Prelude.Text.{to_lower, trim_space}
use lake_go.Prelude.Result.{Result, ok, err}
use lake_go.Client.State.{StringMap}

-- A nil location is none; a duration is its nanoseconds.
pub record Config (Z : Type 0) : Type 0 where
  pub tenant : Bytes
  pub warehouse : Bytes
  pub user : Bytes
  pub password : Bytes
  pub database : Bytes
  pub role : Bytes
  pub access_token : Bytes
  pub access_token_file : Bytes
  pub host : Bytes
  pub timeout : ℤ
  pub wait_time_secs : ℤ
  pub max_rows_in_buffer : ℤ
  pub max_rows_per_page : ℤ
  pub location : Option Z
  pub debug : Bool
  pub gzip_compression : Bool
  pub params : StringMap
  pub tls_config : Bytes
  pub ssl_mode : Bytes
  pub presigned_url_disabled : Bool
  pub presign_allow_private : Bool
  pub empty_field_as : Bytes
  pub enable_open_telemetry : Bool
  pub query_result_format : Bytes
  pub login_enabled : Bool
  pub login_configured : Bool

pub data DsnError (E : Type 0) : Type 0 where
  lib : E → DsnError E
  -- "bad DSN: location(%s) conflict with timezone(%s)"
  conflict : Bytes → Bytes → DsnError E
  unknown_option : Bytes → DsnError E
  invalid_login : Bytes → DsnError E
  invalid_format : Bytes → DsnError E
  unsupported_scheme : DsnError E
  -- "HTTPS DSN cannot use sslmode=disable"
  plaintext : DsnError E
  -- the error of url.Parse, without the text
  bad_url : DsnError E

-- strconv and time: what a parser returns beside its error is assigned all the same.
pub record DsnLib (Z E : Type 0) : Type 0 where
  pub utc : Z
  pub is_utc : Z → Bool
  pub location_name : Z → Bytes
  pub load_location : Bytes → Option Z × Option E
  pub parse_duration : Bytes → ℤ × Option E
  pub duration_text : ℤ → Bytes
  pub parse_int : Bytes → ℤ × Option E
  pub parse_bool : Bytes → Bool × Option E

abbrev pub is_empty : Bytes → Bool
is_empty [] = true
is_empty (c ∷ s) = false

abbrev pub is_unset : ℤ → Bool
is_unset (ℤ.pos zero) = true
is_unset (ℤ.pos (suc n)) = false
is_unset (ℤ.negsuc n) = false

-- m[k]
unfoldable pub lookup : StringMap → Bytes → Option Bytes
lookup [] key = none
lookup ((k, v) ∷ m) key = let rest = lookup m key in if bytes_eq k key then some v else rest

-- m[k] = v
unfoldable pub assign : Bytes → Bytes → StringMap → StringMap
assign key value [] = (key, value) ∷ []
assign key value ((k, v) ∷ m) =
    let rest = assign key value m in if bytes_eq k key then (k, value) ∷ m else (k, v) ∷ rest

unfoldable pub merged : List StringMap → StringMap
merged [] = []
merged (m ∷ ms) = m ++ merged ms

-- `for k, v := range cfg.Params { query.Set(k, v) }`
with_user_params : StringMap → StringMap → StringMap
with_user_params [] query = query
with_user_params ((k, v) ∷ params) query = with_user_params params (assign k v query)

abbrev pub lowered : Bytes → Bytes
lowered v = map to_lower (trim_space v)

-- normalizeQueryResultFormat
unfoldable pub normalize_query_result_format : {E : Type 0} → Bytes → Bytes × Option (DsnError E)
normalize_query_result_format v =
    if is_empty (lowered v) || bytes_eq (lowered v) (codes "json")
    then (codes "json", none)
    else if bytes_eq (lowered v) (codes "arrow")
    then (codes "arrow", none)
    else ([], some (invalid_format v))

-- makeDefaultConfigValue
unfoldable pub make_default_config_value : {Z : Type 0} → Config Z → Config Z
make_default_config_value cfg = record cfg {
  empty_field_as = if is_empty cfg.empty_field_as then codes "string" else cfg.empty_field_as;
  query_result_format =
      if is_empty cfg.query_result_format then codes "json" else cfg.query_result_format;
}

-- effectiveLoginEnabled
unfoldable pub effective_login_enabled : {Z : Type 0} → Config Z → Bool
effective_login_enabled cfg = if not cfg.login_configured then true else cfg.login_enabled

-- The aliases `location` and `timezone`.
unfoldable pub with_alias : {E : Type 0} → StringMap → Result (DsnError E) StringMap
unfolding lookup assign
with_alias params = elim (lookup params (codes "location")) [
  | none ↦ elim (lookup params (codes "timezone")) [
    | none ↦ ok params
    | some timezone ↦ ok (assign (codes "location") timezone params)
  ]
  | some location ↦ elim (lookup params (codes "timezone")) [
    | none ↦ ok (assign (codes "timezone") location params)
    | some timezone ↦
        if bytes_eq location timezone then ok params else err (conflict location timezone)
  ]
]

-- What the switch does for a key: the error is assigned, left as it is, or returned at once.
pub data Assigned (Z E : Type 0) : Type 0 where
  keeps_error : Config Z → Assigned Z E
  sets_error : Config Z → Option (DsnError E) → Assigned Z E
  returns : DsnError E → Assigned Z E

abbrev pub lib_error : {E : Type 0} → Option E → Option (DsnError E)
lib_error none = none
lib_error (some e) = some (lib e)

module _ {Z E : Type 0} (std : DsnLib Z E) where
  -- NewConfig
  abbrev pub new_config : Config Z
  new_config = record {
    tenant = [];
    warehouse = [];
    user = [];
    password = [];
    database = [];
    role = [];
    access_token = [];
    access_token_file = [];
    host = codes "lake.tidbcloud.com:443";
    timeout = ℤ.pos 0;
    wait_time_secs = ℤ.pos 0;
    max_rows_in_buffer = ℤ.pos 0;
    max_rows_per_page = ℤ.pos 0;
    location = some std.utc;
    debug = false;
    gzip_compression = false;
    params = [];
    tls_config = [];
    ssl_mode = [];
    presigned_url_disabled = false;
    presign_allow_private = false;
    empty_field_as = [];
    enable_open_telemetry = false;
    query_result_format = codes "json";
    login_enabled = true;
    login_configured = true;
  }

  -- The cases of AddParams that parse their value.
  parsed_param : Bytes → Bytes → Config Z → Option (Assigned Z E)
  parsed_param k v cfg =
      if bytes_eq k (codes "timeout")
      then some (
          let (t, e) = std.parse_duration v in
          sets_error (record cfg { timeout = t }) (lib_error e))
      else if bytes_eq k (codes "wait_time_secs")
      then some (
          let (n, e) = std.parse_int v in
          sets_error (record cfg { wait_time_secs = n }) (lib_error e))
      else if bytes_eq k (codes "max_rows_in_buffer")
      then some (
          let (n, e) = std.parse_int v in
          sets_error (record cfg { max_rows_in_buffer = n }) (lib_error e))
      else if bytes_eq k (codes "max_rows_per_page")
      then some (
          let (n, e) = std.parse_int v in
          sets_error (record cfg { max_rows_per_page = n }) (lib_error e))
      else if bytes_eq k (codes "location")
      then some (
          let (z, e) = std.load_location v in
          sets_error (record cfg { location = z }) (lib_error e))
      else if bytes_eq k (codes "debug")
      then some
          (let (b, e) = std.parse_bool v in sets_error (record cfg { debug = b }) (lib_error e))
      else if bytes_eq k (codes "enable_http_compression")
      then some (
          let (b, e) = std.parse_bool v in
          sets_error (record cfg { gzip_compression = b; params = assign k v cfg.params })
            (lib_error e))
      else if bytes_eq k (codes "presign_allow_private")
      then some (
          let (b, e) = std.parse_bool v in
          sets_error (record cfg { presign_allow_private = b }) (lib_error e))
      else if bytes_eq k (codes "presigned_url_disabled")
      then some (
          let (b, e) = std.parse_bool v in
          sets_error (record cfg { presigned_url_disabled = b }) (lib_error e))
      else if bytes_eq k (codes "enable_otel")
      then some (
          let (b, e) = std.parse_bool v in
          sets_error (record cfg { enable_open_telemetry = b }) (lib_error e))
      else if bytes_eq k (codes "query_result_format")
      then some (
          let (f, e) = normalize_query_result_format v in
          sets_error (record cfg { query_result_format = f }) e)
      else none

  -- `case "login"`
  login_param : Bytes → Config Z → Assigned Z E
  login_param v cfg =
      if is_empty (lowered v) || bytes_eq (lowered v) (codes "enable")
      then keeps_error (record cfg { login_enabled = true; login_configured = true })
      else if bytes_eq (lowered v) (codes "disable")
      then keeps_error (record cfg { login_enabled = false; login_configured = true })
      else sets_error (record cfg { login_configured = true }) (some (invalid_login v))

  -- The other cases.
  text_param : Bytes → Bytes → Config Z → Assigned Z E
  text_param k v cfg =
      if bytes_eq k (codes "empty_field_as")
      then keeps_error (record cfg { empty_field_as = v })
      else if bytes_eq k (codes "tls_config")
      then keeps_error (record cfg { tls_config = v })
      else if bytes_eq k (codes "tenant")
      then keeps_error (record cfg { tenant = v })
      else if bytes_eq k (codes "warehouse")
      then keeps_error (record cfg { warehouse = v })
      else if bytes_eq k (codes "role")
      then keeps_error (record cfg { role = v })
      else if bytes_eq k (codes "access_token")
      then keeps_error (record cfg { access_token = v })
      else if bytes_eq k (codes "access_token_file")
      then keeps_error (record cfg { access_token_file = v })
      else if bytes_eq k (codes "sslmode")
      then keeps_error (record cfg { ssl_mode = v })
      else if bytes_eq k (codes "login")
      then login_param v cfg
      else if bytes_eq k (codes "default_format")
          || (bytes_eq k (codes "query") || bytes_eq k (codes "database"))
      then returns (unknown_option k)
      else keeps_error (record cfg { params = assign k v cfg.params })

  -- The switch of AddParams.
  unfoldable pub add_param : Bytes → Bytes → Config Z → Assigned Z E
  unfolding parsed_param login_param text_param
  add_param k v cfg = elim (parsed_param k v cfg) [ some a ↦ a | none ↦ text_param k v cfg ]

  -- A configuration with the error of a call that changes it.
  abbrev pub Changed : Type 0
  Changed = Config Z × Option (DsnError E)

  after_param :
      (Config Z → Option (DsnError E) → Changed)
      → Config Z
      → Option (DsnError E)
      → Assigned Z E
      → Changed
  after_param rest cfg e (keeps_error cfg') = rest cfg' e
  after_param rest cfg e (sets_error cfg' e') = rest cfg' e'
  after_param rest cfg e (returns e') = (cfg, some e')

  -- The loop of AddParams; a Go map has the order that the loop meets its entries in.
  unfoldable pub add_loop : StringMap → Config Z → Option (DsnError E) → Changed
  unfolding after_param
  add_loop [] cfg e = (cfg, e)
  add_loop ((k, v) ∷ params) cfg e = after_param (add_loop params) cfg e (add_param k v cfg)

  -- AddParams
  unfoldable pub add_params : StringMap → Config Z → Changed
  add_params params cfg =
      let cfg' = make_default_config_value cfg in
      elim (with_alias params) [ ok params' ↦ add_loop params' cfg' none | err e ↦ (cfg', some e) ]

  entry : Bool → Bytes → Bytes → StringMap
  entry false key value = []
  entry true key value = (key, value) ∷ []

  location_entry : Option Z → StringMap
  location_entry none = []
  location_entry (some z) = entry (not (std.is_utc z)) (codes "location") (std.location_name z)

  format_entry : Bytes → StringMap
  format_entry format =
      entry (not (is_empty format) && not (bytes_eq format (codes "json")))
        (codes "query_result_format") format

  empty_field_entry : Bytes → StringMap
  empty_field_entry s = (codes "empty_field_as", if is_empty s then codes "string" else s) ∷ []

  -- The second half of the query that FormatDSN sets, from the location on.
  unfoldable pub flag_params : Config Z → List StringMap
  unfolding entry location_entry format_entry empty_field_entry
  flag_params cfg =
      location_entry cfg.location
      ∷ entry cfg.gzip_compression (codes "enable_http_compression") (codes "1")
      ∷ entry cfg.debug (codes "debug") (codes "1")
      ∷ entry (not (is_empty cfg.tls_config)) (codes "tls_config") cfg.tls_config
      ∷ entry (not (is_empty cfg.ssl_mode)) (codes "sslmode") cfg.ssl_mode
      ∷ entry cfg.enable_open_telemetry (codes "enable_otel") (codes "true")
      ∷ entry (not (effective_login_enabled cfg)) (codes "login") (codes "disable")
      ∷ format_entry cfg.query_result_format
      ∷ entry cfg.presign_allow_private (codes "presign_allow_private") (codes "true")
      ∷ entry cfg.presigned_url_disabled (codes "presigned_url_disabled") (codes "1")
      ∷ empty_field_entry cfg.empty_field_as
      ∷ []

  -- The query that FormatDSN sets, each key once, but for the parameters of the user.
  unfoldable pub known_params : Config Z → List StringMap
  unfolding entry flag_params
  known_params cfg =
      entry (not (is_empty cfg.tenant)) (codes "tenant") cfg.tenant
      ∷ entry (not (is_empty cfg.warehouse)) (codes "warehouse") cfg.warehouse
      ∷ entry (not (is_empty cfg.role)) (codes "role") cfg.role
      ∷ entry (not (is_empty cfg.access_token)) (codes "access_token") cfg.access_token
      ∷ entry (not (is_empty cfg.access_token_file)) (codes "access_token_file")
          cfg.access_token_file
      ∷ entry (not (is_unset cfg.timeout)) (codes "timeout") (std.duration_text cfg.timeout)
      ∷ entry (not (is_unset cfg.wait_time_secs)) (codes "wait_time_secs")
          (decimal_ℤ cfg.wait_time_secs)
      ∷ entry (not (is_unset cfg.max_rows_in_buffer)) (codes "max_rows_in_buffer")
          (decimal_ℤ cfg.max_rows_in_buffer)
      ∷ entry (not (is_unset cfg.max_rows_per_page)) (codes "max_rows_per_page")
          (decimal_ℤ cfg.max_rows_per_page)
      ∷ flag_params cfg

  -- The query of FormatDSN.
  unfoldable pub format_params : Config Z → StringMap
  unfolding merged with_user_params
  format_params cfg = with_user_params cfg.params (merged (known_params cfg))

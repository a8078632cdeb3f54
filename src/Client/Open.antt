-- ===== src/Client/Open.antt =====
-- client.go: `NewAPIClientFromConfig`, the client of a configuration. The HTTP client, with its cookies and
-- its timeout, is part of the world of the requests.
use lake_go.Prelude.{Bool, false, none, some, [], ◌++◌, if◌then◌else◌, Bytes, codes, bytes_eq}
use lake_go.Client.State.{Client, SessionState}
use lake_go.Client.Token.{init_access_token_loader, is_loader}
use lake_go.Dsn.{Config, is_empty, effective_login_enabled}
use lake_go.Stage.{StageConfig}

-- What a configuration has that no data source name sets.
pub record Extras : Type 0 where
  pub has_loader : Bool
  pub user_agent : Bytes

-- uuid.NewString, randRouteHint and json.Marshal
pub record Fresh (W : Type 0) : Type 0 where
  pub new_uuid : W → Bytes × W
  pub rand_route_hint : W → Bytes × W
  pub marshal_session : SessionState → Bytes

module _ {Z : Type 0} (cfg : Config Z) where
  -- SSL_MODE_DISABLE
  unfoldable pub api_scheme : Bytes
  api_scheme = if bytes_eq cfg.ssl_mode (codes "disable") then codes "http" else codes "https"

  -- A role of the configuration is the only one.
  first_state : SessionState
  first_state = record {
    database = cfg.database;
    role = cfg.role;
    secondary_roles = if is_empty cfg.role then none else some [];
    settings = cfg.params;
    txn_state = [];
    need_sticky = false;
    need_keep_alive = false;
  }

  pub stage_config : StageConfig
  stage_config = record {
    presigned_url_disabled = cfg.presigned_url_disabled;
    presign_allow_private = cfg.presign_allow_private;
    empty_field_as = cfg.empty_field_as;
  }

  -- The client, with its session ID and its route hint.
  unfoldable pub client_of : Extras → (SessionState → Bytes) → Bytes → Bytes → Client
  unfolding first_state
  client_of extras marshal session_id hint = record {
    session_id = session_id;
    query_seq = 0;
    api_endpoint = api_scheme ++ (codes "://" ++ cfg.host);
    host = cfg.host;
    tenant = cfg.tenant;
    warehouse = cfg.warehouse;
    user = cfg.user;
    password = cfg.password;
    has_token_loader = is_loader (init_access_token_loader extras.has_loader cfg);
    session_state_raw = some (marshal first_state);
    session_state = some first_state;
    route_hint = hint;
    node_id = [];
    query_result_format = cfg.query_result_format;
    state_restored = false;
    login_enabled = effective_login_enabled cfg;
    arrow_checked = false;
    arrow_enabled = false;
    session_logged_in = false;
    connection_info_initialized = false;
    user_agent = extras.user_agent;
    wait_time_seconds = cfg.wait_time_secs;
    max_rows_in_buffer = cfg.max_rows_in_buffer;
    max_rows_per_page = cfg.max_rows_per_page;
  }

  -- NewAPIClientFromConfig
  unfoldable pub new_api_client : {W : Type 0} → Fresh W → Extras → W → Client × W
  unfolding client_of first_state api_scheme
  new_api_client fresh extras w =
      let (session_id, w') = fresh.new_uuid w in
      let (hint, w'') = fresh.rand_route_hint w' in
      (client_of extras fresh.marshal_session session_id hint, w'')

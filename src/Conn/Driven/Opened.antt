-- ===== src/Conn/Driven/Opened.antt =====
-- A connection that is opened by a data source name, from the name to its last request.
use lake_go.Prelude.{◌≡◌, ◌∙◌, refl, ℕ, true, false, ◌&&◌, some, List, ◌++◌, Bytes, codes, bytes_eq}
use lake_go.Prelude.Result.{ok, err}
use lake_go.Client.State.{Client}
use lake_go.Client.Retry.{Retrier, IsRetrier}
use lake_go.Client.Login.Keeps.{initialize_connection_info-Holds}
use lake_go.Client.Open.{Extras, Fresh, new_api_client, client_of, api_scheme}
use lake_go.Dsn.{Config, DsnLib}
use lake_go.Dsn.Parse.{DsnUrl, UrlLib, auto_encode, is_https, parse_dsn, disable}
use lake_go.Dsn.Parse.Plaintext.{parse_dsn-IsSecure}
use lake_go.Types.ColumnType.{Parsers}
use lake_go.Query.Calls.Send.{Setting, Call}
use lake_go.Query.Calls.Send.Keeps.{SettingKeeps, IsKept-client}
use lake_go.Query.Calls.Send.Whole.{Holds}
use lake_go.Conn.{Reading}
use lake_go.Conn.Session.{Operation, session, session_keeps}
use lake_go.Conn.Driven.{
  Asking, asked_setting, asked_calls, opened_conn, initialized, build_lake_conn, open_parsed,
  open_dsn,
}
use lake_go.Conn.Driven.Endpoint.{logged_out-Holds, client_calls-CallsKeep}

module _ {D F : Type 0} (std : DsnLib D F) (url : UrlLib) where
  -- The scheme of the client is HTTPS where that of the data source name is.
  api_scheme_https :
      (dsn : Bytes) (cfg : Config D) (u : DsnUrl)
      → parse_dsn std url dsn ≡ ok cfg
      → url.parse (auto_encode url dsn) ≡ some u
      → is_https u.scheme ≡ true
      → api_scheme cfg ≡ codes "https"
  unfolding api_scheme
  api_scheme_https dsn cfg u h p s =
      let (u', p', (secure, valid, port)) = parse_dsn-IsSecure std url dsn cfg h in
      let same : u ≡ u' = cc (p, p') in
      let here : (is_https u.scheme && bytes_eq cfg.ssl_mode disable) ≡ false = rw same secure in
      let tls : bytes_eq cfg.ssl_mode disable ≡ false = rw s at here in rw tls refl

module _ {W Z T E : Type 0} (retrier : Retrier) (law : IsRetrier retrier) (set : Setting W Z T E)
    (endpoint : Bytes) (P : W → Type 0) (keeps : SettingKeeps set endpoint P) (fresh : Fresh W)
    (extras : Extras) (uuid_keeps : (w : W) → P w → P (fresh.new_uuid w).1)
    (hint_keeps : (w : W) → P w → P (fresh.rand_route_hint w).1) where
  opened_conn-Holds :
      (r : Call W (Unit {0}))
      → Holds retrier law set endpoint P keeps r.1
      → Holds retrier law set endpoint P keeps (opened_conn retrier set r).1
  unfolding opened_conn
  opened_conn-Holds (err e, s) h = logged_out-Holds retrier law set endpoint P keeps s h
  opened_conn-Holds (ok done, s) h = h

  initialized-Holds :
      (s : Client × W)
      → Holds retrier law set endpoint P keeps s
      → Holds retrier law set endpoint P keeps (initialized retrier set fresh extras s).1
  unfolding initialized
  initialized-Holds (c, w) (e, p) =
      let (e', p') =
        initialize_connection_info-Holds set.env set.marshal_login set.read_login P c
          (IsKept-client set.env c set.read_login P endpoint e keeps.here) set.ctx w p in
      (e' ∙ e, p')

  build_lake_conn-Holds :
      {D : Type 0} (cfg : Config D) (w : W)
      → api_scheme cfg ++ (codes "://" ++ cfg.host) ≡ endpoint
      → P w
      → Holds retrier law set endpoint P keeps (build_lake_conn retrier set fresh extras cfg w).1
  unfolding build_lake_conn new_api_client client_of
  build_lake_conn-Holds cfg w e p =
      opened_conn-Holds _
        (initialized-Holds (new_api_client cfg fresh extras w) (e, hint_keeps _ (uuid_keeps w p)))

  asked-SettingKeeps : (q : Asking W) → SettingKeeps (asked_setting set q) endpoint P
  unfolding asked_setting
  asked-SettingKeeps q = record {
    here = record { send_keeps = keeps.here.send_keeps; load_keeps = keeps.here.load_keeps };
    there = keeps.there;
    sleep_keeps = keeps.sleep_keeps;
    track_keeps = keeps.track_keeps;
    hint_keeps = keeps.hint_keeps;
  }

  -- A data source name with an HTTPS scheme that is accepted, whatever its parameters say, is opened to a
  -- connection on which every request, from the login to the logout, goes to `https://` and the host: what
  -- is executed on it, and the rows that are read and closed, in whatever order and each with whatever context, keep every property of the
  -- world that requests to this endpoint keep, and with them the token loader, the pauses, the tracker and
  -- the fresh names; and the endpoint stays as it is.
  pub session_of_dsn-Holds :
      {D F V X : Type 0} (std : DsnLib D F) (url : UrlLib) (dsn : Bytes) (cfg : Config D)
      (u : DsnUrl) (w : W) (r : Call W (Unit {0})) (fuel : ℕ) (reading : Reading V Z T X)
      (lib : Parsers Z T X) (ops : List (Asking W × Operation V Z T))
      → parse_dsn std url dsn ≡ ok cfg
      → url.parse (auto_encode url dsn) ≡ some u
      → is_https u.scheme ≡ true
      → endpoint ≡ codes "https" ++ (codes "://" ++ cfg.host)
      → open_dsn retrier set fresh extras std url dsn w ≡ ok r
      → P w
      → Holds retrier law set endpoint P keeps
          (session
            (asked_calls retrier set fuel)
            reading
            lib
            ops
            (record { has_rest = true; closed = false; client = r.1 })).client
  unfolding open_dsn open_parsed
  session_of_dsn-Holds std url dsn cfg u w r fuel reading lib ops h q s on o p =
      let secure : api_scheme cfg ≡ codes "https" = api_scheme_https std url dsn cfg u h q s in
      let built : build_lake_conn retrier set fresh extras cfg w ≡ r = cc (rw h at o) in
      session_keeps (asked_calls retrier set fuel) reading lib
        (Holds retrier law set endpoint P keeps)
        (λ q.
          client_calls-CallsKeep retrier law (asked_setting set q) endpoint P (asked-SettingKeeps q)
            fuel)
        ops _ (rw built at (build_lake_conn-Holds cfg w (rw (secure, on)) p))

-- ===== src/Client/State.antt =====
-- client.go and query.go: the fields of `APIClient` that its operations read and write, and the
-- session state that the server hands back.
use lake_go.Prelude.{
  ℕ, Bool, true, false, not, Option, none, some, List, [], ◌∷◌, ◌++◌, leb, if◌then◌else◌, Bytes,
  codes, bytes_eq,
}
use lake_go.Prelude.Decimal.{ℤ, decimal}
use lake_go.Prelude.Text.{equal_fold}

abbrev pub StringMap : Type 0
StringMap = List (Bytes × Bytes)

pub record SessionState : Type 0 where
  pub database : Bytes
  pub role : Bytes
  pub secondary_roles : Option (List Bytes)
  pub settings : StringMap
  pub txn_state : Bytes
  pub need_sticky : Bool
  pub need_keep_alive : Bool

pub record Client : Type 0 where
  pub session_id : Bytes
  pub query_seq : ℕ
  pub api_endpoint : Bytes
  pub host : Bytes
  pub tenant : Bytes
  pub warehouse : Bytes
  pub user : Bytes
  pub password : Bytes
  pub has_token_loader : Bool
  pub session_state_raw : Option Bytes
  pub session_state : Option SessionState
  pub route_hint : Bytes
  pub node_id : Bytes
  pub query_result_format : Bytes
  pub state_restored : Bool
  pub login_enabled : Bool
  pub arrow_checked : Bool
  pub arrow_enabled : Bool
  pub session_logged_in : Bool
  pub connection_info_initialized : Bool
  pub user_agent : Bytes
  pub wait_time_seconds : ℤ
  pub max_rows_in_buffer : ℤ
  pub max_rows_per_page : ℤ

abbrev pub is_nil : Bytes → Bool
is_nil [] = true
is_nil (c ∷ s) = false

pub data AuthMethod : Type 0 where
  user_password access_token no_auth : AuthMethod

unfoldable pub auth_method : Client → AuthMethod
auth_method c =
    if not (is_nil c.user)
    then user_password
    else if c.has_token_loader
    then access_token
    else no_auth

-- GetQueryID
pub get_query_id : Client → Bytes
get_query_id c = c.session_id ++ (b'.' ∷ decimal c.query_seq)

need_sticky_of : Option SessionState → Bool
need_sticky_of none = false
need_sticky_of (some s) = s.need_sticky

unfoldable pub need_sticky : Client → Bool
unfolding need_sticky_of
need_sticky c = need_sticky_of c.session_state

need_keep_alive_of : Option SessionState → Bool
need_keep_alive_of none = false
need_keep_alive_of (some s) = s.need_keep_alive

unfoldable pub need_keep_alive : Client → Bool
unfolding need_keep_alive_of
need_keep_alive c = need_keep_alive_of c.session_state

active_txn : Option SessionState → Bool
active_txn none = false
active_txn (some s) = equal_fold s.txn_state (codes "Active")

unfoldable pub in_active_transaction : Client → Bool
unfolding active_txn
in_active_transaction c = active_txn c.session_state

-- usesHTTPArrowTransport
unfoldable pub uses_arrow_transport : Client → Bool
uses_arrow_transport c =
    if not (bytes_eq c.query_result_format (codes "arrow")) then false else c.arrow_enabled

-- setHTTPArrowCapability; httpArrowResultVersionMax is 2.
unfoldable pub set_arrow_capability : Client → Option ℤ → Client
set_arrow_capability c v = record c { arrow_enabled = reaches v; arrow_checked = true }
  where
    reaches : Option ℤ → Bool
    reaches none = false
    reaches (some (ℤ.pos n)) = leb 2 n
    reaches (some (ℤ.negsuc n)) = false

-- randRouteHint is called for a hint where no transaction is active.
unfoldable pub refresh_route_hint : Client → Bytes → Client
refresh_route_hint c fresh =
    if not (in_active_transaction c) then record c { route_hint = fresh } else c

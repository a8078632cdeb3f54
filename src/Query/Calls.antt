-- ===== src/Query/Calls.antt =====
-- client.go and arrow.go: the calls that a query is made of. What a call does not implement itself is
-- in `Host`.
pub mod Settle
pub mod Send
use lake_go.Prelude.{
  ℕ, zero, suc, Bool, true, false, not, ◌&&◌, ◌==◌, Option, none, some, [], ◌∷◌, ◌++◌, map,
  if◌then◌else◌, Bytes, codes, bytes_eq,
}
use lake_go.Prelude.Decimal.{ℤ}
use lake_go.Prelude.Text.{starts_with}
use lake_go.Prelude.Result.{Result, ok, err, map_err}
use lake_go.Client.Errors.{Failure, other, wrap, panic}
use lake_go.Client.State.{Client, SessionState, StringMap, uses_arrow_transport}
use lake_go.Client.Request.{HttpResponse, get_header}
use lake_go.Types.ColumnType.{Parsers, ColumnError}
use lake_go.Query.Response.{QueryResponse}
use lake_go.Query.Materialize.{
  RowsError, mismatch, bad_location, bad_column, bad_value, materialize_json_query_rows,
}

pub data Transport : Type 0 where
  auto json arrow : Transport

pub record PaginationConfig : Type 0 where
  pub wait_time : ℤ
  pub max_rows_in_buffer : ℤ
  pub max_rows_per_page : ℤ

pub record StageAttachmentConfig : Type 0 where
  pub location : Bytes
  pub file_format_options : StringMap
  pub copy_options : StringMap

pub record QueryRequest : Type 0 where
  pub session : Option Bytes
  pub sql : Bytes
  pub pagination : Option PaginationConfig
  pub arrow_result_version_max : Option ℕ
  pub stage_attachment : Option StageAttachmentConfig

-- JSON, the Arrow library, time zones, the clock, and the tracker of the configuration.
pub record Host (W Z T E : Type 0) : Type 0 where
  pub parsers : Parsers Z T E
  pub load_location : Bytes → Result E Z
  pub error_text : E → Bytes
  pub column_error_text : ColumnError E → Bytes
  pub unmarshal : Bytes → QueryResponse T → QueryResponse T × Option Failure
  pub unmarshal_session : Bytes → SessionState → SessionState
  pub marshal : QueryRequest → Bytes
  pub decode_arrow : Bytes → Result Failure (QueryResponse T)
  pub track : Bytes → Bytes → W → W
  pub sleep : ℕ → W → W
  pub rand_route_hint : W → Bytes × W

-- `var resp QueryResponse`
abbrev pub no_response : {T : Type 0} → QueryResponse T
no_response = record {
  id = [];
  node_id = [];
  session = none;
  settings = none;
  schema = none;
  data_rows = [];
  typed_rows = none;
  error = none;
  stats = none;
  final_uri = [];
  next_uri = [];
  kill_uri = [];
}

-- `errors.Wrap`, which a panic does not come to.
pub wrap_error : Bytes → Failure → Failure
wrap_error message panic = panic
wrap_error message e = wrap message e

abbrev pub arrow_stream : Bytes
arrow_stream = codes "application/vnd.apache.arrow.stream"

abbrev pub json_type : Bytes
json_type = codes "application/json; charset=utf-8"

-- isArrowResponse
unfoldable pub is_arrow_response : StringMap → Bool
is_arrow_response h = starts_with arrow_stream (get_header (codes "Content-Type") h)

-- Whether the transport is Arrow's.
unfoldable pub use_arrow : Client → Transport → Bool
use_arrow c arrow = true
use_arrow c json = false
use_arrow c auto = uses_arrow_transport c

-- A restored client starts its queries in JSON and polls in Arrow, where Arrow is configured.
abbrev restored_arrow : Client → Bool
restored_arrow c = c.state_restored && bytes_eq c.query_result_format (codes "arrow")

unfoldable pub sync_transport : Client → Transport → Transport
sync_transport c auto = if restored_arrow c then json else auto
sync_transport c t = t

unfoldable pub poll_transport : Client → Transport → Transport
poll_transport c auto = if restored_arrow c then arrow else auto
poll_transport c t = t

abbrev is_zero : ℤ → Bool
is_zero (ℤ.pos n) = n == 0
is_zero (ℤ.negsuc n) = false

pub get_pagination_config : Client → Option PaginationConfig
get_pagination_config c =
    if is_zero c.max_rows_per_page && (is_zero c.max_rows_in_buffer && is_zero c.wait_time_seconds)
    then none
    else some (record {
      wait_time = c.wait_time_seconds;
      max_rows_in_buffer = c.max_rows_in_buffer;
      max_rows_per_page = c.max_rows_per_page;
    })

module _ {W Z T E : Type 0} (host : Host W Z T E) where
  pub rows_failure : RowsError E → Failure
  rows_failure mismatch = other (codes "query rows and schema do not match")
  rows_failure (bad_location e) = other (host.error_text e)
  rows_failure (bad_column name ColumnError.panic) = panic
  rows_failure (bad_column name e) =
      wrap
        (codes "newTextRows: failed to create a data parser for the type '" ++ (name ++ codes "'"))
        (other (host.column_error_text e))
  rows_failure (bad_value e) = other (host.error_text e)
  rows_failure RowsError.panic = panic

  -- materializeJSONQueryRows
  unfoldable pub materialize : QueryResponse T → Result Failure (QueryResponse T)
  unfolding rows_failure
  materialize r =
      map_err rows_failure (materialize_json_query_rows host.parsers host.load_location r)

  decoded : QueryResponse T × Option Failure → Result Failure (QueryResponse T)
  decoded (r, some e) = err (wrap (codes "failed to unmarshal response body") e)
  decoded (r, none) = materialize r

  -- decodeQueryResponse, on a response that is not nil
  unfoldable pub decode_query_response : HttpResponse → Result Failure (QueryResponse T)
  unfolding decoded is_arrow_response
  decode_query_response raw =
      if not (is_arrow_response raw.headers)
      then decoded (host.unmarshal raw.body no_response)
      else host.decode_arrow raw.body

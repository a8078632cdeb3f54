-- ===== src/Client/Errors.antt =====
-- The errors of the driver: apierrors.go, and those that client.go and query.go make. `wrap` is
-- `errors.Wrap`; `errors.Is` and `errors.As` look through it.
use lake_go.Prelude.{
  ℕ, String, Bool, true, false, ◌||◌, Option, none, some, [], ◌∷◌, ◌++◌, ◌==◌, if◌then◌else◌, Bytes,
  codes,
}
use lake_go.Prelude.Decimal.{ℤ, decimal, decimal_ℤ}
use lake_go.Prelude.Text.{contains}

pub record ApiError : Type 0 where
  -- RespBody.Error and RespBody.Message
  pub body_error : Bytes
  pub body_message : Bytes
  pub resp_text : Bytes
  pub status_code : ℕ
  pub hint : Bytes

pub record QueryError : Type 0 where
  pub code : ℤ
  pub message : Bytes
  pub kind : Bytes
  pub detail : Bytes

pub data Failure : Type 0 where
  do_request_failed read_response_failed canceled deadline_exceeded : Failure
  api : ApiError → Failure
  query_failed : QueryError → Failure
  rejected_uri : Bytes → Failure
  other : Bytes → Failure
  wrap : Bytes → Failure → Failure
  -- a run-time panic
  panic : Failure
  -- not an error of the program: the model ran out of fuel
  out_of_fuel : Failure

is_empty : Bytes → Bool
is_empty [] = true
is_empty (c ∷ s) = false

labelled : String → Bytes → Bytes
labelled label s = if is_empty s then [] else codes label ++ s

-- QueryError.Error
unfoldable pub query_error_text : QueryError → Bytes
unfolding labelled is_empty
query_error_text e =
    codes "code: "
    ++ (decimal_ℤ e.code
        ++ (labelled ", message: " e.message
            ++ (labelled ", datail: " e.detail ++ labelled ", kind: " e.kind)))

-- APIError.Error: the status and the hint, and nothing of the response.
unfoldable pub api_error_text : ApiError → Bytes
unfolding labelled is_empty
api_error_text e = codes "HTTP " ++ (decimal e.status_code ++ labelled ": " e.hint)

-- Error()
unfoldable pub error_text : Failure → Bytes
error_text do_request_failed = codes "DoRequestFailed"
error_text read_response_failed = codes "ReadResponseFailed"
error_text canceled = codes "context canceled"
error_text deadline_exceeded = codes "context deadline exceeded"
error_text (api e) = api_error_text e
error_text (query_failed e) = query_error_text e
error_text (rejected_uri message) = message
error_text (other message) = message
error_text (wrap message e) = message ++ (codes ": " ++ error_text e)
error_text panic = []
error_text out_of_fuel = []

-- NewAPIError; `read_body` is the JSON reading of the body's two fields.
pub new_api_error : (Bytes → Bytes × Bytes) → Bytes → ℕ → Bytes → Failure
new_api_error read_body hint status body =
    let (e, m) = read_body body in
    api (record {
      body_error = e;
      body_message = m;
      resp_text = body;
      status_code = status;
      hint = hint;
    })

-- errors.As(err, &apiErr)
abbrev pub as_api : Failure → Option ApiError
as_api (api e) = some e
as_api (wrap message e) = as_api e
as_api _ = none

-- errors.Is(err, ErrDoRequest): a rejected URI unwraps to it.
abbrev pub is_do_request : Failure → Bool
is_do_request do_request_failed = true
is_do_request (rejected_uri message) = true
is_do_request (wrap message e) = is_do_request e
is_do_request _ = false

abbrev pub is_read_response : Failure → Bool
is_read_response read_response_failed = true
is_read_response (wrap message e) = is_read_response e
is_read_response _ = false

abbrev pub is_canceled : Failure → Bool
is_canceled canceled = true
is_canceled (wrap message e) = is_canceled e
is_canceled _ = false

abbrev pub is_deadline : Failure → Bool
is_deadline deadline_exceeded = true
is_deadline (wrap message e) = is_deadline e
is_deadline _ = false

abbrev pub has_status : ℕ → Option ApiError → Bool
has_status n none = false
has_status n (some e) = e.status_code == n

abbrev pub is_not_found : Failure → Bool
is_not_found e = has_status 404 (as_api e)

abbrev pub is_proxy_err : Failure → Bool
is_proxy_err e = has_status 520 (as_api e)

abbrev pub is_auth_failed : Failure → Bool
is_auth_failed e = has_status 401 (as_api e)

abbrev pub is_bad_gateway : Failure → Bool
is_bad_gateway e = has_status 502 (as_api e)

abbrev pub provision_warehouse_timeout : Bytes
provision_warehouse_timeout = codes "ProvisionWarehouseTimeout"

api_provision_timeout : Failure → Option ApiError → Bool
unfolding is_empty
api_provision_timeout err none = contains (error_text err) provision_warehouse_timeout
api_provision_timeout err (some e) =
    contains (if is_empty e.body_message then e.resp_text else e.body_message)
      provision_warehouse_timeout
    || contains e.hint provision_warehouse_timeout

unfoldable pub is_provision_warehouse_timeout : Failure → Bool
unfolding api_provision_timeout
is_provision_warehouse_timeout err = api_provision_timeout err (as_api err)

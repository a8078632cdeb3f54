-- ===== src/Stage.antt =====
-- client.go: the stage that files are uploaded to, by the API or by a presigned URL. The input is what
-- reading it gives: its bytes, or an error.
pub mod Endpoint
use lake_go.Prelude.{
  ℕ, Bool, true, false, not, ◌&&◌, ◌||◌, ◌==◌, ltb, leb, Option, none, some, List, [], ◌∷◌, ◌++◌,
  if◌then◌else◌, Bytes, codes,
}
use lake_go.Prelude.Decimal.{decimal}
use lake_go.Prelude.Result.{Result, ok, err, ◌>>=◌, map_err}
use lake_go.Client.Errors.{Failure, other, wrap, new_api_error}
use lake_go.Client.State.{Client, StringMap}
use lake_go.Client.Url.{make_url}
use lake_go.Client.Request.{
  HttpRequest, HttpResponse, Outcome, no_response, unreadable, received, set_header, make_headers,
}
use lake_go.Client.Retry.{Retrier}
use lake_go.Query.Response.{QueryResponse, cell_string}
use lake_go.Query.Calls.{StageAttachmentConfig}
use lake_go.Query.Calls.Send.{Setting, Call, query_sync}
use lake_go.Presign.{StorageUrl, validate_presign_url}

pub record StageLocation : Type 0 where
  pub name : Bytes
  pub path : Bytes

-- StageLocation.String
pub stage_text : StageLocation → Bytes
stage_text s = b'@' ∷ (s.name ++ (b'/' ∷ s.path))

pub record PresignedResponse : Type 0 where
  pub method : Bytes
  pub headers : StringMap
  pub url : Bytes

-- The fields of the client that the configuration sets and only uploads read.
pub record StageConfig : Type 0 where
  pub presigned_url_disabled : Bool
  pub presign_allow_private : Bool
  pub empty_field_as : Bytes

-- NewDefaultCSVFormatOptions
pub default_csv_format_options : StageConfig → StringMap
default_csv_format_options cfg =
    (codes "type", codes "CSV")
    ∷ (codes "field_delimiter", codes ",")
    ∷ (codes "record_delimiter", 10 ∷ [])
    ∷ (codes "skip_header", codes "0")
    ∷ (codes "empty_field_as", cfg.empty_field_as)
    ∷ []

-- NewDefaultCopyOptions
pub default_copy_options : StringMap
default_copy_options = (codes "purge", codes "true") ∷ []

abbrev or_options : Option StringMap → StringMap → StringMap
or_options none defaults = defaults
or_options (some options) defaults = options

-- The attachment of InsertWithStage, where the stage is not nil.
unfoldable pub stage_attachment :
    StageConfig → StageLocation → Option StringMap → Option StringMap → StageAttachmentConfig
unfolding stage_text default_csv_format_options default_copy_options
stage_attachment cfg stage file_format copy = record {
  location = stage_text stage;
  file_format_options = or_options file_format (default_csv_format_options cfg);
  copy_options = or_options copy default_copy_options;
}

-- A request to the storage: it holds what the server presigned, and nothing of the client.
pub record StorageRequest : Type 0 where
  pub url : Bytes
  pub headers : StringMap
  pub content_length : ℕ
  pub body : Result Failure Bytes

-- What uploads use: the parsing of a request's URL, JSON, multipart bodies with their content type, and
-- the two HTTP clients; that for the storage dials as in presign_security.go and follows no redirect, and
-- gives the status of the response.
pub record Storage (W : Type 0) : Type 0 where
  pub parse_url : Bytes → Option StorageUrl
  pub unmarshal_headers : Bytes → Result Failure StringMap
  pub multipart : Bytes → Bytes → Bytes × Bytes
  pub upload : HttpRequest → W → Outcome × W
  pub put : StorageRequest → W → Option ℕ × W

abbrev invalid_response : Failure
invalid_response = other (codes "generate presign url invalid response")

cell_or_invalid : Option Bytes → Result Failure Bytes
cell_or_invalid none = err invalid_response
cell_or_invalid (some s) = ok s

-- `for k, v := range presigned.Headers { req.Header.Set(k, v) }`
unfoldable pub set_headers : StringMap → StringMap → StringMap
set_headers [] h = h
set_headers ((k, v) ∷ more) h = set_headers more (set_header k v h)

-- The hint of the error for a status of the upload, and no error for the others.
pub upload_hint : ℕ → Option Bytes
upload_hint status =
    if status == 401
    then some (codes "please check your user/password.")
    else if leb 500 status
    then some (codes "please retry again later.")
    else if leb 400 status
    then some (codes "please check your arguments.")
    else none

module _ {W Z T E : Type 0} (retrier : Retrier) (set : Setting W Z T E) (storage : Storage W)
    (cfg : StageConfig) where
  -- What the response to the presigning holds.
  presigned_of : QueryResponse T → Result Failure PresignedResponse
  unfolding cell_or_invalid
  presigned_of r = do
    method ← cell_or_invalid (cell_string r 0 0)
    headers_text ← cell_or_invalid (cell_string r 0 1)
    url ← cell_or_invalid (cell_string r 0 2)
    headers ←
        map_err (wrap (codes "failed to unmarshal headers"))
          (storage.unmarshal_headers headers_text)
    ok (record { method = method; headers = headers; url = url })

  presign_done : Call W (QueryResponse T) → Call W PresignedResponse
  presign_done (err e, s) = (err (wrap (codes "failed to query presign url") e), s)
  presign_done (ok r, s) = (presigned_of r, s)

  -- GetPresignedURL; the fuel bounds the polls of its query.
  unfoldable pub get_presigned_url : ℕ → StageLocation → Client × W → Call W PresignedResponse
  unfolding presign_done presigned_of stage_text
  get_presigned_url fuel stage s =
      presign_done (query_sync retrier set fuel (codes "PRESIGN UPLOAD " ++ stage_text stage) s)

  put_result : Client → Option ℕ × W → Call W (Unit {0})
  put_result c (none, w) =
      (err (other (codes "failed to upload to stage by presigned URL")), (c, w))
  put_result c (some status, w) =
      if ltb status 200 || leb 300 status
      then (err (other (codes "presigned upload refused HTTP status " ++ decimal status)), (c, w))
      else (ok tt, (c, w))

  put_parsed : StorageRequest → Option StorageUrl → Client × W → Call W (Unit {0})
  put_parsed req none s = (err (other (codes "invalid presigned upload request")), s)
  put_parsed req (some u) (c, w) =
      let done = put_result c (storage.put req w) in
      if validate_presign_url (some u) cfg.presign_allow_private then done else (
        err (
            other
              (codes "presigned URL requires HTTPS and a host without credentials or fragment")),
        (c, w),
      )

  pub storage_request : PresignedResponse → Result Failure Bytes → ℕ → StorageRequest
  storage_request p input size = record {
    url = p.url;
    headers = set_headers p.headers [];
    content_length = size;
    body = input;
  }

  put_presigned : Result Failure Bytes → ℕ → Call W PresignedResponse → Call W (Unit {0})
  put_presigned input size (err e, s) = (err (wrap (codes "failed to get presigned url") e), s)
  put_presigned input size (ok p, s) =
      put_parsed (storage_request p input size) (storage.parse_url p.url) s

  -- UploadToStageByPresignURL
  unfoldable pub upload_by_presign_url :
      ℕ → StageLocation → Result Failure Bytes → ℕ → Client × W → Call W (Unit {0})
  unfolding put_presigned put_parsed put_result storage_request
  upload_by_presign_url fuel stage input size s =
      put_presigned input size (get_presigned_url fuel stage s)

  refuse_upload : HttpResponse → Option Bytes → Result Failure (Unit {0})
  refuse_upload r none = ok tt
  refuse_upload r (some hint) = err (new_api_error set.env.read_body hint r.status r.body)

  upload_result : Client → Outcome × W → Call W (Unit {0})
  upload_result c (no_response text, w) =
      (err (wrap (codes "failed http do request") (other text)), (c, w))
  upload_result c (unreadable text, w) =
      (err (wrap (codes "failed to read http response body") (other text)), (c, w))
  upload_result c (received r, w) = (refuse_upload r (upload_hint r.status), (c, w))

  pub upload_request : Client → StageLocation → Bytes → Bytes → StringMap → HttpRequest
  upload_request c stage url content h =
      let (body, content_type) = storage.multipart stage.path content in
      record {
        method = codes "PUT";
        url = url;
        host = c.host;
        headers =
            set_header (codes "Content-Type") content_type
              (set_header (codes "stage_name") stage.name h);
        body = body;
      }

  upload_with :
      Client → StageLocation → Bytes → Bytes → Result Failure StringMap × W → Call W (Unit {0})
  upload_with c stage url content (err e, w) =
      (err (wrap (codes "failed to make headers") e), (c, w))
  upload_with c stage url content (ok h, w) =
      upload_result c (storage.upload (upload_request c stage url content h) w)

  upload_url : Client → StageLocation → Bytes → Result Failure Bytes → W → Call W (Unit {0})
  upload_url c stage content (err e) w = (err e, (c, w))
  upload_url c stage content (ok url) w =
      upload_with c stage url content (make_headers set.env c set.ctx w)

  upload_read : StageLocation → Result Failure Bytes → Client × W → Call W (Unit {0})
  upload_read stage (err e) s =
      (err (wrap (codes "failed to copy file to multipart writer form file") e), s)
  upload_read stage (ok content) (c, w) =
      upload_url c stage content
        (make_url set.env.parse_url c.api_endpoint (codes "/v1/upload_to_stage")) w

  -- UploadToStageByAPI
  unfoldable pub upload_by_api :
      StageLocation → Result Failure Bytes → Client × W → Call W (Unit {0})
  unfolding upload_read upload_url upload_with upload_result refuse_upload upload_hint
      upload_request
  upload_by_api stage input s = upload_read stage input s

  -- UploadToStage
  unfoldable pub upload_to_stage :
      ℕ → StageLocation → Result Failure Bytes → ℕ → Client × W → Call W (Unit {0})
  unfolding upload_by_api upload_by_presign_url
  upload_to_stage fuel stage input size s =
      if cfg.presigned_url_disabled
      then upload_by_api stage input s
      else upload_by_presign_url fuel stage input size s

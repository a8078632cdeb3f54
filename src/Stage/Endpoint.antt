-- ===== src/Stage/Endpoint.antt =====
-- Where an upload goes: to the configured endpoint, or to a presigned URL that is validated.
use lake_go.Prelude.{
  ◌≡◌, refl, Bool, true, Option, none, some, Bytes, ℕ, codes, if_both, Bool-cases, inl, inr,
}
use lake_go.Prelude.Result.{Result, ok, err}
use lake_go.Client.Errors.{Failure}
use lake_go.Client.State.{Client, StringMap}
use lake_go.Client.Url.{make_url}
use lake_go.Client.Url.Endpoint.{StaysOn, make_url-StaysOn}
use lake_go.Client.Retry.{Retrier, IsRetrier}
use lake_go.Client.Request.{HttpRequest, Outcome, no_response, unreadable, received, HttpResponse}
use lake_go.Client.Request.Endpoint.{make_headers_keeps}
use lake_go.Query.Response.{QueryResponse}
use lake_go.Query.Calls.Send.{Setting, Call}
use lake_go.Query.Calls.Send.Keeps.{SettingKeeps, IsKept-client, Holds}
use lake_go.Query.Calls.Send.Whole.{query_sync-Holds}
use lake_go.Presign.{StorageUrl, validate_presign_url}
use lake_go.Stage.{
  StageLocation, PresignedResponse, StageConfig, StorageRequest, Storage, presign_done,
  get_presigned_url, put_result, put_parsed, put_presigned, upload_by_presign_url, upload_result,
  upload_request, upload_with, upload_url, upload_read, upload_by_api, upload_to_stage,
}

-- The world of uploads: a request to the endpoint keeps the property, and so does one to the storage
-- whose URL is validated.
pub record StorageKeeps {W : Type 0} (storage : Storage W) (allow_private : Bool)
    (on_endpoint : Bytes → Type 0) (P : W → Type 0) : Type 0 where
  pub upload_keeps :
      (req : HttpRequest) (w : W) → on_endpoint req.url → P w → P (storage.upload req w).1
  pub put_keeps :
      (req : StorageRequest) (u : StorageUrl) (w : W)
      → storage.parse_url req.url ≡ some u
      → validate_presign_url (some u) allow_private ≡ true
      → P w
      → P (storage.put req w).1

module _ {W Z T E : Type 0} (retrier : Retrier) (law : IsRetrier retrier) (set : Setting W Z T E)
    (endpoint : Bytes) (P : W → Type 0) (keeps : SettingKeeps set endpoint P) (storage : Storage W)
    (cfg : StageConfig)
    (stores : StorageKeeps storage cfg.presign_allow_private
      (StaysOn set.env.parse_url endpoint)
      P) where
  abbrev Kept : {A : Type 0} → Call W A → Type 0
  Kept r = Holds retrier law set endpoint P keeps r.1

  read_nothing : HttpResponse → Unit {0} → Unit {0} × Option Failure
  read_nothing r u = (u, none)

  put_result-Kept :
      (c : Client) (r : Option ℕ × W)
      → c.api_endpoint ≡ endpoint
      → P r.1
      → Kept (put_result retrier set storage cfg c r)
  unfolding put_result
  put_result-Kept c (none, w) e p = (e, p)
  put_result-Kept c (some status, w) e p = if_both {A = Call W (Unit {0})} Kept _ (e, p) (e, p)

  put_parsed-Kept :
      (req : StorageRequest) (o : Option StorageUrl) (s : Client × W)
      → storage.parse_url req.url ≡ o
      → Holds retrier law set endpoint P keeps s
      → Kept (put_parsed retrier set storage cfg req o s)
  unfolding put_parsed
  put_parsed-Kept req none s q h = h
  put_parsed-Kept req (some u) (c, w) q (e, p) =
      elim (Bool-cases (validate_presign_url (some u) cfg.presign_allow_private)) [
        | inl v ↦ rw v (put_result-Kept c (storage.put req w) e (stores.put_keeps req u w q v p))
        | inr v ↦ rw v (e, p)
      ]

  get_presigned_url-Kept :
      (fuel : ℕ) (stage : StageLocation) (s : Client × W)
      → Holds retrier law set endpoint P keeps s
      → Kept (get_presigned_url retrier set storage cfg fuel stage s)
  unfolding get_presigned_url presign_done
  get_presigned_url-Kept fuel stage s h =
      split _ (query_sync-Holds retrier law set endpoint P keeps fuel _ s h)
    where
      split :
          (r : Call W (QueryResponse T)) → Kept r → Kept (presign_done retrier set storage cfg r)
      split (err e, s) k = k
      split (ok r, s) k = k

  by_presign_url-Kept :
      (fuel : ℕ) (stage : StageLocation) (input : Result Failure Bytes) (size : ℕ) (s : Client × W)
      → Holds retrier law set endpoint P keeps s
      → Kept (upload_by_presign_url retrier set storage cfg fuel stage input size s)
  unfolding upload_by_presign_url put_presigned
  by_presign_url-Kept fuel stage input size s h = split _ (get_presigned_url-Kept fuel stage s h)
    where
      split :
          (r : Call W PresignedResponse)
          → Kept r
          → Kept (put_presigned retrier set storage cfg input size r)
      split (err e, s) k = k
      split (ok p, s) k = put_parsed-Kept _ _ s refl k

  upload_result-Kept :
      (c : Client) (o : Outcome × W)
      → c.api_endpoint ≡ endpoint
      → P o.1
      → Kept (upload_result retrier set storage cfg c o)
  unfolding upload_result
  upload_result-Kept c (no_response text, w) e p = (e, p)
  upload_result-Kept c (unreadable text, w) e p = (e, p)
  upload_result-Kept c (received r, w) e p = (e, p)

  upload_with-Kept :
      (c : Client) (stage : StageLocation) (url content : Bytes) (h : Result Failure StringMap × W)
      → StaysOn set.env.parse_url endpoint url
      → c.api_endpoint ≡ endpoint
      → P h.1
      → Kept (upload_with retrier set storage cfg c stage url content h)
  unfolding upload_with upload_request
  upload_with-Kept c stage url content (err f, w) on e p = (e, p)
  upload_with-Kept c stage url content (ok h, w) on e p =
      upload_result-Kept c _ e (stores.upload_keeps _ w on p)

  by_api-Kept :
      (stage : StageLocation) (input : Result Failure Bytes) (s : Client × W)
      → Holds retrier law set endpoint P keeps s
      → Kept (upload_by_api retrier set storage cfg stage input s)
  unfolding upload_by_api upload_read upload_url
  by_api-Kept stage (err f) s h = h
  by_api-Kept stage (ok content) (c, w) (e, p) = split _ refl
    where
      split :
          (u : Result Failure Bytes)
          → make_url set.env.parse_url c.api_endpoint (codes "/v1/upload_to_stage") ≡ u
          → Kept (upload_url retrier set storage cfg c stage content u w)
      split (err f) q = (e, p)
      split (ok url) q =
          upload_with-Kept c stage url content _
            (rw e at (make_url-StaysOn set.env.parse_url c.api_endpoint _ q)) e
            (make_headers_keeps set.env c read_nothing P
              (IsKept-client set.env c read_nothing P endpoint e keeps.here) set.ctx w p)

  -- An upload to a stage, by the API or by a presigned URL, keeps every property of the world that
  -- requests to the configured endpoint keep, and requests to the storage whose URL passes
  -- `validatePresignURL`: no other request is sent, whatever URL the server presigned. The client's
  -- endpoint stays as it is.
  pub upload_to_stage-Holds :
      (fuel : ℕ) (stage : StageLocation) (input : Result Failure Bytes) (size : ℕ) (s : Client × W)
      → Holds retrier law set endpoint P keeps s
      → Holds retrier law set endpoint P keeps
          (upload_to_stage retrier set storage cfg fuel stage input size s).1
  unfolding upload_to_stage
  upload_to_stage-Holds fuel stage input size s h =
      if_both {A = Call W (Unit {0})} Kept cfg.presigned_url_disabled (by_api-Kept stage input s h)
        (by_presign_url-Kept fuel stage input size s h)

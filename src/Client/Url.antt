-- ===== src/Client/Url.antt =====
-- client.go: `makeURL`, which keeps a request on the configured endpoint, and the redirect policy.
-- `url.Parse` and `URL.String` are the standard library's, and arguments here; the text of a parse
-- error is left out of the messages.
pub mod Endpoint
use lake_go.Prelude.{
  ℕ, Bool, true, false, not, ◌&&◌, ◌||◌, Option, none, some, [], ◌∷◌, ◌++◌, leb, if◌then◌else◌,
  Bytes, codes,
}
use lake_go.Prelude.Result.{Result, ok, err}
use lake_go.Prelude.Text.{starts_with, equal_fold}
use lake_go.Client.Errors.{Failure, rejected_uri, other, wrap}

-- url.URL, as far as the client reads it
pub record Url : Type 0 where
  pub scheme : Bytes
  pub opaque : Bytes
  pub host : Bytes
  pub path : Bytes

abbrev pub is_nil : Bytes → Bool
is_nil [] = true
is_nil (c ∷ s) = false

-- The `%q` of a value in a message, which escapes no byte here.
abbrev quoted : Bytes → Bytes
quoted s = codes "\"" ++ (s ++ codes "\"")

pub foreign : Bytes → Bytes → Failure
foreign target endpoint = rejected_uri (
    codes "refusing to send a request to "
    ++ (quoted target ++ (codes ": it does not belong to endpoint " ++ quoted endpoint)))

-- The scheme and the host are the endpoint's.
abbrev pub same_endpoint : Url → Url → Bool
same_endpoint u base = equal_fold u.scheme base.scheme && equal_fold u.host base.host

-- The value names a scheme, a host or an opaque part.
abbrev pub is_absolute : Url → Bool
is_absolute u = not (is_nil u.scheme) || (not (is_nil u.host) || not (is_nil u.opaque))

make_url_parsed : Bytes → Bytes → Url → Url → Result Failure Bytes
make_url_parsed endpoint path base u =
    if is_absolute u
    then (if not (same_endpoint u base) then err (foreign path endpoint) else ok path)
    else if is_nil u.path
    then ok (endpoint ++ path)
    else if not (starts_with (codes "/") u.path)
    then err (
        rejected_uri (
          codes "invalid request path "
          ++ (quoted path
              ++ (codes ": it must be an absolute path or a URL on endpoint " ++ quoted endpoint))))
    else ok (endpoint ++ path)

make_url_base :
    (Bytes → Option Url) → Bytes → Bytes → Option Url → Option Url → Result Failure Bytes
unfolding make_url_parsed
make_url_base parse endpoint path none u =
    err (wrap (codes "invalid api endpoint " ++ quoted endpoint) (other []))
make_url_base parse endpoint path (some base) none =
    err (rejected_uri (codes "invalid request path " ++ (quoted path ++ codes ": ")))
make_url_base parse endpoint path (some base) (some u) = make_url_parsed endpoint path base u

unfoldable pub make_url : (Bytes → Option Url) → Bytes → Bytes → Result Failure Bytes
unfolding make_url_base
make_url parse endpoint path = make_url_base parse endpoint path (parse endpoint) (parse path)

-- `checkAPIRedirect`: the URL of the redirect, that of the first request, and how many there were.
unfoldable pub check_api_redirect : (Url → Bytes) → Url → Url → ℕ → Option Failure
check_api_redirect print req base via =
    if not (same_endpoint req base)
    then some (foreign (print req) (base.scheme ++ (codes "://" ++ base.host)))
    else if leb 10 via
    then some (other (codes "stopped after 10 redirects"))
    else none

-- ===== src/Client/Url/Endpoint.antt =====
-- Where a request that `makeURL` accepts goes.
use lake_go.Client.Url.{
  ok, make_url_parsed, make_url, make_url_base, Url, same_endpoint, is_absolute, is_nil,
}
use lake_go.Prelude.{
  refl, inl, inr, none, Bool-cases, ◌≡◌, ◌⊎◌, true, false, Option, some, ◌++◌, Bytes, codes,
}
use lake_go.Prelude.Text.{starts_with}

-- The request stays on the endpoint: the target is a URL with the scheme and the host of the
-- endpoint, or it is the endpoint with a path behind it that names neither scheme nor host.
pub data StaysOn (parse : Bytes → Option Url) (endpoint target : Bytes) : Type 0 where
  same_host :
      {base u : Url}
      → parse endpoint ≡ some base
      → parse target ≡ some u
      → same_endpoint u base ≡ true
      → StaysOn parse endpoint target
  below :
      {path : Bytes} {u : Url}
      → target ≡ endpoint ++ path
      → parse path ≡ some u
      → is_absolute u ≡ false
      → (is_nil u.path ≡ true) ⊎ (starts_with (codes "/") u.path ≡ true)
      → StaysOn parse endpoint target

make_url_parsed-StaysOn :
    (parse : Bytes → Option Url) (endpoint path : Bytes) (base u : Url) {target : Bytes}
    → parse endpoint ≡ some base
    → parse path ≡ some u
    → make_url_parsed endpoint path base u ≡ ok target
    → StaysOn parse endpoint target
unfolding make_url_parsed
make_url_parsed-StaysOn parse endpoint path base u {target} hb hu h =
    elim (Bool-cases (is_absolute u)) [
      | inl a ↦ elim (Bool-cases (same_endpoint u base)) [
        | inl s ↦ let e : path ≡ target = cc (a, s, h) in same_host hb (rw e at hu) s
        | inr s ↦ cc (a, s, h)
      ]
      | inr a ↦ elim (Bool-cases (is_nil u.path)) [
        | inl n ↦ let e : target ≡ endpoint ++ path = cc (a, n, h) in below e hu a (inl n)
        | inr n ↦ elim (Bool-cases (starts_with (codes "/") u.path)) [
          | inl s ↦ let e : target ≡ endpoint ++ path = cc (a, n, s, h) in below e hu a (inr s)
          | inr s ↦ cc (a, n, s, h)
        ]
      ]
    ]

-- Whatever the value that the server sent for the next request, an accepted request stays on the
-- configured endpoint.
pub make_url-StaysOn :
    (parse : Bytes → Option Url) (endpoint path : Bytes) {target : Bytes}
    → make_url parse endpoint path ≡ ok target
    → StaysOn parse endpoint target
unfolding make_url
make_url-StaysOn parse endpoint path h = split (parse endpoint) (parse path) refl refl h
  where
    split :
        (b u : Option Url)
        → parse endpoint ≡ b
        → parse path ≡ u
        → {target : Bytes} → make_url_base parse endpoint path b u ≡ ok target
        → StaysOn parse endpoint target
    split none u hb hu h = cc
    split (some base) none hb hu h = cc
    split (some base) (some u) hb hu h = make_url_parsed-StaysOn parse endpoint path base u hb hu h

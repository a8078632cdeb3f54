-- ===== src/Dsn/Parse/Plaintext.antt =====
-- Which data source names give a connection without TLS.
use lake_go.Prelude.{
  ◌≡◌, refl, true, false, ◌&&◌, ◌||◌, Option, none, some, inl, inr, Bool-cases, Bytes, codes,
  bytes_eq, if◌then◌else◌,
}
use lake_go.Prelude.Result.{ok, OnOk, returns, fails, OnOk-ok}
use lake_go.Dsn.{Config, DsnLib, new_config, add_params, Changed}
use lake_go.Dsn.Parse.{
  DsnUrl, UrlLib, auto_encode, is_http, is_https, is_plain_scheme, disable, set_host, of_url,
  parse_dsn, parsed, after_params, first_values, set_user, set_database, set_scheme,
}

module _ {Z E : Type 0} (std : DsnLib Z E) (url : UrlLib) where
  set_host-mode :
      (host : Bytes) (cfg : Config Z) → (set_host std url host cfg).ssl_mode ≡ cfg.ssl_mode
  unfolding set_host
  set_host-mode host cfg = elim (Bool-cases (url.has_port host)) [
    | inl h ↦ rw h
    | inr h ↦ elim (Bool-cases (bytes_eq cfg.ssl_mode disable)) [
      | inl k ↦ rw (h, k)
      | inr k ↦ rw (h, k)
    ]
  ]

  -- What a configuration that is made has of the address.
  abbrev pub IsSecure : DsnUrl → Config Z → Type 0
  IsSecure u cfg =
      ((is_https u.scheme && bytes_eq cfg.ssl_mode disable) ≡ false)
      × ((is_http u.scheme || (is_https u.scheme || is_plain_scheme u.scheme)) ≡ true)
      × ((url.has_port u.host ≡ false)
          → cfg.host
            ≡ url.join_host_port u.host
                (if bytes_eq cfg.ssl_mode disable then codes "80" else codes "443"))

  set_host-port :
      (host : Bytes) (cfg : Config Z)
      → url.has_port host ≡ false
      → (set_host std url host cfg).host
        ≡ url.join_host_port host (
            if bytes_eq (set_host std url host cfg).ssl_mode disable
            then codes "80"
            else codes "443")
  unfolding set_host
  set_host-port host cfg h = elim (Bool-cases (bytes_eq cfg.ssl_mode disable)) [
    | inl k ↦ rw (h, k) (rw k refl)
    | inr k ↦ rw (h, k) (rw k refl)
  ]

  after_params-IsSecure :
      (u : DsnUrl) (r : Changed std)
      → (is_http u.scheme || (is_https u.scheme || is_plain_scheme u.scheme)) ≡ true
      → OnOk (IsSecure u) (after_params std url u r)
  unfolding after_params
  after_params-IsSecure u (c, some e) s = fails
  after_params-IsSecure u (c, none) s =
      elim (Bool-cases (is_https u.scheme && bytes_eq c.ssl_mode disable)) [
        | inl k ↦ rw k fails
        | inr k ↦ rw k (returns (rw (set_host-mode u.host c) k, s, set_host-port u.host c))
      ]

  of_url-IsSecure : (u : DsnUrl) → OnOk (IsSecure u) (of_url std url u)
  unfolding of_url
  of_url-IsSecure u =
      elim (Bool-cases (is_http u.scheme || (is_https u.scheme || is_plain_scheme u.scheme))) [
        | inl s ↦ rw s (
            after_params-IsSecure u
              (add_params std (first_values u.query) (
                set_user std url u.user
                  (set_database std url u.path (set_scheme std url u.scheme (new_config std)))))
              s)
        | inr s ↦ rw s fails
      ]

  -- A data source name that is accepted has a URL with one of the schemes that there are; where the scheme
  -- is one of HTTPS, TLS is not disabled, whatever the parameters say; and a host without a port gets
  -- port 80 where TLS is disabled and 443 where it is not.
  pub parse_dsn-IsSecure :
      (dsn : Bytes) (cfg : Config Z)
      → parse_dsn std url dsn ≡ ok cfg
      → (u : DsnUrl) × (url.parse (auto_encode url dsn) ≡ some u) × IsSecure u cfg
  unfolding parse_dsn
  parse_dsn-IsSecure dsn cfg h = split (url.parse (auto_encode url dsn)) refl h
    where
      split :
          (o : Option DsnUrl)
          → url.parse (auto_encode url dsn) ≡ o
          → parsed std url o ≡ ok cfg
          → (u : DsnUrl) × (url.parse (auto_encode url dsn) ≡ some u) × IsSecure u cfg
      split none e k = cc
      split (some u) e k = (u, e, OnOk-ok (of_url-IsSecure u) k)

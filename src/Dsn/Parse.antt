-- ===== src/Dsn/Parse.antt =====
-- dsn.go: `ParseDSN`.
pub mod Plaintext
use lake_go.Dsn.{
  format_params, is_empty, Config, DsnError, unsupported_scheme, plaintext, bad_url, DsnLib,
  new_config, add_params, Changed,
}
use lake_go.Prelude.{
  map, String, length, ◌+◌, ◌==◌, ℕ, suc, Bool, false, ◌&&◌, ◌||◌, Option, none, some, List, [],
  ◌∷◌, ◌++◌, if◌then◌else◌, Bytes, codes, bytes_eq, take, drop,
}
use lake_go.Prelude.Text.{starts_with}
use lake_go.Prelude.Result.{Result, ok, err}
use lake_go.Client.State.{StringMap}

-- What url.Parse finds; the user with a password, where there is one.
pub record DsnUrl : Type 0 where
  pub scheme : Bytes
  pub host : Bytes
  pub path : Bytes
  pub user : Option (Bytes × Option Bytes)
  pub query : List (Bytes × List Bytes)

-- net/url and net.
pub record UrlLib : Type 0 where
  pub parse : Bytes → Option DsnUrl
  pub path_unescape : Bytes → Option Bytes
  -- url.User(user).String() and url.UserPassword(user, pass).String()
  pub user_text : Bytes → Bytes
  pub user_password_text : Bytes → Bytes → Bytes
  -- whether net.SplitHostPort succeeds
  pub has_port : Bytes → Bool
  pub join_host_port : Bytes → Bytes → Bytes

-- strings.Index(s, p)
unfoldable pub index : Bytes → Bytes → Option ℕ
index [] p = if bytes_eq p [] then some 0 else none
index (c ∷ s) p = elim (index s p) [
  | none ↦ if starts_with p (c ∷ s) then some 0 else none
  | some i ↦ if starts_with p (c ∷ s) then some 0 else some (suc i)
]

-- strings.IndexAny(rest, "/?#"), or the length
unfoldable pub authority_end : Bytes → ℕ
authority_end [] = 0
authority_end (c ∷ s) =
    let n = authority_end s in if c == b'/' || (c == b'?' || c == b'#') then 0 else suc n

-- strings.LastIndex(s, "@")
unfoldable pub last_at : Bytes → Option ℕ
last_at [] = none
last_at (c ∷ s) = elim (last_at s) [
  | some i ↦ some (suc i)
  | none ↦ if c == b'@' then some 0 else none
]

pub or_same : Bytes → Option Bytes → Bytes
or_same s none = s
or_same s (some t) = t

module _ (url : UrlLib) where
  encode_pair : Bytes → Option ℕ → Bytes
  encode_pair info none = url.user_text (or_same info (url.path_unescape info))
  encode_pair info (some i) =
      let user = take i info in
      let pass = drop (suc i) info in
      url.user_password_text (or_same user (url.path_unescape user))
        (or_same pass (url.path_unescape pass))

  encode_rest : Bytes → Bytes → Option ℕ → Bytes
  encode_rest scheme rest none = scheme ++ rest
  encode_rest scheme rest (some at) =
      let info = take at rest in
      scheme ++ (encode_pair info (index info (codes ":")) ++ drop at rest)

  encode_from : Bytes → Option ℕ → Bytes
  encode_from dsn none = dsn
  encode_from dsn (some i) =
      let rest = drop (i + 3) dsn in
      encode_rest (take (i + 3) dsn) rest (last_at (take (authority_end rest) rest))

  -- autoEncodeUserPassInDSN
  unfoldable pub auto_encode : Bytes → Bytes
  unfolding encode_from encode_rest encode_pair or_same
  auto_encode dsn = encode_from dsn (index dsn (codes "://"))

abbrev pub one_of_schemes : Bytes → List Bytes → Bool
one_of_schemes s [] = false
one_of_schemes s (t ∷ ts) = bytes_eq s t || one_of_schemes s ts

unfoldable pub is_http : Bytes → Bool
is_http s =
    one_of_schemes s (
      codes "http" ∷ codes "lake+http" ∷ codes "db+http" ∷ codes "dd+http" ∷ codes "bend+http" ∷ [])

unfoldable pub is_https : Bytes → Bool
is_https s = one_of_schemes s (
    codes "https"
    ∷ codes "lake+https"
    ∷ codes "db+https"
    ∷ codes "dd+https"
    ∷ codes "bend+https"
    ∷ [])

unfoldable pub is_plain_scheme : Bytes → Bool
is_plain_scheme s = one_of_schemes s (codes "lake" ∷ codes "db" ∷ codes "dd" ∷ codes "bend" ∷ [])

abbrev pub disable : Bytes
disable = codes "disable"

abbrev pub first_values : List (Bytes × List Bytes) → StringMap
first_values [] = []
first_values ((k, []) ∷ q) = first_values q
first_values ((k, (v ∷ vs)) ∷ q) = (k, v) ∷ first_values q

module _ {Z E : Type 0} (std : DsnLib Z E) (url : UrlLib) where
  -- `u.Path[1:]`
  set_database : Bytes → Config Z → Config Z
  set_database [] cfg = cfg
  set_database (c ∷ []) cfg = cfg
  set_database (c ∷ (d ∷ path)) cfg = record cfg { database = d ∷ path }

  set_user : Option (Bytes × Option Bytes) → Config Z → Config Z
  set_user none cfg = cfg
  set_user (some (name, none)) cfg = record cfg { user = name }
  set_user (some (name, some pass)) cfg = record cfg { user = name; password = pass }

  set_scheme : Bytes → Config Z → Config Z
  set_scheme scheme cfg = if is_http scheme then record cfg { ssl_mode = disable } else cfg

  -- The host, with the port that the mode has.
  unfoldable pub set_host : Bytes → Config Z → Config Z
  set_host host cfg =
      if url.has_port host
      then record cfg { host = host }
      else if bytes_eq cfg.ssl_mode disable
      then record cfg { host = url.join_host_port host (codes "80") }
      else record cfg { host = url.join_host_port host (codes "443") }

  after_params : DsnUrl → Changed std → Result (DsnError E) (Config Z)
  after_params u (cfg, some e) = err e
  after_params u (cfg, none) =
      if is_https u.scheme && bytes_eq cfg.ssl_mode disable
      then err plaintext
      else ok (set_host u.host cfg)

  unfoldable pub of_url : DsnUrl → Result (DsnError E) (Config Z)
  unfolding after_params set_scheme set_user set_database
  of_url u =
      if is_http u.scheme || (is_https u.scheme || is_plain_scheme u.scheme)
      then after_params u (
          add_params std (first_values u.query)
            (set_user u.user (set_database u.path (set_scheme u.scheme (new_config std)))))
      else err unsupported_scheme

  parsed : Option DsnUrl → Result (DsnError E) (Config Z)
  parsed none = err bad_url
  parsed (some u) = of_url u

  -- ParseDSN
  unfoldable pub parse_dsn : Bytes → Result (DsnError E) (Config Z)
  unfolding parsed
  parse_dsn dsn = parsed (url.parse (auto_encode url dsn))

  format_user : Config Z → Option (Bytes × Option Bytes)
  format_user cfg =
      if is_empty cfg.user
      then none
      else if is_empty cfg.password
      then some (cfg.user, none)
      else some (cfg.user, some cfg.password)

  -- FormatDSN, before `u.String()`
  pub format_url : Config Z → DsnUrl
  format_url cfg = record {
    scheme = codes "lake";
    host = cfg.host;
    path = if is_empty cfg.database then codes "/" else cfg.database;
    user = format_user cfg;
    query = map (λ (k, v). (k, v ∷ [])) (format_params std cfg);
  }

-- ===== src/Tests/Dsn.antt =====
-- Tests of data source names.
use lake_go.Prelude.{
  ◌++◌, ◌≡◌, refl, true, false, Option, none, some, [], ◌∷◌, Bytes, codes, bytes_eq, if◌then◌else◌,
}
use lake_go.Prelude.Decimal.{ℤ}
use lake_go.Prelude.Result.{ok}
use lake_go.Dsn.{
  Config, DsnLib, new_config, add_loop, add_params, with_alias, add_param, lib,
  make_default_config_value,
}
use lake_go.Dsn.Parse.{
  DsnUrl, UrlLib, auto_encode, parse_dsn, of_url, set_host, is_http, is_https, is_plain_scheme,
}
use lake_go.Dsn.Parse.Plaintext.{IsSecure, parse_dsn-IsSecure}
use lake_go.Dsn.Lost.{add_params-lost}

-- A world in which times and numbers are the number 3, UTC is the only location, and every text is true.
abbrev pub std : DsnLib (Unit {0}) Bytes
std = record {
  utc = tt;
  is_utc = λ z. true;
  location_name = λ z. codes "UTC";
  load_location = λ s. (some tt, none);
  parse_duration = λ s. (ℤ.pos 0, some (codes "invalid duration"));
  duration_text = λ n. codes "3ns";
  parse_int = λ s. (ℤ.pos 3, none);
  parse_bool = λ s. (true, none);
}

-- Locations are their names, and the numbers are 3, but for the text 0.
abbrev three : Bytes → ℤ × Option Bytes
three s = (if bytes_eq s (codes "0") then ℤ.pos 0 else ℤ.pos 3, none)

abbrev places : DsnLib Bytes Bytes
places = record {
  utc = codes "UTC";
  is_utc = λ z. bytes_eq z (codes "UTC");
  location_name = λ z. z;
  load_location = λ s. (some s, none);
  parse_duration = λ s. (ℤ.pos 3, none);
  duration_text = λ n. codes "3ns";
  parse_int = three;
  parse_bool = λ s. (true, none);
}

add_params-lost_example :
    ((add_params std
        ((codes "debug", codes "1") ∷ (codes "timeout", codes "soon") ∷ [])
        (new_config std)).1
      ≡ some (lib (codes "invalid duration")))
    × (add_params std
          ((codes "timeout", codes "soon") ∷ (codes "debug", codes "1") ∷ [])
          (new_config std)
        ≡ (
          record (make_default_config_value (new_config std)) { timeout = ℤ.pos 0; debug = true },
          none,
        ))
add_params-lost_example =
    add_params-lost std (new_config std) (codes "soon") (codes "1") (ℤ.pos 0)
      (codes "invalid duration") true refl refl

abbrev pub lake_url : Bytes → Option DsnUrl
lake_url s = some (record {
  scheme = codes "https";
  host = codes "lake";
  path = codes "/db";
  user = some (codes "u", some (codes "p"));
  query = (codes "tenant", codes "t" ∷ []) ∷ [];
})

abbrev pub url : UrlLib
url = record {
  parse = lake_url;
  path_unescape = λ s. some s;
  user_text = λ s. s;
  user_password_text = λ s t. s ++ codes ":" ++ t;
  has_port = λ s. false;
  join_host_port = λ s t. s ++ codes ":" ++ t;
}

abbrev pub parsed_config : Config (Unit {0})
parsed_config = record (make_default_config_value (new_config std)) {
  user = codes "u";
  password = codes "p";
  database = codes "db";
  tenant = codes "t";
  host = codes "lake:443";
}

abbrev pub lake_dsn : Bytes
lake_dsn = codes "https://u:p@lake/db?tenant=t"

pub parse_dsn_run : parse_dsn std url (lake_dsn) ≡ ok parsed_config
unfolding parse_dsn of_url set_host is_http is_https is_plain_scheme add_params with_alias add_loop
    add_param make_default_config_value
parse_dsn_run = refl

parse_dsn-IsSecure_example :
    (u : DsnUrl) × (url.parse (auto_encode url (lake_dsn)) ≡ some u)
    × IsSecure std url u parsed_config
parse_dsn-IsSecure_example = parse_dsn-IsSecure std url (lake_dsn) parsed_config parse_dsn_run

-- ===== src/Client/Token.antt =====
-- access_token.go: the loaders of an access token, and `initAccessTokenLoader` of client.go, which chooses
-- one.
use lake_go.Prelude.{Bool, true, false, not, Option, none, some, Bytes, if◌then◌else◌}
use lake_go.Prelude.Result.{Result, ok, err}
use lake_go.Client.Errors.{Failure}
use lake_go.Dsn.{Config, is_empty}

-- A loader of the program's own, a file, or a token.
pub data TokenLoader : Type 0 where
  own_loader : TokenLoader
  file_loader : Bytes → TokenLoader
  static_loader : Bytes → TokenLoader

-- What loading calls: the program's loader, os.ReadFile, and toml.Decode, which gives the field
-- `access_token` of the text, empty where it has none, unless the text is no TOML.
pub record TokenLib (W : Type 0) : Type 0 where
  pub load_own : Bool → W → Result Failure Bytes × W
  pub read_file : Bytes → W → Result Failure Bytes × W
  pub toml_token : Bytes → Option Bytes

-- initAccessTokenLoader; `own` is whether the configuration has a loader.
unfoldable pub init_access_token_loader : {Z : Type 0} → Bool → Config Z → Option TokenLoader
init_access_token_loader own cfg =
    if own
    then some own_loader
    else if not (is_empty cfg.access_token_file)
    then some (file_loader cfg.access_token_file)
    else if not (is_empty cfg.access_token)
    then some (static_loader cfg.access_token)
    else none

abbrev pub is_loader : Option TokenLoader → Bool
is_loader none = false
is_loader (some l) = true

module _ {W : Type 0} (lib : TokenLib W) where
  or_content : Bytes → Option Bytes → Bytes
  or_content content none = content
  or_content content (some token) = token

  from_file : Result Failure Bytes × W → Result Failure Bytes × W
  from_file (err e, w) = (err e, w)
  from_file (ok content, w) = (ok (or_content content (lib.toml_token content)), w)

  -- LoadAccessToken
  unfoldable pub load_access_token : TokenLoader → Bool → W → Result Failure Bytes × W
  unfolding from_file or_content
  load_access_token own_loader force w = lib.load_own force w
  load_access_token (file_loader path) force w = from_file (lib.read_file path w)
  load_access_token (static_loader token) force w = (ok token, w)

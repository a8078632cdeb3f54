-- ===== src/Dsn/Lost.antt =====
-- An error of AddParams that a later parameter takes back.
use lake_go.Prelude.{◌≡◌, Bool, none, some, [], ◌∷◌, Bytes, codes}
use lake_go.Prelude.Decimal.{ℤ}
use lake_go.Dsn.{
  Config, DsnLib, lib, add_params, add_param, add_loop, with_alias, make_default_config_value,
}

module _ {Z E : Type 0} (std : DsnLib Z E) where
  add_loop-last :
      (cfg : Config Z) (t d : Bytes) (n : ℤ) (e : E) (b : Bool)
      → std.parse_duration t ≡ (n, some e)
      → std.parse_bool d ≡ (b, none)
      → (add_loop std ((codes "debug", d) ∷ (codes "timeout", t) ∷ []) cfg none).1 ≡ some (lib e)
  unfolding add_param add_loop
  add_loop-last cfg t d n e b h k = rw h

  add_loop-first :
      (cfg : Config Z) (t d : Bytes) (n : ℤ) (e : E) (b : Bool)
      → std.parse_duration t ≡ (n, some e)
      → std.parse_bool d ≡ (b, none)
      → add_loop std ((codes "timeout", t) ∷ (codes "debug", d) ∷ []) cfg none
        ≡ (record cfg { timeout = n; debug = b }, none)
  unfolding add_param add_loop
  add_loop-first cfg t d n e b h k = rw (h, k)

  -- A timeout that cannot be parsed is an error where its parameter comes last, and none where one that
  -- can be parsed comes behind it: the timeout is then what the parser returned beside its error. Go gives
  -- the parameters in any order.
  pub add_params-lost :
      (cfg : Config Z) (t d : Bytes) (n : ℤ) (e : E) (b : Bool)
      → std.parse_duration t ≡ (n, some e)
      → std.parse_bool d ≡ (b, none)
      → ((add_params std ((codes "debug", d) ∷ (codes "timeout", t) ∷ []) cfg).1 ≡ some (lib e))
        × (add_params std ((codes "timeout", t) ∷ (codes "debug", d) ∷ []) cfg
            ≡ (record (make_default_config_value cfg) { timeout = n; debug = b }, none))
  unfolding add_params with_alias
  add_params-lost cfg t d n e b h k =
      let cfg' = make_default_config_value cfg in
      (add_loop-last cfg' t d n e b h k, add_loop-first cfg' t d n e b h k)

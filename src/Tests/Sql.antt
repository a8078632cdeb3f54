-- ===== src/Tests/Sql.antt =====
-- Tests of the statement builder.
use lake_go.Prelude.{
  ◌++◌, ℕ, ◌≡◌, refl, false, none, some, List, [], ◌∷◌, arith, length, Bytes, codes,
}
use lake_go.Prelude.Decimal.{ℤ, negsuc, decimal}
use lake_go.Prelude.Result.{ok, err}
use lake_go.Sql.Escape.{escape, escape_byte, quote}
use lake_go.Sql.Scanner.{placeholders, scan, turn, skip_quoted, skip_line}
use lake_go.Sql.Scanner.Closed.{Closed}
use lake_go.Sql.Scanner.Fuel.{scan_from}
use lake_go.Sql.Encoder.{
  GoValue, null, int, string, slice, nil, cons, array, tuple, byte_slice, not_struct, Formats,
  encode,
}
use lake_go.Sql.Encoder.Closed.{IsFormats, plain, has_raw}
use lake_go.Sql.Encoder.Parameter.{encode-Closed}
use lake_go.Sql.Encoder.Minus.{minus-encode}
use lake_go.Sql.Splice.{
  is_empty_slice, build_query, interpolate_params2, fill, copy, are_valid, encode_params, assemble,
}
use lake_go.Sql.Valuer.{ValuerLib, decimal_value, value_of, wraps_raw, value_of-Closed}
use lake_go.Sql.Splice.Buffer.{Substitutes}
use lake_go.Sql.Splice.Total.{Encodes, build_query_total, build_query_sound}

-- Instants are numbers here.
abbrev formats : Formats ℕ
formats = record { format_float = λ w b. codes "1.5"; format_time = λ t. codes "2024-01-02" }

formats-IsFormats : IsFormats formats
formats-IsFormats = record {
  float_numeral = λ w b. plain (ground arith);
  time_unescaped = λ t. ground arith;
}

abbrev query : Bytes
query = codes "SELECT '?', ? -- ?\nFROM t WHERE a = ?"

abbrev params : List (GoValue ℕ)
params = string (codes "it's") ∷ int (negsuc 6) ∷ []

abbrev texts : List Bytes
texts = codes "'it\\'s'" ∷ codes "-7" ∷ []

placeholders_run : placeholders query ≡ 12 ∷ 36 ∷ []
unfolding placeholders scan turn skip_quoted skip_line
placeholders_run = refl

build_run :
    build_query formats query params none
    ≡ ok (codes "SELECT '?', 'it\\'s' -- ?\nFROM t WHERE a = -7")
unfolding build_query interpolate_params2 encode_params encode escape quote decimal are_valid fill
    copy assemble placeholders scan turn skip_quoted skip_line
build_run = refl

params-Encodes : Encodes formats params texts
unfolding encode escape quote decimal
params-Encodes = (refl, (refl, tt))

two_placeholders : length (placeholders query) ≡ length params
two_placeholders = rw placeholders_run

abbrev its : GoValue ℕ
its = string (codes "it's")

string_filled : is_empty_slice its ≡ false
unfolding is_empty_slice
string_filled = refl

build_query_total_example :
    (r : Bytes) × (build_query formats query params none ≡ ok r)
    × (build_query formats query params (some (placeholders query)) ≡ ok r)
    × Substitutes 0 query (placeholders query) texts r
build_query_total_example =
    build_query_total formats query (string (codes "it's")) (int (negsuc 6) ∷ []) string_filled
      texts two_placeholders params-Encodes

abbrev built : Bytes
built = codes "SELECT '?', 'it\\'s' -- ?\nFROM t WHERE a = -7"

build_prepared : build_query formats query params (some (12 ∷ 36 ∷ [])) ≡ ok built
unfolding build_query interpolate_params2 encode_params encode escape quote decimal are_valid fill
    copy assemble
build_prepared = refl

build_query_sound_example :
    (es : List Bytes) × Encodes formats params es × Substitutes 0 query (12 ∷ 36 ∷ []) es built
build_query_sound_example =
    build_query_sound formats query (string (codes "it's")) (int (negsuc 6) ∷ []) string_filled
      (12 ∷ 36 ∷ []) built build_prepared

encode_tuple_error : encode formats (tuple (string (codes "a"))) ≡ err not_struct
unfolding encode
encode_tuple_error = refl

abbrev nested : GoValue ℕ
nested = array (slice (cons (string (codes "a'?")) (cons null nil)))

nested-text : encode formats nested ≡ ok (codes "['a\\'?',NULL]")
unfolding encode escape quote
nested-text = refl

nested_clean : has_raw nested ≡ false
unfolding has_raw
nested_clean = refl

encode-Closed_example : Closed (codes "['a\\'?',NULL]")
encode-Closed_example =
    encode-Closed formats formats-IsFormats nested (codes "['a\\'?',NULL]") nested_clean nested-text

negative-text : encode formats (int (negsuc 4)) ≡ ok (codes "-5")
unfolding encode decimal
negative-text = refl

minus-encode_example : scan_from 7 (b'-' ∷ (codes "-5" ++ codes " FROM t WHERE a = ?")) ≡ []
minus-encode_example =
    minus-encode formats 7 4 (codes "-5") (codes " FROM t WHERE a = ?") negative-text (ground arith)

abbrev valuers : ValuerLib ℕ
valuers = record { format_date = λ t. codes "2024-01-02"; microseconds = λ d. d }

-- `toDecimal64('1\',\'x', -2)`, of a text that tries to end the literal.
abbrev bound_decimal : Bytes
bound_decimal = codes "toDecimal64('1\\',\\'x', -2)"

decimal_value_run :
    value_of formats valuers (decimal_value 64 (ℤ.negsuc 1) (codes "1','x"))
    ≡ ok (byte_slice bound_decimal)
unfolding value_of escape escape_byte quote decimal
decimal_value_run = refl

bound_run : encode formats (byte_slice bound_decimal) ≡ ok bound_decimal
unfolding encode
bound_run = refl

no_raw : wraps_raw {T = ℕ} (decimal_value 64 (ℤ.negsuc 1) (codes "1','x")) ≡ false
unfolding wraps_raw
no_raw = refl

value_of-Closed_example : Closed bound_decimal
value_of-Closed_example =
    value_of-Closed formats valuers formats-IsFormats (λ t. ground arith)
      (decimal_value 64 (ℤ.negsuc 1) (codes "1','x")) (byte_slice bound_decimal) bound_decimal
      no_raw decimal_value_run bound_run

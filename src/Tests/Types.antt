-- ===== src/Tests/Types.antt =====
-- Tests of the column types.
use lake_go.Types.TypeDesc.{
  append_desc, type_end, type_step, type_loop, normalize, parse_fuel, desc, nil, cons,
  parse_type_desc,
}
use lake_go.Types.ColumnType.{
  simple_scan_type, column_of_desc, null, ColumnType, timestamp, simple, int32, ColumnTypeOptions,
  Parsers, new_column_type, parse_value, database_type_name,
}
use lake_go.Prelude.{◌≡◌, refl, true, false, Bytes, codes}
use lake_go.Prelude.Decimal.{pos}
use lake_go.Prelude.Result.{ok}
use lake_go.Types.Binary.{hex, driver}
use lake_go.Types.ColumnType.Names.{is_named, new_column_type-name}

-- Zones and instants are texts here, and every text is a number.
abbrev pub parsers : Parsers Bytes Bytes Bytes
parsers = record {
  utc = codes "UTC";
  parse_in_location = λ layout s z. ok s;
  parse_int = λ s. ok (pos 1);
  decoders = record { decode_hex = λ s. ok s; decode_base64 = λ s. ok s };
}

abbrev pub options : ColumnTypeOptions Bytes
options = record {
  format_null_as_str = true;
  timezone = codes "UTC";
  binary_output_format = hex;
  http_json_result_mode = driver;
}

type_run :
    parse_type_desc (codes "Nullable(Array(Int8 NULL))")
    ≡ ok (
        desc
          (codes "Nullable")
          false
          (cons (desc (codes "Array") false (cons (desc (codes "Int8") true nil) nil)) nil))
unfolding parse_type_desc parse_fuel type_loop type_step type_end append_desc
type_run = refl

abbrev int_column : ColumnType Bytes
int_column = simple (codes "Int32 NULL") int32 true true

column_run :
    new_column_type parsers (codes "Nullable(Int32)") options
    ≡ ok (simple (codes "Int32 NULL") int32 true true)
unfolding new_column_type normalize column_of_desc simple_scan_type parse_type_desc parse_fuel
    type_loop type_step type_end append_desc
column_run = refl

column_named : is_named parsers options int_column ≡ true
column_named = refl

new_column_type-name_example :
    new_column_type parsers (database_type_name int_column) options
    ≡ ok (simple (codes "Int32 NULL") int32 true true)
new_column_type-name_example =
    new_column_type-name parsers options (codes "Nullable(Int32)") column_run column_named

null_run : parse_value parsers (timestamp (codes "UTC") true) (codes "NULL") ≡ ok null
unfolding parse_value
null_run = refl

bare_run : parse_type_desc (codes "Nullable") ≡ ok (desc (codes "Nullable") false nil)
unfolding parse_type_desc parse_fuel type_loop type_step type_end append_desc
bare_run = refl

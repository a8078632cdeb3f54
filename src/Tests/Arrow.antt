-- ===== src/Tests/Arrow.antt =====
-- Tests of results in the Arrow format.
use lake_go.Prelude.{◌≡◌, refl, true, false, none, some, List, [], ◌∷◌, Bytes, codes, arith}
use lake_go.Prelude.Decimal.{decimal, ℤ, pos, negsuc}
use lake_go.Prelude.Result.{Result, ok, err, OnOk}
use lake_go.Types.TypeDesc.{
  desc, Descs, parse_type_desc, parse_fuel, type_loop, type_step, type_end, normalize,
}
use lake_go.Types.ColumnType.{Value, new_column_type}
use lake_go.Types.ColumnType.Kinds.{HasKind, kind_of_name, OfKind}
use lake_go.Client.Request.{HttpResponse, get_header}
use lake_go.Query.Response.{DataField, QueryResponse}
use lake_go.Query.Calls.{no_response, is_arrow_response, decode_query_response}
use lake_go.Arrow.Schema.{
  ArrowField, ArrowFields, field, nil, cons, int32, string, list, decimal128, data_fields,
  data_type_string,
}
use lake_go.Arrow.Schema.RoundTrip.{ReadBack, data_fields-ReadBack}
use lake_go.Arrow.Timestamps.{TimeLib, decimal_to_time}
use lake_go.Arrow.Timestamps.Packed.{pack, IsClamped, decimal_to_time-pack}
use lake_go.Arrow.Values.{ArrowLib, ArrowError, Column, Marshaled, materialize_driver_value}
use lake_go.Arrow.Records.{Stream, cell, decode_arrow, arrow_reader_to_rows, arrow_record_to_rows}
use lake_go.Arrow.Records.Wide.{IsArrowPage}
use lake_go.Arrow.Records.Kinds.{column_kinds}
use lake_go.Arrow.Host.{with_arrow, decode_query_response-IsArrowPage}
use lake_go.Tests.Types.{parsers, options}
use lake_go.Tests.Calls.{host}

abbrev id_field : ArrowField
id_field = field (codes "id") int32 false none

abbrev tags_field : ArrowField
tags_field = field (codes "tags") (list (field (codes "item") string true none)) false none

abbrev price_field : ArrowField
price_field = field (codes "price") (decimal128 (pos 10) (pos 2)) true none

abbrev schema : ArrowFields
schema = cons id_field (cons tags_field (cons price_field nil))

abbrev fields : List DataField
fields =
    record { name = codes "id"; kind = codes "Int32" }
    ∷ record { name = codes "tags"; kind = codes "Array(Nullable(String))" }
    ∷ record { name = codes "price"; kind = codes "Nullable(Decimal(10, 2))" }
    ∷ []

fields_run : data_fields schema ≡ ok fields
unfolding data_fields data_type_string decimal
fields_run = refl

data_fields-ReadBack_example : ReadBack schema fields
data_fields-ReadBack_example = data_fields-ReadBack schema fields_run

-- Zones, instants and library errors are texts.
abbrev time_lib : TimeLib Bytes Bytes Bytes
time_lib = record {
  utc = codes "UTC";
  load_location = λ s. ok s;
  fixed_zone = λ z. codes "+";
  unix_micro = λ z. codes "t";
  in_zone = λ z t. t;
  zone_offset = λ t. pos 0;
  format = λ layout t. t;
  parse = λ layout s. ok s;
  parse_in_location = λ layout s z. ok s;
  truncate_day = λ t. t;
}

-- An hour past the epoch, at an offset of minus two hours.
decimal_to_time-pack_example :
    (m : ℤ) × (decimal_to_time time_lib (pack (pos 3600000000) (negsuc 7199)) ≡ codes "t")
    × IsClamped (pos 3600000000) m
decimal_to_time-pack_example =
    decimal_to_time-pack time_lib (pos 3600000000) (negsuc 7199) (omega arith) (omega arith)

abbrev lib : ArrowLib Bytes Bytes Bytes Bytes
lib = record {
  time_lib = time_lib;
  format_float = λ width bits. [];
  encode_hex = λ s. s;
  marshal = λ v. ok v;
  marshal_time = λ t. ok t;
  marshal_decimal = λ d. err (codes "unsupported");
}

abbrev id_column : Column Bytes Bytes
id_column = record {
  is_null = λ i. false;
  as_decimal128 = none;
  as_marshaled = some (λ i. Marshaled.int (pos i));
}

int32_parsed : parse_type_desc (codes "Int32") ≡ ok (desc (codes "Int32") false Descs.nil)
unfolding parse_type_desc parse_fuel type_loop type_step type_end
int32_parsed = refl

int32_normal :
    normalize (desc (codes "Int32") false Descs.nil) ≡ some (desc (codes "Int32") false Descs.nil)
unfolding normalize
int32_normal = refl

column_kinds_example :
    OnOk
      (HasKind (kind_of_name (codes "Int32")))
      (cell lib (codes "Int32") id_column 0 (codes "UTC"))
    × OnOk
        (OfKind parsers (kind_of_name (codes "Int32")))
        (new_column_type parsers (codes "Int32") options)
column_kinds_example =
    column_kinds lib parsers (codes "Int32") options false Descs.nil (codes "Int32") int32_parsed
      int32_normal id_column 0 (codes "UTC")

-- One record of two rows, under a schema of one field.
abbrev one_field : ArrowFields
one_field = cons id_field nil

abbrev stream : Stream Bytes Bytes Bytes
stream = record {
  schema = some one_field;
  response_header = some (codes "{}");
  records = record { schema = one_field; num_rows = 2; columns = id_column ∷ [] } ∷ [];
  failed = none;
}

abbrev raw : HttpResponse
raw = record {
  status = 200;
  headers = (codes "Content-Type", codes "application/vnd.apache.arrow.stream") ∷ [];
  body = codes "1";
}

abbrev open_stream : Bytes → Result Bytes (Stream Bytes Bytes Bytes)
open_stream body = ok stream

abbrev describe : ArrowError Bytes → Bytes
describe e = codes "arrow"

abbrev page : QueryResponse Bytes
page = record (host.unmarshal (codes "{}") no_response).0 {
  schema = some (record { name = codes "id"; kind = codes "Int32" } ∷ []);
  typed_rows = some ((Value.text (codes "0") ∷ []) ∷ (Value.text (codes "1") ∷ []) ∷ []);
}

raw_is_arrow : is_arrow_response raw.headers ≡ true
unfolding is_arrow_response get_header
raw_is_arrow = refl

page_run : decode_query_response (with_arrow lib open_stream describe host) raw ≡ ok page
unfolding decode_query_response decode_arrow arrow_reader_to_rows arrow_record_to_rows data_fields
    data_type_string materialize_driver_value parse_type_desc parse_fuel type_loop type_step
    type_end normalize get_header decimal
page_run = refl

decode_query_response-IsArrowPage_example : IsArrowPage lib 1 2 page
decode_query_response-IsArrowPage_example =
    decode_query_response-IsArrowPage lib open_stream describe host raw stream one_field
      raw_is_arrow refl refl (refl, tt) page_run

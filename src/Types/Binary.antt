-- ===== src/Types/Binary.antt =====
-- binary.go: the formats of binary columns. Hexadecimal and base64 decoding are the standard
-- library's, and arguments here.
use lake_go.Prelude.{◌||◌, map, if◌then◌else◌, Bytes, codes, bytes_eq}
use lake_go.Prelude.Text.{trim_space, to_upper, to_lower}
use lake_go.Prelude.Result.{Result, ok}

pub data BinaryOutputFormat : Type 0 where
  hex base64 utf8 utf8_lossy : BinaryOutputFormat

pub data HttpJsonResultMode : Type 0 where
  driver display : HttpJsonResultMode

unfoldable pub parse_binary_output_format : Bytes → BinaryOutputFormat
unfolding trim_space to_upper
parse_binary_output_format s =
    let t = map to_upper (trim_space s) in
    if bytes_eq t (codes "BASE64")
    then base64
    else if bytes_eq t (codes "UTF-8") || bytes_eq t (codes "UTF8")
    then utf8
    else if bytes_eq t (codes "UTF-8-LOSSY") || bytes_eq t (codes "UTF8-LOSSY")
    then utf8_lossy
    else hex

unfoldable pub parse_http_json_result_mode : Bytes → HttpJsonResultMode
unfolding trim_space to_lower
parse_http_json_result_mode s =
    if bytes_eq (map to_lower (trim_space s)) (codes "display") then display else driver

pub record Decoders (E : Type 0) : Type 0 where
  pub decode_hex : Bytes → Result E Bytes
  pub decode_base64 : Bytes → Result E Bytes

unfoldable pub materialize_binary :
    {E : Type 0} → Decoders E → Bytes → BinaryOutputFormat → HttpJsonResultMode → Result E Bytes
materialize_binary dec value _ driver = dec.decode_hex value
materialize_binary dec value base64 display = dec.decode_base64 value
materialize_binary dec value utf8 display = ok value
materialize_binary dec value utf8_lossy display = ok value
materialize_binary dec value hex display = dec.decode_hex value

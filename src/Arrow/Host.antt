-- ===== src/Arrow/Host.antt =====
-- arrow.go: `decodeQueryResponse` as a whole: the Arrow decoder in the place that the calls of a query
-- leave for it.
use lake_go.Prelude.{◌≡◌, true, some, Bytes}
use lake_go.Prelude.Result.{Result, ok}
use lake_go.Client.Request.{HttpResponse}
use lake_go.Query.Response.{QueryResponse}
use lake_go.Query.Calls.{Host, no_response, is_arrow_response, decode_query_response}
use lake_go.Arrow.Schema.{ArrowFields}
use lake_go.Arrow.Values.{ArrowError, ArrowLib}
use lake_go.Arrow.Records.{Stream, fields_count, decode_arrow}
use lake_go.Arrow.Records.Wide.{OfWidth, total_rows, IsArrowPage, decode_arrow-IsArrowPage}

module _ {W Z T E M : Type 0} (lib : ArrowLib Z T E M)
    (open_stream : Bytes → Result E (Stream T M E)) (describe : ArrowError E → Bytes)
    (host : Host W Z T E) where
  -- The host whose Arrow decoder is the one of arrow.go.
  abbrev pub with_arrow : Host W Z T E
  with_arrow = record host {
    decode_arrow = decode_arrow lib open_stream describe host.unmarshal no_response;
  }

  -- A response of the Arrow media type that is decoded, from a stream whose records have a column for
  -- each field of its schema, has a schema with as many fields, whatever its header says, and rows: as
  -- many as the records have, each with a value for each field.
  pub decode_query_response-IsArrowPage :
      (raw : HttpResponse) {r : QueryResponse T} (s : Stream T M E) (fs : ArrowFields)
      → is_arrow_response raw.headers ≡ true
      → open_stream raw.body ≡ ok s
      → s.schema ≡ some fs
      → OfWidth lib (fields_count fs) s.records
      → decode_query_response with_arrow raw ≡ ok r
      → IsArrowPage lib (fields_count fs) (total_rows s.records) r
  unfolding decode_query_response
  decode_query_response-IsArrowPage raw s fs arrow opens e h d =
      decode_arrow-IsArrowPage lib open_stream describe host.unmarshal no_response raw.body s fs
        opens e h (rw arrow at d)

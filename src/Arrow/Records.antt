-- ===== src/Arrow/Records.antt =====
-- arrow.go: the rows of Arrow records, and `decodeQueryResponse` on an Arrow stream. The reader of the
-- Arrow library is what it reads: a schema, the records, and the error that ends them.
pub mod Wide
pub mod Kinds
use mathlib.Core.Option
use lake_go.Prelude.{
  ℕ, zero, suc, Bool, true, false, not, ◌==◌, Option, none, some, List, [], ◌∷◌, ◌++◌, length,
  Bytes, codes, bytes_eq, map, if◌then◌else◌,
}
use lake_go.Prelude.Result.{Result, ok, err, ◌>>=◌, map_err}
use lake_go.Client.Errors.{Failure, other, wrap, panic}
use lake_go.Types.TypeDesc.{TypeDesc, desc, parse_type_desc, normalize}
use lake_go.Types.ColumnType.{Value, null}
use lake_go.Query.Response.{DataField, Settings, QueryResponse, is_nil}
use lake_go.Arrow.Schema.{ArrowFields, data_fields}
use lake_go.Arrow.Timestamps.{TimeLib}
use lake_go.Arrow.Values.{
  Column, ArrowError, library, bad_schema, bad_type, mismatch, ArrowLib, materialize_driver_value,
}

-- arrow.Record
pub record ArrowRecord (T M : Type 0) : Type 0 where
  pub schema : ArrowFields
  pub num_rows : ℕ
  pub columns : List (Column T M)

-- ipc.Reader
pub record Stream (T M E : Type 0) : Type 0 where
  pub schema : Option ArrowFields
  -- the metadata under "response_header"
  pub response_header : Option Bytes
  pub records : List (ArrowRecord T M)
  pub failed : Option E

abbrev pub fields_count : ArrowFields → ℕ
fields_count ArrowFields.nil = 0
fields_count (ArrowFields.cons f fs) = suc (fields_count fs)

module _ {Z T E M : Type 0} (lib : ArrowLib Z T E M) where
  -- dataFieldsFromArrowSchema
  pub derived_fields : ArrowFields → Result (ArrowError E) (List DataField)
  derived_fields fs = map_err bad_schema (data_fields fs)

  -- The fields that the record is read by: those at hand, where their number is that of its columns.
  pub record_fields : ArrowRecord T M → List DataField → Result (ArrowError E) (List DataField)
  record_fields rec fields =
      if not (length fields == length rec.columns)
      then (derived_fields rec.schema >>= λ derived.
          if not (length derived == length rec.columns) then err mismatch else ok derived)
      else ok fields

  given_fields : ArrowRecord T M → Option (List DataField) → Result (ArrowError E) (List DataField)
  given_fields rec none = derived_fields rec.schema
  given_fields rec (some fields) = ok fields

  set_location : Bytes → Result (ArrowError E) Z
  set_location zone =
      if is_nil zone then ok lib.time_lib.utc else map_err library (lib.time_lib.load_location zone)

  pub rows_location : Option Settings → Result (ArrowError E) Z
  rows_location none = ok lib.time_lib.utc
  rows_location (some s) = set_location s.timezone

  abbrev name_of : TypeDesc → Bytes
  name_of (desc name nullable args) = name

  -- ParseTypeDesc and Normalize of a field's type
  normal_name : Option TypeDesc → Result (ArrowError E) Bytes
  normal_name none = err ArrowError.panic
  normal_name (some d) = ok (name_of d)

  -- The names of the types, which are all that is read of them.
  pub type_names : List DataField → Result (ArrowError E) (List Bytes)
  type_names [] = ok []
  type_names (f ∷ fields) = do
    d ← map_err bad_type (parse_type_desc f.kind)
    name ← normal_name (normalize d)
    names ← type_names fields
    ok (name ∷ names)

  pub cell : Bytes → Column T M → ℕ → Z → Result (ArrowError E) (Value T)
  cell name c i location =
      if bytes_eq name (codes "Null")
      then ok null
      else if c.is_null i
      then ok null
      else materialize_driver_value lib name c i location

  -- One row: the loop over the columns.
  pub record_row : List Bytes → List (Column T M) → ℕ → Z → Result (ArrowError E) (List (Value T))
  record_row names [] i location = ok []
  record_row [] (c ∷ columns) i location = err ArrowError.panic
  record_row (name ∷ names) (c ∷ columns) i location = do
    v ← cell name c i location
    row ← record_row names columns i location
    ok (v ∷ row)

  -- The loop over the rows, from the row `i` with `n` left.
  pub record_rows :
      List Bytes → List (Column T M) → ℕ → ℕ → Z → Result (ArrowError E) (List (List (Value T)))
  record_rows names columns i zero location = ok []
  record_rows names columns i (suc n) location = do
    row ← record_row names columns i location
    rows ← record_rows names columns (suc i) n location
    ok (row ∷ rows)

  -- arrowRecordToRows
  unfoldable pub arrow_record_to_rows :
      ArrowRecord T M
      → Option (List DataField)
      → Option Settings
      → Result (ArrowError E) (List (List (Value T)))
  unfolding given_fields record_fields derived_fields rows_location set_location type_names
      normal_name record_rows record_row cell
  arrow_record_to_rows rec given settings = do
    fields ← given_fields rec given
    fields ← record_fields rec fields
    location ← rows_location settings
    names ← type_names fields
    record_rows names rec.columns 0 rec.num_rows location

  stream_end : Option E → Result (ArrowError E) (List (List (Value T)))
  stream_end none = ok []
  stream_end (some e) = err (library e)

  -- arrowReaderToRows
  unfoldable pub arrow_reader_to_rows :
      List (ArrowRecord T M)
      → Option E
      → Option (List DataField)
      → Option Settings
      → Result (ArrowError E) (List (List (Value T)))
  unfolding stream_end
  arrow_reader_to_rows [] failed fields settings = stream_end failed
  arrow_reader_to_rows (rec ∷ records) failed fields settings = do
    rows ← arrow_record_to_rows rec fields settings
    more ← arrow_reader_to_rows records failed fields settings
    ok (rows ++ more)

  put_schema : ArrowFields → QueryResponse T → Result (ArrowError E) (QueryResponse T)
  put_schema fs r = derived_fields fs >>= λ fields. ok (record r { schema = some fields })

  choose_schema :
      ArrowFields
      → QueryResponse T
      → Option (List DataField)
      → Result (ArrowError E) (QueryResponse T)
  choose_schema fs r none = put_schema fs r
  choose_schema fs r (some given) =
      if not (length given == fields_count fs) then put_schema fs r else ok r

  -- The schema of the response, where it has one with as many fields as the stream.
  pub with_schema : ArrowFields → QueryResponse T → Result (ArrowError E) (QueryResponse T)
  with_schema fs r = choose_schema fs r r.schema

  pub with_rows : Stream T M E → QueryResponse T → Result (ArrowError E) (QueryResponse T)
  with_rows s r = arrow_reader_to_rows s.records s.failed r.schema r.settings >>= λ rows.
      ok (record r { typed_rows = some rows })

  module _ (open_stream : Bytes → Result E (Stream T M E)) (describe : ArrowError E → Bytes)
      (unmarshal : Bytes → QueryResponse T → QueryResponse T × Option Failure)
      (empty : QueryResponse T) where
    pub arrow_failure : ArrowError E → Failure
    arrow_failure ArrowError.panic = panic
    arrow_failure e = other (describe e)

    decode_header :
        Stream T M E
        → ArrowFields
        → QueryResponse T × Option Failure
        → Result Failure (QueryResponse T)
    decode_header s fs (r, some e) = err (wrap (codes "failed to decode response_header") e)
    decode_header s fs (r, none) = map_err arrow_failure (with_schema fs r >>= λ r'. with_rows s r')

    decode_stream :
        Stream T M E → Option ArrowFields → Option Bytes → Result Failure (QueryResponse T)
    decode_stream s none header = err (other (codes "missing arrow schema in response"))
    decode_stream s (some fs) none =
        err (other (codes "missing response_header metadata in arrow payload"))
    decode_stream s (some fs) (some header) = decode_header s fs (unmarshal header empty)

    opened : Result E (Stream T M E) → Result Failure (QueryResponse T)
    opened (err e) = err (wrap (codes "failed to decode arrow stream") (arrow_failure (library e)))
    opened (ok s) = decode_stream s s.schema s.response_header

    -- decodeQueryResponse, on the body of an Arrow response; `empty` is the zero response.
    unfoldable pub decode_arrow : Bytes → Result Failure (QueryResponse T)
    unfolding opened decode_stream decode_header with_schema choose_schema put_schema with_rows
    decode_arrow body = opened (open_stream body)

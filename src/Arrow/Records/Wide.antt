-- ===== src/Arrow/Records/Wide.antt =====
-- The rows that are read from an Arrow stream are as many as its records have, each as wide as the
-- schema of the response.
use lake_go.Prelude.{
  ℕ, zero, suc, ◌+◌, ◌≡◌, ◌∙◌, refl, ap, ◌==◌, Option, none, some, List, [], ◌∷◌, ◌++◌, length,
  length-append, All, All-append, Bytes, inl, inr, Bool-cases, ==_iff,
}
use mathlib.Core.Path.{ap₂}
use lake_go.Prelude.Result.{
  Result, ok, OnOk, returns, fails, OnOk-bind, OnOk-after, OnOk-map_err, OnOk-ok,
}
use lake_go.Client.Errors.{Failure}
use lake_go.Types.ColumnType.{Value}
use lake_go.Query.Response.{DataField, Settings, QueryResponse}
use lake_go.Arrow.Schema.{ArrowFields, data_fields}
use lake_go.Arrow.Values.{Column, ArrowError, ArrowLib}
use lake_go.Arrow.Records.{
  ArrowRecord, Stream, fields_count, derived_fields, given_fields, record_fields, rows_location,
  type_names, record_row, record_rows, arrow_record_to_rows, arrow_reader_to_rows, put_schema,
  choose_schema, with_schema, with_rows, decode_header, decode_stream, opened, decode_arrow,
}

abbrev pub total_rows : {T M : Type 0} → List (ArrowRecord T M) → ℕ
total_rows [] = 0
total_rows (rec ∷ records) = rec.num_rows + total_rows records

-- So many rows, each of the width.
pub record IsTable {T : Type 0} (width count : ℕ) (rows : List (List (Value T))) : Type 0 where
  pub wide : All (λ row. length row ≡ width) rows
  pub counted : length rows ≡ count

module _ {Z T E M : Type 0} (lib : ArrowLib Z T E M) where
  record_row-length :
      (names : List Bytes) (columns : List (Column T M)) (i : ℕ) (location : Z)
      → OnOk (λ row. length row ≡ length columns) (record_row lib names columns i location)
  unfolding record_row
  record_row-length names [] i location = returns refl
  record_row-length [] (c ∷ columns) i location = fails
  record_row-length (name ∷ names) (c ∷ columns) i location =
      OnOk-after _ _ (λ v.
        OnOk-bind _ (record_row-length names columns i location) (λ row h. returns (ap suc h)))

  record_rows-IsTable :
      (names : List Bytes) (columns : List (Column T M)) (i n : ℕ) (location : Z)
      → OnOk (IsTable (length columns) n) (record_rows lib names columns i n location)
  unfolding record_rows
  record_rows-IsTable names columns i zero location = returns (record { wide = tt; counted = refl })
  record_rows-IsTable names columns i (suc n) location =
      OnOk-bind _ (record_row-length names columns i location) (λ row h.
        OnOk-bind _ (record_rows-IsTable names columns (suc i) n location)
          (λ rows t. returns (record { wide = (h, t.wide); counted = ap suc t.counted })))

  arrow_record_to_rows-IsTable :
      (rec : ArrowRecord T M) (given : Option (List DataField)) (settings : Option Settings)
      → OnOk
          (IsTable (length rec.columns) rec.num_rows)
          (arrow_record_to_rows lib rec given settings)
  unfolding arrow_record_to_rows
  arrow_record_to_rows-IsTable rec given settings =
      OnOk-after (given_fields lib rec given) _ (λ fields.
        OnOk-after (record_fields lib rec fields) _ (λ fields'.
          OnOk-after (rows_location lib settings) _ (λ location.
            OnOk-after (type_names lib fields') _
              (λ names. record_rows-IsTable names rec.columns 0 rec.num_rows location))))

  -- The records have as many columns as the schema has fields.
  abbrev pub OfWidth : ℕ → List (ArrowRecord T M) → Type 0
  OfWidth width records = All (λ rec. length rec.columns ≡ width) records

  IsTable-append :
      (w m n : ℕ) {xs ys : List (List (Value T))}
      → IsTable w m xs
      → IsTable w n ys
      → IsTable w (m + n) (xs ++ ys)
  IsTable-append w m n {xs} {ys} h k = record {
    wide = All-append _ xs ys h.wide k.wide;
    counted = length-append xs ys ∙ ap₂ ◌+◌ h.counted k.counted;
  }

  arrow_reader_to_rows-IsTable :
      (width : ℕ) (records : List (ArrowRecord T M)) (failed : Option E)
      (given : Option (List DataField)) (settings : Option Settings)
      → OfWidth width records
      → OnOk
          (IsTable width (total_rows records))
          (arrow_reader_to_rows lib records failed given settings)
  unfolding arrow_reader_to_rows
  arrow_reader_to_rows-IsTable width [] none given settings h =
      returns (record { wide = tt; counted = refl })
  arrow_reader_to_rows-IsTable width [] (some e) given settings h = fails
  arrow_reader_to_rows-IsTable width (rec ∷ records) failed given settings (h, hs) =
      OnOk-bind _ (rw h at (arrow_record_to_rows-IsTable rec given settings)) (λ rows t.
        OnOk-bind _ (arrow_reader_to_rows-IsTable width records failed given settings hs)
          (λ more u. returns (IsTable-append width rec.num_rows (total_rows records) t u)))

  data_fields-length :
      (fs : ArrowFields) → OnOk (λ ds. length ds ≡ fields_count fs) (data_fields fs)
  unfolding data_fields
  data_fields-length ArrowFields.nil = returns refl
  data_fields-length (ArrowFields.cons f fs) =
      OnOk-after _ _ (λ kind. OnOk-bind _ (data_fields-length fs) (λ ds h. returns (ap suc h)))

  -- The response has a schema with so many fields.
  pub record HasSchema (width : ℕ) (r : QueryResponse T) : Type 0 where
    pub fields : List DataField
    pub named : r.schema ≡ some fields
    pub fitting : length fields ≡ width

  put_schema-HasSchema :
      (fs : ArrowFields) (r : QueryResponse T)
      → OnOk (HasSchema (fields_count fs)) (put_schema lib fs r)
  unfolding put_schema derived_fields
  put_schema-HasSchema fs r =
      OnOk-bind _ (OnOk-map_err _ (data_fields-length fs))
        (λ ds h. returns (record { fields = ds; named = refl; fitting = h }))

  with_schema-HasSchema :
      (fs : ArrowFields) (r : QueryResponse T)
      → OnOk (HasSchema (fields_count fs)) (with_schema lib fs r)
  unfolding with_schema choose_schema
  with_schema-HasSchema fs r = split r.schema refl
    where
      split :
          (o : Option (List DataField))
          → r.schema ≡ o
          → OnOk (HasSchema (fields_count fs)) (choose_schema lib fs r o)
      split none e = put_schema-HasSchema fs r
      split (some given) e = elim (Bool-cases (length given == fields_count fs)) [
        | inl b ↦
            let n : length given ≡ fields_count fs = (==_iff _ _).0 b in
            rw b (returns (record { fields = given; named = e; fitting = n }))
        | inr b ↦ rw b (put_schema-HasSchema fs r)
      ]

  -- A response that holds the rows of a stream.
  pub record IsArrowPage (width count : ℕ) (r : QueryResponse T) : Type 0 where
    pub has_schema : HasSchema width r
    pub rows : List (List (Value T))
    pub typed : r.typed_rows ≡ some rows
    pub table : IsTable width count rows

  with_rows-IsArrowPage :
      (width : ℕ) (s : Stream T M E) (r : QueryResponse T)
      → OfWidth width s.records
      → HasSchema width r
      → OnOk (IsArrowPage width (total_rows s.records)) (with_rows lib s r)
  unfolding with_rows
  with_rows-IsArrowPage width s r h k =
      OnOk-bind _ (arrow_reader_to_rows-IsTable width s.records s.failed r.schema r.settings h)
        (λ rows t. returns (record {
          has_schema = record { fields = k.fields; named = k.named; fitting = k.fitting };
          rows = rows;
          typed = refl;
          table = t;
        }))

  module _ (open_stream : Bytes → Result E (Stream T M E)) (describe : ArrowError E → Bytes)
      (unmarshal : Bytes → QueryResponse T → QueryResponse T × Option Failure)
      (empty : QueryResponse T) where
    decode_header-IsArrowPage :
        (s : Stream T M E) (fs : ArrowFields) (header : QueryResponse T × Option Failure)
        → OfWidth (fields_count fs) s.records
        → OnOk
            (IsArrowPage (fields_count fs) (total_rows s.records))
            (decode_header lib open_stream describe unmarshal empty s fs header)
    unfolding decode_header
    decode_header-IsArrowPage s fs (r, some e) h = fails
    decode_header-IsArrowPage s fs (r, none) h = OnOk-map_err _ (
        OnOk-bind _ (with_schema-HasSchema fs r)
          (λ r' k. with_rows-IsArrowPage (fields_count fs) s r' h k))

    -- An Arrow response that is decoded, from a stream whose records have a column for each field of
    -- its schema, has a schema with as many fields, whatever the header of the response says, and
    -- rows: as many as the records have, each with a value for each field.
    pub decode_arrow-IsArrowPage :
        (body : Bytes) {r : QueryResponse T} (s : Stream T M E) (fs : ArrowFields)
        → open_stream body ≡ ok s
        → s.schema ≡ some fs
        → OfWidth (fields_count fs) s.records
        → decode_arrow lib open_stream describe unmarshal empty body ≡ ok r
        → IsArrowPage (fields_count fs) (total_rows s.records) r
    unfolding decode_arrow opened decode_stream
    decode_arrow-IsArrowPage body {r} s fs opens e h = rw (opens, e) (split s.response_header)
      where
        split :
            (header : Option Bytes)
            → decode_stream lib open_stream describe unmarshal empty s (some fs) header ≡ ok r
            → IsArrowPage (fields_count fs) (total_rows s.records) r
        split none p = cc
        split (some header) p =
            OnOk-ok (decode_header-IsArrowPage s fs (unmarshal header empty) h) p

-- ===== src/Types/ColumnType/Kinds.antt =====
-- The Go type of the values of a column: its scan type says it, and `Parse` gives it.
use mathlib.Core.Option
use lake_go.Prelude.{
  ap, ◌≡◌, ◌∙◌, refl, Bool, true, false, Option, none, some, inl, inr, Bool-cases, Bytes, codes,
  bytes_eq, bytes_eq-eq, if_both, if◌then◌else◌,
}
use lake_go.Prelude.Result.{Result, ok, ◌>>=◌, map_err, OnOk, returns, fails, OnOk-after}
use lake_go.Types.Binary.{BinaryOutputFormat, HttpJsonResultMode}
use lake_go.Types.TypeDesc.{TypeDesc, desc, Descs, nil, cons, parse_type_desc, normalize}
use lake_go.Types.ColumnType.{
  Value, null, text, blob, instant, ScanType, string, time, bytes, ColumnType, unknown, simple,
  timestamp, malformed_precision, malformed_scale, timestamp_tz, date, decimal, binary,
  ColumnTypeOptions, Parsers, ColumnError, or_else, wrap_name, simple_scan_type, decimal_column,
  column_of_desc, new_column_type, parse_value, scan_type,
}
use lake_go.Types.ColumnType.Names.{scan_name, is_simple, simple_scan_type-name}

pub data Kind : Type 0 where
  a_text a_blob an_instant : Kind

-- The value is null, or of that Go type: string, []byte or time.Time.
abbrev pub HasKind : {T : Type 0} → Kind → Value T → Type 0
HasKind k null = Unit
HasKind k (text s) = k ≡ a_text
HasKind k (blob s) = k ≡ a_blob
HasKind k (instant t) = k ≡ an_instant

-- The Go type of the values of a column type.
unfoldable pub kind_of_name : Bytes → Kind
kind_of_name name =
    if bytes_eq name (codes "Binary")
    then a_blob
    else if bytes_eq name (codes "Date")
    then an_instant
    else if bytes_eq name (codes "Timestamp")
    then an_instant
    else if bytes_eq name (codes "Timestamp_Tz")
    then an_instant
    else a_text

-- As far as rows hold values of a scan type; the numbers and Booleans of a row are texts.
abbrev pub kind_of_scan : ScanType → Kind
kind_of_scan time = an_instant
kind_of_scan bytes = a_blob
kind_of_scan _ = a_text

pub instant_kind :
    {E T : Type 0} (m : Result E T) → OnOk (HasKind an_instant) (m >>= λ t. ok (instant t))
instant_kind m = OnOk-after m _ (λ t. returns refl)

pub text_kind :
    {E T : Type 0} (m : Result E Bytes) → OnOk (HasKind {T = T} a_text) (m >>= λ s. ok (text s))
text_kind m = OnOk-after m _ (λ s. returns refl)

module _ {Z T E : Type 0} (lib : Parsers Z T E) where
  -- The values that a column type parses, and its scan type, are of the kind.
  pub record OfKind (k : Kind) (c : ColumnType Z) : Type 0 where
    pub scanned : kind_of_scan (scan_type c) ≡ k
    pub parsed : (s : Bytes) → OnOk (HasKind k) (parse_value lib c s)

  null_or :
      {k : Kind} (b : Bool) {r : Result E (Value T)}
      → OnOk (HasKind k) r
      → OnOk (HasKind k) (if b then ok null else r)
  null_or b h = if_both (OnOk (HasKind _)) b (returns tt) h

  OfKind-simple :
      (name : Bytes) (scan : ScanType) (nullable as_str : Bool)
      → kind_of_scan scan ≡ a_text
      → OfKind a_text (simple name scan nullable as_str)
  unfolding scan_type parse_value
  OfKind-simple name scan nullable as_str h = record {
    scanned = h;
    parsed = λ s. null_or _ (returns refl);
  }

  OfKind-unknown : (s : Bytes) (d : TypeDesc) → OfKind a_text (unknown s d)
  unfolding scan_type parse_value
  OfKind-unknown s d = record { scanned = refl; parsed = λ t. returns refl }

  OfKind-timestamp : (z : Z) (nullable : Bool) → OfKind an_instant (timestamp z nullable)
  unfolding scan_type parse_value
  OfKind-timestamp z nullable = record { scanned = refl; parsed = λ s. null_or _ (instant_kind _) }

  OfKind-timestamp_tz : (nullable : Bool) → OfKind an_instant (timestamp_tz nullable)
  unfolding scan_type parse_value
  OfKind-timestamp_tz nullable = record { scanned = refl; parsed = λ s. null_or _ (instant_kind _) }

  OfKind-date : (nullable : Bool) → OfKind an_instant (date nullable)
  unfolding scan_type parse_value
  OfKind-date nullable = record { scanned = refl; parsed = λ s. null_or _ (instant_kind _) }

  OfKind-binary :
      (f : BinaryOutputFormat) (m : HttpJsonResultMode) (nullable : Bool)
      → OfKind a_blob (binary f m nullable)
  unfolding scan_type parse_value
  OfKind-binary f m nullable = record {
    scanned = refl;
    parsed = λ s. null_or _ (OnOk-after _ _ (λ b. returns refl));
  }

  decimal_column-OfKind :
      (nullable : Bool) (args : Descs) → OnOk (OfKind a_text) (decimal_column lib nullable args)
  unfolding decimal_column scan_type parse_value
  decimal_column-OfKind nullable nil = fails
  decimal_column-OfKind nullable (cons (desc p _ _) nil) =
      OnOk-after (map_err malformed_precision (lib.parse_int p)) _ (λ precision. fails)
  decimal_column-OfKind nullable (cons (desc p _ _) (cons (desc s _ _) _)) =
      OnOk-after (map_err malformed_precision (lib.parse_int p)) _ (λ precision.
        OnOk-after (map_err malformed_scale (lib.parse_int s)) _ (λ scale.
          returns {a = decimal precision scale nullable}
            (record { scanned = refl; parsed = λ t. returns {a = text t} refl })))

  simple_kind : (scan : ScanType) → is_simple scan ≡ true → kind_of_scan scan ≡ a_text
  simple_kind time h = cc
  simple_kind bytes h = cc
  simple_kind _ h = refl

  scan_name-kind :
      (scan : ScanType) → is_simple scan ≡ true → kind_of_name (scan_name scan) ≡ a_text
  unfolding kind_of_name
  scan_name-kind time h = cc
  scan_name-kind bytes h = cc
  scan_name-kind _ h = refl

  module _ (db_type : Bytes) (opts : ColumnTypeOptions Z) (nullable : Bool) (args : Descs) where
    simple_or :
        (name : Bytes) (o : Option ScanType)
        → simple_scan_type name ≡ o
        → (rest : Result (ColumnError E) (ColumnType Z)) → OnOk (OfKind (kind_of_name name)) rest
        → OnOk (OfKind (kind_of_name name)) (
            or_else
              (Option.map
                (λ scan. simple (wrap_name nullable name) scan nullable opts.format_null_as_str)
                o)
              rest)
    simple_or name none e rest h = h
    simple_or name (some scan) e rest h =
        let (n, s) = simple_scan_type-name name scan e in
        let k : kind_of_name name ≡ a_text = ap kind_of_name n ∙ scan_name-kind scan s in
        rw k (returns (OfKind-simple _ scan nullable _ (simple_kind scan s)))

    -- The switch behind the simple types.
    named_or :
        (name : Bytes)
        → OnOk (OfKind (kind_of_name name)) (
            if bytes_eq name (codes "Timestamp")
            then ok (timestamp opts.timezone nullable)
            else if bytes_eq name (codes "Timestamp_Tz")
            then ok (timestamp_tz nullable)
            else if bytes_eq name (codes "Date")
            then ok (date nullable)
            else if bytes_eq name (codes "Binary")
            then ok (binary opts.binary_output_format opts.http_json_result_mode nullable)
            else if bytes_eq name (codes "Decimal")
            then decimal_column lib nullable args
            else ok (unknown db_type (desc name nullable args)))
    unfolding kind_of_name
    named_or name = elim (Bool-cases (bytes_eq name (codes "Timestamp"))) [
      | inl t ↦ rw (bytes_eq-eq name (codes "Timestamp") t) (returns (OfKind-timestamp _ nullable))
      | inr t ↦ elim (Bool-cases (bytes_eq name (codes "Timestamp_Tz"))) [
        | inl z ↦
            rw (bytes_eq-eq name (codes "Timestamp_Tz") z) (returns (OfKind-timestamp_tz nullable))
        | inr z ↦ elim (Bool-cases (bytes_eq name (codes "Date"))) [
          | inl d ↦ rw (bytes_eq-eq name (codes "Date") d) (returns (OfKind-date nullable))
          | inr d ↦ elim (Bool-cases (bytes_eq name (codes "Binary"))) [
            | inl b ↦
                rw (bytes_eq-eq name (codes "Binary") b) (returns (OfKind-binary _ _ nullable))
            | inr b ↦
                rw (t, z, d, b)
                  (if_both (OnOk (OfKind a_text)) (bytes_eq name (codes "Decimal"))
                    (decimal_column-OfKind nullable args)
                    (returns (OfKind-unknown db_type (desc name nullable args))))
          ]
        ]
      ]
    ]

    pub column_of_desc-OfKind :
        (name : Bytes)
        → OnOk
            (OfKind (kind_of_name name))
            (column_of_desc lib db_type opts (desc name nullable args))
    unfolding column_of_desc kind_of_name
    column_of_desc-OfKind name = elim (Bool-cases (bytes_eq name (codes "String"))) [
      | inl b ↦
          let e = bytes_eq-eq name (codes "String") b in
          rw e (returns (OfKind-simple _ string nullable false refl))
      | inr b ↦ rw b (simple_or name (simple_scan_type name) refl _ (named_or name))
    ]

    pub new_column_type-OfKind :
        {d : TypeDesc} (name : Bytes)
        → parse_type_desc db_type ≡ ok d
        → normalize d ≡ some (desc name nullable args)
        → OnOk (OfKind (kind_of_name name)) (new_column_type lib db_type opts)
    unfolding new_column_type
    new_column_type-OfKind name p n = rw (p, n) (column_of_desc-OfKind name)

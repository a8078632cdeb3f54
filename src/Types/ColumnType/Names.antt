-- ===== src/Types/ColumnType/Names.antt =====
-- The name that a column type reports is one that `NewColumnType` reads back to the same type.
use mathlib.Core.Option
use lake_go.Prelude.{
  ap, bytes_eq_refl, ◌≢◌, Option, none, if◌then◌else◌, bytes_eq, refl, ◌≡◌, Bool, true, false, some,
  [], arith, Bytes, codes, bytes_eq-eq,
}
use lake_go.Types.ColumnType.{
  or_else, TypeDesc, normalized, bad_type, ScanType, string, bool, int8, int16, int32, int64, uint8,
  uint16, uint32, uint64, float32, float64, time, bytes, ColumnType, unknown, simple, timestamp,
  timestamp_tz, date, decimal, binary, ColumnTypeOptions, Parsers, ColumnError, wrap_name,
  simple_scan_type, decimal_column, column_of_desc, new_column_type, database_type_name,
}
use lake_go.Prelude.Result.{map_err, ok_of_bind, Result, ok}
use lake_go.Types.TypeDesc.{
  normalize, desc, Descs, nil, cons, parse_type_desc, parse_fuel, type_loop, type_step, type_end,
}
use mathlib.Core.Path.{subst}

-- The name of the simple type that is scanned so.
abbrev pub scan_name : ScanType → Bytes
scan_name string = codes "String"
scan_name bool = codes "Boolean"
scan_name int8 = codes "Int8"
scan_name int16 = codes "Int16"
scan_name int32 = codes "Int32"
scan_name int64 = codes "Int64"
scan_name uint8 = codes "UInt8"
scan_name uint16 = codes "UInt16"
scan_name uint32 = codes "UInt32"
scan_name uint64 = codes "UInt64"
scan_name float32 = codes "Float32"
scan_name float64 = codes "Float64"
scan_name time = []
scan_name bytes = []

abbrev pub is_simple : ScanType → Bool
is_simple time = false
is_simple bytes = false
is_simple _ = true

pub simple_scan_type-name :
    (name : Bytes) (scan : ScanType)
    → simple_scan_type name ≡ some scan
    → (name ≡ scan_name scan) × (is_simple scan ≡ true)
unfolding simple_scan_type
simple_scan_type-name name scan h = ground (
  arith,
  bytes_eq-eq name (codes "Boolean"),
  bytes_eq-eq name (codes "Int8"),
  bytes_eq-eq name (codes "Int16"),
  bytes_eq-eq name (codes "Int32"),
  bytes_eq-eq name (codes "Int64"),
  bytes_eq-eq name (codes "UInt8"),
  bytes_eq-eq name (codes "UInt16"),
  bytes_eq-eq name (codes "UInt32"),
  bytes_eq-eq name (codes "UInt64"),
  bytes_eq-eq name (codes "Float32"),
  bytes_eq-eq name (codes "Float64"),
)

module _ {Z T E : Type 0} (lib : Parsers Z T E) (opts : ColumnTypeOptions Z) where
  -- A string column never reads NULL as null.
  abbrev pub reads_null : ScanType → Bool
  reads_null string = false
  reads_null _ = opts.format_null_as_str

  -- The column types that have a name of their own. The rest are decimals and unknown types.
  pub data IsNamed : ColumnType Z → Type 0 where
    is_simple_column :
        (scan : ScanType) (nullable : Bool)
        → is_simple scan ≡ true
        → IsNamed (simple (wrap_name nullable (scan_name scan)) scan nullable (reads_null scan))
    is_timestamp : (nullable : Bool) → IsNamed (timestamp opts.timezone nullable)
    is_timestamp_tz : (nullable : Bool) → IsNamed (timestamp_tz nullable)
    is_date : (nullable : Bool) → IsNamed (date nullable)
    is_binary :
        (nullable : Bool)
        → IsNamed (binary opts.binary_output_format opts.http_json_result_mode nullable)

  simple_reads :
      (scan : ScanType) (nullable : Bool)
      → is_simple scan ≡ true
      → new_column_type lib (wrap_name nullable (scan_name scan)) opts
        ≡ ok (simple (wrap_name nullable (scan_name scan)) scan nullable (reads_null scan))
  unfolding new_column_type column_of_desc simple_scan_type parse_type_desc parse_fuel type_loop
      type_step type_end normalize
  simple_reads string true h = refl
  simple_reads string false h = refl
  simple_reads time nullable h = cc
  simple_reads bytes nullable h = cc
  simple_reads _ true h = refl
  simple_reads _ false h = refl

  -- The name of such a column type, as `DatabaseTypeName` gives it, is read back to the same type.
  pub new_column_type-database_type_name :
      {c : ColumnType Z} → IsNamed c → new_column_type lib (database_type_name c) opts ≡ ok c
  unfolding new_column_type column_of_desc simple_scan_type parse_type_desc parse_fuel type_loop
      type_step type_end normalize database_type_name
  new_column_type-database_type_name (is_simple_column scan nullable h) =
      simple_reads scan nullable h
  new_column_type-database_type_name (is_timestamp true) = refl
  new_column_type-database_type_name (is_timestamp false) = refl
  new_column_type-database_type_name (is_timestamp_tz true) = refl
  new_column_type-database_type_name (is_timestamp_tz false) = refl
  new_column_type-database_type_name (is_date true) = refl
  new_column_type-database_type_name (is_date false) = refl
  new_column_type-database_type_name (is_binary true) = refl
  new_column_type-database_type_name (is_binary false) = refl

  -- A type that has no name of its own: an unknown one, or a decimal.
  abbrev pub is_named : ColumnType Z → Bool
  is_named (unknown _ _) = false
  is_named (decimal _ _ _) = false
  is_named _ = true

  Names : Result (ColumnError E) (ColumnType Z) → Type 0
  Names r = (c : ColumnType Z) → r ≡ ok c → is_named c ≡ true → IsNamed c

  Names-ok : (c : ColumnType Z) → IsNamed c → Names (ok c)
  unfolding Names
  Names-ok c n d e h = let p : c ≡ d = cc in subst IsNamed p n

  Names-decimal : (nullable : Bool) (args : Descs) → Names (decimal_column lib nullable args)
  unfolding Names decimal_column
  Names-decimal nullable nil d e h = cc
  Names-decimal nullable (cons (desc p _ _) nil) d e h = ground arith
  Names-decimal nullable (cons (desc p _ _) (cons (desc s _ _) _)) d e h = ground arith

  Names-if :
      (name lit : Bytes) (x y : Result (ColumnError E) (ColumnType Z))
      → (name ≡ lit → Names x)
      → (name ≢ lit → Names y)
      → Names (if bytes_eq name lit then x else y)
  Names-if name lit x y h k = split (bytes_eq name lit) refl
    where
      split : (b : Bool) → bytes_eq name lit ≡ b → Names (if b then x else y)
      split true e = h (bytes_eq-eq name lit e)
      split false e = k (λ p. cc (bytes_eq_refl lit, p, e))

  Names-simple :
      (name : Bytes) (nullable : Bool) (o : Option ScanType)
      (rest : Result (ColumnError E) (ColumnType Z))
      → simple_scan_type name ≡ o
      → name ≢ codes "String"
      → Names rest
      → Names (
          or_else
            (Option.map
              (λ scan. simple (wrap_name nullable name) scan nullable opts.format_null_as_str)
              o)
            rest)
  Names-simple name nullable none rest e ne h = h
  Names-simple name nullable (some string) rest e ne h =
      absurd (ne (simple_scan_type-name name string e).0)
  Names-simple name nullable (some time) rest e ne h = cc ((simple_scan_type-name name time e).1)
  Names-simple name nullable (some bytes) rest e ne h = cc ((simple_scan_type-name name bytes e).1)
  Names-simple name nullable (some scan) rest e ne h =
      let (n, s) = simple_scan_type-name name scan e in
      rw n (Names-ok _ (is_simple_column scan nullable s))

  Names-unnamed : (c : ColumnType Z) → is_named c ≡ false → Names (ok c)
  unfolding Names
  Names-unnamed c u d e h = let p : c ≡ d = cc in cc (ap is_named p, u, h)

  Names-column_of_desc :
      (db_type : Bytes) (d : TypeDesc) → Names (column_of_desc lib db_type opts d)
  unfolding column_of_desc
  Names-column_of_desc db_type (desc name nullable args) =
      Names-if name (codes "String") _ _
        (λ e. rw e (Names-ok _ (is_simple_column string nullable refl)))
        (λ ne. Names-simple name nullable (simple_scan_type name) _ refl ne (
          Names-if name (codes "Timestamp") _ _ (λ _. Names-ok _ (is_timestamp nullable))
            (λ _.
              Names-if name (codes "Timestamp_Tz") _ _ (λ _. Names-ok _ (is_timestamp_tz nullable))
                (λ _.
                  Names-if name (codes "Date") _ _ (λ _. Names-ok _ (is_date nullable))
                    (λ _.
                      Names-if name (codes "Binary") _ _ (λ _. Names-ok _ (is_binary nullable))
                        (λ _.
                          Names-if name (codes "Decimal") _ _ (λ _. Names-decimal nullable args)
                            (λ _.
                              Names-unnamed (unknown db_type (desc name nullable args)) refl)))))))

  Names-normalized : (db_type : Bytes) (d : Option TypeDesc) → Names (normalized lib db_type opts d)
  unfolding normalized Names
  Names-normalized db_type none = λ c e h. cc
  Names-normalized db_type (some d) = Names-column_of_desc db_type d

  is_named-IsNamed :
      (db_type : Bytes) {c : ColumnType Z}
      → new_column_type lib db_type opts ≡ ok c
      → is_named c ≡ true
      → IsNamed c
  unfolding new_column_type Names
  is_named-IsNamed db_type {c} h n =
      let (d, p, q) =
        ok_of_bind (map_err bad_type (parse_type_desc db_type))
          (λ d. normalized lib db_type opts (normalize d)) h in
      Names-normalized db_type (normalize d) c q n

  -- The name of a column type that `NewColumnType` gives, unless it is an unknown type or a
  -- decimal, is read back to the same type under the same options.
  pub new_column_type-name :
      (db_type : Bytes) {c : ColumnType Z}
      → new_column_type lib db_type opts ≡ ok c
      → is_named c ≡ true
      → new_column_type lib (database_type_name c) opts ≡ ok c
  new_column_type-name db_type h n =
      new_column_type-database_type_name (is_named-IsNamed db_type h n)

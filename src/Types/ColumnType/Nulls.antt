-- ===== src/Types/ColumnType/Nulls.antt =====
-- When a column's text is read as null.
use lake_go.Prelude.{
  ◌≡◌, ◌≢◌, inl, inr, Bool, true, arith, if◌then◌else◌, Bool-cases, Bytes, codes, bytes_eq-eq,
}
use lake_go.Prelude.Result.{Result, ok, err, ◌>>=◌}
use lake_go.Types.ColumnType.{
  Value, null, blob, instant, ColumnType, unknown, simple, timestamp, timestamp_tz, date, decimal,
  binary, Parsers, check_null, parse_value, nullable_of,
}

module _ {Z T E : Type 0} (lib : Parsers Z T E) where
  instant_ne_null : (r : Result E T) → (r >>= λ t. ok (instant t)) ≢ ok null
  instant_ne_null (ok t) h = cc
  instant_ne_null (err e) h = cc

  blob_ne_null :
      (r : Result E Bytes) → ◌≢◌ {A = Result E (Value T)} (r >>= λ b. ok (blob b)) (ok null)
  blob_ne_null (ok b) h = cc
  blob_ne_null (err e) h = cc

  null_text :
      (nullable : Bool) (s : Bytes)
      → check_null nullable s ≡ true
      → (nullable ≡ true) × (s ≡ codes "NULL")
  null_text nullable s h = (ground arith, bytes_eq-eq s (codes "NULL") (ground arith))

  -- The rest of the text is not read where the test for null answers.
  null_branch :
      (nullable : Bool) (s : Bytes) (r : Result E (Value T))
      → r ≢ ok null
      → (if check_null nullable s then ok null else r) ≡ ok null
      → (nullable ≡ true) × (s ≡ codes "NULL")
  null_branch nullable s r h e = elim (Bool-cases (check_null nullable s)) [
    | inl c ↦ null_text nullable s c
    | inr c ↦ absurd (h (rw c at e))
  ]

  -- A null comes only from a nullable column, and only from the text NULL.
  pub parse_value-null :
      (c : ColumnType Z) (s : Bytes)
      → parse_value lib c s ≡ ok null
      → (nullable_of c ≡ (true, true)) × (s ≡ codes "NULL")
  unfolding parse_value nullable_of
  parse_value-null (unknown _ _) s h = cc
  parse_value-null (simple _ _ nullable parse_null) s h =
      ground (arith, bytes_eq-eq s (codes "NULL"))
  parse_value-null (timestamp tz nullable) s h =
      let (n, e) = null_branch nullable s _ (instant_ne_null _) h in (rw n, e)
  parse_value-null (timestamp_tz nullable) s h =
      let (n, e) = null_branch nullable s _ (instant_ne_null _) h in (rw n, e)
  parse_value-null (date nullable) s h =
      let (n, e) = null_branch nullable s _ (instant_ne_null _) h in (rw n, e)
  parse_value-null (decimal _ _ _) s h = cc
  parse_value-null (binary format mode nullable) s h =
      let (n, e) = null_branch nullable s _ (blob_ne_null _) h in (rw n, e)

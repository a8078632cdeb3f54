-- ===== src/Sql/Encoder/Parameter.antt =====
-- An encoded parameter without raw text is closed: the scanner reads it as whole tokens, finds no
-- placeholder in it, and is behind it in the state in which it came.
use lake_go.Sql.Encoder.{
  EncodeError, GoValue, null, bool, int, uint, float, string, byte_slice, time, nil_pointer,
  pointer, slice, struct, go_map, array, tuple, tmap, other, Values, nil, cons, Fields, end, field,
  Entries, empty, entry, Formats, comma, bracket, encode, encode_byte_elements, encode_array,
  encode_elements, encode_tuple_part, encode_struct, encode_fields, encode_map, encode_entries,
}
use lake_go.Prelude.{
  ℕ, ◌≡◌, refl, Bool, true, false, ◌||◌, [], ◌∷◌, ◌++◌, arith, Bytes, codes, All, if◌then◌else◌,
}
use lake_go.Prelude.Decimal.{ℤ, decimal}
use lake_go.Prelude.Result.{Result, ok, err, ◌>>=◌, OnOk, returns, fails, OnOk-bind, OnOk-ok}
use lake_go.Sql.Escape.{quote}
use lake_go.Sql.Scanner.Closed.{
  Closed, IsOrdinary, Passes-ordinary, Passes-Closed, Passes-append, Closed-quote,
}
use lake_go.Sql.Encoder.Closed.{
  IsFormats, has_raw, has_raw_inside, has_raw_values, has_raw_fields, has_raw_entries, Tail,
  Tail-nil, Tail-item, Passes-bracket, IsNumeral-Closed, decimal_ℤ-IsNumeral, escape_unescaped,
}

or_false : (a b : Bool) → (a || b) ≡ false → (a ≡ false) × (b ≡ false)
or_false a b h = ground arith

module _ {T : Type 0} (fmt : Formats T) (sound : IsFormats fmt) where
  Closed-text : (t : Bytes) → All IsOrdinary t → Closed t
  Closed-text t h = Passes-Closed t (Passes-ordinary t h)

  Closed-bracket :
      (l r : ℕ)
      → IsOrdinary l
      → IsOrdinary r
      → (m : Result EncodeError Bytes) → OnOk (Tail true) m
      → OnOk Closed (m >>= λ b. ok (bracket l b r))
  Closed-bracket l r hl hr m h =
      OnOk-bind (λ b. ok (bracket l b r)) h
        (λ b t. returns (Passes-Closed (bracket l b r) (Passes-bracket l r b hl hr t)))

  -- One more item of a list, by the calls that encode it and the rest.
  Tail-more :
      (first : Bool) (m k : Result EncodeError Bytes)
      → OnOk Closed m
      → OnOk (Tail false) k
      → OnOk
          (Tail first)
          (m >>= λ b. k >>= λ more. ok ((if first then [] else comma) ++ (b ++ more)))
  Tail-more first m k h t =
      OnOk-bind _ h (λ b c. OnOk-bind _ t (λ more u. returns (Tail-item first b more c u)))

  -- A key, its value, and the rest.
  Tail-entry :
      (first : Bool) (m v k : Result EncodeError Bytes)
      → OnOk Closed m
      → OnOk Closed v
      → OnOk (Tail false) k
      → OnOk (Tail first) (
          m >>= λ key. v >>= λ value.
          k >>= λ more. ok ((if first then [] else comma) ++ (key ++ (comma ++ (value ++ more)))))
  Tail-entry first m v k h hv t = OnOk-bind _ h (λ key c. OnOk-bind _ hv (λ value d.
      OnOk-bind _ t (λ more u. returns (Tail-item first key _ c (Tail-item false value more d u)))))

  Tail-byte_elements : (first : Bool) (s : Bytes) → Tail first (encode_byte_elements fmt first s)
  unfolding encode_byte_elements
  Tail-byte_elements first [] = Tail-nil first
  Tail-byte_elements first (c ∷ s) =
      Tail-item first (decimal c) _ (IsNumeral-Closed _ (decimal_ℤ-IsNumeral (ℤ.pos c)))
        (Tail-byte_elements false s)

  OnOk-Closed : (m : Result EncodeError Bytes) → OnOk (Tail true) m → OnOk Closed m
  OnOk-Closed (ok b) (returns t) = returns t.closed
  OnOk-Closed (err e) fails = fails

  Tail-later :
      (first : Bool) (m : Result EncodeError Bytes) → OnOk (Tail false) m → OnOk (Tail first) m
  Tail-later first (ok b) (returns t) =
      returns (record { closed = t.closed; apart = λ e. t.apart refl })
  Tail-later first (err e) fails = fails

  time-Closed : (t : T) → Closed (quote (fmt.format_time t))
  time-Closed t =
      rw (escape_unescaped (fmt.format_time t) (sound.time_unescaped t)) at
        (Closed-quote (fmt.format_time t))

  Closed-map :
      (m : Result EncodeError Bytes)
      → OnOk (Tail true) m
      → OnOk Closed (m >>= λ b. ok (codes "map(" ++ (b ++ b')' ∷ [])))
  Closed-map m h = OnOk-bind _ h λ b t. returns (
      Passes-Closed (codes "map(" ++ (b ++ b')' ∷ [])) (
        Passes-append (codes "map") (bracket b'(' b b')')
          (Passes-ordinary (codes "map") (ground arith))
          (Passes-bracket b'(' b')' b (ground arith) (ground arith) t)))

  mutual
    unfolding encode has_raw

    pub encode-OnOk : (v : GoValue T) → has_raw v ≡ false → OnOk Closed (encode fmt v)
    encode-OnOk null h = returns (Closed-text (codes "NULL") (ground arith))
    encode-OnOk (bool true) h = returns (Closed-text (codes "1") (ground arith))
    encode-OnOk (bool false) h = returns (Closed-text (codes "0") (ground arith))
    encode-OnOk (int z) h = returns (IsNumeral-Closed _ (decimal_ℤ-IsNumeral z))
    encode-OnOk (uint n) h = returns (IsNumeral-Closed _ (decimal_ℤ-IsNumeral (ℤ.pos n)))
    encode-OnOk (float w b) h = returns (IsNumeral-Closed _ (sound.float_numeral w b))
    encode-OnOk (string s) h = returns (Closed-quote s)
    encode-OnOk (byte_slice s) h = cc
    encode-OnOk (time t) h = returns (time-Closed t)
    encode-OnOk nil_pointer h = returns (Closed-text (codes "NULL") (ground arith))
    encode-OnOk (pointer v) h = encode-OnOk v h
    encode-OnOk (slice xs) h =
        Closed-bracket b'[' b']' (ground arith) (ground arith) _ (encode_elements-OnOk true xs h)
    encode-OnOk (struct fs) h =
        Closed-bracket b'(' b')' (ground arith) (ground arith) _ (encode_fields-OnOk true fs h)
    encode-OnOk (go_map text es) h = cc
    encode-OnOk (array v) h = encode_array-OnOk v h
    encode-OnOk (tuple v) h =
        Closed-bracket b'(' b')' (ground arith) (ground arith) _ (encode_tuple_part-OnOk v h)
    encode-OnOk (tmap v) h = encode_map-OnOk v h
    encode-OnOk (other s) h = cc

    encode_array-OnOk :
        (v : GoValue T) → has_raw_inside v ≡ false → OnOk Closed (encode_array fmt v)
    encode_array-OnOk (slice xs) h =
        Closed-bracket b'[' b']' (ground arith) (ground arith) _ (encode_elements-OnOk true xs h)
    encode_array-OnOk (byte_slice s) h =
        Closed-bracket b'[' b']' (ground arith) (ground arith) (ok _)
          (returns (Tail-byte_elements true s))
    encode_array-OnOk _ h = fails

    encode_elements-OnOk :
        (first : Bool) (xs : Values T)
        → has_raw_values xs ≡ false
        → OnOk (Tail first) (encode_elements fmt first xs)
    encode_elements-OnOk first nil h = returns (Tail-nil first)
    encode_elements-OnOk first (cons x xs) h =
        let (hx, hs) = or_false _ _ h in
        Tail-more first _ _ (encode-OnOk x hx) (encode_elements-OnOk false xs hs)

    encode_tuple_part-OnOk :
        (v : GoValue T) → has_raw_inside v ≡ false → OnOk (Tail true) (encode_tuple_part fmt v)
    encode_tuple_part-OnOk (pointer v) h = encode_struct-OnOk v h
    encode_tuple_part-OnOk (struct fs) h = encode_fields-OnOk true fs h
    encode_tuple_part-OnOk (time _) h = returns (Tail-nil true)
    encode_tuple_part-OnOk (array _) h = returns (Tail-nil true)
    encode_tuple_part-OnOk (tuple _) h = returns (Tail-nil true)
    encode_tuple_part-OnOk (tmap _) h = returns (Tail-nil true)
    encode_tuple_part-OnOk _ h = fails

    encode_struct-OnOk :
        (v : GoValue T) → has_raw_inside v ≡ false → OnOk (Tail true) (encode_struct fmt v)
    encode_struct-OnOk (struct fs) h = encode_fields-OnOk true fs h
    encode_struct-OnOk (time _) h = returns (Tail-nil true)
    encode_struct-OnOk (array _) h = returns (Tail-nil true)
    encode_struct-OnOk (tuple _) h = returns (Tail-nil true)
    encode_struct-OnOk (tmap _) h = returns (Tail-nil true)
    encode_struct-OnOk _ h = fails

    encode_fields-OnOk :
        (first : Bool) (fs : Fields T)
        → has_raw_fields fs ≡ false
        → OnOk (Tail first) (encode_fields fmt first fs)
    encode_fields-OnOk first end h = returns (Tail-nil first)
    encode_fields-OnOk first (field true e v fs) h =
        let (hv, hs) = or_false _ _ h in
        Tail-more first _ _ (OnOk-Closed _ (encode_tuple_part-OnOk v hv))
          (encode_fields-OnOk false fs hs)
    encode_fields-OnOk first (field false false v fs) h =
        Tail-later first _ (encode_fields-OnOk false fs h)
    encode_fields-OnOk first (field false true v fs) h =
        let (hv, hs) = or_false _ _ h in
        Tail-more first _ _ (encode-OnOk v hv) (encode_fields-OnOk false fs hs)

    encode_map-OnOk : (v : GoValue T) → has_raw_inside v ≡ false → OnOk Closed (encode_map fmt v)
    encode_map-OnOk (go_map text es) h = Closed-map _ (encode_entries-OnOk true es h)
    encode_map-OnOk _ h = fails

    encode_entries-OnOk :
        (first : Bool) (es : Entries T)
        → has_raw_entries es ≡ false
        → OnOk (Tail first) (encode_entries fmt first es)
    encode_entries-OnOk first empty h = returns (Tail-nil first)
    encode_entries-OnOk first (entry k v es) h =
        let (hk, hr) = or_false _ _ h in
        let (hv, hs) = or_false _ _ hr in
        Tail-entry first _ _ _ (encode-OnOk k hk) (encode-OnOk v hv)
          (encode_entries-OnOk false es hs)

  -- With floats that format as numerals and instants that hold nothing to escape: whatever the
  -- value, unless it holds raw text, its encoding is closed, so before any rest that stands apart
  -- from it the scan of a statement goes on behind it as if it began there.
  pub encode-Closed :
      (v : GoValue T) (t : Bytes) → has_raw v ≡ false → encode fmt v ≡ ok t → Closed t
  encode-Closed v t h e = OnOk-ok (encode-OnOk v h) e

-- ===== src/Sql/Valuer.antt =====
-- types.go: the wrappers that give a parameter its text, before it is bound.
use lake_go.Prelude.{ℕ, ◌≡◌, Bool, false, [], ◌∷◌, ◌++◌, arith, Bytes, codes, All}
use lake_go.Prelude.Decimal.{ℤ, pos, negsuc, decimal, decimal_ℤ, decimal-IsDigit, IsDigit}
use lake_go.Prelude.Result.{Result, ok, err, OnOk, returns, fails, OnOk-ok}
use lake_go.Sql.Escape.{escape, quote}
use lake_go.Sql.Encoder.{
  GoValue, string, byte_slice, array, tuple, tmap, EncodeError, Formats, encode,
}
use lake_go.Sql.Encoder.Closed.{
  IsFormats, IsUnescaped, has_raw, has_raw_inside, IsNumeral-Closed, decimal_ℤ-IsNumeral,
  escape_unescaped,
}
use lake_go.Sql.Encoder.Parameter.{encode-OnOk}
use lake_go.Sql.Scanner.Closed.{
  Passes, Closed, Passes-ordinary, Passes-Closed, Passes-append, Closed-append-Passes, Closed-quote,
}

-- A decimal has its width, its scale and the `fmt.Sprint` text of its value; an address its text.
pub data Valuer (T : Type 0) : Type 0 where
  wrap_map : GoValue T → Valuer T
  wrap_array : GoValue T → Valuer T
  wrap_tuple : GoValue T → Valuer T
  date : T → Valuer T
  big_uint64 : ℕ → Valuer T
  decimal_value : ℕ → ℤ → Bytes → Valuer T
  ip : Bytes → Valuer T
  interval : ℤ → Valuer T

-- Format(dateFormat), and Microseconds of a duration.
pub record ValuerLib (T : Type 0) : Type 0 where
  pub format_date : T → Bytes
  pub microseconds : ℤ → ℤ

-- The text of `decimal.Value`.
pub decimal_text : ℕ → ℤ → Bytes → Bytes
decimal_text width scale text =
    codes "toDecimal"
    ++ ((decimal width ++ b'(' ∷ [])
        ++ (quote (escape text) ++ (codes ", " ++ (decimal_ℤ scale ++ b')' ∷ []))))

module _ {T : Type 0} (fmt : Formats T) (lib : ValuerLib T) where
  raw_value : Result EncodeError Bytes → Result EncodeError (GoValue T)
  raw_value (err e) = err e
  raw_value (ok t) = ok (byte_slice t)

  -- Value
  unfoldable pub value_of : Valuer T → Result EncodeError (GoValue T)
  unfolding raw_value decimal_text
  value_of (wrap_map v) = raw_value (encode fmt (tmap v))
  value_of (wrap_array v) = raw_value (encode fmt (array v))
  value_of (wrap_tuple v) = raw_value (encode fmt (tuple v))
  value_of (date t) = ok (byte_slice (quote (lib.format_date t)))
  value_of (big_uint64 n) = ok (byte_slice (decimal n))
  value_of (decimal_value width scale text) = ok (byte_slice (decimal_text width scale text))
  value_of (ip text) = ok (string text)
  value_of (interval d) = ok (byte_slice (quote (decimal_ℤ (lib.microseconds d))))

-- The wrapped value holds raw text.
unfoldable pub wraps_raw : {T : Type 0} → Valuer T → Bool
wraps_raw (wrap_map v) = has_raw_inside v
wraps_raw (wrap_array v) = has_raw_inside v
wraps_raw (wrap_tuple v) = has_raw_inside v
wraps_raw _ = false

scale_text-Passes : (scale : ℤ) → Passes (codes ", " ++ (decimal_ℤ scale ++ b')' ∷ []))
scale_text-Passes scale =
    Passes-append (codes ", ") (decimal_ℤ scale ++ b')' ∷ [])
      (Passes-ordinary (codes ", ") (ground arith))
      (Closed-append-Passes (decimal_ℤ scale) (b')' ∷ [])
        (IsNumeral-Closed _ (decimal_ℤ-IsNumeral scale))
        (Passes-ordinary (b')' ∷ []) (ground arith)) (λ r. ground arith))

decimal_text-Passes :
    (width : ℕ) (scale : ℤ) (text : Bytes) → Passes (decimal_text width scale text)
unfolding decimal_text
decimal_text-Passes width scale text =
    Passes-append (codes "toDecimal") _ (Passes-ordinary (codes "toDecimal") (ground arith)) (
      Passes-append (decimal width ++ b'(' ∷ []) _
        (Closed-append-Passes (decimal width) (b'(' ∷ [])
          (IsNumeral-Closed _ (decimal_ℤ-IsNumeral (pos width)))
          (Passes-ordinary (b'(' ∷ []) (ground arith)) (λ r. ground arith))
        (Closed-append-Passes (quote (escape text)) _ (Closed-quote text) (scale_text-Passes scale)
          (λ r. ground arith)))

digits-IsUnescaped : (t : Bytes) → All IsDigit t → All IsUnescaped t
digits-IsUnescaped [] h = tt
digits-IsUnescaped (c ∷ t) h = (omega arith, digits-IsUnescaped t h.1)

decimal_ℤ-IsUnescaped : (z : ℤ) → All IsUnescaped (decimal_ℤ z)
decimal_ℤ-IsUnescaped (pos n) = digits-IsUnescaped _ (decimal-IsDigit n)
decimal_ℤ-IsUnescaped (negsuc n) = (ground arith, digits-IsUnescaped _ (decimal-IsDigit _))

quoted-Closed : (s : Bytes) → All IsUnescaped s → Closed (quote s)
quoted-Closed s h = rw (escape_unescaped s h) at (Closed-quote s)

module _ {T : Type 0} (fmt : Formats T) (lib : ValuerLib T) (sound : IsFormats fmt)
    (dates : (t : T) → All IsUnescaped (lib.format_date t)) where
  -- The value that is bound has a closed text.
  abbrev BindsClosed : GoValue T → Type 0
  BindsClosed x = OnOk Closed (encode fmt x)

  raw_value-OnOk :
      (m : Result EncodeError Bytes) → OnOk Closed m → OnOk BindsClosed (raw_value fmt lib m)
  unfolding raw_value encode
  raw_value-OnOk (ok t) (returns c) = returns (returns c)
  raw_value-OnOk (err e) fails = fails

  value_of-OnOk : (w : Valuer T) → wraps_raw w ≡ false → OnOk BindsClosed (value_of fmt lib w)
  unfolding value_of wraps_raw encode has_raw
  value_of-OnOk (wrap_map v) h = raw_value-OnOk _ (encode-OnOk fmt sound (tmap v) h)
  value_of-OnOk (wrap_array v) h = raw_value-OnOk _ (encode-OnOk fmt sound (array v) h)
  value_of-OnOk (wrap_tuple v) h = raw_value-OnOk _ (encode-OnOk fmt sound (tuple v) h)
  value_of-OnOk (date d) h = returns (returns (quoted-Closed _ (dates d)))
  value_of-OnOk (big_uint64 n) h =
      returns (returns (IsNumeral-Closed _ (decimal_ℤ-IsNumeral (pos n))))
  value_of-OnOk (decimal_value width scale text) h = returns (
      returns
        (Passes-Closed (decimal_text width scale text) (decimal_text-Passes width scale text)))
  value_of-OnOk (ip text) h = returns (returns (Closed-quote text))
  value_of-OnOk (interval d) h =
      returns (returns (quoted-Closed _ (decimal_ℤ-IsUnescaped (lib.microseconds d))))

  -- With sound formats and dates that hold nothing to escape: whatever a wrapper wraps, unless it holds
  -- raw text, the text that is bound for it is closed, so that the scan of a statement goes on behind it
  -- as if it began there; in particular, whatever the text of a decimal.
  pub value_of-Closed :
      (w : Valuer T) (x : GoValue T) (t : Bytes)
      → wraps_raw w ≡ false
      → value_of fmt lib w ≡ ok x
      → encode fmt x ≡ ok t
      → Closed t
  value_of-Closed w x t h e k = OnOk-ok (OnOk-ok (value_of-OnOk w h) e) k

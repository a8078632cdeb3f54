-- ===== src/Sql/Encoder/Closed.antt =====
-- What the scanner sees of an encoded parameter.
use lake_go.Sql.Escape.{escape, backslash, apostrophe}
use lake_go.Prelude.Decimal.{
  negsuc, pos, decimal-IsDigit, decimal_ℤ, decimal, ℤ, decimal-ne-nil, IsDigit,
}
use lake_go.Sql.Encoder.{
  escape, GoValue, byte_slice, pointer, slice, struct, go_map, array, tuple, tmap, other, Values,
  nil, cons, Fields, end, field, Entries, empty, entry, Formats, comma, bracket,
}
use lake_go.Sql.Scanner.Closed.{
  Passes-minus, Apart, Passes, Closed, IsOrdinary, Passes-ordinary, Passes-Closed, Passes-append,
  Passes-append-Closed, Closed-append, Closed-append-Passes,
}
use lake_go.Prelude.{
  suc, ℕ, ◌≡◌, ◌≢◌, refl, Bool, true, false, ◌||◌, [], ◌∷◌, ◌++◌, arith, Bytes, All, if◌then◌else◌,
}

-- A number as text: ordinary bytes, behind a sign or not.
pub data IsNumeral : Bytes → Type 0 where
  plain : {t : Bytes} → All IsOrdinary t → IsNumeral t
  signed : {c : ℕ} {t : Bytes} → All IsOrdinary (c ∷ t) → IsNumeral (b'-' ∷ c ∷ t)

abbrev pub IsUnescaped : ℕ → Type 0
IsUnescaped c = (c ≢ apostrophe) × (c ≢ backslash)

-- What the encoder relies on of the two formats.
pub record IsFormats {T : Type 0} (fmt : Formats T) : Type 0 where
  pub float_numeral : (w bits : ℕ) → IsNumeral (fmt.format_float w bits)
  pub time_unescaped : (t : T) → All IsUnescaped (fmt.format_time t)

-- The value holds a `[]byte`, an unwrapped map or a value that `fmt.Sprint` prints: their text is
-- taken as it is.
unfoldable mutual
  pub has_raw : {T : Type 0} → GoValue T → Bool
  has_raw (byte_slice s) = true
  has_raw (other s) = true
  has_raw (go_map text es) = true
  has_raw (pointer v) = has_raw v
  has_raw (slice xs) = has_raw_values xs
  has_raw (struct fs) = has_raw_fields fs
  has_raw (array v) = has_raw_inside v
  has_raw (tuple v) = has_raw_inside v
  has_raw (tmap v) = has_raw_inside v
  has_raw _ = false

  -- Behind a wrapper, through a pointer.
  pub has_raw_inside : {T : Type 0} → GoValue T → Bool
  has_raw_inside (slice xs) = has_raw_values xs
  has_raw_inside (struct fs) = has_raw_fields fs
  has_raw_inside (pointer v) = has_raw_inside v
  has_raw_inside (go_map text es) = has_raw_entries es
  has_raw_inside _ = false

  pub has_raw_values : {T : Type 0} → Values T → Bool
  has_raw_values nil = false
  has_raw_values (cons x xs) = has_raw x || has_raw_values xs

  pub has_raw_fields : {T : Type 0} → Fields T → Bool
  has_raw_fields end = false
  has_raw_fields (field true e v fs) = has_raw_inside v || has_raw_fields fs
  has_raw_fields (field false false v fs) = has_raw_fields fs
  has_raw_fields (field false true v fs) = has_raw v || has_raw_fields fs

  pub has_raw_entries : {T : Type 0} → Entries T → Bool
  has_raw_entries empty = false
  has_raw_entries (entry k v es) = has_raw k || (has_raw v || has_raw_entries es)

-- The text behind the first item of a list: closed, and apart from what stands before it.
pub record Tail (first : Bool) (t : Bytes) : Type 0 where
  pub closed : Closed t
  pub apart : first ≡ false → (r : Bytes) → Apart r → Apart (t ++ r)

pub Tail-nil : (first : Bool) → Tail first []
Tail-nil first = record { closed = Passes-Closed [] (Passes-ordinary [] tt); apart = λ e r a. a }

Closed-with-Tail : (b more : Bytes) → Closed b → Tail false more → Closed (b ++ more)
Closed-with-Tail b more h t = Closed-append b more h t.closed (t.apart refl)

Passes-comma : Passes comma
Passes-comma = Passes-ordinary comma (ground arith)

pub Tail-item :
    (first : Bool) (b more : Bytes)
    → Closed b
    → Tail false more
    → Tail first ((if first then [] else comma) ++ (b ++ more))
Tail-item true b more h t = record { closed = Closed-with-Tail b more h t; apart = λ e r a. cc }
Tail-item false b more h t = record {
  closed = Passes-append-Closed comma (b ++ more) Passes-comma (Closed-with-Tail b more h t);
  apart = λ e r a. omega arith;
}

ordinary_byte : (c : ℕ) → IsOrdinary c → Passes (c ∷ [])
ordinary_byte c h = Passes-ordinary (c ∷ []) (h, tt)

-- A bracketed list ends by an ordinary byte, so that anything may follow.
pub Passes-bracket :
    (l r : ℕ) (t : Bytes) → IsOrdinary l → IsOrdinary r → Tail true t → Passes (bracket l t r)
Passes-bracket l r t hl hr h =
    Passes-append (l ∷ []) (t ++ r ∷ []) (ordinary_byte l hl)
      (Closed-append-Passes t (r ∷ []) h.closed (ordinary_byte r hr) (λ s. hr.0))

All-digit-IsOrdinary : (t : Bytes) → All IsDigit t → All IsOrdinary t
All-digit-IsOrdinary [] h = tt
All-digit-IsOrdinary (c ∷ t) h = (omega arith, All-digit-IsOrdinary t h.1)

head_ordinary_ne_minus : (c : ℕ) (t : Bytes) → All IsOrdinary (c ∷ t) → Closed (b'-' ∷ c ∷ t)
head_ordinary_ne_minus c t h =
    Passes-Closed (b'-' ∷ c ∷ t) (Passes-minus c t (h.0).3 (Passes-ordinary (c ∷ t) h))

pub IsNumeral-Closed : (t : Bytes) → IsNumeral t → Closed t
IsNumeral-Closed t (plain h) = Passes-Closed t (Passes-ordinary t h)
IsNumeral-Closed _ (signed {c} {t} h) = head_ordinary_ne_minus c t h

decimal-IsNumeral : (n : ℕ) → IsNumeral (decimal n)
decimal-IsNumeral n = plain (All-digit-IsOrdinary (decimal n) (decimal-IsDigit n))

negative-IsNumeral : (t : Bytes) → All IsDigit t → t ≢ [] → IsNumeral (b'-' ∷ t)
negative-IsNumeral [] h ne = absurd (ne refl)
negative-IsNumeral (c ∷ t) h ne = signed (All-digit-IsOrdinary (c ∷ t) h)

pub decimal_ℤ-IsNumeral : (z : ℤ) → IsNumeral (decimal_ℤ z)
decimal_ℤ-IsNumeral (pos n) = decimal-IsNumeral n
decimal_ℤ-IsNumeral (negsuc n) =
    negative-IsNumeral (decimal (suc n)) (decimal-IsDigit (suc n)) (decimal-ne-nil (suc n))

pub escape_unescaped : (s : Bytes) → All IsUnescaped s → escape s ≡ s
unfolding escape
escape_unescaped [] h = refl
escape_unescaped (c ∷ s) h = ground (arith, escape_unescaped s h.1)

-- ===== src/Values/Reads.antt =====
-- Numbers, arrays and tuples are read from the text that they are written as.
use lake_go.Prelude.{
  ◌≤◌, ◌≡◌, refl, ◌<◌, arith, ℕ, zero, suc, Bool, true, false, ◌==◌, Option, none, some, List, [],
  ◌∷◌, ◌++◌, length, length-append, append_assoc, All,
}
use lake_go.Prelude.Result.{ok}
use lake_go.Values.Scanner.{Scanner, Runes, read, unread, read_number, ends_number}
use lake_go.Values.Parser.{
  BitSize, f64, DataValue, DataValues, DataParser, DataParsers, ValueLib, Parsed,
}
use lake_go.Values.Parse.{
  parse, tuple_fields, has_type, have_types, is_nil, is_null_parser, expect, skip_comma, array_loop,
  fuel_of,
}

-- What may stand behind a value: the end, or a rune that ends a number.
pub data IsStop : Runes → Type 0 where
  at_end : IsStop []
  at_rune : {c : ℕ} {rest : Runes} → ends_number c ≡ true → IsStop (c ∷ rest)

-- A rune of a number.
abbrev pub IsPlain : ℕ → Type 0
IsPlain c = ((c == 0) ≡ false) × (ends_number c ≡ false)

ends-nonzero : (c : ℕ) → ends_number c ≡ true → (c == 0) ≡ false
unfolding ends_number
ends-nonzero c h = ground arith

read_number-stop :
    (rest : Runes) → IsStop rest → read_number rest ≡ ([], record { rest = rest; last = none })
unfolding read_number unread
read_number-stop [] at_end = refl
read_number-stop (c ∷ rest) (at_rune h) = rw (ends-nonzero c h, h)

pub read_number-append :
    (t rest : Runes)
    → All IsPlain t
    → IsStop rest
    → read_number (t ++ rest) ≡ (t, record { rest = rest; last = none })
unfolding read_number
read_number-append [] rest plain stop = read_number-stop rest stop
read_number-append (c ∷ t) rest ((z, e), plain) stop =
    rw (z, e, read_number-append t rest plain stop)

-- A parser reads a text as a value, whatever stands behind it.
pub Reads : {F T E : Type 0} → (Scanner → Parsed F T E) → Runes → DataValue F T → Type 0
Reads p t v =
    (last : Option ℕ) (rest : Runes)
    → IsStop rest
    → (last' : Option ℕ) × (p (record { rest = t ++ rest; last = last })
        ≡ ok (v, record { rest = rest; last = last' }))

-- Values with a comma before each.
abbrev pub commas : List Runes → Runes
commas [] = []
commas (t ∷ ts) = b',' ∷ t ++ commas ts

abbrev pub joined : List Runes → Runes
joined [] = []
joined (t ∷ ts) = t ++ commas ts

-- The texts of elements, and their values; an element does not look like the end of the array.
pub data ReadsAll {F T E : Type 0} (p : Scanner → Parsed F T E)
    : List Runes → DataValues F T → Type 0 where
  no_elements : ReadsAll p [] DataValues.empty
  element :
      {c : ℕ} {t : Runes} {ts : List Runes} {v : DataValue F T} {vs : DataValues F T}
      → (c == b']') ≡ false
      → is_nil v ≡ false
      → Reads p (c ∷ t) v
      → ReadsAll p ts vs
      → ReadsAll p ((c ∷ t) ∷ ts) (DataValues.more v vs)

commas-IsStop :
    (ts : List Runes) (c : ℕ) (rest : Runes) → ends_number c ≡ true → IsStop (commas ts ++ c ∷ rest)
unfolding ends_number
commas-IsStop [] c rest h = at_rune h
commas-IsStop (t ∷ ts) c rest h = at_rune refl

module _ {Z F T E : Type 0} (std : ValueLib Z F T E) where
  -- A number is read from a text that strconv reads.
  pub number-Reads :
      (signed : Bool) (size : BitSize) (t : Runes) (f : F)
      → All IsPlain t
      → std.parse_float f64 t ≡ ok f
      → Reads (parse std (DataParser.int signed size)) t (DataValue.int signed size f)
  unfolding Reads parse
  number-Reads signed size t f plain h last rest stop =
      (none, rw (read_number-append t rest plain stop, h))

  -- A turn of the loop of an array, at an element.
  array_loop-element :
      (p : Scanner → Parsed F T E) (nulls : Bool) {c : ℕ} {text : Runes} {v : DataValue F T}
      {vs : DataValues F T} {s' end : Scanner} (n : ℕ) (last : Option ℕ)
      → (c == b']') ≡ false
      → is_nil v ≡ false
      → p (record { rest = c ∷ text; last = none }) ≡ ok (v, s')
      → array_loop std nulls p n (skip_comma s') ≡ ok (vs, end)
      → array_loop std nulls p (suc n) (record { rest = c ∷ text; last = last })
        ≡ ok (DataValues.more v vs, end)
  unfolding array_loop read unread
  array_loop-element p nulls n last x y r h = rw (x, r, h, y)

  array_loop-commas :
      (p : Scanner → Parsed F T E) (nulls : Bool) (n : ℕ) (last : Option ℕ) (rest : Runes)
      {ts : List Runes} {vs : DataValues F T}
      → ReadsAll p ts vs
      → length ts < n
      → array_loop std nulls p n
          (skip_comma (record { rest = commas ts ++ b']' ∷ rest; last = last }))
        ≡ ok (vs, record { rest = b']' ∷ rest; last = none })
  unfolding array_loop read unread skip_comma Reads ends_number
  array_loop-commas p nulls zero last rest all h = absurd (omega (arith, h))
  array_loop-commas p nulls (suc n) last rest no_elements h = refl
  array_loop-commas p nulls (suc n) last rest (element {c} {t} {ts} x y r all) h =
      let (last', e) = r none (commas ts ++ b']' ∷ rest) (commas-IsStop ts b']' rest refl) in
      rw (append_assoc t (commas ts) (b']' ∷ rest)) (
        array_loop-element p nulls n (some b',') x y e
          (array_loop-commas p nulls n last' rest all (omega (arith, h))))

  array_loop-joined :
      (p : Scanner → Parsed F T E) (nulls : Bool) (n : ℕ) (last : Option ℕ) (rest : Runes)
      {ts : List Runes} {vs : DataValues F T}
      → ReadsAll p ts vs
      → length ts < n
      → array_loop std nulls p n (record { rest = joined ts ++ b']' ∷ rest; last = last })
        ≡ ok (vs, record { rest = b']' ∷ rest; last = none })
  unfolding array_loop read unread Reads ends_number
  array_loop-joined p nulls zero last rest all h = absurd (omega (arith, h))
  array_loop-joined p nulls (suc n) last rest no_elements h = refl
  array_loop-joined p nulls (suc n) last rest (element {c} {t} {ts} x y r all) h =
      let (last', e) = r none (commas ts ++ b']' ∷ rest) (commas-IsStop ts b']' rest refl) in
      rw (append_assoc t (commas ts) (b']' ∷ rest)) (
        array_loop-element p nulls n last x y e
          (array_loop-commas p nulls n last' rest all (omega (arith, h))))

  commas-length : (ts : List Runes) (rest : Runes) → length ts ≤ length (commas ts ++ rest)
  commas-length [] rest = omega arith
  commas-length (t ∷ ts) rest =
      rw (append_assoc t (commas ts) rest)
        (omega (arith, commas-length ts rest, length-append t (commas ts ++ rest)))

  joined-length :
      (p : Scanner → Parsed F T E) {ts : List Runes} {vs : DataValues F T} (rest : Runes)
      → ReadsAll p ts vs
      → length ts ≤ length (joined ts ++ rest)
  joined-length p rest no_elements = omega arith
  joined-length p rest (element {c} {t} {ts} x y r all) =
      rw (append_assoc t (commas ts) rest)
        (omega (arith, commas-length ts rest, length-append t (commas ts ++ rest)))

  -- An array is read from the texts of its elements, with commas between them and in brackets, where
  -- the text ends or a rune follows that ends a number. Each element is read from its text wherever such a
  -- rune follows it. No element is nil or starts with a closing bracket, and the Go type of the elements
  -- exists.
  pub array-Reads :
      (arg : DataParser Z) {ts : List Runes} {vs : DataValues F T}
      → has_type arg ≡ true
      → ReadsAll (parse std arg) ts vs
      → Reads
          (parse std (DataParser.array arg))
          (b'[' ∷ joined ts ++ b']' ∷ [])
          (DataValue.array vs)
  unfolding Reads parse expect read
  array-Reads arg {ts} {vs} h all last rest stop =
      let loop =
        array_loop-joined (parse std arg) (is_null_parser arg)
          (fuel_of std (record { rest = joined ts ++ b']' ∷ rest; last = some b'[' })) (some b'[')
          rest all (omega (arith, joined-length (parse std arg) (b']' ∷ rest) all)) in
      (some b']', rw (append_assoc (joined ts) (b']' ∷ []) rest, h, loop) refl)

  -- The texts of the fields of a tuple, and their values.
  pub data ReadsFields : DataParsers Z → List Runes → DataValues F T → Type 0 where
    no_fields : ReadsFields DataParsers.empty [] DataValues.empty
    field :
        {p : DataParser Z} {ps : DataParsers Z} {t : Runes} {ts : List Runes} {v : DataValue F T}
        {vs : DataValues F T}
        → is_nil v ≡ false
        → Reads (parse std p) t v
        → ReadsFields ps ts vs
        → ReadsFields (DataParsers.more p ps) (t ∷ ts) (DataValues.more v vs)

  tuple_fields-commas :
      {ps : DataParsers Z} {ts : List Runes} {vs : DataValues F T} (last : Option ℕ) (rest : Runes)
      → ReadsFields ps ts vs
      → (last' : Option ℕ) × (tuple_fields std false ps
            (record { rest = commas ts ++ b')' ∷ rest; last = last })
          ≡ ok (vs, record { rest = b')' ∷ rest; last = last' }))
  unfolding parse tuple_fields expect read Reads ends_number
  tuple_fields-commas last rest no_fields = (last, refl)
  tuple_fields-commas last rest (field {p} {ps} {t} {ts} y r all) =
      let (l, e) = r (some b',') (commas ts ++ b')' ∷ rest) (commas-IsStop ts b')' rest refl) in
      let (l', e') = tuple_fields-commas l rest all in
      (l', rw (append_assoc t (commas ts) (b')' ∷ rest), e, e', y))

  -- A tuple is read from the texts of its fields, with commas between them and in parentheses,
  -- where the text ends or a rune follows that ends a number. Each field is read from its text wherever such
  -- a rune follows it. No field is nil, and the Go types of the fields exist.
  pub tuple-Reads :
      (args : DataParsers Z) {ts : List Runes} {vs : DataValues F T}
      → have_types args ≡ true
      → ReadsFields args ts vs
      → Reads
          (parse std (DataParser.tuple args))
          (b'(' ∷ joined ts ++ b')' ∷ [])
          (DataValue.tuple vs)
  unfolding Reads parse tuple_fields expect read ends_number
  tuple-Reads args h no_fields last rest stop = (some b')', rw h refl)
  tuple-Reads args h (field {p} {ps} {t} {ts} y r all) last rest stop =
      let (l, e) = r (some b'(') (commas ts ++ b')' ∷ rest) (commas-IsStop ts b')' rest refl) in
      let (l', e') = tuple_fields-commas l rest all in
      (
        some b')',
        rw
            (
              append_assoc (t ++ commas ts) (b')' ∷ []) rest,
              append_assoc t (commas ts) (b')' ∷ rest),
              h,
              e,
              e',
              y,
            )
            refl,
      )

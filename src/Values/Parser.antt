-- ===== src/Values/Parser.antt =====
-- valueparser.go: the parsers of values, `Parse` and `Type`. A value of Go's `reflect` is a value of the
-- data type `DataValue`: what it panics on is written out.
use lake_go.Prelude.{
  ℕ, Bool, true, false, not, ◌&&◌, ◌||◌, ◌==◌, none, some, [], ◌∷◌, ◌++◌, if◌then◌else◌, length,
  Bytes, codes, bytes_eq,
}
use lake_go.Prelude.Decimal.{ℤ}
use lake_go.Prelude.Result.{Result, ok, err}
use lake_go.Values.Scanner.{
  Scanner, Runes, Read, ParseError, bad_escape, escaped, read_raw, read_number, escape_rune,
  prepend,
}

pub data BitSize : Type 0 where
  b8 b16 b32 b64 : BitSize

pub data FloatSize : Type 0 where
  f32 f64 : FloatSize

-- `driver.Value` as the parsers make it, over the floats `F` and the instants `T`. A map is the list of
-- its assignments, where one without a value deletes the key.
mutual
  pub data DataValue (F T : Type 0) : Type 0 where
    nil : DataValue F T
    text : Runes → DataValue F T
    bool : Bool → DataValue F T
    instant : T → DataValue F T
    -- int8(f) to uint64(f)
    int : Bool → BitSize → F → DataValue F T
    -- float32(f) and float64(f)
    float : FloatSize → F → DataValue F T
    tuple : DataValues F T → DataValue F T
    array : DataValues F T → DataValue F T
    assignments : DataValues F T → DataValues F T → DataValue F T

  pub data DataValues (F T : Type 0) : Type 0 where
    empty : DataValues F T
    more : DataValue F T → DataValues F T → DataValues F T

mutual
  pub data DataParser (Z : Type 0) : Type 0 where
    null_of : DataParser Z → DataParser Z
    string : Bool → ℤ → DataParser Z
    boolean : ℤ → DataParser Z
    -- unquote, format, location, precision
    date_time : Bool → Runes → Z → ℕ → DataParser Z
    tuple : DataParsers Z → DataParser Z
    array : DataParser Z → DataParser Z
    map : DataParser Z → DataParser Z → DataParser Z
    int : Bool → BitSize → DataParser Z
    float : FloatSize → DataParser Z
    nothing : DataParser Z
    -- the name of the inner type
    nullable : Bytes → DataParser Z → DataParser Z

  pub data DataParsers (Z : Type 0) : Type 0 where
    empty : DataParsers Z
    more : DataParser Z → DataParsers Z → DataParsers Z

-- `reflect.Type`, as far as `Parse` looks at it.
pub data GoType : Type 0 where
  string_type bool_type time_type empty_struct number_type : GoType
  -- whether `==` is defined on the values
  other_type : Bool → GoType

abbrev pub is_comparable : GoType → Bool
is_comparable (other_type b) = b
is_comparable string_type = true
is_comparable bool_type = true
is_comparable time_type = true
is_comparable empty_struct = true
is_comparable number_type = true

-- `Type`
unfoldable mutual
  pub type_of : {Z : Type 0} → DataParser Z → GoType
  type_of (null_of p) = type_of p
  type_of (string unquote length) = string_type
  type_of (boolean length) = bool_type
  type_of (date_time unquote format location precision) = time_type
  type_of (tuple args) = other_type (are_comparable args)
  type_of (array arg) = other_type false
  type_of (map key value) = other_type false
  type_of (int signed size) = number_type
  type_of (float size) = number_type
  type_of nothing = empty_struct
  type_of (nullable name p) = type_of p

  pub are_comparable : {Z : Type 0} → DataParsers Z → Bool
  are_comparable empty = true
  are_comparable (more p ps) = is_comparable (type_of p) && are_comparable ps

-- `Nullable`
pub is_nullable : {Z : Type 0} → DataParser Z → Bool
is_nullable (null_of p) = is_nullable p
is_nullable nothing = true
is_nullable (nullable name p) = true
is_nullable p = false

-- strconv, and `time.ParseInLocation`; the zero time.
pub record ValueLib (Z F T E : Type 0) : Type 0 where
  pub parse_float : FloatSize → Runes → Result E F
  pub parse_bool : Runes → Result E Bool
  pub parse_in_location : Runes → Runes → Z → Result E T
  pub zero_time : T

-- What `Parse` returns, with the scanner behind it.
abbrev pub Parsed : Type 0 → Type 0 → Type 0 → Type 0
Parsed F T E = Result (ParseError E) (DataValue F T × Scanner)

-- The loops of `nullParser` over a text, behind the first rune; a escape_rune opens an escape or not.
pub prefixed : {E : Type 0} → Runes → Result (ParseError E) Read → Result (ParseError E) Read
prefixed p (err e) = err e
prefixed p (ok (run, s)) = ok (p ++ run, s)

unfoldable pub quoted_loop : {E : Type 0} → Bool → Runes → Result (ParseError E) Read
unfolding prefixed
quoted_loop escape [] =
    if escape then err bad_escape else ok ([], record { rest = []; last = none })
quoted_loop escape (c ∷ rest) =
    let opens = not escape && c == escape_rune in
    let next = quoted_loop opens rest in
    if escape
    then (if c == 0
        then err bad_escape
        else (let e = escaped c in
            prefixed (if e == b'\'' then escape_rune ∷ e ∷ [] else e ∷ []) next))
    else if escape
    then next
    else if c == b'\''
    then ok (c ∷ [], record { rest = rest; last = some c })
    else prefixed (c ∷ []) next

pub data NullText (E : Type 0) : Type 0 where
  is_null : Scanner → NullText E
  zero_date : Scanner → NullText E
  buffer : Runes → Scanner → NullText E
  failed : ParseError E → NullText E

-- The case of a string
pub null_quoted : {E : Type 0} → Result (ParseError E) Read → NullText E
null_quoted (err e) = failed e
null_quoted (ok (run, s)) = if bytes_eq run (codes "'N'") then is_null s else buffer run s

pub buffered : {E : Type 0} → Read → NullText E
buffered (run, s) = buffer run s

unfoldable pub null_string : {E : Type 0} → Runes → NullText E
unfolding null_quoted buffered
null_string [] = buffer [] (record { rest = []; last = none })
null_string (c ∷ rest) =
    if c == b'\''
    then null_quoted (prefixed (c ∷ []) (quoted_loop false rest))
    else buffered (read_raw (c ∷ rest))

-- The case of an instant
unfoldable pub time_loop : Runes → Read
time_loop [] = ([], record { rest = []; last = none })
time_loop (c ∷ rest) =
    let next = time_loop rest in
    let here : Scanner = record { rest = rest; last = some c } in
    if c == b'\'' then (c ∷ [], here) else prepend c next

pub time_text : Runes → Read
time_text [] = time_loop []
time_text (c ∷ rest) = prepend c (time_loop rest)

pub null_time : {E : Type 0} → Read → NullText E
null_time (run, s) =
    if bytes_eq run (codes "0000-00-00") || bytes_eq run (codes "0000-00-00 00:00:00")
    then zero_date s
    else if bytes_eq run (codes "'\\N'")
    then is_null s
    else buffer run s

-- The switch of `nullParser.Parse` on the type
unfoldable pub null_input : {E : Type 0} → GoType → Scanner → NullText E
unfolding null_time buffered
null_input number_type s = buffered (read_number s.rest)
null_input string_type s = null_string s.rest
null_input time_type s = null_time (time_text s.rest)
null_input bool_type s = buffered (read_raw s.rest)
null_input empty_struct s = buffered (read_raw s.rest)
null_input (other_type b) s = buffered (read_raw s.rest)

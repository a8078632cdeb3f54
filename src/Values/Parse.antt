-- ===== src/Values/Parse.antt =====
-- valueparser.go: `Parse` of each parser. Loops of arrays and maps are on fuel.
pub mod Ends
use lake_go.Prelude.{
  ℕ, zero, suc, ◌+◌, Bool, true, false, not, ◌&&◌, ◌==◌, Option, none, some, [], ◌∷◌, if◌then◌else◌,
  length, Bytes, codes, bytes_eq,
}
use lake_go.Prelude.Decimal.{ℤ}
use lake_go.Prelude.Result.{Result, ok, err, ◌>>=◌, map_err}
use lake_go.Values.Scanner.{
  Scanner, Runes, Read, ParseError, unexpected, nil_element, lib, wrapped, panic, out_of_fuel, read,
  unread, read_number, read_unquoted, read_string, peak_null,
}
use lake_go.Values.Parser.{
  FloatSize, f64, DataValue, DataValues, DataParser, DataParsers, type_of, is_comparable, ValueLib,
  Parsed, NullText, null_input,
}

-- Whether `Type` returns; `reflect.MapOf` panics where `==` is not defined on the keys.
unfoldable mutual
  pub has_type : {Z : Type 0} → DataParser Z → Bool
  has_type (DataParser.null_of p) = has_type p
  has_type (DataParser.string unquote length) = true
  has_type (DataParser.boolean length) = true
  has_type (DataParser.date_time unquote format location precision) = true
  has_type (DataParser.tuple args) = have_types args
  has_type (DataParser.array arg) = has_type arg
  has_type (DataParser.map key value) =
      has_type key && (is_comparable (type_of key) && has_type value)
  has_type (DataParser.int signed size) = true
  has_type (DataParser.float size) = true
  has_type DataParser.nothing = true
  has_type (DataParser.nullable name p) = has_type p

  pub have_types : {Z : Type 0} → DataParsers Z → Bool
  have_types DataParsers.empty = true
  have_types (DataParsers.more p ps) = has_type p && have_types ps

-- `reflect.TypeOf(p.arg) == reflect.TypeOf(&nullParser{})`
pub is_null_parser : {Z : Type 0} → DataParser Z → Bool
is_null_parser (DataParser.null_of p) = true
is_null_parser p = false

abbrev pub is_nil : {F T : Type 0} → DataValue F T → Bool
is_nil DataValue.nil = true
is_nil v = false

-- strings.Index(format, ".")
pub index_dot : Runes → Option ℕ
index_dot [] = none
index_dot (c ∷ s) = elim (index_dot s) [
  | none ↦ if c == b'.' then some 0 else none
  | some i ↦ if c == b'.' then some 0 else some (suc i)
]

-- str[:strings.Index(str, " ")], or str
pub before_space : Runes → Runes
before_space [] = []
before_space (c ∷ s) = let rest = before_space s in if c == b' ' then [] else c ∷ rest

date_time_length : Runes → ℕ → Option ℕ → ℕ
date_time_length format zero dot = length format
date_time_length format (suc n) none = length format
date_time_length format (suc n) (some i) = i + suc n + 1

-- `if r := read(s); r != ',' { s.UnreadRune() }`
unfoldable pub skip_comma : Scanner → Scanner
skip_comma s = let (r, s') = read s in if r == b',' then s' else unread s'

-- A rune that must come next.
unfoldable pub expect : {E : Type 0} → ℕ → Scanner → Result (ParseError E) Scanner
expect c s = let (r, s') = read s in if r == c then ok s' else err (unexpected r)

module _ {Z F T E : Type 0} (std : ValueLib Z F T E) where
  -- The elements of an array, or the assignments of a map.
  abbrev pub Elements : Type 0
  Elements = Result (ParseError E) (DataValues F T × Scanner)

  abbrev pub add_element : Bool → DataValue F T → Elements → Elements
  add_element nulls v (err e) = err e
  add_element nulls v (ok (vs, s)) = if is_nil v then ok (vs, s) else ok (DataValues.more v vs, s)

  abbrev pub after_element : Bool → (Scanner → Elements) → Parsed F T E → Elements
  after_element nulls again (err e) = err (wrapped e)
  after_element nulls again (ok (v, s)) =
      if is_nil v && not nulls then err nil_element else add_element nulls v (again (skip_comma s))

  -- The loop of `arrayParser.Parse`
  unfoldable pub array_loop : Bool → (Scanner → Parsed F T E) → ℕ → Scanner → Elements
  array_loop nulls element zero s = err out_of_fuel
  array_loop nulls element (suc n) s =
      let again = array_loop nulls element n in
      let (r, s1) = read s in
      let s2 = unread s1 in
      if r == b']' then ok (DataValues.empty, s2) else after_element nulls again (element s2)

  abbrev pub array_end : Elements → Parsed F T E
  array_end (err e) = err e
  array_end (ok (vs, s)) = expect b']' s >>= λ s'. ok (DataValue.array vs, s')

  -- The fields of a tuple, or the keys and values of a map.
  abbrev pub Assignments : Type 0
  Assignments = Result (ParseError E) ((DataValues F T × DataValues F T) × Scanner)

  abbrev pub add_entry : DataValue F T → DataValue F T → Assignments → Assignments
  add_entry k v (err e) = err e
  add_entry k v (ok ((ks, vs), s)) = ok ((DataValues.more k ks, DataValues.more v vs), s)

  abbrev pub after_value : (Scanner → Assignments) → DataValue F T → Parsed F T E → Assignments
  after_value again k (err e) = err (wrapped e)
  after_value again k (ok (v, s)) =
      if is_nil k then err panic else add_entry k v (again (skip_comma s))

  abbrev pub after_key :
      (Scanner → Parsed F T E) → (Scanner → Assignments) → Parsed F T E → Assignments
  after_key value again (err e) = err (wrapped e)
  after_key value again (ok (k, s)) = expect b':' s >>= λ s'. after_value again k (value s')

  -- The loop of `mapParser.Parse`
  unfoldable pub map_loop :
      (Scanner → Parsed F T E) → (Scanner → Parsed F T E) → ℕ → Scanner → Assignments
  map_loop key value zero s = err out_of_fuel
  map_loop key value (suc n) s =
      let again = map_loop key value n in
      let (r, s1) = read s in
      let s2 = unread s1 in
      if r == b'}'
      then ok ((DataValues.empty, DataValues.empty), s2)
      else after_key value again (key s2)

  abbrev pub map_end : Assignments → Parsed F T E
  map_end (err e) = err e
  map_end (ok ((ks, vs), s)) = expect b'}' s >>= λ s'. ok (DataValue.assignments ks vs, s')

  -- `rStruct.Field(i).Set(reflect.ValueOf(v))`, which panics on nil
  abbrev pub after_field : (Scanner → Elements) → Parsed F T E → Elements
  after_field again (err e) = err (wrapped e)
  after_field again (ok (v, s)) = if is_nil v then err panic else add_element false v (again s)

  abbrev pub tuple_end : Elements → Parsed F T E
  tuple_end (err e) = err e
  tuple_end (ok (vs, s)) = expect b')' s >>= λ s'. ok (DataValue.tuple vs, s')

  number : (F → DataValue F T) → FloatSize → Read → Parsed F T E
  number make size (repr, s) = map_err lib (std.parse_float size repr) >>= λ f. ok (make f, s)

  bool_value : Result (ParseError E) Read → Parsed F T E
  bool_value (err e) = err (wrapped e)
  bool_value (ok (repr, s)) = map_err lib (std.parse_bool repr) >>= λ b. ok (DataValue.bool b, s)

  text_value : Result (ParseError E) Read → Parsed F T E
  text_value (err e) = err e
  text_value (ok (str, s)) = ok (DataValue.text str, s)

  instant_value : Runes → Z → Result (ParseError E) Read → Parsed F T E
  instant_value format location (err e) = err (wrapped e)
  instant_value format location (ok (str, s)) =
      if bytes_eq (before_space str) (codes "0000-00-00")
      then ok (DataValue.instant std.zero_time, s)
      else map_err lib (std.parse_in_location format str location) >>= λ t.
          ok (DataValue.instant t, s)

  -- The value is read from a buffer of its own.
  inner_value : Scanner → Parsed F T E → Parsed F T E
  inner_value s (err e) = err e
  inner_value s (ok (v, s')) = ok (v, s)

  null_value : (Scanner → Parsed F T E) → NullText E → Parsed F T E
  null_value inner (NullText.failed e) = err e
  null_value inner (NullText.is_null s) = ok (DataValue.nil, s)
  null_value inner (NullText.zero_date s) = ok (DataValue.instant std.zero_time, s)
  null_value inner (NullText.buffer run s) =
      if bytes_eq run (codes "\\N")
      then ok (DataValue.nil, s)
      else inner_value s (inner (record { rest = run; last = none }))

  nullable_value : Bytes → (Scanner → Parsed F T E) → Scanner → Parsed F T E
  nullable_value name inner s =
      if bytes_eq name (codes "String")
      then inner s
      else (let (null, s') = peak_null s in if null then ok (DataValue.nil, s') else inner s')

  -- A call of `Type` before the rest.
  typed : Bool → Parsed F T E → Parsed F T E
  typed true r = r
  typed false r = err panic

  -- The fuel of a loop: a turn reads a rune.
  abbrev pub fuel_of : Scanner → ℕ
  fuel_of s = suc (length s.rest)

  array_from : Bool → (Scanner → Parsed F T E) → Scanner → Parsed F T E
  array_from nulls element s = array_end (array_loop nulls element (fuel_of s) s)

  map_from : (Scanner → Parsed F T E) → (Scanner → Parsed F T E) → Scanner → Parsed F T E
  map_from key value s = map_end (map_loop key value (fuel_of s) s)

  -- `Parse`
  unfoldable mutual
    unfolding typed inner_value null_value text_value bool_value date_time_length instant_value
        array_from map_from number nullable_value

    pub parse : DataParser Z → Scanner → Parsed F T E
    parse (DataParser.null_of p) s =
        typed (has_type p) (null_value (parse p) (null_input (type_of p) s))
    parse (DataParser.string unquote length) s = text_value (read_string length unquote s)
    parse (DataParser.boolean length) s = bool_value (read_unquoted length s)
    parse (DataParser.date_time unquote format location precision) s =
        let l = date_time_length format precision (index_dot format) in
        instant_value format location (read_string (ℤ.pos l) unquote s)
    parse (DataParser.tuple args) s =
        expect b'(' s >>= λ s'. typed (have_types args) (tuple_end (tuple_fields true args s'))
    parse (DataParser.array arg) s =
        let element = parse arg in
        expect b'[' s >>= λ s'. typed (has_type arg) (array_from (is_null_parser arg) element s')
    parse (DataParser.map key value) s =
        let k = parse key in
        let v = parse value in
        expect b'{' s >>= λ s'. typed (has_type (DataParser.map key value)) (map_from k v s')
    parse (DataParser.int signed size) s =
        number (DataValue.int signed size) f64 (read_number s.rest)
    parse (DataParser.float size) s = number (DataValue.float size) size (read_number s.rest)
    parse DataParser.nothing s = ok (DataValue.nil, s)
    parse (DataParser.nullable name p) s = nullable_value name (parse p) s

    pub tuple_fields : Bool → DataParsers Z → Scanner → Elements
    tuple_fields first DataParsers.empty s = ok (DataValues.empty, s)
    tuple_fields first (DataParsers.more p ps) s =
        let field = parse p in
        let again = tuple_fields false ps in
        (if first then ok s else expect b',' s) >>= λ s'. after_field again (field s')

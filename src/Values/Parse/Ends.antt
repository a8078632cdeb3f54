-- ===== src/Values/Parse/Ends.antt =====
-- Each parser that stands in an array, a tuple or a map reads a rune, returns nil or fails.
use lake_go.Values.Scanner.{
  string_failed, Scanner, Runes, Read, ParseError, read_number, read_unquoted, read_string,
  peak_null,
}
use lake_go.Values.Total.{
  Leaves-weaken, is_built, is_element, are_elements, RefusesEmpty, Good, reads, is_null, refuses,
  both, Left-Good, array_loop-Leaves, map_loop-Leaves, after_field-Leaves, array_end-Good,
  map_end-Good, tuple_end-Good,
}
use lake_go.Prelude.{
  map, ◌≡◌, refl, ◌≤◌, ◌<◌, arith, ℕ, zero, suc, ◌+◌, Bool, true, false, not, ◌&&◌, Option, none,
  some, List, [], ◌∷◌, inl, inr, Bool-cases, if_both, if◌then◌else◌, Bytes, codes, bytes_eq, length,
}
use lake_go.Prelude.Decimal.{ℤ}
use lake_go.Prelude.Result.{Result, ok, err, Result-cases, ◌>>=◌}
use lake_go.Values.Parser.{FloatSize, f64, DataValue, DataParser, DataParsers, ValueLib, Parsed}
use lake_go.Values.Parse.{
  parse, tuple_fields, has_type, have_types, is_null_parser, expect, number, bool_value, text_value,
  instant_value, nullable_value, typed, array_from, map_from, date_time_length, index_dot, Elements,
  before_space,
}
use lake_go.Values.Fails.{Fails, fails}
use lake_go.Values.Length.{
  runs_out, size, Leaves, leaves, stops, ReadWithin, read_within, read_stops,
  read_unquoted-ReadWithin, read_string-Leaves, read_number-size, expect-size, peak_null-size,
}

-- A call that does not fail for want of fuel.
pub data Ends {F T E : Type 0} : Parsed F T E → Type 0 where
  returned : {x : DataValue F T × Scanner} → Ends (ok x)
  refused : {e : ParseError E} → runs_out e ≡ false → Ends (err e)

pub Ends-err :
    {F T E : Type 0} {r : Parsed F T E} {e : ParseError E} → Ends r → r ≡ err e → runs_out e ≡ false
Ends-err returned k = cc
Ends-err (refused h) k = cc

module _ {Z F T E : Type 0} (std : ValueLib Z F T E) (law : RefusesEmpty std) where
  Fails-ok : {A : Type 0} {r : Result E A} {a : A} → Fails r → r ≡ ok a → 0 < 0
  Fails-ok fails h = cc

  refuses-length :
      {A : Type 0} (read : Runes → Result E A) (t : Runes) (a : A)
      → Fails (read [])
      → read t ≡ ok a
      → 0 < length t
  refuses-length read [] a f h = Fails-ok f h
  refuses-length read (c ∷ t) a f h = omega arith

  number-Good :
      (make : F → DataValue F T) (bits : FloatSize) (s : Scanner)
      → Good (size s) (number std make bits (read_number s.rest))
  unfolding number runs_out
  number-Good make bits s = elim (Result-cases (std.parse_float bits (read_number s.rest).0)) [
    | inl (f, h) ↦ rw h (
        reads (
          omega (
            arith,
            read_number-size s.rest,
            refuses-length (std.parse_float bits) (read_number s.rest).0 f (law.no_float bits) h,
          )))
    | inr (e, h) ↦ rw h (refuses refl)
  ]

  bool_value-Good :
      (n : ℕ) (r : Result (ParseError E) Read) → ReadWithin 0 n r → Good n (bool_value std r)
  unfolding bool_value runs_out
  bool_value-Good n (err e) (read_stops h) = refuses h
  bool_value-Good n (ok (t, s)) (read_within h) = elim (Result-cases (std.parse_bool t)) [
    | inl (b, k) ↦ rw k (reads (omega (arith, h, refuses-length std.parse_bool t b law.no_bool k)))
    | inr (e, k) ↦ rw k (refuses refl)
  ]

  text_value-Good :
      (n : ℕ) (r : Result (ParseError E) Read) → Leaves 1 n r → Good n (text_value std r)
  unfolding text_value
  text_value-Good n (err e) (stops h) = refuses h
  text_value-Good n (ok (t, s)) (leaves h) = reads (omega (arith, h))

  instant_value-Good :
      (format : Runes) (location : Z) (n : ℕ) (r : Result (ParseError E) Read)
      → Leaves 1 n r
      → Good n (instant_value std format location r)
  unfolding instant_value runs_out
  instant_value-Good format location n (err e) (stops h) = refuses h
  instant_value-Good format location n (ok (t, s)) (leaves h) =
      if_both (Good n) (bytes_eq (before_space t) (codes "0000-00-00")) (reads (omega (arith, h)))
        (elim (Result-cases (std.parse_in_location format t location)) [
          | inl (i, k) ↦ rw k (reads (omega (arith, h)))
          | inr (e, k) ↦ rw k (refuses refl)
        ])

  typed-Good : (b : Bool) (n : ℕ) (r : Parsed F T E) → Good n r → Good n (typed std b r)
  unfolding typed runs_out
  typed-Good true n r h = h
  typed-Good false n r h = refuses refl

  nullable_value-Good :
      (name : Bytes) (p : Scanner → Parsed F T E) (s : Scanner)
      → ((s : Scanner) → Good (size s) (p s))
      → Good (size s) (nullable_value std name p s)
  unfolding nullable_value
  nullable_value-Good name p s good =
      if_both (Good (size s)) (bytes_eq name (codes "String")) (good s) (
        if_both (Good (size s)) (peak_null s).0 (is_null (peak_null-size s))
          (weaken (p (peak_null s).1) (good (peak_null s).1)))
    where
      weaken : (r : Parsed F T E) → Good (size (peak_null s).1) r → Good (size s) r
      weaken (err e) (refuses h) = refuses h
      weaken (ok (DataValue.nil, t)) (is_null h) = is_null (omega (arith, h, peak_null-size s))
      weaken (ok (v, t)) (reads h) = reads (omega (arith, h, peak_null-size s))

  -- The open bracket of an array, a tuple or a map, and what follows it.
  expect-Good :
      (c : ℕ) (s : Scanner) (next : Scanner → Parsed F T E)
      → (lake_go.Prelude.◌==◌ c 0) ≡ false
      → ((t : Scanner) → Good (suc (size t)) (next t))
      → Good (size s) (expect c s >>= next)
  expect-Good c s next z good = elim (expect-size {E = E} c s z) [
    | inl (t, e, l) ↦ rw e (weaken t l (next t) (good t))
    | inr (x, e, q) ↦ rw e (refuses q)
  ]
    where
      weaken :
          (t : Scanner)
          → 1 + size t ≤ size s
          → (r : Parsed F T E) → Good (suc (size t)) r
          → Good (size s) r
      weaken t l (err e) (refuses h) = refuses h
      weaken t l (ok (DataValue.nil, u)) (is_null h) = is_null (omega (arith, l, h))
      weaken t l (ok (v, u)) (reads h) = reads (omega (arith, l, h))

  element-not_null : (p : DataParser Z) → is_element p ≡ true → is_null_parser p ≡ false
  unfolding is_element is_null_parser
  element-not_null (DataParser.null_of p) h = cc
  element-not_null (DataParser.string unquote length) h = refl
  element-not_null (DataParser.boolean length) h = refl
  element-not_null (DataParser.date_time unquote format location precision) h = refl
  element-not_null (DataParser.tuple args) h = refl
  element-not_null (DataParser.array arg) h = refl
  element-not_null (DataParser.map key value) h = refl
  element-not_null (DataParser.int signed bits) h = refl
  element-not_null (DataParser.float bits) h = refl
  element-not_null DataParser.nothing h = refl
  element-not_null (DataParser.nullable name p) h = refl

  array_from-Good :
      (nulls : Bool) (p : Scanner → Parsed F T E)
      → nulls ≡ false
      → ((s : Scanner) → Good (size s) (p s))
      → (s : Scanner) → Good (suc (size s)) (array_from std nulls p s)
  unfolding array_from
  array_from-Good nulls p h good s =
      rw h (
        array_end-Good std (size s) _ (array_loop-Leaves std p good (suc (size s)) s (omega arith)))

  map_from-Good :
      (key value : Scanner → Parsed F T E)
      → ((s : Scanner) → Good (size s) (key s))
      → ((s : Scanner) → Good (size s) (value s))
      → (s : Scanner) → Good (suc (size s)) (map_from std key value s)
  unfolding map_from
  map_from-Good key value gk gv s = map_end-Good std (size s) _ (
      map_loop-Leaves std key value (λ t. Left-Good (size t) _ (gk t))
        (λ t. Left-Good (size t) _ (gv t)) (suc (size s)) s (omega arith))

  comma-Leaves :
      (first : Bool) (s : Scanner) (next : Scanner → Elements std)
      → ((t : Scanner) → Leaves 0 (size t) (next t))
      → Leaves 0 (size s) ((if first then ok s else expect b',' s) >>= next)
  comma-Leaves true s next more = more s
  comma-Leaves false s next more = elim (expect-size {E = E} b',' s refl) [
    | inl (t, e, l) ↦ rw e (Leaves-weaken (size t) (size s) (next t) (omega (arith, l)) (more t))
    | inr (x, e, q) ↦ rw e (stops q)
  ]

  -- A parser of an element reads a rune, returns nil or fails for a reason of its own.
  mutual
    unfolding parse tuple_fields is_element are_elements

    pub parse-Good :
        (p : DataParser Z) → is_element p ≡ true → (s : Scanner) → Good (size s) (parse std p s)
    parse-Good (DataParser.null_of p) h s = cc
    parse-Good (DataParser.string true len) h s =
        text_value-Good (size s) _ (read_string-Leaves len s)
    parse-Good (DataParser.string false len) h s = cc
    parse-Good (DataParser.boolean len) h s =
        bool_value-Good (size s) _ (read_unquoted-ReadWithin len s)
    parse-Good (DataParser.date_time true format location precision) h s =
        let l = ℤ.pos (date_time_length format precision (index_dot format)) in
        instant_value-Good format location (size s) _ (read_string-Leaves l s)
    parse-Good (DataParser.date_time false format location precision) h s = cc
    parse-Good (DataParser.tuple args) h s = expect-Good b'(' s _ refl (λ t.
        typed-Good (have_types args) (suc (size t)) _
          (tuple_end-Good std (size t) _ (tuple_fields-Leaves args h true t)))
    parse-Good (DataParser.array arg) h s = expect-Good b'[' s _ refl (λ t.
        typed-Good (has_type arg) (suc (size t)) _ (
          array_from-Good (is_null_parser arg) (parse std arg) (element-not_null arg h)
            (parse-Good arg h) t))
    parse-Good (DataParser.map key value) h s =
        let (hk, hv) = both (is_element key) (is_element value) h in
        expect-Good b'{' s _ refl (λ t.
          typed-Good (has_type (DataParser.map key value)) (suc (size t)) _ (
            map_from-Good (parse std key) (parse std value) (parse-Good key hk)
              (parse-Good value hv) t))
    parse-Good (DataParser.int signed bits) h s = number-Good (DataValue.int signed bits) f64 s
    parse-Good (DataParser.float bits) h s = number-Good (DataValue.float bits) bits s
    parse-Good DataParser.nothing h s = is_null (omega arith)
    parse-Good (DataParser.nullable name p) h s =
        nullable_value-Good name (parse std p) s (parse-Good p h)

    tuple_fields-Leaves :
        (ps : DataParsers Z)
        → are_elements ps ≡ true
        → (first : Bool) (s : Scanner) → Leaves 0 (size s) (tuple_fields std first ps s)
    tuple_fields-Leaves DataParsers.empty h first s = leaves (omega arith)
    tuple_fields-Leaves (DataParsers.more p ps) h first s =
        let (hp, hs) = both (is_element p) (are_elements ps) h in
        comma-Leaves first s _ (λ t.
          after_field-Leaves std (tuple_fields std false ps) (size t) (parse std p t)
            (tuple_fields-Leaves ps hs false) (Left-Good (size t) _ (parse-Good p hp t)))

  pub Good-Ends : (n : ℕ) (r : Parsed F T E) → Good n r → Ends r
  Good-Ends n (err e) (refuses h) = refused h
  Good-Ends n (ok x) h = returned

  string-Ends : (r : Result (ParseError E) Read) → Ends (text_value std (string_failed r))
  unfolding text_value runs_out
  string-Ends (err e) = refused refl
  string-Ends (ok x) = returned

  date_time-Ends :
      (format : Runes) (location : Z) (r : Result (ParseError E) Read)
      → Ends (instant_value std format location (string_failed r))
  unfolding instant_value runs_out
  date_time-Ends format location (err e) = refused refl
  date_time-Ends format location (ok (t, s)) =
      if_both Ends (bytes_eq (before_space t) (codes "0000-00-00")) returned
        (elim (Result-cases (std.parse_in_location format t location)) [
          | inl (i, k) ↦ rw k returned
          | inr (e, k) ↦ rw k (refused refl)
        ])

  pub parse-Ends : (p : DataParser Z) → is_built p ≡ true → (s : Scanner) → Ends (parse std p s)
  unfolding is_built is_element parse read_string
  parse-Ends (DataParser.null_of p) h s = cc
  parse-Ends (DataParser.string true len) h s =
      Good-Ends (size s) _ (parse-Good (DataParser.string true len) refl s)
  parse-Ends (DataParser.string false len) h s = string-Ends (read_unquoted len s)
  parse-Ends (DataParser.boolean len) h s =
      Good-Ends (size s) _ (parse-Good (DataParser.boolean len) refl s)
  parse-Ends (DataParser.date_time true format location precision) h s =
      Good-Ends (size s) _ (parse-Good (DataParser.date_time true format location precision) refl s)
  parse-Ends (DataParser.date_time false format location precision) h s =
      date_time-Ends format location
        (read_unquoted (ℤ.pos (date_time_length format precision (index_dot format))) s)
  parse-Ends (DataParser.tuple args) h s =
      Good-Ends (size s) _ (parse-Good (DataParser.tuple args) h s)
  parse-Ends (DataParser.array arg) h s =
      Good-Ends (size s) _ (parse-Good (DataParser.array arg) h s)
  parse-Ends (DataParser.map key value) h s =
      Good-Ends (size s) _ (parse-Good (DataParser.map key value) h s)
  parse-Ends (DataParser.int signed bits) h s =
      Good-Ends (size s) _ (parse-Good (DataParser.int signed bits) refl s)
  parse-Ends (DataParser.float bits) h s =
      Good-Ends (size s) _ (parse-Good (DataParser.float bits) refl s)
  parse-Ends DataParser.nothing h s = returned
  parse-Ends (DataParser.nullable name p) h s =
      if_both Ends (bytes_eq name (codes "String")) (parse-Ends p h s)
        (if_both Ends (peak_null s).0 returned (parse-Ends p h (peak_null s).1))

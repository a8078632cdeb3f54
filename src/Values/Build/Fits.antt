-- ===== src/Values/Build/Fits.antt =====
-- What kind of parser there is for a type.
use lake_go.Prelude.{
  ℕ, length, ◌≡◌, refl, Bool, true, false, Option, none, some, List, [], ◌∷◌, if_both, Bytes, codes,
  bytes_eq,
}
use lake_go.Prelude.Decimal.{ℤ}
use lake_go.Prelude.Result.{OnOk-map_err, Result, ok, err, map_err, OnOk, returns, fails, OnOk-bind}
use lake_go.Types.TypeDesc.{TypeDesc, desc, Descs, nil, cons}
use lake_go.Values.Parser.{DataParser, DataParsers, BitSize, FloatSize}
use lake_go.Values.Total.{is_element, are_elements, is_built}
use lake_go.Values.Build.{
  ParserError, BuildLib, DataParserOptions, new_data_parser, new_data_parsers, named_parser,
  number_or, container_parser, number_parser, nullable_parser, date_time64, location_of,
  array_parser, tuple_parser, map_parser, sub_parsers, fixed_string, tick_parser, wrap_nullable,
  arg_names, one_of, wrapped, text_types,
}

unfoldable pub fits : {Z : Type 0} → Bool → DataParser Z → Bool
fits true p = is_element p
fits false p = is_built p

module _ {Z E : Type 0} (std : BuildLib Z E) (opt : Option (DataParserOptions Z)) where
  Fit : Bool → Result (ParserError E) (DataParser Z) → Type 0
  Fit u r = OnOk (λ p. fits u p ≡ true) r

  AllFit : Bool → List (Result (ParserError E) (DataParser Z)) → Type 0
  AllFit u [] = Unit
  AllFit u (r ∷ rs) = OnOk (λ p. fits u p ≡ true) r × AllFit u rs

  fits-string : (u : Bool) (n : ℤ) → fits {Z = Z} u (DataParser.string u n) ≡ true
  unfolding fits is_built is_element
  fits-string true n = refl
  fits-string false n = refl

  fits-date_time :
      (u : Bool) (format : Bytes) (z : Z) (n : ℕ)
      → fits u (DataParser.date_time u format z n) ≡ true
  unfolding fits is_built is_element
  fits-date_time true format z n = refl
  fits-date_time false format z n = refl

  sub_parsers-Fit :
      (rs : List (Result (ParserError E) (DataParser Z)))
      → AllFit true rs
      → OnOk (λ ps. are_elements ps ≡ true) (sub_parsers std opt rs)
  unfolding AllFit sub_parsers are_elements fits
  sub_parsers-Fit [] h = returns refl
  sub_parsers-Fit (r ∷ rs) (h, hs) =
      OnOk-bind _ (OnOk-map_err wrapped h)
        (λ p k. OnOk-bind _ (sub_parsers-Fit rs hs) (λ ps ks. returns (rw (k, ks))))

  fits-array :
      (u : Bool) (p : DataParser Z) → is_element p ≡ true → fits u (DataParser.array p) ≡ true
  unfolding fits is_built is_element
  fits-array true p h = h
  fits-array false p h = h

  fits-tuple :
      (u : Bool) (ps : DataParsers Z) → are_elements ps ≡ true → fits u (DataParser.tuple ps) ≡ true
  unfolding fits is_built is_element
  fits-tuple true ps h = h
  fits-tuple false ps h = h

  fits-map :
      (u : Bool) (k v : DataParser Z)
      → is_element k ≡ true
      → is_element v ≡ true
      → fits u (DataParser.map k v) ≡ true
  unfolding fits is_built is_element
  fits-map true k v h h' = rw (h, h')
  fits-map false k v h h' = rw (h, h')

  fits-nullable :
      (u : Bool) (name : Bytes) (p : DataParser Z)
      → fits u p ≡ true
      → fits u (DataParser.nullable name p) ≡ true
  unfolding fits is_built is_element
  fits-nullable true name p h = h
  fits-nullable false name p h = h

  fits-boolean : (u : Bool) (n : ℤ) → fits {Z = Z} u (DataParser.boolean n) ≡ true
  unfolding fits is_built is_element
  fits-boolean true n = refl
  fits-boolean false n = refl

  fits-nothing : (u : Bool) → fits {Z = Z} u DataParser.nothing ≡ true
  unfolding fits is_built is_element
  fits-nothing true = refl
  fits-nothing false = refl

  fits-int : (u signed : Bool) (bits : BitSize) → fits {Z = Z} u (DataParser.int signed bits) ≡ true
  unfolding fits is_built is_element
  fits-int true signed bits = refl
  fits-int false signed bits = refl

  fits-float : (u : Bool) (bits : FloatSize) → fits {Z = Z} u (DataParser.float bits) ≡ true
  unfolding fits is_built is_element
  fits-float true bits = refl
  fits-float false bits = refl

  array_parser-Fit :
      (u : Bool) (rs : List (Result (ParserError E) (DataParser Z)))
      → AllFit true rs
      → Fit u (array_parser std opt rs)
  unfolding AllFit Fit array_parser fits
  array_parser-Fit u [] h = fails
  array_parser-Fit u (r ∷ []) (h, hs) =
      OnOk-bind _ (OnOk-map_err wrapped h) (λ p k. returns (fits-array u p k))
  array_parser-Fit u (r ∷ (q ∷ rs)) h = fails

  map_parser-Fit :
      (u : Bool) (rs : List (Result (ParserError E) (DataParser Z)))
      → AllFit true rs
      → Fit u (map_parser std opt rs)
  unfolding AllFit Fit map_parser fits
  map_parser-Fit u [] h = fails
  map_parser-Fit u (r ∷ []) h = fails
  map_parser-Fit u (r ∷ (q ∷ [])) (h, (h', hs)) =
      OnOk-bind _ (OnOk-map_err wrapped h)
        (λ k a. OnOk-bind _ (OnOk-map_err wrapped h') (λ v b. returns (fits-map u k v a b)))
  map_parser-Fit u (r ∷ (q ∷ (p ∷ rs))) h = fails

  tuple_parser-Fit :
      (u : Bool) (rs : List (Result (ParserError E) (DataParser Z)))
      → AllFit true rs
      → Fit u (tuple_parser std opt rs)
  unfolding Fit tuple_parser
  tuple_parser-Fit u [] h = fails
  tuple_parser-Fit u (r ∷ rs) h =
      OnOk-bind _ (sub_parsers-Fit (r ∷ rs) h) (λ ps k. returns (fits-tuple u ps k))

  nullable_parser-Fit :
      (u : Bool) (names : List Bytes) (rs : List (Result (ParserError E) (DataParser Z)))
      → AllFit u rs
      → Fit u (nullable_parser std opt names rs)
  unfolding AllFit Fit nullable_parser
  nullable_parser-Fit u [] rs h = fails
  nullable_parser-Fit u (name ∷ names) [] h = fails
  nullable_parser-Fit u (name ∷ names) (r ∷ rs) (h, hs) =
      OnOk-bind _ h (λ p k. returns (fits-nullable u name p k))

  -- A call that returns has some value.
  any : {A E' : Type 0} (r : Result E' A) → OnOk (λ _. Unit {0}) r
  any (ok a) = returns tt
  any (err e) = fails

  date_time64-Fit : (u : Bool) (names : List Bytes) → Fit u (date_time64 std opt u names)
  unfolding Fit date_time64 tick_parser
  date_time64-Fit u [] = fails
  date_time64-Fit u (tick ∷ names) =
      OnOk-bind _ (any (location_of std opt names))
        (λ z _. OnOk-bind _ (any (map_err ParserError.lib (std.atoi tick))) (λ n _. tick_fit z n))
    where
      tick_fit : (z : Z) (n : ℤ) → OnOk (λ p. fits u p ≡ true) (tick_parser std opt u z n)
      tick_fit z (ℤ.negsuc n) = fails
      tick_fit z (ℤ.pos n) = returns (fits-date_time u _ z n)

  fixed_string-Fit : (u : Bool) (names : List Bytes) → Fit u (fixed_string std opt u names)
  unfolding Fit fixed_string
  fixed_string-Fit u [] = fails
  fixed_string-Fit u (length ∷ []) =
      OnOk-bind _ (any (map_err _ (std.atoi length))) (λ n _. returns (fits-string u n))
  fixed_string-Fit u (length ∷ (other ∷ names)) = fails

  -- A number or nothing.
  data IsNumber : Option (DataParser Z) → Type 0 where
    no_number : IsNumber none
    an_int : {signed : Bool} {bits : BitSize} → IsNumber (some (DataParser.int signed bits))
    a_float : {bits : FloatSize} → IsNumber (some (DataParser.float bits))

  number_or-IsNumber :
      (u : Bool) {o : Option (DataParser Z)} (r : Result (ParserError E) (DataParser Z))
      → IsNumber o
      → Fit u r
      → Fit u (number_or std opt o r)
  unfolding Fit number_or
  number_or-IsNumber u r no_number h = h
  number_or-IsNumber u r (an_int {signed} {bits}) h = returns (fits-int u signed bits)
  number_or-IsNumber u r (a_float {bits}) h = returns (fits-float u bits)

  number_parser-IsNumber : (name : Bytes) → IsNumber (number_parser std opt name)
  unfolding number_parser
  number_parser-IsNumber name = if_both IsNumber (bytes_eq name (codes "UInt8")) an_int (
      if_both IsNumber (bytes_eq name (codes "UInt16")) an_int (
        if_both IsNumber (bytes_eq name (codes "UInt32")) an_int (
          if_both IsNumber (bytes_eq name (codes "UInt64")) an_int (
            if_both IsNumber (bytes_eq name (codes "Int8")) an_int (
              if_both IsNumber (bytes_eq name (codes "Int16")) an_int (
                if_both IsNumber (bytes_eq name (codes "Int32")) an_int (
                  if_both IsNumber (bytes_eq name (codes "Int64")) an_int (
                    if_both IsNumber (bytes_eq name (codes "Float32")) a_float
                      (if_both IsNumber (bytes_eq name (codes "Float64")) a_float no_number)))))))))

  container_parser-Fit :
      (u : Bool) (name : Bytes) (names : List Bytes)
      (rs : List (Result (ParserError E) (DataParser Z)))
      → AllFit true rs
      → Fit u (container_parser std opt u name names rs)
  unfolding Fit container_parser
  container_parser-Fit u name names rs h =
      if_both (Fit u) (one_of name text_types) (returns (fits-string u (ℤ.pos 0))) (
        if_both (Fit u) (bytes_eq name (codes "FixedString")) (fixed_string-Fit u names) (
          if_both (Fit u) (bytes_eq name (codes "Array")) (array_parser-Fit u rs h) (
            if_both (Fit u) (bytes_eq name (codes "Tuple")) (tuple_parser-Fit u rs h)
              (if_both (Fit u) (bytes_eq name (codes "Map")) (map_parser-Fit u rs h) fails))))

  named_parser-Fit :
      (u : Bool) (name : Bytes) (names : List Bytes)
      (same quoted : List (Result (ParserError E) (DataParser Z)))
      → AllFit u same
      → AllFit true quoted
      → Fit u (named_parser std opt u name names same quoted)
  unfolding Fit named_parser
  named_parser-Fit u name names same quoted h k =
      if_both (Fit u) (bytes_eq name (codes "Nothing")) (returns (fits-nothing u)) (
        if_both (Fit u) (bytes_eq name (codes "Nullable")) (nullable_parser-Fit u names same h) (
          if_both (Fit u) (bytes_eq name (codes "NULL"))
            (returns (fits-nullable u (codes "String") _ (fits-string u (ℤ.pos 0))))
            (if_both (Fit u) (bytes_eq name (codes "Date")) (returns (fits-date_time u _ _ 0)) (
              if_both (Fit u) (bytes_eq name (codes "DateTime"))
                (OnOk-bind _ (any (location_of std opt names))
                  (λ z _. returns (fits-date_time u _ z 0)))
                (if_both (Fit u) (bytes_eq name (codes "DateTime64")) (date_time64-Fit u names) (
                  if_both (Fit u) (bytes_eq name (codes "Timestamp"))
                    (returns (fits-date_time u _ _ 1))
                    (if_both (Fit u) (bytes_eq name (codes "Boolean"))
                      (returns (fits-boolean u (ℤ.pos 0)))
                      (number_or-IsNumber u _ (number_parser-IsNumber name)
                        (container_parser-Fit u name names quoted k)))))))))

  mutual
    unfolding new_data_parser new_data_parsers AllFit Fit wrap_nullable

    pub new_data_parser-Fit :
        (u : Bool) (d : TypeDesc) → OnOk (λ p. fits u p ≡ true) (new_data_parser std opt u d)
    new_data_parser-Fit u (desc name true args) =
        OnOk-bind _
          (named_parser-Fit u name (arg_names args) (new_data_parsers std opt u args)
            (new_data_parsers std opt true args) (new_data_parsers-Fit u args)
            (new_data_parsers-Fit true args))
          (λ p k. returns (fits-nullable u name p k))
    new_data_parser-Fit u (desc name false args) =
        named_parser-Fit u name (arg_names args) (new_data_parsers std opt u args)
          (new_data_parsers std opt true args) (new_data_parsers-Fit u args)
          (new_data_parsers-Fit true args)

    new_data_parsers-Fit : (u : Bool) (ds : Descs) → AllFit u (new_data_parsers std opt u ds)
    new_data_parsers-Fit u nil = tt
    new_data_parsers-Fit u (cons d ds) = (new_data_parser-Fit u d, new_data_parsers-Fit u ds)

-- ===== src/Values/Build.antt =====
-- valueparser.go: `newDataParser`, the parser of a type. It also clears `Nullable` of the type it is
-- given, which the parser that it returns does not depend on.
pub mod Fits
pub mod Total
use lake_go.Prelude.{
  length, Bool, true, false, ◌||◌, Option, none, some, List, [], ◌∷◌, if◌then◌else◌, Bytes, codes,
  bytes_eq,
}
use lake_go.Prelude.Decimal.{ℤ}
use lake_go.Prelude.Result.{Result, ok, err, ◌>>=◌, map_err}
use lake_go.Types.TypeDesc.{TypeDesc, desc, Descs, nil, cons}
use lake_go.Values.Parser.{b8, b16, b32, b64, f32, f64, DataParser, DataParsers}

pub data ParserError (E : Type 0) : Type 0 where
  -- "tick size not specified for DateTime64"
  no_tick : ParserError E
  -- "malformed tick size specified for DateTime64"
  bad_tick : ParserError E
  -- "length not specified for FixedString"
  no_length : ParserError E
  -- "element type not specified for Array", and those of a tuple and of a map
  wrong_args : ParserError E
  -- "type %s is not supported"
  unsupported : Bytes → ParserError E
  lib : E → ParserError E
  wrapped : ParserError E → ParserError E
  -- the run-time panic of an index out of range
  panic : ParserError E

-- DataParserOptions; the options may be nil, and so may the location.
pub record DataParserOptions (Z : Type 0) : Type 0 where
  pub location : Option Z
  pub use_db_location : Bool

-- time.LoadLocation, strconv.Atoi, time.UTC
pub record BuildLib (Z E : Type 0) : Type 0 where
  pub utc : Z
  pub load_location : Bytes → Result E Z
  pub atoi : Bytes → Result E ℤ

abbrev pub date_format : Bytes
date_format = codes "2006-01-02"

abbrev pub time_format : Bytes
time_format = codes "2006-01-02 15:04:05.000000-07:00"

abbrev pub date_time64_format : Bytes
date_time64_format = codes "2006-01-02 15:04:05.999999999"

pub one_of : Bytes → List Bytes → Bool
one_of name [] = false
one_of name (s ∷ names) = bytes_eq name s || one_of name names

abbrev text_types : List Bytes
text_types =
    codes "Decimal"
    ∷ codes "String"
    ∷ codes "Enum8"
    ∷ codes "Bitmap"
    ∷ codes "Enum16"
    ∷ codes "UUID"
    ∷ codes "IPv4"
    ∷ codes "IPv6"
    ∷ codes "Variant"
    ∷ codes "VariantObject"
    ∷ []

pub arg_names : Descs → List Bytes
arg_names nil = []
arg_names (cons (desc name nullable args) ds) = name ∷ arg_names ds

module _ {Z E : Type 0} (std : BuildLib Z E) (opt : Option (DataParserOptions Z)) where
  abbrev Built : Type 0
  Built = Result (ParserError E) (DataParser Z)

  given : Option (DataParserOptions Z) → Option Z
  given none = none
  given (some o) = o.location

  -- `opt == nil || opt.Location == nil || opt.UseDBLocation`
  from_type : Option (DataParserOptions Z) → Bool
  from_type none = true
  from_type (some o) = elim o.location [ none ↦ true | some z ↦ o.use_db_location ]

  or_utc : Option Z → Z
  or_utc none = std.utc
  or_utc (some z) = z

  abbrev default_location : Z
  default_location = or_utc (given opt)

  -- The location of a type that may name one.
  location_of : List Bytes → Result (ParserError E) Z
  location_of [] = ok default_location
  location_of (name ∷ names) =
      if from_type opt
      then map_err ParserError.lib (std.load_location name)
      else ok default_location

  tick_parser : Bool → Z → ℤ → Built
  tick_parser unquote location (ℤ.negsuc n) = err bad_tick
  tick_parser unquote location (ℤ.pos n) =
      ok (DataParser.date_time unquote date_time64_format location n)

  date_time64 : Bool → List Bytes → Built
  date_time64 unquote [] = err no_tick
  date_time64 unquote (tick ∷ names) = do
    location ← location_of names
    precision ← map_err ParserError.lib (std.atoi tick)
    tick_parser unquote location precision

  fixed_string : Bool → List Bytes → Built
  fixed_string unquote (length ∷ []) =
      map_err (λ e. wrapped (ParserError.lib e)) (std.atoi length) >>= λ n.
      ok (DataParser.string unquote n)
  fixed_string unquote [] = err no_length
  fixed_string unquote (length ∷ (other ∷ names)) = err no_length

  -- The parsers of the arguments of a type, each one or its error.
  array_parser : List Built → Built
  array_parser (arg ∷ []) = map_err wrapped arg >>= λ p. ok (DataParser.array p)
  array_parser [] = err wrong_args
  array_parser (arg ∷ (other ∷ args)) = err wrong_args

  map_parser : List Built → Built
  map_parser (key ∷ (value ∷ [])) = do
    k ← map_err wrapped key
    v ← map_err wrapped value
    ok (DataParser.map k v)
  map_parser [] = err wrong_args
  map_parser (arg ∷ []) = err wrong_args
  map_parser (key ∷ (value ∷ (other ∷ args))) = err wrong_args

  sub_parsers : List Built → Result (ParserError E) (DataParsers Z)
  sub_parsers [] = ok DataParsers.empty
  sub_parsers (arg ∷ args) = do
    p ← map_err wrapped arg
    ps ← sub_parsers args
    ok (DataParsers.more p ps)

  tuple_parser : List Built → Built
  tuple_parser [] = err wrong_args
  tuple_parser (arg ∷ args) = sub_parsers (arg ∷ args) >>= λ ps. ok (DataParser.tuple ps)

  -- `case "Nullable"`
  nullable_parser : List Bytes → List Built → Built
  nullable_parser (name ∷ names) (arg ∷ args) = arg >>= λ p. ok (DataParser.nullable name p)
  nullable_parser names args = err panic

  number_parser : Bytes → Option (DataParser Z)
  number_parser name =
      if bytes_eq name (codes "UInt8")
      then some (DataParser.int false b8)
      else if bytes_eq name (codes "UInt16")
      then some (DataParser.int false b16)
      else if bytes_eq name (codes "UInt32")
      then some (DataParser.int false b32)
      else if bytes_eq name (codes "UInt64")
      then some (DataParser.int false b64)
      else if bytes_eq name (codes "Int8")
      then some (DataParser.int true b8)
      else if bytes_eq name (codes "Int16")
      then some (DataParser.int true b16)
      else if bytes_eq name (codes "Int32")
      then some (DataParser.int true b32)
      else if bytes_eq name (codes "Int64")
      then some (DataParser.int true b64)
      else if bytes_eq name (codes "Float32")
      then some (DataParser.float f32)
      else if bytes_eq name (codes "Float64")
      then some (DataParser.float f64)
      else none

  -- The rest of the switch, from `case "Decimal"` on.
  container_parser : Bool → Bytes → List Bytes → List Built → Built
  container_parser unquote name names quoted =
      if one_of name text_types
      then ok (DataParser.string unquote (ℤ.pos 0))
      else if bytes_eq name (codes "FixedString")
      then fixed_string unquote names
      else if bytes_eq name (codes "Array")
      then array_parser quoted
      else if bytes_eq name (codes "Tuple")
      then tuple_parser quoted
      else if bytes_eq name (codes "Map")
      then map_parser quoted
      else err (unsupported name)

  number_or : Option (DataParser Z) → Built → Built
  number_or (some p) rest = ok p
  number_or none rest = rest

  -- The switch on the name, with the parsers of the arguments: in the same quoting, and quoted.
  unfoldable pub named_parser : Bool → Bytes → List Bytes → List Built → List Built → Built
  unfolding number_or container_parser number_parser nullable_parser date_time64 location_of
      from_type or_utc given array_parser tuple_parser map_parser sub_parsers fixed_string
      tick_parser one_of
  named_parser unquote name names same quoted =
      if bytes_eq name (codes "Nothing")
      then ok DataParser.nothing
      else if bytes_eq name (codes "Nullable")
      then nullable_parser names same
      else if bytes_eq name (codes "NULL")
      then ok (DataParser.nullable (codes "String") (DataParser.string unquote (ℤ.pos 0)))
      else if bytes_eq name (codes "Date")
      then ok (DataParser.date_time unquote date_format default_location 0)
      else if bytes_eq name (codes "DateTime")
      then (location_of names >>= λ location.
          ok (DataParser.date_time unquote time_format location 0))
      else if bytes_eq name (codes "DateTime64")
      then date_time64 unquote names
      else if bytes_eq name (codes "Timestamp")
      then ok (DataParser.date_time unquote date_time64_format default_location 1)
      else if bytes_eq name (codes "Boolean")
      then ok (DataParser.boolean (ℤ.pos 0))
      else number_or (number_parser name) (container_parser unquote name names quoted)

  wrap_nullable : Bool → Bytes → Built → Built
  wrap_nullable false name r = r
  wrap_nullable true name r = r >>= λ p. ok (DataParser.nullable name p)

  -- newDataParser
  unfoldable mutual
    unfolding wrap_nullable arg_names

    pub new_data_parser : Bool → TypeDesc → Built
    new_data_parser unquote (desc name nullable args) =
        let same = new_data_parsers unquote args in
        let quoted = new_data_parsers true args in
        wrap_nullable nullable name (named_parser unquote name (arg_names args) same quoted)

    pub new_data_parsers : Bool → Descs → List Built
    new_data_parsers unquote nil = []
    new_data_parsers unquote (cons d ds) = new_data_parser unquote d ∷ new_data_parsers unquote ds

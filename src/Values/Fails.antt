-- ===== src/Values/Fails.antt =====
-- Texts that the parsers of arrays and maps never read.
use lake_go.Prelude.{
  Bytes, bytes_eq, arith, suc, ◌≡◌, refl, ℕ, Bool, true, false, ◌==◌, Option, none, some, [], ◌∷◌,
  inl, inr, Bool-cases, codes, All,
}
use lake_go.Values.Parse.{map_end, after_key, map_loop, parse, has_type, array_loop, expect}
use lake_go.Values.Parser.{
  type_of, f64, DataValues, DataValue, BitSize, Parsed, b32, DataParser, ValueLib,
}
use lake_go.Prelude.Result.{Result-cases, Result, ok, err}
use lake_go.Values.Scanner.{
  peak_null, ParseError, ends_number, read_number, close_quote, Scanner, Runes, read, unread,
  unquoted_loop, Unquoted, read_unquoted, read_string, escaped, escape_rune, prepend_unquoted,
  check_length,
}
use lake_go.Prelude.Decimal.{ℤ}
use lake_go.Types.TypeDesc.{desc, nil, cons}
use lake_go.Values.Build.{BuildLib, DataParserOptions, new_data_parser, named_parser}

-- The rune 0, which the scanner takes for the end, does not occur.
abbrev pub IsText : Runes → Type 0
IsText = All (λ c. (c == 0) ≡ false)

-- Whatever is still to be read of a string of no given length, its loop stops at the end only.
data IsAtEnd : Unquoted → Type 0 where
  refused : IsAtEnd none
  at_end :
      {left : Option ℕ} {text : Runes} {s : Scanner}
      → s.rest ≡ []
      → IsAtEnd (some (left, (text, s)))

prepend-IsAtEnd : (c : ℕ) (u : Unquoted) → IsAtEnd u → IsAtEnd (prepend_unquoted c u)
prepend-IsAtEnd c none h = refused
prepend-IsAtEnd c (some (left, (text, s))) (at_end e) = at_end e

unquoted_loop-IsAtEnd :
    (escape : Bool) (last : Option ℕ) (rest : Runes)
    → IsText rest
    → IsAtEnd (unquoted_loop escape none last rest)
unfolding unquoted_loop
unquoted_loop-IsAtEnd true last [] t = refused
unquoted_loop-IsAtEnd false last [] t = at_end refl
unquoted_loop-IsAtEnd true last (c ∷ rest) (z, t) =
    rw z (prepend-IsAtEnd (escaped c) _ (unquoted_loop-IsAtEnd false (some c) rest t))
unquoted_loop-IsAtEnd false last (c ∷ rest) (z, t) = elim (Bool-cases (c == escape_rune)) [
  | inl b ↦ rw (z, b) (unquoted_loop-IsAtEnd true (some c) rest t)
  | inr b ↦ rw (z, b) (prepend-IsAtEnd c _ (unquoted_loop-IsAtEnd false (some c) rest t))
]

-- A call that returns an error.
pub data Fails {E A : Type 0} : Result E A → Type 0 where
  fails : {e : E} → Fails (err e)

Fails-err : {E A : Type 0} {r : Result E A} → Fails r → (e : E) × (r ≡ err e)
Fails-err (fails {e}) = (e, refl)

-- Behind a loop that stops at the end only there is no closing quote.
close_quote-Fails :
    {E : Type 0} (u : Unquoted) → IsAtEnd u → Fails (close_quote {E = E} (check_length u))
unfolding read
close_quote-Fails none h = fails
close_quote-Fails (some (none, (text, s))) (at_end h) = rw h fails
close_quote-Fails (some (some n, (text, s))) (at_end h) = elim (Bool-cases (n == 0)) [
  | inl b ↦ rw (b, h) fails
  | inr b ↦ rw b fails
]

-- A quoted string of no given length is never read: its reader goes past the closing quote.
read_string-Fails :
    (E : Type 0) (s : Scanner) → IsText s.rest → Fails (read_string {E = E} (ℤ.pos 0) true s)
unfolding read_string read_unquoted read
read_string-Fails E s t = split s.rest t
  where
    split :
        (rest : Runes)
        → IsText rest
        → Fails (read_string {E = E} (ℤ.pos 0) true (record { rest = rest; last = s.last }))
    split [] u = fails
    split (c ∷ rest) (z, u) = elim (Bool-cases (c == b'\'')) [
      | inl b ↦ rw b (
          close_quote-Fails (unquoted_loop false none (some c) rest)
            (unquoted_loop-IsAtEnd false (some c) rest u))
      | inr b ↦ rw b fails
    ]

module _ {Z F T E : Type 0} (std : ValueLib Z F T E) where
  string-Fails :
      (s : Scanner) → IsText s.rest → Fails (parse std (DataParser.string true (ℤ.pos 0)) s)
  unfolding parse
  string-Fails s t = let (e, h) = Fails-err (read_string-Fails E s t) in rw h fails

  -- An array whose first element cannot be read cannot be read.
  array-Fails :
      (arg : DataParser Z) (c : ℕ) (rest : Runes) (last : Option ℕ)
      → (c == b']') ≡ false
      → Fails (parse std arg (record { rest = c ∷ rest; last = none }))
      → Fails (parse std (DataParser.array arg) (record { rest = b'[' ∷ c ∷ rest; last = last }))
  unfolding parse expect read unread array_loop
  array-Fails arg c rest last x f = elim (Bool-cases (has_type arg)) [
    | inl b ↦ let (e, h) = Fails-err f in rw (b, x, h) fails
    | inr b ↦ rw b fails
  ]

  -- For the type `Array(String)` there is a parser, and it fails on every array that has an element: the
  -- reader of a quoted string goes past the closing quote, to the end of the text. The text has no
  -- rune 0.
  pub array_of_strings-Fails :
      (build : BuildLib Z E) (opt : Option (DataParserOptions Z)) (c : ℕ) (rest : Runes)
      (last : Option ℕ)
      → (c == b']') ≡ false
      → IsText (c ∷ rest)
      → (p : DataParser Z) × (new_data_parser build opt false
            (desc (codes "Array") false (cons (desc (codes "String") false nil) nil))
          ≡ ok p)
        × Fails (parse std p (record { rest = b'[' ∷ c ∷ rest; last = last }))
  unfolding new_data_parser named_parser
  array_of_strings-Fails build opt c rest last x t = (
    DataParser.array (DataParser.string true (ℤ.pos 0)),
    refl,
    array-Fails (DataParser.string true (ℤ.pos 0)) c rest last x
        (string-Fails (record { rest = c ∷ rest; last = none }) t),
  )

  ends-colon : (c : ℕ) → ends_number c ≡ true → (c == b':') ≡ false
  unfolding ends_number
  ends-colon c h = ground arith

  -- A number stops at the end or at a rune that is no colon.
  read_number-expect :
      (rest : Runes) → IsText rest → Fails {A = Scanner} (expect {E = E} b':' (read_number rest).1)
  unfolding read_number expect read unread ends_number
  read_number-expect [] t = fails
  read_number-expect (c ∷ rest) (z, t) = elim (Bool-cases (ends_number c)) [
    | inl b ↦ rw (z, b, ends-colon c b) fails
    | inr b ↦ rw (z, b) (read_number-expect rest t)
  ]

  -- A key that cannot be read, or has no colon behind it.
  data IsBadKey : Parsed F T E → Type 0 where
    no_key : {e : ParseError E} → IsBadKey (err e)
    no_colon :
        {v : DataValue F T} {s : Scanner} {e : ParseError E}
        → expect b':' s ≡ err e
        → IsBadKey (ok (v, s))

  number-IsBadKey :
      (signed : Bool) (size : BitSize) (s : Scanner)
      → IsText s.rest
      → IsBadKey (parse std (DataParser.int signed size) s)
  unfolding parse
  number-IsBadKey signed size s t =
      elim (Result-cases (std.parse_float f64 (read_number s.rest).0)) [
        | inl (f, h) ↦ let (e, h') = Fails-err (read_number-expect s.rest t) in rw h (no_colon h')
        | inr (e, h) ↦ rw h no_key
      ]

  -- A turn of the loop of a map at such a key.
  map_loop-Fails :
      (key value : Scanner → Parsed F T E) (n c : ℕ) (rest : Runes) (last : Option ℕ)
      → (c == b'}') ≡ false
      → IsBadKey (key (record { rest = c ∷ rest; last = none }))
      → Fails (map_loop std key value (suc n) (record { rest = c ∷ rest; last = last }))
  unfolding map_loop read unread
  map_loop-Fails key value n c rest last x k = rw x (split _ k)
    where
      split :
          (r : Parsed F T E) → IsBadKey r → Fails (after_key std value (map_loop std key value n) r)
      split (err e) no_key = fails
      split (ok (v, s)) (no_colon h) = rw h fails

  map_end-Fails :
      {r : Result (ParseError E) ((DataValues F T × DataValues F T) × Scanner)}
      → Fails r
      → Fails (map_end std r)
  map_end-Fails fails = fails

  -- For the type `Map(Int32, Int32)` there is a parser, and it fails on every map that has an entry: the
  -- reader of a number does not stop at the colon behind a key. The text has no rune 0.
  pub map_of_numbers-Fails :
      (build : BuildLib Z E) (opt : Option (DataParserOptions Z)) (c : ℕ) (rest : Runes)
      (last : Option ℕ)
      → (c == b'}') ≡ false
      → IsText (c ∷ rest)
      → (p : DataParser Z) × (new_data_parser build opt false (
            desc
              (codes "Map")
              false
              (cons (desc (codes "Int32") false nil) (cons (desc (codes "Int32") false nil) nil)))
          ≡ ok p)
        × Fails (parse std p (record { rest = b'{' ∷ c ∷ rest; last = last }))
  unfolding new_data_parser named_parser parse expect read has_type type_of
  map_of_numbers-Fails build opt c rest last x t = (
    DataParser.map (DataParser.int true b32) (DataParser.int true b32),
    refl,
    map_end-Fails (
        map_loop-Fails (parse std (DataParser.int true b32)) (parse std (DataParser.int true b32)) _
          c rest (some b'{') x
          (number-IsBadKey true b32 (record { rest = c ∷ rest; last = none }) t)),
  )

  -- A value of a nullable type that is no string, and that starts with an N with no U behind it, is read
  -- without its N: `UnreadRune` gives one of the two runes back. `NaN` is one such value.
  pub nullable-lost :
      (name : Bytes) (inner : DataParser Z) (c : ℕ) (rest : Runes) (last : Option ℕ)
      → bytes_eq name (codes "String") ≡ false
      → (c == b'U') ≡ false
      → parse std (DataParser.nullable name inner) (record { rest = b'N' ∷ c ∷ rest; last = last })
        ≡ parse std inner (record { rest = c ∷ rest; last = none })
  unfolding parse peak_null read unread
  nullable-lost name inner c rest last x y = rw (x, y)

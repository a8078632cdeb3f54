-- ===== src/Values/Scanner.antt =====
-- tokenizer.go, and the readers at the top of valueparser.go. An `io.RuneScanner` is the runes that
-- are left with the last rune, which `UnreadRune` can give back once and which a read at the end clears.
use lake_go.Prelude.{
  length, ℕ, zero, suc, ◌-◌, Bool, true, false, not, ◌&&◌, ◌||◌, ◌==◌, Option, none, some, [], ◌∷◌,
  if◌then◌else◌, Bytes,
}
use lake_go.Prelude.Decimal.{ℤ}
use lake_go.Prelude.Result.{Result, ok, err}

-- Text as runes.
abbrev pub Runes : Type 0
Runes = Bytes

pub record Scanner : Type 0 where
  pub rest : Runes
  pub last : Option ℕ

pub data ParseError (E : Type 0) : Type 0 where
  -- "unexpected eof in escaped char"
  bad_escape : ParseError E
  -- "unexpected string length %d, expected %d"
  bad_length : ParseError E
  -- "unexpected character instead of a quote"
  no_quote : ParseError E
  -- "failed to read string"
  bad_string : ParseError E
  -- "unexpected character '%c', expected ..."
  unexpected : ℕ → ParseError E
  -- "unexpected nil element"
  nil_element : ParseError E
  -- an error of the standard library
  lib : E → ParseError E
  wrapped : ParseError E → ParseError E
  -- a run-time panic
  panic : ParseError E
  -- not an error of the program: the model ran out of fuel
  out_of_fuel : ParseError E

-- `eof` is the rune 0
unfoldable pub read : Scanner → ℕ × Scanner
read s = elim s.rest [
  | [] ↦ (0, record { rest = []; last = none })
  | c ∷ rest ↦ (c, record { rest = rest; last = some c })
]

unfoldable pub unread : Scanner → Scanner
unread s = elim s.last [ none ↦ s | some c ↦ record { rest = c ∷ s.rest; last = none } ]

-- The switch of `readEscaped`, on a rune that is not `eof`.
unfoldable pub escaped : ℕ → ℕ
escaped r =
    if r == b'b'
    then 8
    else if r == b'f'
    then 12
    else if r == b'r'
    then 13
    else if r == b'n'
    then 10
    else if r == b't'
    then 9
    else if r == b'0'
    then 0
    else r

-- What a loop has read, with the scanner behind it.
abbrev pub Read : Type 0
Read = Runes × Scanner

abbrev pub prepend : ℕ → Read → Read
prepend c (text, s) = (c ∷ text, s)

-- readRaw
unfoldable pub read_raw : Runes → Read
read_raw [] = ([], record { rest = []; last = none })
read_raw (c ∷ rest) =
    let more = read_raw rest in
    if c == 0 then ([], record { rest = rest; last = some c }) else prepend c more

-- The runes that end a number and are given back.
unfoldable pub ends_number : ℕ → Bool
ends_number c = c == b',' || (c == b']' || c == b')')

-- readNumber
unfoldable pub read_number : Runes → Read
unfolding ends_number
read_number [] = ([], record { rest = []; last = none })
read_number (c ∷ rest) =
    let more = read_number rest in
    let here : Scanner = record { rest = rest; last = some c } in
    if c == 0 then ([], here) else if ends_number c then ([], unread here) else prepend c more

-- A loop that can fail, with how many runes it still had to read.
abbrev pub Unquoted : Type 0
Unquoted = Option (Option ℕ × Read)

abbrev pub prepend_unquoted : ℕ → Unquoted → Unquoted
prepend_unquoted c none = none
prepend_unquoted c (some (left, r)) = some (left, prepend c r)

-- `length != 0 && runesRead >= length`
abbrev pub is_done : Option ℕ → Bool
is_done none = false
is_done (some n) = n == 0

abbrev pub less : Option ℕ → Option ℕ
less none = none
less (some n) = some (n - 1)

abbrev pub escape_rune : ℕ
escape_rune = 92

-- The loop of `readUnquoted`, behind a escape_rune or not; `left` is how many runes are still to read,
-- where there is a length.
unfoldable pub unquoted_loop : Bool → Option ℕ → Option ℕ → Runes → Unquoted
unquoted_loop escape left last [] =
    if escape
    then none
    else if is_done left
    then some (left, ([], record { rest = []; last = last }))
    else some (left, ([], record { rest = []; last = none }))
unquoted_loop escape left last (c ∷ rest) =
    let opens = not escape && c == escape_rune in
    let more = unquoted_loop opens (if opens then left else less left) (some c) rest in
    if not escape && is_done left
    then some (left, ([], record { rest = c ∷ rest; last = last }))
    else if c == 0
    then (if escape then none else some (left, ([], record { rest = rest; last = some c })))
    else if opens
    then more
    else prepend_unquoted (if escape then escaped c else c) more

-- The check of the length at the end.
abbrev pub check_length : {E : Type 0} → Unquoted → Result (ParseError E) Read
check_length none = err bad_escape
check_length (some (none, r)) = ok r
check_length (some (some n, r)) = if n == 0 then ok r else err bad_length

-- readUnquoted; a length that is negative is never reached
unfoldable pub read_unquoted : {E : Type 0} → ℤ → Scanner → Result (ParseError E) Read
read_unquoted (ℤ.negsuc n) s = err bad_length
read_unquoted (ℤ.pos zero) s = check_length (unquoted_loop false none s.last s.rest)
read_unquoted (ℤ.pos (suc n)) s = check_length (unquoted_loop false (some (suc n)) s.last s.rest)

abbrev pub close_quote : {E : Type 0} → Result (ParseError E) Read → Result (ParseError E) Read
close_quote (err e) = err bad_string
close_quote (ok (text, s)) =
    let (r, s') = read s in if r == b'\'' then ok (text, s') else err no_quote

abbrev pub string_failed : {E : Type 0} → Result (ParseError E) Read → Result (ParseError E) Read
string_failed (err e) = err bad_string
string_failed (ok r) = ok r

-- readString
unfoldable pub read_string : {E : Type 0} → ℤ → Bool → Scanner → Result (ParseError E) Read
read_string length unquote s =
    if unquote
    then (let (r, s') = read s in
        if r == b'\'' then close_quote (read_unquoted length s') else err no_quote)
    else string_failed (read_unquoted length s)

-- peakNull, with what it leaves: `UnreadRune` gives one rune back, however often it is called.
unfoldable pub peak_null : Scanner → Bool × Scanner
peak_null s =
    let (n, s1) = read s in
    let (u, s2) = read s1 in
    let (l, s3) = read s2 in
    let (l', s4) = read s3 in
    let (e, s5) = read s4 in
    if not (n == b'N')
    then (false, unread s1)
    else if not (u == b'U')
    then (false, unread (unread s2))
    else if not (l == b'L')
    then (false, unread (unread (unread s3)))
    else if not (l' == b'L')
    then (false, unread (unread (unread (unread s4))))
    else if not (e == 0)
    then (false, unread (unread (unread (unread (unread s5)))))
    else (true, s5)

-- ===== src/Sql/Scanner.antt =====
-- interpolate.go: `placeholders`, the byte scan that finds the `?` of a statement outside the
-- quoted regions of the SQL lexer. A cursor is the offset `i` with the bytes `query[i:]`.
pub mod Cursor
pub mod Located
pub mod Fuel
pub mod Closed
pub mod Comment
use lake_go.Prelude.{
  ℕ, zero, suc, ◌+◌, Bool, not, ◌&&◌, ◌||◌, List, [], ◌∷◌, ◌==◌, if◌then◌else◌, Bytes, length,
}
use lake_go.Sql.Escape.{backslash, apostrophe}

abbrev pub backquote : ℕ
backquote = b'`'

abbrev pub question : ℕ
question = b'?'

-- What the body of the loop does with the byte at `i`: `return index`, go on, or record `i`.
pub data Turn : Type 0 where
  stop : Turn
  next : ℕ → Bytes → Turn
  mark : ℕ → Bytes → Turn

-- `case '\'', '"', '`'`: the cursor stands behind the opening quote.
unfoldable pub skip_quoted : ℕ → ℕ → Bytes → Turn
skip_quoted quote i [] = next i []
skip_quoted quote i (c ∷ []) = next (i + 1) []
skip_quoted quote i (c ∷ d ∷ r) =
    let after_pair = skip_quoted quote (i + 2) r in
    let after_byte = skip_quoted quote (i + 1) (d ∷ r) in
    if c == backslash && not (quote == backquote)
    then after_pair
    else if c == quote
    then (if d == quote then after_pair else next (i + 1) (d ∷ r))
    else after_byte

-- `case '-'`: to the end of the line, behind the two dashes.
unfoldable pub skip_line : ℕ → Bytes → Turn
skip_line i [] = next i []
skip_line i (c ∷ r) =
    let later = skip_line (i + 1) r in if c == b'\n' || c == 12 then next (i + 1) r else later

-- `strings.Index(query[i+2:], "*/")`, and the same for `$$`.
unfoldable pub skip_until : ℕ → ℕ → ℕ → Bytes → Turn
skip_until a b i [] = stop
skip_until a b i (c ∷ []) = stop
skip_until a b i (c ∷ d ∷ r) =
    let later = skip_until a b (i + 1) (d ∷ r) in if c == a && d == b then next (i + 2) r else later

-- space, \t, \r, \n, \f, \v
is_blank : ℕ → Bool
is_blank c = c == b' ' || c == 9 || c == 13 || c == 10 || c == 12 || c == 11

is_stage_escapable : ℕ → Bool
is_stage_escapable c = is_blank c || c == apostrophe || c == b'"' || c == backslash

is_stage_end : ℕ → Bool
is_stage_end c =
    is_blank c
    || c == b','
    || c == backquote
    || c == b';'
    || c == b'"'
    || c == apostrophe
    || c == b'('
    || c == b')'

-- `case '@'`: the byte that ends a stage location is read again.
unfoldable pub skip_stage : ℕ → Bytes → Turn
unfolding is_stage_escapable is_stage_end is_blank
skip_stage i [] = next i []
skip_stage i (c ∷ []) = if is_stage_end c then next i (c ∷ []) else next (i + 1) []
skip_stage i (c ∷ d ∷ r) =
    let after_pair = skip_stage (i + 2) r in
    let after_byte = skip_stage (i + 1) (d ∷ r) in
    if c == backslash && is_stage_escapable d
    then after_pair
    else if is_stage_end c
    then next i (c ∷ d ∷ r)
    else after_byte

-- `if i+1 < len(query) && query[i+1] == b` of the last three cases: the comment of two bytes.
pub after_second : ℕ → (ℕ → Bytes → Turn) → ℕ → Bytes → Turn
after_second b skip i [] = next (i + 1) []
after_second b skip i (d ∷ r) = if d == b then skip (i + 2) r else next (i + 1) (d ∷ r)

-- The switch on `query[i]`, for `query[i:] = c ∷ r`.
unfoldable pub turn : ℕ → ℕ → Bytes → Turn
unfolding after_second
turn i c r =
    if c == apostrophe || c == b'"' || c == backquote
    then skip_quoted c (i + 1) r
    else if c == b'-'
    then after_second b'-' skip_line i r
    else if c == b'/'
    then after_second b'*' (skip_until b'*' b'/') i r
    else if c == b'$'
    then after_second b'$' (skip_until b'$' b'$') i r
    else if c == b'@'
    then skip_stage (i + 1) r
    else if c == question
    then mark (i + 1) r
    else next (i + 1) r

-- The rest of a round, before the loop `rec` goes on.
pub resume : (ℕ → Bytes → List ℕ) → ℕ → Turn → List ℕ
resume rec i stop = []
resume rec i (next j t) = rec j t
resume rec i (mark j t) = i ∷ rec j t

-- The loop, with fuel: each turn drops a byte at least.
unfoldable pub scan : ℕ → ℕ → Bytes → List ℕ
unfolding resume
scan zero i s = []
scan (suc f) i [] = []
scan (suc f) i (c ∷ r) = resume (scan f) i (turn i c r)

unfoldable pub placeholders : Bytes → List ℕ
placeholders query = scan (length query) 0 query

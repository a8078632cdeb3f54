-- ===== src/Values/Length.antt =====
-- How much of the text the readers leave.
use lake_go.Prelude.{
  ◌⊎◌, ◌≡◌, refl, ap, ◌≤◌, arith, ℕ, zero, suc, ◌+◌, Bool, true, false, not, ◌&&◌, ◌==◌, Option,
  none, some, [], ◌∷◌, inl, inr, Bool-cases, if_both, if◌then◌else◌, length,
}
use lake_go.Prelude.Decimal.{ℤ}
use lake_go.Prelude.Result.{Result, ok, err}
use lake_go.Values.Scanner.{
  Scanner, Runes, Read, ParseError, unexpected, wrapped, out_of_fuel, read, unread, read_number,
  ends_number, unquoted_loop, Unquoted, read_unquoted, read_string, escaped, escape_rune,
  prepend_unquoted, check_length, close_quote, peak_null, is_done, less,
}
use lake_go.Values.Parse.{expect, skip_comma}

-- An error of the fuel of the model, however it is wrapped.
unfoldable pub runs_out : {E : Type 0} → ParseError E → Bool
runs_out out_of_fuel = true
runs_out (wrapped e) = runs_out e
runs_out e = false

abbrev pub size : Scanner → ℕ
size s = length s.rest

-- A call that fails for a reason of its own, or leaves a text that is shorter by `k` at least.
pub data Leaves {E A : Type 0} (k n : ℕ) : Result (ParseError E) (A × Scanner) → Type 0 where
  leaves : {a : A} {s : Scanner} → k + size s ≤ n → Leaves k n (ok (a, s))
  stops : {e : ParseError E} → runs_out e ≡ false → Leaves k n (err e)

read-size : (s : Scanner) → size (read s).1 ≤ size s
unfolding read
read-size s = split s.rest
  where
    split : (rest : Runes) → size (read (record { rest = rest; last = s.last })).1 ≤ length rest
    split [] = omega arith
    split (c ∷ rest) = omega arith

pub unread-read-size : (s : Scanner) → size (unread (read s).1) ≡ size s
unfolding read unread
unread-read-size s = split s.rest
  where
    split :
        (rest : Runes)
        → size (unread (read (record { rest = rest; last = s.last })).1) ≡ length rest
    split [] = refl
    split (c ∷ rest) = refl

pub skip_comma-size : (s : Scanner) → size (skip_comma s) ≤ size s
unfolding skip_comma
skip_comma-size s =
    if_both (λ x. size x ≤ size s) ((read s).0 == b',') (read-size s)
      (omega (arith, unread-read-size s))

-- A rune that is read, and is not the end, is gone.
pub read-shorter :
    (s : Scanner) (c : ℕ)
    → (c == 0) ≡ false
    → ((read s).0 == c) ≡ true
    → 1 + size (read s).1 ≤ size s
unfolding read
read-shorter s c z h = split s.rest h
  where
    split :
        (rest : Runes)
        → ((read (record { rest = rest; last = s.last })).0 == c) ≡ true
        → 1 + size (read (record { rest = rest; last = s.last })).1 ≤ length rest
    split [] h = ground arith
    split (d ∷ rest) h = omega arith

pub expect-size :
    {E : Type 0} (c : ℕ) (s : Scanner)
    → (c == 0) ≡ false
    → ((s' : Scanner) × (expect {E = E} c s ≡ ok s') × (1 + size s' ≤ size s))
      ⊎ ((e : ParseError E) × (expect c s ≡ err e) × (runs_out e ≡ false))
unfolding expect runs_out
expect-size c s z = elim (Bool-cases ((read s).0 == c)) [
  | inl h ↦ inl ((read s).1, rw h, read-shorter s c z h)
  | inr h ↦ inr (unexpected (read s).0, rw h, refl)
]

pub read_number-size :
    (rest : Runes) → length (read_number rest).0 + size (read_number rest).1 ≤ length rest
unfolding read_number unread
read_number-size [] = omega arith
read_number-size (c ∷ rest) = elim (Bool-cases (c == 0)) [
  | inl z ↦ rw z (omega arith)
  | inr z ↦ elim (Bool-cases (ends_number c)) [
    | inl b ↦ rw (z, b) (omega arith)
    | inr b ↦ rw (z, b) (omega (arith, read_number-size rest))
  ]
]

-- What a loop over a string has read, and what it leaves.
data IsWithin (n : ℕ) : Unquoted → Type 0 where
  refused : IsWithin n none
  within :
      {left : Option ℕ} {text : Runes} {s : Scanner}
      → length text + size s ≤ n
      → IsWithin n (some (left, (text, s)))

prepend-IsWithin : (c n : ℕ) (u : Unquoted) → IsWithin n u → IsWithin (suc n) (prepend_unquoted c u)
prepend-IsWithin c n none refused = refused
prepend-IsWithin c n (some (left, (text, s))) (within h) = within (omega (arith, h))

IsWithin-more : (n : ℕ) (u : Unquoted) → IsWithin n u → IsWithin (suc n) u
IsWithin-more n none refused = refused
IsWithin-more n (some (left, (text, s))) (within h) = within (omega (arith, h))

unquoted_loop-IsWithin :
    (escape : Bool) (left last : Option ℕ) (rest : Runes)
    → IsWithin (length rest) (unquoted_loop escape left last rest)
unfolding unquoted_loop
unquoted_loop-IsWithin escape left last [] =
    if_both (IsWithin 0) escape refused
      (if_both (IsWithin 0) (is_done left) (within (omega arith)) (within (omega arith)))
unquoted_loop-IsWithin escape left last (c ∷ rest) =
    let more =
      unquoted_loop-IsWithin (not escape && c == escape_rune)
        (if not escape && c == escape_rune then left else less left) (some c) rest in
    if_both (IsWithin (suc (length rest))) (not escape && is_done left) (within (omega arith)) (
      if_both (IsWithin (suc (length rest))) (c == 0)
        (if_both (IsWithin (suc (length rest))) escape refused (within (omega arith)))
        (if_both (IsWithin (suc (length rest))) (not escape && c == escape_rune)
          (IsWithin-more (length rest) _ more)
          (prepend-IsWithin (if escape then escaped c else c) (length rest) _ more)))

-- The readers of strings.
pub data ReadWithin {E : Type 0} (k n : ℕ) : Result (ParseError E) Read → Type 0 where
  read_within :
      {text : Runes} {s : Scanner} → k + (length text + size s) ≤ n → ReadWithin k n (ok (text, s))
  read_stops : {e : ParseError E} → runs_out e ≡ false → ReadWithin k n (err e)

check_length-ReadWithin :
    {E : Type 0} (n : ℕ) (u : Unquoted) → IsWithin n u → ReadWithin {E = E} 0 n (check_length u)
unfolding runs_out
check_length-ReadWithin n none refused = read_stops refl
check_length-ReadWithin n (some (none, (text, s))) (within h) =
    read_within {text = text} {s = s} (omega (arith, h))
check_length-ReadWithin n (some (some m, (text, s))) (within h) =
    if_both (ReadWithin 0 n) (m == 0) (read_within {text = text} {s = s} (omega (arith, h)))
      (read_stops refl)

pub read_unquoted-ReadWithin :
    {E : Type 0} (len : ℤ) (s : Scanner) → ReadWithin {E = E} 0 (size s) (read_unquoted len s)
unfolding read_unquoted runs_out
read_unquoted-ReadWithin (ℤ.negsuc n) s = read_stops refl
read_unquoted-ReadWithin (ℤ.pos zero) s =
    check_length-ReadWithin (size s) _ (unquoted_loop-IsWithin false none s.last s.rest)
read_unquoted-ReadWithin (ℤ.pos (suc n)) s =
    check_length-ReadWithin (size s) _ (unquoted_loop-IsWithin false (some (suc n)) s.last s.rest)

close_quote-Leaves :
    {E : Type 0} (n : ℕ) (r : Result (ParseError E) Read)
    → ReadWithin 0 n r
    → Leaves 0 n (close_quote r)
unfolding runs_out
close_quote-Leaves n (err e) h = stops refl
close_quote-Leaves n (ok (text, s)) (read_within h) =
    if_both (Leaves 0 n) ((read s).0 == b'\'')
      (leaves {a = text} {s = (read s).1} (omega (arith, h, read-size s))) (stops refl)

Leaves-shorter :
    {E A : Type 0} (m n : ℕ) (r : Result (ParseError E) (A × Scanner))
    → 1 + m ≤ n
    → Leaves 0 m r
    → Leaves 1 n r
Leaves-shorter m n (err e) l (stops h) = stops h
Leaves-shorter m n (ok (a, s)) l (leaves h) = leaves (omega (arith, l, h))

-- A quoted string is shorter by its quote at least.
pub read_string-Leaves :
    {E : Type 0} (len : ℤ) (s : Scanner) → Leaves {E = E} 1 (size s) (read_string len true s)
unfolding read_string runs_out
read_string-Leaves len s = elim (Bool-cases ((read s).0 == b'\'')) [
  | inl h ↦ rw h (
      Leaves-shorter (size (read s).1) (size s) _ (read-shorter s b'\'' refl h)
        (close_quote-Leaves (size (read s).1) _ (read_unquoted-ReadWithin len (read s).1)))
  | inr h ↦ rw h (stops refl)
]

-- What `UnreadRune` gives back, it gives back once.
unread_idem : (s : Scanner) → unread (unread s) ≡ unread s
unfolding unread
unread_idem s = split s.last
  where
    split :
        (last : Option ℕ)
        → unread (unread (record { rest = s.rest; last = last }))
          ≡ unread (record { rest = s.rest; last = last })
    split none = refl
    split (some c) = refl

-- What a read leaves, however often it is given back.
again : Scanner → ℕ → Scanner
again s zero = unread s
again s (suc n) = unread (again s n)

again-size : (s : Scanner) (n : ℕ) → size (again (read s).1 n) ≤ size s
unfolding again
again-size s zero = omega (arith, unread-read-size s)
again-size s (suc n) = omega (arith, again-size s n, ap size (again_idem (read s).1 n))
  where
    again_idem : (s : Scanner) (n : ℕ) → unread (again s n) ≡ again s n
    again_idem s zero = unread_idem s
    again_idem s (suc n) = unread_idem (again s n)

pub peak_null-size : (s : Scanner) → size (peak_null s).1 ≤ size s
unfolding peak_null again
peak_null-size s =
    let s1 = (read s).1 in
    let s2 = (read s1).1 in
    let s3 = (read s2).1 in
    let s4 = (read s3).1 in
    let s5 = (read s4).1 in
    let a : size s1 ≤ size s = read-size s in
    let b : size s2 ≤ size s = omega (arith, a, read-size s1) in
    let c : size s3 ≤ size s = omega (arith, b, read-size s2) in
    let d : size s4 ≤ size s = omega (arith, c, read-size s3) in
    let short : Bool × Scanner → Type 0 = λ r. size r.1 ≤ size s in
    if_both short (not ((read s).0 == b'N')) (again-size s 0) (
      if_both short (not ((read s1).0 == b'U')) (omega (arith, a, again-size s1 1)) (
        if_both short (not ((read s2).0 == b'L')) (omega (arith, b, again-size s2 2)) (
          if_both short (not ((read s3).0 == b'L')) (omega (arith, c, again-size s3 3)) (
            if_both short (not ((read s4).0 == 0)) (omega (arith, d, again-size s4 4))
              (omega (arith, d, read-size s4))))))

-- ===== src/Sql/Scanner/Closed.antt =====
-- Pieces of text that the scan passes over with no placeholder, whatever follows.
use lake_go.Prelude.{
  inr, inl, ◌==◌, Bool-cases, ℕ, ◌+◌, ◌-◌, ◌≤◌, ◌≡◌, ◌≢◌, refl, ap, ◌∙◌, [], ◌∷◌, ◌++◌,
  append_assoc, arith, Bytes, length, length-append, length-drop, All,
}
use lake_go.Sql.Escape.{backslash, apostrophe, escape_byte, escape, quote}
use lake_go.Sql.Scanner.{Turn, next, question, skip_quoted, turn, resume, scan, after_second}
use lake_go.Sql.Scanner.Cursor.{stops, goes, Turns, skips, marks, turn-Turns}
use lake_go.Sql.Scanner.Fuel.{scan_fuel, scan_from}

-- No apostrophe follows, so that the literal before ends there.
abbrev pub Apart : Bytes → Type 0
Apart [] = Unit
Apart (c ∷ s) = c ≢ apostrophe

-- The scan passes over `t` whatever follows.
abbrev pub Passes : Bytes → Type 0
Passes t = (i : ℕ) (rest : Bytes) → scan_from i (t ++ rest) ≡ scan_from (i + length t) rest

-- The scan passes over `t` where no apostrophe follows.
abbrev pub Closed : Bytes → Type 0
Closed t =
    (i : ℕ) (rest : Bytes) → Apart rest → scan_from i (t ++ rest) ≡ scan_from (i + length t) rest

pub scan_from-next :
    (i c j : ℕ) (r t : Bytes) → turn i c r ≡ next j t → scan_from i (c ∷ r) ≡ scan_from j t
unfolding scan_from scan
scan_from-next i c j r t e =
    rw (e, resume)
      (scan_fuel (length r) (length t) j t (shorter (turn-Turns i c r) e) (omega arith))
  where
    shorter : {u : Turn} → Turns i c r u → u ≡ next j t → length t ≤ length r
    shorter (skips stops) e = cc
    shorter (skips (goes {j = k} {t = u} le h)) e =
        let f : t ≡ u = cc in rw (f, h) (omega (arith, length-drop {0} (k - (i + 1)) r))
    shorter (marks q) e = cc

pub scan_from-mark : (i : ℕ) (r : Bytes) → scan_from i (question ∷ r) ≡ i ∷ scan_from (i + 1) r
unfolding scan_from scan turn
scan_from-mark i r = refl

pub Passes-Closed : (t : Bytes) → Passes t → Closed t
Passes-Closed t h i rest a = h i rest

pub Closed-append-Passes :
    (t u : Bytes) → Closed t → Passes u → ((r : Bytes) → Apart (u ++ r)) → Passes (t ++ u)
Closed-append-Passes t u h k a i rest = rw append_assoc (
    h i (u ++ rest) (a rest)
    ∙ k (i + length t) rest
    ∙ ap (λ j. scan_from j rest) (omega (arith, length-append {0} t u)))

pub Passes-append : (t u : Bytes) → Passes t → Passes u → Passes (t ++ u)
Passes-append t u h k i rest = rw append_assoc (
    h i (u ++ rest)
    ∙ k (i + length t) rest
    ∙ ap (λ j. scan_from j rest) (omega (arith, length-append {0} t u)))

pub Passes-append-Closed : (t u : Bytes) → Passes t → Closed u → Closed (t ++ u)
Passes-append-Closed t u h k i rest a = rw append_assoc (
    h i (u ++ rest)
    ∙ k (i + length t) rest a
    ∙ ap (λ j. scan_from j rest) (omega (arith, length-append {0} t u)))

-- A byte that starts no region, comment, stage location or placeholder.
abbrev pub IsOrdinary : ℕ → Type 0
IsOrdinary c =
    (c ≢ apostrophe)
    × (c ≢ b'"')
    × (c ≢ b'`')
    × (c ≢ b'-')
    × (c ≢ b'/')
    × (c ≢ b'$')
    × (c ≢ b'@')
    × (c ≢ question)

turn_ordinary : (i c : ℕ) (r : Bytes) → IsOrdinary c → turn i c r ≡ next (i + 1) r
unfolding turn
turn_ordinary i c r h = ground arith

pub Passes-ordinary : (t : Bytes) → All IsOrdinary t → Passes t
Passes-ordinary [] h i rest = ap (λ j. scan_from j rest) (omega arith)
Passes-ordinary (c ∷ t) h i rest =
    scan_from-next i c (i + 1) (t ++ rest) (t ++ rest) (turn_ordinary i c (t ++ rest) h.0)
    ∙ Passes-ordinary t h.1 (i + 1) rest
    ∙ ap (λ j. scan_from j rest) (omega arith)

-- A minus sign is passed over where no other follows.
pub Passes-minus : (c : ℕ) (t : Bytes) → c ≢ b'-' → Passes (c ∷ t) → Passes (b'-' ∷ c ∷ t)
Passes-minus c t ne h i rest =
    scan_from-next i b'-' (i + 1) (c ∷ (t ++ rest)) (c ∷ (t ++ rest)) minus
    ∙ h (i + 1) rest
    ∙ ap (λ j. scan_from j rest) (omega arith)
  where
    minus : turn i b'-' (c ∷ (t ++ rest)) ≡ next (i + 1) (c ∷ (t ++ rest))
    minus = unfold turn after_second in ground arith

skip_quoted_byte :
    (i c : ℕ) (r : Bytes)
    → c ≢ apostrophe
    → c ≢ backslash
    → skip_quoted apostrophe i (c ∷ r) ≡ skip_quoted apostrophe (i + 1) r
unfolding skip_quoted
skip_quoted_byte i c [] h k = refl
skip_quoted_byte i c (d ∷ r) h k = ground arith

skip_quoted_end :
    (i : ℕ) (r : Bytes) → Apart r → skip_quoted apostrophe i (apostrophe ∷ r) ≡ next (i + 1) r
unfolding skip_quoted
skip_quoted_end i [] h = refl
skip_quoted_end i (d ∷ r) h = ground arith

skip_quoted-escape_byte :
    (i c : ℕ) (r : Bytes)
    → skip_quoted apostrophe i (escape_byte c ++ r)
      ≡ skip_quoted apostrophe (i + length (escape_byte c)) r
unfolding escape_byte skip_quoted
skip_quoted-escape_byte i c r = elim (Bool-cases (c == backslash)) [
  | inl b ↦ rw b (ap (λ j. skip_quoted apostrophe j r) (omega arith))
  | inr b ↦ elim (Bool-cases (c == apostrophe)) [
    | inl q ↦ rw (b, q) (ap (λ j. skip_quoted apostrophe j r) (omega arith))
    | inr q ↦
        rw (b, q)
          (skip_quoted_byte i c r (ground arith) (ground arith)
            ∙ ap (λ j. skip_quoted apostrophe j r) (omega arith))
  ]
]

skip_quoted-escape :
    (s : Bytes) (i : ℕ) (rest : Bytes)
    → Apart rest
    → skip_quoted apostrophe i (escape s ++ apostrophe ∷ rest)
      ≡ next (i + length (escape s) + 1) rest
unfolding escape
skip_quoted-escape [] i rest a = skip_quoted_end i rest a ∙ ap (λ j. next j rest) (omega arith)
skip_quoted-escape (c ∷ s) i rest a = rw append_assoc (
    skip_quoted-escape_byte i c (escape s ++ apostrophe ∷ rest)
    ∙ skip_quoted-escape s (i + length (escape_byte c)) rest a
    ∙ ap (λ j. next j rest) (omega (arith, length-append {0} (escape_byte c) (escape s))))

-- A quoted literal of escaped text is closed, whatever the text.
pub Closed-quote : (s : Bytes) → Closed (quote (escape s))
unfolding quote
Closed-quote s i rest a = rw append_assoc (
    scan_from-next i apostrophe (i + 1 + length (escape s) + 1) (escape s ++ (apostrophe ∷ rest))
      rest (unfold turn in skip_quoted-escape s (i + 1) rest a)
    ∙ ap (λ j. scan_from j rest) (omega (arith, length-append {0} (escape s) (apostrophe ∷ []))))

pub Closed-append :
    (t u : Bytes) → Closed t → Closed u → ((r : Bytes) → Apart r → Apart (u ++ r)) → Closed (t ++ u)
Closed-append t u h k a i rest c = rw append_assoc (
    h i (u ++ rest) (a rest c)
    ∙ k (i + length t) rest c
    ∙ ap (λ j. scan_from j rest) (omega (arith, length-append {0} t u)))

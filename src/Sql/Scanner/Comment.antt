-- ===== src/Sql/Scanner/Comment.antt =====
-- A minus sign of the query right before a negative parameter.
use lake_go.Prelude.{
  ℕ, suc, ◌+◌, ◌≡◌, refl, ap, ◌∙◌, ◌≢◌, [], ◌∷◌, ◌++◌, arith, length, Bytes, All, All-append,
}
use lake_go.Prelude.Decimal.{decimal, IsDigit, decimal-IsDigit}
use lake_go.Sql.Scanner.{next, skip_line, after_second, turn, scan}
use lake_go.Sql.Scanner.Fuel.{scan_from}
use lake_go.Sql.Scanner.Closed.{scan_from-next}

-- A byte that does not end a line comment.
abbrev pub IsInLine : ℕ → Type 0
IsInLine c = (c ≢ b'\n') × (c ≢ 12)

All-digit-IsInLine : (t : Bytes) → All IsDigit t → All IsInLine t
All-digit-IsInLine [] h = tt
All-digit-IsInLine (c ∷ t) h = (omega arith, All-digit-IsInLine t h.1)

skip_line-IsInLine : (i : ℕ) (s : Bytes) → All IsInLine s → skip_line i s ≡ next (i + length s) []
unfolding skip_line
skip_line-IsInLine i [] h = ap (λ j. next j []) (omega arith)
skip_line-IsInLine i (c ∷ s) h =
    ground (arith, skip_line-IsInLine (i + 1) s h.1, ap (λ j. next j []) (regroup i (length s)))
  where
    regroup : (i n : ℕ) → i + 1 + n ≡ i + suc n
    regroup i n = omega arith

-- The text of a negative number behind a minus sign opens a line comment: the scan finds nothing in
-- the rest of the line.
pub minus_hides_line :
    (i n : ℕ) (rest : Bytes)
    → All IsInLine rest
    → scan_from i (b'-' ∷ b'-' ∷ (decimal n ++ rest)) ≡ []
minus_hides_line i n rest h =
    scan_from-next i b'-' (i + 2 + length line) (b'-' ∷ line) [] comment
    ∙ nothing (i + 2 + length line)
  where
    line : Bytes
    line = decimal n ++ rest

    comment : turn i b'-' (b'-' ∷ line) ≡ next (i + 2 + length line) []
    comment =
        unfold turn after_second in
        skip_line-IsInLine (i + 2) line
          (All-append IsInLine (decimal n) rest (All-digit-IsInLine _ (decimal-IsDigit n)) h)

    nothing : (j : ℕ) → scan_from j [] ≡ []
    nothing j = unfold scan_from scan in refl

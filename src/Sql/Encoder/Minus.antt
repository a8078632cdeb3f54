-- ===== src/Sql/Encoder/Minus.antt =====
-- A negative number that is bound right behind a minus sign, as in `a -?`.
use lake_go.Prelude.{ℕ, suc, ◌≡◌, [], ◌∷◌, ◌++◌, Bytes, All}
use lake_go.Prelude.Decimal.{negsuc, decimal}
use lake_go.Prelude.Result.{ok}
use lake_go.Sql.Scanner.Fuel.{scan_from}
use lake_go.Sql.Scanner.Comment.{IsInLine, minus_hides_line}
use lake_go.Sql.Encoder.{int, Formats, encode}

-- The encoded text of a negative number, behind a minus sign, opens a line comment: no placeholder
-- of the rest of the line is found.
pub minus-encode :
    {T : Type 0} (fmt : Formats T) (i n : ℕ) (t rest : Bytes)
    → encode fmt (int (negsuc n)) ≡ ok t
    → All IsInLine rest
    → scan_from i (b'-' ∷ (t ++ rest)) ≡ []
unfolding encode
minus-encode fmt i n t rest e h =
    let k : t ≡ b'-' ∷ decimal (suc n) = cc in rw k (minus_hides_line i (suc n) rest h)

-- ===== src/Sql/Escape.antt =====
-- helpers.go: `escape` and `quote`, which make a SQL string literal of any text.
use lake_go.Prelude.{ℕ, [], ◌∷◌, ◌++◌, ◌==◌, if◌then◌else◌, Bytes}

abbrev pub backslash : ℕ
backslash = b'\\'

abbrev pub apostrophe : ℕ
apostrophe = b'\''

-- What the replacer writes for one byte.
unfoldable pub escape_byte : ℕ → Bytes
escape_byte c =
    if c == backslash
    then backslash ∷ backslash ∷ []
    else if c == apostrophe
    then backslash ∷ apostrophe ∷ []
    else c ∷ []

unfoldable pub escape : Bytes → Bytes
unfolding escape_byte
escape [] = []
escape (c ∷ s) = escape_byte c ++ escape s

unfoldable pub quote : Bytes → Bytes
quote s = apostrophe ∷ (s ++ apostrophe ∷ [])

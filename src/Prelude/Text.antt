-- ===== src/Prelude/Text.antt =====
-- strings.TrimSpace, ToUpper, ToLower, Contains, HasPrefix and EqualFold, on ASCII text.
use Prim.Native.Nat.{ℕ, ◌+◌, ◌-◌}
use mathlib.Core.Bool.{Bool, true, ◌&&◌, ◌||◌}
use mathlib.Core.List.{[], ◌∷◌, map, reverse}
use lake_go.Prelude.Tests.{leb, ◌==◌, if◌then◌else◌}
use lake_go.Prelude.Lists.{Bytes, bytes_eq}

-- unicode.IsSpace
pub is_space : ℕ → Bool
is_space c = c == b' ' || (leb 9 c && leb c 13)

pub trim_left : Bytes → Bytes
trim_left [] = []
trim_left (c ∷ s) = let rest = trim_left s in if is_space c then rest else c ∷ s

unfoldable pub trim_space : Bytes → Bytes
unfolding trim_left is_space
trim_space s = reverse (trim_left (reverse (trim_left s)))

unfoldable pub to_upper : ℕ → ℕ
to_upper c = if leb b'a' c && leb c b'z' then c - 32 else c

unfoldable pub to_lower : ℕ → ℕ
to_lower c = if leb b'A' c && leb c b'Z' then c + 32 else c

abbrev pub starts_with : Bytes → Bytes → Bool
starts_with p [] = bytes_eq p []
starts_with [] (c ∷ s) = true
starts_with (d ∷ p) (c ∷ s) = d == c && starts_with p s

-- strings.Contains(s, p)
unfoldable pub contains : Bytes → Bytes → Bool
contains [] p = bytes_eq p []
contains (c ∷ s) p = starts_with p (c ∷ s) || contains s p

unfoldable pub equal_fold : Bytes → Bytes → Bool
unfolding to_lower
equal_fold s t = bytes_eq (map to_lower s) (map to_lower t)

-- ===== src/Sql/Scanner/Fuel.antt =====
-- The fuel of the scan is enough: more of it changes nothing.
use lake_go.Prelude.{
  ℕ, zero, suc, ◌+◌, ◌-◌, ◌≤◌, ◌≡◌, refl, ap, List, [], ◌∷◌, arith, Bytes, length, length-drop,
}
use lake_go.Sql.Scanner.{Turn, turn, resume, scan}
use lake_go.Sql.Scanner.Cursor.{stops, goes, Turns, skips, marks, turn-Turns}

pub scan_fuel : (f g i : ℕ) (s : Bytes) → length s ≤ f → length s ≤ g → scan f i s ≡ scan g i s
unfolding scan
scan_fuel zero zero i [] hf hg = refl
scan_fuel zero (suc g) i [] hf hg = refl
scan_fuel (suc f) zero i [] hf hg = refl
scan_fuel (suc f) (suc g) i [] hf hg = refl
scan_fuel zero g i (c ∷ r) hf hg = absurd (omega arith)
scan_fuel (suc f) zero i (c ∷ r) hf hg = absurd (omega arith)
scan_fuel (suc f) (suc g) i (c ∷ r) hf hg =
    resumed (turn i c r) (turn-Turns i c r) (λ j t. scan_fuel f g j t)
  where
    resumed :
        (t : Turn)
        → Turns i c r t
        → ((j : ℕ) (t : Bytes) → length t ≤ f → length t ≤ g → scan f j t ≡ scan g j t)
        → resume (scan f) i t ≡ resume (scan g) i t
    resumed _ (skips stops) ih = refl
    resumed _ (skips (goes {j} {t} le e)) ih =
        let l = length-drop (j - (i + 1)) r in
        let shorter : length t ≤ length r = rw e (omega (arith, l)) in
        ih j t (omega arith) (omega arith)
    resumed _ (marks q) ih = ap (◌∷◌ i) (ih (i + 1) r (omega arith) (omega arith))

-- The scan of what is left from an offset, with the fuel that it needs.
unfoldable pub scan_from : ℕ → Bytes → List ℕ
scan_from i s = scan (length s) i s

-- ===== src/Sql/Scanner/Located.antt =====
-- The offsets that `placeholders` returns.
use lake_go.Prelude.{
  ℕ, zero, suc, ◌+◌, ◌-◌, ◌≤◌, ◌≡◌, refl, ap, ◌∙◌, List, [], ◌∷◌, some, arith, Bytes, length,
  get_elem?, drop,
}
use lake_go.Sql.Scanner.{Turn, question, turn, resume, scan, placeholders}
use lake_go.Sql.Scanner.Cursor.{stops, goes, Turns, skips, marks, turn-Turns}

-- Offsets that ascend from `lo`, each of a question mark of the query.
abbrev pub Located : ℕ → Bytes → List ℕ → Type 0
Located lo query [] = Unit
Located lo query (o ∷ os) =
    (lo ≤ o) × (get_elem? query o ≡ some question) × Located (o + 1) query os

Located-weaken :
    (lo hi : ℕ) (query : Bytes) (os : List ℕ) → lo ≤ hi → Located hi query os → Located lo query os
Located-weaken lo hi query [] h l = tt
Located-weaken lo hi query (o ∷ os) h l = (omega arith, l.1, l.2)

pub drop-drop : (i k : ℕ) (s : Bytes) → drop k (drop i s) ≡ drop (i + k) s
drop-drop zero k s = let e : 0 + k ≡ k = omega arith in rw e
drop-drop (suc i) zero [] = let e : suc i + 0 ≡ suc i = omega arith in rw e
drop-drop (suc i) (suc k) [] = let e : suc i + suc k ≡ suc (i + suc k) = omega arith in rw e
drop-drop (suc i) k (c ∷ s) =
    let e : suc i + k ≡ suc (i + k) = omega arith in rw e (drop-drop i k s)

-- What is left at an offset: the byte there, and the bytes behind it.
drop-get :
    (i : ℕ) (query : Bytes) {c : ℕ} {r : Bytes}
    → c ∷ r ≡ drop i query
    → (get_elem? query i ≡ some c) × (r ≡ drop (i + 1) query)
drop-get zero [] h = cc
drop-get zero (d ∷ q) h = (ground arith, ground arith)
drop-get (suc i) [] h = cc
drop-get (suc i) (d ∷ q) h = let e : suc i + 1 ≡ suc (i + 1) = omega arith in rw e (drop-get i q h)

Follows-drop :
    (i j : ℕ) (s t query : Bytes) → s ≡ drop i query → i ≤ j → t ≡ drop (j - i) s → t ≡ drop j query
Follows-drop i j s t query h le e =
    let k : i + (j - i) ≡ j = omega arith in
    e ∙ ap (drop (j - i)) h ∙ drop-drop i (j - i) query ∙ rw k

scan-Located : (f i : ℕ) (s query : Bytes) → s ≡ drop i query → Located i query (scan f i s)
unfolding scan
scan-Located zero i s query h = tt
scan-Located (suc f) i [] query h = tt
scan-Located (suc f) i (c ∷ r) query h =
    resumed (turn i c r) (turn-Turns i c r) (λ j t. scan-Located f j t query)
  where
    behind : r ≡ drop (i + 1) query
    behind = (drop-get i query h).1

    resumed :
        (t : Turn)
        → Turns i c r t
        → ((j : ℕ) (t : Bytes) → t ≡ drop j query → Located j query (scan f j t))
        → Located i query (resume (scan f) i t)
    resumed _ (skips stops) ih = tt
    resumed _ (skips (goes {j} {t} le e)) ih =
        Located-weaken i j query _ (omega arith)
          (ih j t (Follows-drop (i + 1) j r t query behind le e))
    resumed _ (marks q) ih = (omega arith, (drop-get i query h).0 ∙ ap some q, ih (i + 1) r behind)

-- The offsets ascend strictly, and each is that of a question mark of the query.
pub placeholders-Located : (query : Bytes) → Located 0 query (placeholders query)
unfolding placeholders
placeholders-Located query = scan-Located (length query) 0 query query refl

-- ===== src/Sql/Scanner/Cursor.antt =====
-- Every turn of the scan leaves the cursor at a later suffix of the query, or stops.
use lake_go.Prelude.{
  ℕ, suc, Bool, true, false, if◌then◌else◌, ◌+◌, ◌-◌, ◌≤◌, ◌≡◌, refl, [], ◌∷◌, ◌==◌, ◌&&◌, not,
  if_both, arith, Bytes, drop,
}
use lake_go.Sql.Escape.{backslash}
use lake_go.Sql.Scanner.{
  backquote, Turn, question, stop, next, mark, skip_quoted, skip_line, skip_until, skip_stage,
  after_second, turn,
}

-- From offset `i`, where `s` is left, the turn goes on at the bytes that offset `j` names.
pub data Follows (i : ℕ) (s : Bytes) : Turn → Type 0 where
  stops : Follows i s stop
  goes : {j : ℕ} {t : Bytes} → i ≤ j → t ≡ drop (j - i) s → Follows i s (next j t)

-- The turn at the byte `c` of offset `i`, before `r`.
pub data Turns (i c : ℕ) (r : Bytes) : Turn → Type 0 where
  skips : {t : Turn} → Follows (i + 1) r t → Turns i c r t
  marks : c ≡ question → Turns i c r (mark (i + 1) r)

drop_later :
    (i j c : ℕ) (s t : Bytes) → i + 1 ≤ j → t ≡ drop (j - (i + 1)) s → t ≡ drop (j - i) (c ∷ s)
drop_later i j c s t h e = let k : j - i ≡ suc (j - (i + 1)) = omega arith in rw k e

Follows-shift : (i k c : ℕ) (s : Bytes) {t : Turn} → k ≡ i + 1 → Follows k s t → Follows i (c ∷ s) t
Follows-shift i k c s e stops = stops
Follows-shift i k c s e (goes {j} {t} h p) =
    goes (omega arith) (drop_later i j c s t (omega arith) (rw e at p))

Follows-cons : (i c : ℕ) (s : Bytes) {t : Turn} → Follows (i + 1) s t → Follows i (c ∷ s) t
Follows-cons i c s h = Follows-shift i (i + 1) c s (omega arith) h

Follows-pair : (i c d : ℕ) (s : Bytes) {t : Turn} → Follows (i + 2) s t → Follows i (c ∷ d ∷ s) t
Follows-pair i c d s h =
    Follows-cons i c (d ∷ s) (Follows-shift (i + 1) (i + 2) d s (omega arith) h)

Follows-here : (i : ℕ) (s : Bytes) → Follows i s (next i s)
Follows-here i s = let e : i - i ≡ 0 = omega arith in goes (omega arith) (rw e)

Follows-one : (i c : ℕ) (s : Bytes) → Follows i (c ∷ s) (next (i + 1) s)
Follows-one i c s = Follows-cons i c s (Follows-here (i + 1) s)

pub skip_quoted-Follows : (q i : ℕ) (s : Bytes) → Follows i s (skip_quoted q i s)
unfolding skip_quoted
skip_quoted-Follows q i [] = Follows-here i []
skip_quoted-Follows q i (c ∷ []) = Follows-one i c []
skip_quoted-Follows q i (c ∷ d ∷ r) =
    let pair = Follows-pair i c d r (skip_quoted-Follows q (i + 2) r) in
    let byte = Follows-cons i c (d ∷ r) (skip_quoted-Follows q (i + 1) (d ∷ r)) in
    let F = λ (t : Turn). Follows i (c ∷ d ∷ r) t in
    if_both F (c == backslash && not (q == backquote)) pair
      (if_both F (c == q) (if_both F (d == q) pair (Follows-one i c (d ∷ r))) byte)

pub skip_line-Follows : (i : ℕ) (s : Bytes) → Follows i s (skip_line i s)
unfolding skip_line
skip_line-Follows i [] = Follows-here i []
skip_line-Follows i (c ∷ r) =
    if_both (λ t. Follows i (c ∷ r) t) _ (Follows-one i c r)
      (Follows-cons i c r (skip_line-Follows (i + 1) r))

pub skip_until-Follows : (a b i : ℕ) (s : Bytes) → Follows i s (skip_until a b i s)
unfolding skip_until
skip_until-Follows a b i [] = stops
skip_until-Follows a b i (c ∷ []) = stops
skip_until-Follows a b i (c ∷ d ∷ r) =
    if_both (λ t. Follows i (c ∷ d ∷ r) t) _ (Follows-pair i c d r (Follows-here (i + 2) r))
      (Follows-cons i c (d ∷ r) (skip_until-Follows a b (i + 1) (d ∷ r)))

pub skip_stage-Follows : (i : ℕ) (s : Bytes) → Follows i s (skip_stage i s)
unfolding skip_stage
skip_stage-Follows i [] = Follows-here i []
skip_stage-Follows i (c ∷ []) =
    if_both (λ t. Follows i (c ∷ []) t) _ (Follows-here i (c ∷ [])) (Follows-one i c [])
skip_stage-Follows i (c ∷ d ∷ r) =
    let F = λ (t : Turn). Follows i (c ∷ d ∷ r) t in
    if_both F _ (Follows-pair i c d r (skip_stage-Follows (i + 2) r)) (
      if_both F _ (Follows-here i (c ∷ d ∷ r))
        (Follows-cons i c (d ∷ r) (skip_stage-Follows (i + 1) (d ∷ r))))

after_second-Follows :
    (b i c : ℕ) (s : Bytes) (skip : ℕ → Bytes → Turn)
    → ((j : ℕ) (t : Bytes) → Follows j t (skip j t))
    → Follows (i + 1) s (after_second b skip i s)
unfolding after_second
after_second-Follows b i c [] skip h = Follows-here (i + 1) []
after_second-Follows b i c (d ∷ r) skip h =
    if_both (λ t. Follows (i + 1) (d ∷ r) t) (d == b)
      (Follows-shift (i + 1) (i + 2) d r (omega arith) (h (i + 2) r)) (Follows-here (i + 1) (d ∷ r))

-- A turn goes on behind its byte, and marks nothing but a question mark.
pub turn-Turns : (i c : ℕ) (r : Bytes) → Turns i c r (turn i c r)
unfolding turn
turn-Turns i c r =
    let F = λ (t : Turn). Turns i c r t in
    if_both F _ (skips (skip_quoted-Follows c (i + 1) r)) (
      if_both F _ (skips (after_second-Follows b'-' i c r _ skip_line-Follows)) (
        if_both F _ (skips (after_second-Follows b'*' i c r _ (skip_until-Follows b'*' b'/'))) (
          if_both F _ (skips (after_second-Follows b'$' i c r _ (skip_until-Follows b'$' b'$')))
            (if_both F _ (skips (skip_stage-Follows (i + 1) r)) (last (c == question) refl)))))
  where
    last :
        (b : Bool)
        → (c == question) ≡ b
        → Turns i c r (if b then mark (i + 1) r else next (i + 1) r)
    last true e = marks (ground arith)
    last false e = skips (Follows-here (i + 1) r)

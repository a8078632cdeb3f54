-- ===== src/Sql/Splice/Buffer.antt =====
-- The buffer that `interpolateParams2` fills is the query with each placeholder replaced.
use lake_go.Sql.Splice.{assemble, total_length, fill, copy, subslice}
use lake_go.Prelude.{
  zero, ◌-◌, sym, append_assoc, length-append, replicate, take-append-drop, length-take,
  length-drop, length-replicate, append-nil, some, ◌∙◌, get_elem?, suc, ◌<◌, ℕ, ◌+◌, ◌≤◌, ◌≡◌, refl,
  ap, List, [], ◌∷◌, ◌++◌, arith, Bytes, length, drop,
}
use lake_go.Sql.Scanner.Located.{Located, drop-drop}
use lake_go.Sql.Scanner.{question}

-- From offset `i` on, `text` has its question marks at the offsets `os`, and `result` has there the
-- texts `es` instead.
pub data Substitutes : ℕ → Bytes → List ℕ → List Bytes → Bytes → Type 0 where
  whole : (i : ℕ) (text : Bytes) → Substitutes i text [] [] text
  hole :
      (i o : ℕ) (s rest : Bytes) (e : Bytes) {os : List ℕ} {es : List Bytes} {text result r : Bytes}
      → o ≡ i + length s
      → text ≡ s ++ (question ∷ rest)
      → result ≡ s ++ (e ++ r)
      → Substitutes (o + 1) rest os es r
      → Substitutes i text (o ∷ os) (e ∷ es) result

-- The text that the offsets and the parameters give, by concatenation.
pub splice : Bytes → ℕ → List ℕ → List Bytes → Bytes
splice query i [] es = drop i query
splice query i (o ∷ os) [] = []
splice query i (o ∷ os) (e ∷ es) = subslice query i o ++ (e ++ splice query (o + 1) os es)

copy_behind :
    (out src blank : Bytes)
    → length src ≤ length blank
    → copy (out ++ blank) (length out) src ≡ (out ++ src) ++ drop (length src) blank
unfolding copy
copy_behind [] [] [] h = refl
copy_behind [] [] (b ∷ blank) h = refl
copy_behind [] (c ∷ src) [] h = absurd (omega arith)
copy_behind [] (c ∷ src) (b ∷ blank) h = ap (◌∷◌ c) (copy_behind [] src blank (omega arith))
copy_behind (a ∷ out) src blank h = ap (◌∷◌ a) (copy_behind out src blank h)

get_elem?-lt : (s : Bytes) (i : ℕ) {c : ℕ} → get_elem? s i ≡ some c → i < length s
get_elem?-lt [] i h = cc
get_elem?-lt (d ∷ s) zero h = omega arith
get_elem?-lt (d ∷ s) (suc i) h = omega (arith, get_elem?-lt s i h)

drop-get_elem? :
    (s : Bytes) (i : ℕ) {c : ℕ} → get_elem? s i ≡ some c → drop i s ≡ c ∷ drop (i + 1) s
drop-get_elem? [] i h = cc
drop-get_elem? (d ∷ s) zero h = ground arith
drop-get_elem? (d ∷ s) (suc i) h =
    let e : suc i + 1 ≡ suc (i + 1) = omega arith in rw e (drop-get_elem? s i h)

drop_all : (s : Bytes) (n : ℕ) → length s ≡ n → drop n s ≡ []
drop_all [] zero h = refl
drop_all [] (suc n) h = refl
drop_all (c ∷ s) zero h = absurd (omega arith)
drop_all (c ∷ s) (suc n) h = drop_all s n (omega arith)

length-subslice : (s : Bytes) (i j : ℕ) → i ≤ j → j ≤ length s → length (subslice s i j) ≡ j - i
length-subslice s i j h k = omega (arith, length-take {0} (j - i) (drop i s), length-drop {0} i s)

drop-subslice :
    (s : Bytes) (i o : ℕ) {c : ℕ}
    → i ≤ o
    → get_elem? s o ≡ some c
    → drop i s ≡ subslice s i o ++ (c ∷ drop (o + 1) s)
drop-subslice s i o h g =
    let e : i + (o - i) ≡ o = omega arith in
    sym (take-append-drop (o - i) (drop i s))
    ∙ ap (◌++◌ (subslice s i o)) (drop-drop i (o - i) s ∙ rw e (drop-get_elem? s o g))

length-splice :
    (query : Bytes) (i : ℕ) (os : List ℕ) (es : List Bytes)
    → length es ≡ length os
    → Located i query os
    → length (splice query i os es) + length os ≡ length query - i + total_length es
unfolding splice
length-splice query i [] [] h l = omega (arith, length-drop {0} i query)
length-splice query i [] (e ∷ es) h l = absurd (omega arith)
length-splice query i (o ∷ os) [] h l = absurd (omega arith)
length-splice query i (o ∷ os) (e ∷ es) h l = omega (
  arith,
  length-splice query (o + 1) os es (omega arith) (l.2),
  get_elem?-lt query o l.1,
  length-subslice query i o,
  length-append {0} (subslice query i o) (e ++ splice query (o + 1) os es),
  length-append {0} e (splice query (o + 1) os es),
)

-- The texts of the parameters stand where the question marks stood, and all else is as it was.
pub splice-Substitutes :
    (query : Bytes) (i : ℕ) (os : List ℕ) (es : List Bytes)
    → length es ≡ length os
    → Located i query os
    → Substitutes i (drop i query) os es (splice query i os es)
unfolding splice
splice-Substitutes query i [] [] h l = whole i (drop i query)
splice-Substitutes query i [] (e ∷ es) h l = absurd (omega arith)
splice-Substitutes query i (o ∷ os) [] h l = absurd (omega arith)
splice-Substitutes query i (o ∷ os) (e ∷ es) h l =
    hole i o (subslice query i o) (drop (o + 1) query) e
      (omega (arith, length-subslice query i o, get_elem?-lt query o l.1))
      (drop-subslice query i o l.0 l.1) refl
      (splice-Substitutes query (o + 1) os es (omega arith) l.2)

copy_at :
    (k : ℕ) (out src blank : Bytes)
    → k ≡ length out
    → length src ≤ length blank
    → copy (out ++ blank) k src ≡ (out ++ src) ++ drop (length src) blank
copy_at k out src blank e h = rw e (copy_behind out src blank h)

le_of_lt : {a b : ℕ} → a < b → a ≤ b
le_of_lt h = omega arith

-- There are no more offsets than bytes.
Located-length :
    (query : Bytes) (i : ℕ) (os : List ℕ) → Located i query os → length os ≤ length query - i
Located-length query i [] l = omega arith
Located-length query i (o ∷ os) l =
    omega (arith, Located-length query (o + 1) os l.2, get_elem?-lt query o l.1)

-- The buffer is `out`, which is done, with `blank` behind it.
fill-splice :
    (query : Bytes) (i : ℕ) (os : List ℕ) (es : List Bytes) (out blank : Bytes) (k : ℕ)
    → length es ≡ length os
    → Located i query os
    → k ≡ length out
    → length blank ≡ length (splice query i os es)
    → fill query os es (out ++ blank) k i ≡ out ++ splice query i os es
unfolding fill splice
fill-splice query i [] [] out blank k h l e n = rw e (
    copy_behind out (drop i query) blank (omega arith)
    ∙ ap (◌++◌ (out ++ drop i query)) (drop_all blank (length (drop i query)) n)
    ∙ append-nil (out ++ drop i query))
fill-splice query i [] (d ∷ es) out blank k h l e n = absurd (omega arith)
fill-splice query i (o ∷ os) [] out blank k h l e n = absurd (omega arith)
fill-splice query i (o ∷ os) (d ∷ es) out blank k h l e n =
    let gap = subslice query i o in
    let gap_length = length-subslice query i o (l.0) (le_of_lt (get_elem?-lt query o l.1)) in
    let later = splice query (o + 1) os es in
    let sizes : length (gap ++ (d ++ later)) ≡ length gap + (length d + length later) =
      omega (arith, length-append {0} gap (d ++ later), length-append {0} d later) in
    let first = copy_at k out gap blank e (omega arith) in
    let second =
      copy_at (k + (o - i)) (out ++ gap) d (drop (length gap) blank)
        (omega (arith, length-append {0} out gap))
        (omega (arith, length-drop {0} (length gap) blank)) in
    ap (λ b. fill query os es (copy b (k + (o - i)) d) (k + (o - i) + length d) (o + 1)) first
    ∙ ap (λ b. fill query os es b (k + (o - i) + length d) (o + 1)) second
    ∙ fill-splice query (o + 1) os es ((out ++ gap) ++ d)
        (drop (length d) (drop (length gap) blank)) (k + (o - i) + length d) (omega arith) l.2
        (omega (arith, length-append {0} (out ++ gap) d, length-append {0} out gap))
        (omega (
          arith,
          length-drop {0} (length d) (drop (length gap) blank),
          length-drop {0} (length gap) blank,
        ))
    ∙ simp append_assoc

-- The buffer has exactly the size of the text that goes into it.
pub assemble-splice :
    (query : Bytes) (os : List ℕ) (es : List Bytes)
    → length es ≡ length os
    → Located 0 query os
    → assemble query os es ≡ splice query 0 os es
unfolding assemble
assemble-splice query os es h l =
    fill-splice query 0 os es [] (replicate (length query - length os + total_length es) 0) 0 h l
      refl
      (omega (
        arith,
        length-replicate {0} {A = ℕ} (length query - length os + total_length es) 0,
        length-splice query 0 os es h l,
        Located-length query 0 os l,
      ))

-- ===== src/Arrow/Schema/Reads.antt =====
-- Names, numbers and names with arguments are read as types.
use lake_go.Prelude.{
  ℕ, suc, ◌≤◌, ◌<◌, ◌≡◌, ◌≢◌, ◌∙◌, refl, false, List, [], ◌∷◌, ◌++◌, append_assoc, append-nil, ap,
  sym, arith, length, length-append, Bytes, All,
}
use lake_go.Prelude.Decimal.{
  ℤ, pos, negsuc, decimal_ℤ, decimal, IsDigit, decimal-IsDigit, decimal-ne-nil,
}
use lake_go.Prelude.Result.{Result, ok}
use lake_go.Types.TypeDesc.{
  TypeDesc, desc, Descs, nil, cons, TypeError, append_desc, type_step, type_loop, type_end,
  type_start, parse_fuel, is_empty,
}
use lake_go.Arrow.Schema.{join, join_tail, call}
use lake_go.Arrow.Schema.Texts.{
  IsWord, at, Passes, Passes-cons, Passes-append, Passes-word, Passes-deeper, type_step-word,
  type_step-comma, type_step-space, type_step-open, type_step-close, Reads, ReadsAll,
  Reads-parse_fuel, Reads-parse_space,
}

-- A word at the start of a text, where no bracket is open.
word_loop :
    (parse : Bytes → Result TypeError TypeDesc) (name : Bytes) (args : Descs) (token t rest : Bytes)
    → All IsWord t
    → type_loop parse (at name args 0 token) (t ++ rest)
      ≡ type_loop parse (at name args 0 (token ++ t)) rest
unfolding type_loop
word_loop parse name args token [] rest w = rw append-nil
word_loop parse name args token (c ∷ t) rest (h, w) =
    rw (type_step-word parse name args token 0 c h) (
      word_loop parse name args (token ++ c ∷ []) t rest w
      ∙ ap (λ u. type_loop parse (at name args 0 u) rest) (append_assoc token (c ∷ []) t))

word_end : (s t : Bytes) → is_empty t ≡ false → type_end s (at [] nil 0 t) ≡ ok (desc t false nil)
unfolding type_end
word_end s t h = ground arith

pub Reads-word : (t : Bytes) → All IsWord t → is_empty t ≡ false → Reads t (desc t false nil)
unfolding type_loop
Reads-word t w h = record {
  passes = Passes-word 0 t w;
  some_bytes = h;
  ends = λ f s n.
      let e = word_loop (parse_fuel f) [] nil [] t [] w in
      let loop : type_loop (parse_fuel f) type_start t ≡ ok (at [] nil 0 t) =
        ap (λ u. type_loop (parse_fuel f) type_start u) (sym (append-nil t)) ∙ e in
      rw loop (word_end s t h);
}

digits-words : (t : Bytes) → All IsDigit t → All IsWord t
digits-words [] h = tt
digits-words (c ∷ t) (d, h) = (omega arith, digits-words t h)

is_empty-ne : (t : Bytes) → t ≢ [] → is_empty t ≡ false
is_empty-ne [] h = absurd (h refl)
is_empty-ne (c ∷ t) h = refl

pub Reads-decimal_ℤ : (z : ℤ) → Reads (decimal_ℤ z) (desc (decimal_ℤ z) false nil)
Reads-decimal_ℤ (pos n) =
    Reads-word (decimal n) (digits-words (decimal n) (decimal-IsDigit n))
      (is_empty-ne (decimal n) (decimal-ne-nil n))
Reads-decimal_ℤ (negsuc n) =
    Reads-word (b'-' ∷ decimal (suc n))
      (omega arith, digits-words (decimal (suc n)) (decimal-IsDigit (suc n))) refl

append_descs : Descs → Descs → Descs
append_descs nil ds = ds
append_descs (cons a more) ds = cons a (append_descs more ds)

append_descs-cons :
    (front : Descs) (d : TypeDesc) (ds : Descs)
    → append_descs (append_desc front d) ds ≡ append_descs front (cons d ds)
unfolding append_descs append_desc
append_descs-cons nil d ds = refl
append_descs-cons (cons a more) d ds = ap (cons a) (append_descs-cons more d ds)

append_descs-nil :
    (front : Descs) (d : TypeDesc) → append_desc front d ≡ append_descs front (cons d nil)
unfolding append_descs append_desc
append_descs-nil nil d = refl
append_descs-nil (cons a more) d = ap (cons a) (append_descs-nil more d)

module _ (parse : Bytes → Result TypeError TypeDesc) (name : Bytes) (args : Descs) (token : Bytes)
    (d : TypeDesc) (full : is_empty token ≡ false) (parsed : parse token ≡ ok d) where
  close_step : type_step parse (at name args 1 token) b')' ≡ ok (at name (append_desc args d) 0 [])
  unfolding type_step
  close_step = rw (full, parsed)

  comma_step : type_step parse (at name args 1 token) b',' ≡ ok (at name (append_desc args d) 1 [])
  unfolding type_step
  comma_step = rw (full, parsed)

-- The arguments behind the first, whose text is the token.
args_loop :
    (f : ℕ) (name : Bytes) (args : Descs) (token : Bytes) (d : TypeDesc) (xs : List Bytes)
    (ds : Descs)
    → is_empty token ≡ false
    → parse_fuel f token ≡ ok d
    → ReadsAll xs ds
    → length (join_tail xs) ≤ f
    → type_loop (parse_fuel f) (at name args 1 token) (join_tail xs ++ b')' ∷ [])
      ≡ ok (at name (append_descs args (cons d ds)) 0 [])
unfolding type_loop
args_loop f name args token d [] nil full parsed r n =
    rw (close_step (parse_fuel f) name args token d full parsed)
      (ap (λ u. ok (at name u 0 [])) (append_descs-nil args d))
args_loop f name args token d [] (cons e ds) full parsed r n = absurd r
args_loop f name args token d (x ∷ xs) nil full parsed r n = absurd r
args_loop f name args token d (x ∷ xs) (cons e ds) full parsed (rx, rs) n =
    let k = length-append x (join_tail xs) in
    let more : length x < f = omega arith in
    let rest : length (join_tail xs) ≤ f = omega arith in
    rw
      (
        comma_step (parse_fuel f) name args token d full parsed,
        type_step-space (parse_fuel f) name (append_desc args d) [] 1 (omega arith),
        append_assoc x (join_tail xs) (b')' ∷ []),
        rx.passes (parse_fuel f) name (append_desc args d) 1 (b' ' ∷ []) (join_tail xs ++ b')' ∷ [])
            (omega arith),
      )
      (args_loop f name (append_desc args d) (b' ' ∷ x) e xs ds refl (Reads-parse_space f rx more)
          rs rest
        ∙ ap (λ u. ok (at name u 0 [])) (append_descs-cons args d (cons e ds)))

-- The text between the brackets, and the closing one.
join_loop :
    (f : ℕ) (name : Bytes) (xs : List Bytes) (ds : Descs)
    → ReadsAll xs ds
    → length (join xs) < f
    → type_loop (parse_fuel f) (at name nil 1 []) (join xs ++ b')' ∷ []) ≡ ok (at name ds 0 [])
unfolding type_loop type_step append_descs
join_loop f name [] nil r n = refl
join_loop f name [] (cons d ds) r n = absurd r
join_loop f name (x ∷ xs) nil r n = absurd r
join_loop f name (x ∷ xs) (cons d ds) (rx, rs) n =
    let k = length-append x (join_tail xs) in
    let more : length x < f = omega arith in
    let rest : length (join_tail xs) ≤ f = omega arith in
    rw
      (
        append_assoc x (join_tail xs) (b')' ∷ []),
        rx.passes (parse_fuel f) name nil 1 [] (join_tail xs ++ b')' ∷ []) (omega arith),
      )
      (args_loop f name nil x d xs ds rx.some_bytes (Reads-parse_fuel f rx more) rs rest)

Passes-join_tail : (xs : List Bytes) (ds : Descs) → ReadsAll xs ds → Passes 1 (join_tail xs)
Passes-join_tail [] ds r = Passes-word 1 [] tt
Passes-join_tail (x ∷ xs) nil r = absurd r
Passes-join_tail (x ∷ xs) (cons d ds) (rx, rs) =
    Passes-cons 1 b',' (b' ' ∷ (x ++ join_tail xs))
      (λ parse name args e token h. type_step-comma parse name args token e h)
      (Passes-cons 1 b' ' (x ++ join_tail xs)
        (λ parse name args e token h. type_step-space parse name args token e (omega arith))
        (Passes-append 1 x (join_tail xs) (Passes-deeper x rx.passes) (Passes-join_tail xs ds rs)))

Passes-join : (xs : List Bytes) (ds : Descs) → ReadsAll xs ds → Passes 1 (join xs)
Passes-join [] ds r = Passes-word 1 [] tt
Passes-join (x ∷ xs) nil r = absurd r
Passes-join (x ∷ xs) (cons d ds) (rx, rs) =
    Passes-append 1 x (join_tail xs) (Passes-deeper x rx.passes) (Passes-join_tail xs ds rs)

call_token :
    (token name inner : Bytes)
    → (((token ++ name) ++ b'(' ∷ []) ++ inner) ++ b')' ∷ []
      ≡ token ++ (name ++ (b'(' ∷ (inner ++ b')' ∷ [])))
call_token token name inner = simp append_assoc

Passes-call :
    (name inner : Bytes)
    → All IsWord name
    → Passes 1 inner
    → Passes 0 (name ++ (b'(' ∷ (inner ++ b')' ∷ [])))
unfolding type_loop
Passes-call n inner w p parse name args d token rest h =
    rw
      (
        append_assoc n (b'(' ∷ (inner ++ b')' ∷ [])) rest,
        Passes-word 0 n w parse name args d token (b'(' ∷ ((inner ++ b')' ∷ []) ++ rest)) h,
        type_step-open parse name args (token ++ n) d h,
        append_assoc inner (b')' ∷ []) rest,
        p parse name args (suc d) ((token ++ n) ++ b'(' ∷ []) (b')' ∷ rest) (omega arith),
        type_step-close parse name args (((token ++ n) ++ b'(' ∷ []) ++ inner) d h,
      )
      (ap (λ u. type_loop parse (at name args d u) rest) (call_token token n inner))

open_step :
    (parse : Bytes → Result TypeError TypeDesc) (name : Bytes)
    → type_step parse (at [] nil 0 name) b'(' ≡ ok (at name nil 1 [])
unfolding type_step
open_step parse name = refl

call_end : (s name : Bytes) (ds : Descs) → type_end s (at name ds 0 []) ≡ ok (desc name false ds)
unfolding type_end
call_end s name ds = refl

is_empty-append : (s t : Bytes) → is_empty s ≡ false → is_empty (s ++ t) ≡ false
is_empty-append [] t h = cc
is_empty-append (c ∷ s) t h = refl

-- A name with arguments, each of which is read as a type.
pub Reads-call :
    (name : Bytes) (xs : List Bytes) (ds : Descs)
    → All IsWord name
    → is_empty name ≡ false
    → ReadsAll xs ds
    → Reads (call name xs) (desc name false ds)
unfolding type_loop
Reads-call name xs ds w full r = record {
  passes = Passes-call name (join xs) w (Passes-join xs ds r);
  some_bytes = is_empty-append name _ full;
  ends = λ f s n.
      let k = length-append name (b'(' ∷ (join xs ++ b')' ∷ [])) in
      let j = length-append (join xs) (b')' ∷ []) in
      rw
        (
          word_loop (parse_fuel f) [] nil [] name (b'(' ∷ (join xs ++ b')' ∷ [])) w,
          open_step (parse_fuel f) name,
          join_loop f name xs ds r (omega arith),
        )
        (call_end s name ds);
}

-- ===== src/Arrow/Schema/Texts.antt =====
-- How `ParseTypeDesc` reads a name, and a name with arguments between brackets.
use lake_go.Prelude.{
  ℕ, zero, suc, ◌≤◌, ◌<◌, ◌≡◌, ◌∙◌, false, List, [], ◌∷◌, ◌++◌, append_assoc, append-nil, ap, arith,
  length, Bytes, All,
}
use lake_go.Prelude.Decimal.{pos}
use lake_go.Prelude.Result.{Result, ok, ◌>>=◌}
use lake_go.Types.TypeDesc.{
  TypeDesc, Descs, nil, cons, TypeError, TypeState, type_step, type_loop, type_end, type_start,
  parse_fuel, parse_type_desc, is_empty,
}

-- Greater than the brackets, the comma and the space.
abbrev pub IsWord : ℕ → Type 0
IsWord c = b',' < c

abbrev pub at : Bytes → Descs → ℕ → Bytes → TypeState
at name args depth token = record { name = name; args = args; depth = pos depth; token = token }

module _ (parse : Bytes → Result TypeError TypeDesc) (name : Bytes) (args : Descs)
    (token : Bytes) where
  pub type_step-word :
      (d c : ℕ)
      → IsWord c
      → type_step parse (at name args d token) c ≡ ok (at name args d (token ++ c ∷ []))
  unfolding type_step
  type_step-word d c h = ground arith

  pub type_step-space :
      (d : ℕ)
      → 0 < d
      → type_step parse (at name args d token) b' ' ≡ ok (at name args d (token ++ b' ' ∷ []))
  unfolding type_step
  type_step-space d h = ground arith

  pub type_step-comma :
      (d : ℕ)
      → 1 < d
      → type_step parse (at name args d token) b',' ≡ ok (at name args d (token ++ b',' ∷ []))
  unfolding type_step
  type_step-comma d h = ground arith

  pub type_step-open :
      (d : ℕ)
      → 0 < d
      → type_step parse (at name args d token) b'(' ≡ ok (at name args (suc d) (token ++ b'(' ∷ []))
  unfolding type_step
  type_step-open d h = ground arith

  pub type_step-close :
      (d : ℕ)
      → 0 < d
      → type_step parse (at name args (suc d) token) b')' ≡ ok (at name args d (token ++ b')' ∷ []))
  unfolding type_step
  type_step-close d h = ground arith

-- Deeper than `m`, the text goes to the token as it is.
abbrev pub Passes : ℕ → Bytes → Type 0
Passes m t =
    (parse : Bytes → Result TypeError TypeDesc) (name : Bytes) (args : Descs) (d : ℕ)
    (token rest : Bytes)
    → m < d
    → type_loop parse (at name args d token) (t ++ rest)
      ≡ type_loop parse (at name args d (token ++ t)) rest

Passes-nil : (m : ℕ) → Passes m []
Passes-nil m parse name args d token rest h = rw append-nil

pub Passes-cons :
    (m c : ℕ) (t : Bytes)
    → ((parse : Bytes → Result TypeError TypeDesc) (name : Bytes) (args : Descs) (d : ℕ)
          (token : Bytes)
        → m < d
        → type_step parse (at name args d token) c ≡ ok (at name args d (token ++ c ∷ [])))
    → Passes m t
    → Passes m (c ∷ t)
unfolding type_loop
Passes-cons m c t step p parse name args d token rest h = rw (step parse name args d token h) (
    p parse name args d (token ++ c ∷ []) rest h
    ∙ ap (λ u. type_loop parse (at name args d u) rest) (append_assoc token (c ∷ []) t))

pub Passes-append : (m : ℕ) (s t : Bytes) → Passes m s → Passes m t → Passes m (s ++ t)
Passes-append m s t p q parse name args d token rest h =
    ap (λ u. type_loop parse (at name args d token) u) (append_assoc s t rest)
    ∙ p parse name args d token (t ++ rest) h
    ∙ q parse name args d (token ++ s) rest h
    ∙ ap (λ u. type_loop parse (at name args d u) rest) (append_assoc token s t)

pub Passes-word : (m : ℕ) (t : Bytes) → All IsWord t → Passes m t
Passes-word m [] w = Passes-nil m
Passes-word m (c ∷ t) (h, w) =
    Passes-cons m c t (λ parse name args d token k. type_step-word parse name args token d c h)
      (Passes-word m t w)

pub Passes-deeper : (t : Bytes) → Passes 0 t → Passes 1 t
Passes-deeper t p parse name args d token rest h = p parse name args d token rest (omega arith)

-- The text is read as this type, with or without a space before it.
pub record Reads (t : Bytes) (d : TypeDesc) : Type 0 where
  pub passes : Passes 0 t
  pub some_bytes : is_empty t ≡ false
  pub ends :
      (f : ℕ) (s : Bytes)
      → length t ≤ f
      → (type_loop (parse_fuel f) type_start t >>= type_end s) ≡ ok d

abbrev pub ReadsAll : List Bytes → Descs → Type 0
ReadsAll [] nil = Unit
ReadsAll [] (cons d ds) = ⊥
ReadsAll (x ∷ xs) nil = ⊥
ReadsAll (x ∷ xs) (cons d ds) = Reads x d × ReadsAll xs ds

pub Reads-parse_fuel :
    {t : Bytes} {d : TypeDesc} (f : ℕ) → Reads t d → length t < f → parse_fuel f t ≡ ok d
unfolding parse_fuel
Reads-parse_fuel {t} zero r h = absurd (omega arith)
Reads-parse_fuel {t} (suc f) r h = r.ends f t (omega arith)

pub Reads-parse_space :
    {t : Bytes} {d : TypeDesc} (f : ℕ) → Reads t d → length t < f → parse_fuel f (b' ' ∷ t) ≡ ok d
unfolding parse_fuel type_loop type_step
Reads-parse_space {t} zero r h = absurd (omega arith)
Reads-parse_space {t} (suc f) r h = r.ends f (b' ' ∷ t) (omega arith)

pub Reads-parse_type_desc : {t : Bytes} {d : TypeDesc} → Reads t d → parse_type_desc t ≡ ok d
unfolding parse_type_desc
Reads-parse_type_desc {t} r = Reads-parse_fuel (suc (length t)) r (omega arith)

-- ===== src/Types/TypeDesc.antt =====
-- typeparser.go: `ParseTypeDesc`, which reads a type such as `Nullable(Array(Int8)) NULL`, and
-- `Normalize`. The bytes that the loop looks for are ASCII, so a walk over the bytes is one over the
-- runes.
pub mod Fuel
use mathlib.Core.Option
use lake_go.Prelude.{
  ℕ, zero, suc, ◌+◌, Bool, true, false, not, Option, none, some, [], ◌∷◌, ◌++◌, map, ◌==◌,
  if◌then◌else◌, length, Bytes, codes, bytes_eq,
}
use lake_go.Prelude.Decimal.{ℤ, pos, negsuc}
use lake_go.Prelude.Result.{Result, ok, err, ◌>>=◌}

mutual
  pub data TypeDesc : Type 0 where
    desc : Bytes → Bool → Descs → TypeDesc

  pub data Descs : Type 0 where
    nil : Descs
    cons : TypeDesc → Descs → Descs

pub data TypeError : Type 0 where
  -- "invalid type desc: %s"
  invalid_desc : Bytes → TypeError
  -- "invalid type arg for %s: %s"
  invalid_arg : Bytes → Bytes → TypeError
  -- not an error of the program: the model ran out of fuel
  out_of_fuel : TypeError

unfoldable pub append_desc : Descs → TypeDesc → Descs
append_desc nil d = cons d nil
append_desc (cons e ds) d = cons e (append_desc ds d)

-- depth++ and depth--
pub increment : ℤ → ℤ
increment (pos n) = pos (suc n)
increment (negsuc zero) = pos 0
increment (negsuc (suc n)) = negsuc n

pub decrement : ℤ → ℤ
decrement (pos zero) = negsuc 0
decrement (pos (suc n)) = pos n
decrement (negsuc n) = negsuc (suc n)

pub is_depth : ℕ → ℤ → Bool
is_depth k (pos n) = n == k
is_depth k (negsuc n) = false

-- The variables of the loop; `token` is `s[start:i]`.
pub record TypeState : Type 0 where
  pub name : Bytes
  pub args : Descs
  pub depth : ℤ
  pub token : Bytes

abbrev pub is_empty : Bytes → Bool
is_empty [] = true
is_empty (c ∷ s) = false

-- `if s != "" { desc, err := ParseTypeDesc(s); args = append(args, desc) }; start = i + 1`
pub push_arg : (Bytes → Result TypeError TypeDesc) → TypeState → Result TypeError TypeState
push_arg parse st =
    if is_empty st.token
    then ok st
    else parse st.token >>= λ d. ok (record st { args = append_desc st.args d; token = [] })

-- The switch on the byte at `i`.
unfoldable pub type_step :
    (Bytes → Result TypeError TypeDesc) → TypeState → ℕ → Result TypeError TypeState
unfolding push_arg increment decrement is_depth
type_step parse st c =
    if c == b'('
    then (if is_depth 0 st.depth
        then ok (record st { name = st.token; depth = increment st.depth; token = [] })
        else ok (record st { depth = increment st.depth; token = st.token ++ c ∷ [] }))
    else if c == b')'
    then (let out = record st { depth = decrement st.depth } in
        if is_depth 0 out.depth
        then push_arg parse out
        else ok (record out { token = st.token ++ c ∷ [] }))
    else if c == b','
    then (if is_depth 1 st.depth
        then push_arg parse st
        else ok (record st { token = st.token ++ c ∷ [] }))
    else if c == b' '
    then (if is_depth 0 st.depth
        then ok (record st { name = if is_empty st.token then st.name else st.token; token = [] })
        else ok (record st { token = st.token ++ c ∷ [] }))
    else ok (record st { token = st.token ++ c ∷ [] })

unfoldable pub type_loop :
    (Bytes → Result TypeError TypeDesc) → TypeState → Bytes → Result TypeError TypeState
type_loop parse st [] = ok st
type_loop parse st (c ∷ s) = type_step parse st c >>= λ st'. type_loop parse st' s

-- What stands behind the loop.
unfoldable pub type_end : Bytes → TypeState → Result TypeError TypeDesc
unfolding is_depth
type_end s st =
    if not (is_depth 0 st.depth)
    then err (invalid_desc s)
    else if is_empty st.token
    then ok (desc st.name false st.args)
    else if is_empty st.name
    then ok (desc st.token false st.args)
    else if bytes_eq st.token (codes "NULL")
    then ok (desc st.name true st.args)
    else err (invalid_arg st.name st.token)

abbrev pub type_start : TypeState
type_start = record { name = []; args = nil; depth = pos 0; token = [] }

-- An argument is shorter than the text that holds it.
unfoldable pub parse_fuel : ℕ → Bytes → Result TypeError TypeDesc
parse_fuel zero s = err out_of_fuel
parse_fuel (suc f) s = type_loop (parse_fuel f) type_start s >>= type_end s

unfoldable pub parse_type_desc : Bytes → Result TypeError TypeDesc
parse_type_desc s = parse_fuel (suc (length s)) s

abbrev pub set_nullable : TypeDesc → TypeDesc
set_nullable (desc name _ args) = desc name true args

-- `none` is the panic of `desc.Args[0]` on no arguments.
unfoldable mutual
  pub normalize : TypeDesc → Option TypeDesc
  normalize (desc name nullable args) =
      if bytes_eq name (codes "Nullable")
      then normalize_first args
      else if bytes_eq name (codes "DateTime")
      then some (desc (codes "Timestamp") nullable args)
      else some (desc name nullable args)

  pub normalize_first : Descs → Option TypeDesc
  normalize_first nil = none
  normalize_first (cons d _) = Option.map set_nullable (normalize d)

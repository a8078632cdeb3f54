-- ===== src/Types/TypeDesc/Fuel.antt =====
-- `ParseTypeDesc` ends: an argument is shorter than the text that holds it.
use lake_go.Prelude.{
  ℕ, zero, suc, ◌+◌, ◌≤◌, ◌<◌, ◌≡◌, ◌≢◌, inl, inr, [], ◌∷◌, ◌++◌, arith, length, length-append,
  Bytes,
}
use lake_go.Prelude.Result.{Result-cases, Result, ok, err}
use lake_go.Types.TypeDesc.{
  TypeDesc, TypeError, out_of_fuel, TypeState, push_arg, type_step, type_loop, type_end, type_start,
  parse_fuel, parse_type_desc,
}

push_arg_total :
    (parse : Bytes → Result TypeError TypeDesc) (st : TypeState)
    → parse st.token ≢ err out_of_fuel
    → push_arg parse st ≢ err out_of_fuel
unfolding push_arg
push_arg_total parse st h = ground arith

type_step_total :
    (parse : Bytes → Result TypeError TypeDesc) (st : TypeState) (c : ℕ)
    → parse st.token ≢ err out_of_fuel
    → type_step parse st c ≢ err out_of_fuel
unfolding type_step
type_step_total parse st c h = ground arith

length-concat : (s : Bytes) (c : ℕ) → length (s ++ c ∷ []) ≡ length s + 1
length-concat s c = length-append s (c ∷ [])

type_step-token :
    (parse : Bytes → Result TypeError TypeDesc) (st : TypeState) (c : ℕ) {st' : TypeState}
    → type_step parse st c ≡ ok st'
    → length st'.token ≤ length st.token + 1
unfolding type_step
type_step-token parse st c h = ground (arith, length-concat st.token c)

type_loop_total :
    (f : ℕ) (st : TypeState) (s : Bytes)
    → ((t : Bytes) → length t < f → parse_fuel f t ≢ err out_of_fuel)
    → length st.token + length s ≤ f
    → type_loop (parse_fuel f) st s ≢ err out_of_fuel
unfolding type_loop
type_loop_total f st [] h n = λ e. cc
type_loop_total f st (c ∷ s) h n = elim (Result-cases (type_step (parse_fuel f) st c)) [
  | inl (st', p) ↦
      let k = type_step-token (parse_fuel f) st c p in
      rw p (type_loop_total f st' s h (omega arith))
  | inr (e, p) ↦
      let k = type_step_total (parse_fuel f) st c (h st.token (omega arith)) in rw p (λ q. k (cc))
]

type_end_total : (s : Bytes) (st : TypeState) → type_end s st ≢ err out_of_fuel
unfolding type_end
type_end_total s st = ground arith

parse_fuel_total : (f : ℕ) (s : Bytes) → length s < f → parse_fuel f s ≢ err out_of_fuel
unfolding parse_fuel
parse_fuel_total zero s n = elim n [ ]
parse_fuel_total (suc f) s n = elim (Result-cases (type_loop (parse_fuel f) type_start s)) [
  | inl (st, p) ↦ rw p (type_end_total s st)
  | inr (e, p) ↦
      let k = type_loop_total f type_start s (parse_fuel_total f) (omega arith) in
      rw p (λ q. k (cc))
]

-- The parser ends on every text, with a type or with one of its two errors.
pub parse_type_desc_total : (s : Bytes) → parse_type_desc s ≢ err out_of_fuel
unfolding parse_type_desc
parse_type_desc_total s = parse_fuel_total (suc (length s)) s (omega arith)

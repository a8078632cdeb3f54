-- ===== src/Values/Total.antt =====
-- The loops of the parsers end: a parser of a type never runs out of the model's fuel.
use lake_go.Prelude.{
  ◌≡◌, refl, ◌≤◌, ◌<◌, arith, ℕ, zero, suc, Bool, true, false, not, ◌&&◌, ◌==◌, [], inl, inr,
  if_both, length,
}
use lake_go.Prelude.Result.{Result, ok, err}
use lake_go.Values.Scanner.{Scanner, ParseError, read, unread}
use lake_go.Values.Parser.{FloatSize, DataValue, DataParser, DataParsers, ValueLib, Parsed}
use lake_go.Values.Parse.{
  is_nil, array_loop, map_loop, map_end, array_end, tuple_end, after_key, after_value,
  after_element, after_field, add_entry, add_element, skip_comma, Elements, Assignments,
}
use lake_go.Values.Fails.{Fails}
use lake_go.Values.Length.{
  runs_out, size, Leaves, leaves, stops, expect-size, skip_comma-size, unread-read-size,
}

-- The parsers that can stand in an array, a tuple or a map: their texts are quoted.
unfoldable mutual
  pub is_element : {Z : Type 0} → DataParser Z → Bool
  is_element (DataParser.null_of p) = false
  is_element (DataParser.string unquote length) = unquote
  is_element (DataParser.boolean length) = true
  is_element (DataParser.date_time unquote format location precision) = unquote
  is_element (DataParser.tuple args) = are_elements args
  is_element (DataParser.array arg) = is_element arg
  is_element (DataParser.map key value) = is_element key && is_element value
  is_element (DataParser.int signed bits) = true
  is_element (DataParser.float bits) = true
  is_element DataParser.nothing = true
  is_element (DataParser.nullable name p) = is_element p

  pub are_elements : {Z : Type 0} → DataParsers Z → Bool
  are_elements DataParsers.empty = true
  are_elements (DataParsers.more p ps) = is_element p && are_elements ps

-- The parsers of a type: what stands in an array, a tuple or a map is quoted.
unfoldable pub is_built : {Z : Type 0} → DataParser Z → Bool
is_built (DataParser.null_of p) = false
is_built (DataParser.string unquote length) = true
is_built (DataParser.boolean length) = true
is_built (DataParser.date_time unquote format location precision) = true
is_built (DataParser.tuple args) = are_elements args
is_built (DataParser.array arg) = is_element arg
is_built (DataParser.map key value) = is_element key && is_element value
is_built (DataParser.int signed bits) = true
is_built (DataParser.float bits) = true
is_built DataParser.nothing = true
is_built (DataParser.nullable name p) = is_built p

-- strconv reads nothing from the empty text.
pub record RefusesEmpty {Z F T E : Type 0} (std : ValueLib Z F T E) : Type 0 where
  pub no_float : (bits : FloatSize) → Fails (std.parse_float bits [])
  pub no_bool : Fails (std.parse_bool [])

-- A call that fails for a reason of its own, or returns nil, or reads a rune at least.
pub data Good {F T E : Type 0} (n : ℕ) : Parsed F T E → Type 0 where
  reads : {v : DataValue F T} {s : Scanner} → size s < n → Good n (ok (v, s))
  is_null : {s : Scanner} → size s ≤ n → Good n (ok (DataValue.nil, s))
  refuses : {e : ParseError E} → runs_out e ≡ false → Good n (err e)

pub both : (a b : Bool) → (a && b) ≡ true → (a ≡ true) × (b ≡ true)
both a b h = ground arith

pub Leaves-weaken :
    {E A : Type 0} (m n : ℕ) (r : Result (ParseError E) (A × Scanner))
    → m ≤ n
    → Leaves 0 m r
    → Leaves 0 n r
Leaves-weaken m n (err e) l (stops h) = stops h
Leaves-weaken m n (ok (a, s)) l (leaves h) = leaves (omega (arith, l, h))

-- What a value leaves, nil or not.
pub data Left {F T E : Type 0} (n : ℕ) : Parsed F T E → Type 0 where
  left : {v : DataValue F T} {s : Scanner} → size s ≤ n → Left n (ok (v, s))
  not_left : {e : ParseError E} → runs_out e ≡ false → Left n (err e)

pub Left-Good : {F T E : Type 0} (n : ℕ) (r : Parsed F T E) → Good n r → Left n r
Left-Good n (err e) (refuses h) = not_left h
Left-Good n (ok (DataValue.nil, s)) (is_null h) = left h
Left-Good n (ok (v, s)) (reads h) = left (omega (arith, h))

module _ {Z F T E : Type 0} (std : ValueLib Z F T E) where
  add_element-Leaves :
      (nulls : Bool) (v : DataValue F T) (n : ℕ) (r : Elements std)
      → Leaves 0 n r
      → Leaves 0 n (add_element std nulls v r)
  add_element-Leaves nulls v n (err e) (stops k) = stops k
  add_element-Leaves nulls v n (ok (vs, s)) (leaves k) =
      if_both (Leaves 0 n) (is_nil v) (leaves k) (leaves k)

  after_element-Leaves :
      (again : Scanner → Elements std) (m : ℕ) (r : Parsed F T E)
      → ((s : Scanner) → size s < m → Leaves 0 (size s) (again s))
      → Good m r
      → Leaves 0 m (after_element std false again r)
  unfolding runs_out
  after_element-Leaves again m (err e) more (refuses k) = stops k
  after_element-Leaves again m (ok (DataValue.nil, s)) more (is_null k) = stops refl
  after_element-Leaves again m (ok (v, s)) more (reads k) =
      if_both (Leaves 0 m) (is_nil v && not false) (stops refl) (
        add_element-Leaves false v m (again (skip_comma s)) (
          Leaves-weaken (size (skip_comma s)) m _ (omega (arith, k, skip_comma-size s))
            (more (skip_comma s) (omega (arith, k, skip_comma-size s)))))

  -- The loop of an array ends within the fuel.
  pub array_loop-Leaves :
      (p : Scanner → Parsed F T E)
      → ((s : Scanner) → Good (size s) (p s))
      → (n : ℕ) (s : Scanner) → size s < n
      → Leaves 0 (size s) (array_loop std false p n s)
  unfolding array_loop
  array_loop-Leaves p good zero s h = absurd (omega (arith, h))
  array_loop-Leaves p good (suc n) s h =
      let s' = unread (read s).1 in
      if_both (Leaves 0 (size s)) ((read s).0 == b']') (leaves (omega (arith, unread-read-size s)))
        (Leaves-weaken (size s') (size s) _ (omega (arith, unread-read-size s)) (
          after_element-Leaves (array_loop std false p n) (size s') (p s')
            (λ t k. array_loop-Leaves p good n t (omega (arith, h, k, unread-read-size s)))
            (good s')))

  add_entry-Leaves :
      (k v : DataValue F T) (n : ℕ) (r : Assignments std)
      → Leaves 0 n r
      → Leaves 0 n (add_entry std k v r)
  add_entry-Leaves k v n (err e) (stops h) = stops h
  add_entry-Leaves k v n (ok ((ks, vs), s)) (leaves h) = leaves h

  after_value-Leaves :
      (again : Scanner → Assignments std) (k : DataValue F T) (m : ℕ) (r : Parsed F T E)
      → ((s : Scanner) → size s ≤ m → Leaves 0 (size s) (again s))
      → Left m r
      → Leaves 0 m (after_value std again k r)
  unfolding runs_out
  after_value-Leaves again k m (err e) more (not_left h) = stops h
  after_value-Leaves again k m (ok (v, s)) more (left h) =
      if_both (Leaves 0 m) (is_nil k) (stops refl) (
        add_entry-Leaves k v m (again (skip_comma s)) (
          Leaves-weaken (size (skip_comma s)) m _ (omega (arith, h, skip_comma-size s))
            (more (skip_comma s) (omega (arith, h, skip_comma-size s)))))

  after_key-Leaves :
      (value : Scanner → Parsed F T E) (again : Scanner → Assignments std) (m : ℕ)
      (r : Parsed F T E)
      → ((s : Scanner) → Left (size s) (value s))
      → ((s : Scanner) → size s < m → Leaves 0 (size s) (again s))
      → Left m r
      → Leaves 0 m (after_key std value again r)
  unfolding runs_out
  after_key-Leaves value again m (err e) good more (not_left h) = stops h
  after_key-Leaves value again m (ok (k, s)) good more (left h) =
      elim (expect-size {E = E} b':' s refl) [
        | inl (s', e, l) ↦ rw e (
            Leaves-weaken (size s') m _ (omega (arith, h, l)) (
              after_value-Leaves again k (size s') (value s')
                (λ t q. more t (omega (arith, h, l, q))) (good s')))
        | inr (x, e, q) ↦ rw e (stops q)
      ]

  -- The loop of a map ends within the fuel.
  pub map_loop-Leaves :
      (key value : Scanner → Parsed F T E)
      → ((s : Scanner) → Left (size s) (key s))
      → ((s : Scanner) → Left (size s) (value s))
      → (n : ℕ) (s : Scanner) → size s < n
      → Leaves 0 (size s) (map_loop std key value n s)
  unfolding map_loop
  map_loop-Leaves key value gk gv zero s h = absurd (omega (arith, h))
  map_loop-Leaves key value gk gv (suc n) s h =
      let s' = unread (read s).1 in
      if_both (Leaves 0 (size s)) ((read s).0 == b'}') (leaves (omega (arith, unread-read-size s)))
        (Leaves-weaken (size s') (size s) _ (omega (arith, unread-read-size s)) (
          after_key-Leaves value (map_loop std key value n) (size s') (key s') gv
            (λ t k. map_loop-Leaves key value gk gv n t (omega (arith, h, k, unread-read-size s)))
            (gk s')))

  pub after_field-Leaves :
      (again : Scanner → Elements std) (m : ℕ) (r : Parsed F T E)
      → ((s : Scanner) → Leaves 0 (size s) (again s))
      → Left m r
      → Leaves 0 m (after_field std again r)
  unfolding runs_out
  after_field-Leaves again m (err e) more (not_left h) = stops h
  after_field-Leaves again m (ok (v, s)) more (left h) =
      if_both (Leaves 0 m) (is_nil v) (stops refl)
        (add_element-Leaves false v m (again s) (Leaves-weaken (size s) m _ h (more s)))

  pub array_end-Good : (n : ℕ) (r : Elements std) → Leaves 0 n r → Good (suc n) (array_end std r)
  array_end-Good n (err e) (stops h) = refuses h
  array_end-Good n (ok (vs, s)) (leaves h) = elim (expect-size {E = E} b']' s refl) [
    | inl (s', e, l) ↦ rw e (reads (omega (arith, h, l)))
    | inr (x, e, q) ↦ rw e (refuses q)
  ]

  pub map_end-Good : (n : ℕ) (r : Assignments std) → Leaves 0 n r → Good (suc n) (map_end std r)
  map_end-Good n (err e) (stops h) = refuses h
  map_end-Good n (ok ((ks, vs), s)) (leaves h) = elim (expect-size {E = E} b'}' s refl) [
    | inl (s', e, l) ↦ rw e (reads (omega (arith, h, l)))
    | inr (x, e, q) ↦ rw e (refuses q)
  ]

  pub tuple_end-Good : (n : ℕ) (r : Elements std) → Leaves 0 n r → Good (suc n) (tuple_end std r)
  tuple_end-Good n (err e) (stops h) = refuses h
  tuple_end-Good n (ok (vs, s)) (leaves h) = elim (expect-size {E = E} b')' s refl) [
    | inl (s', e, l) ↦ rw e (reads (omega (arith, h, l)))
    | inr (x, e, q) ↦ rw e (refuses q)
  ]

-- ===== src/Sql/Splice/Total.antt =====
-- What `buildQuery` returns, prepared or not, and where it fails.
use mathlib.Core.Path.{subst}
use lake_go.Prelude.{
  ◌≢◌, suc, sym, ap, ◌∙◌, false, none, some, ◌++◌, ◌==◌, ==_iff, ℕ, ◌+◌, ◌≡◌, refl, inl, inr, true,
  List, [], ◌∷◌, arith, Option-cases, length, get_elem?, Bytes,
}
use lake_go.Prelude.Result.{ok_of_bind, Result, ok, err, ◌>>=◌, map_err}
use lake_go.Sql.Scanner.{placeholders}
use lake_go.Sql.Scanner.Located.{Located, placeholders-Located}
use lake_go.Sql.Encoder.{GoValue, EncodeError, Formats, encode}
use lake_go.Sql.Splice.{
  wrong_args, placeholder_count, encode_failed, interpolating, are_valid, is_empty_slice,
  encode_params, interpolate_params2, build_query, assemble,
}
use lake_go.Sql.Splice.Buffer.{Substitutes, splice, splice-Substitutes, assemble-splice}

Located-are_valid :
    (lo : ℕ) (query : Bytes) (os : List ℕ) → Located lo query os → are_valid lo query os ≡ true
unfolding are_valid
Located-are_valid lo query [] l = refl
Located-are_valid lo query (o ∷ os) l = ground (arith, Located-are_valid (o + 1) query os l.2)

are_valid-Located :
    (lo : ℕ) (query : Bytes) (os : List ℕ) → are_valid lo query os ≡ true → Located lo query os
unfolding are_valid
are_valid-Located lo query [] h = tt
are_valid-Located lo query (o ∷ os) h = elim (Option-cases (get_elem? query o)) [
  | inl e ↦ cc (e, h)
  | inr (c, e) ↦ ground (arith, are_valid-Located (o + 1) query os)
]

module _ {T : Type 0} (fmt : Formats T) where
  -- Each text is what the encoder gives for its parameter.
  abbrev pub Encodes : List (GoValue T) → List Bytes → Type 0
  Encodes [] [] = Unit
  Encodes (v ∷ vs) (e ∷ es) = (encode fmt v ≡ ok e) × Encodes vs es
  Encodes _ _ = ⊥

  length-Encodes : (vs : List (GoValue T)) (es : List Bytes) → Encodes vs es → length es ≡ length vs
  length-Encodes [] [] h = refl
  length-Encodes [] (e ∷ es) h = absurd h
  length-Encodes (v ∷ vs) [] h = absurd h
  length-Encodes (v ∷ vs) (e ∷ es) h = ap suc (length-Encodes vs es h.1)

  encode_params-eq-ok :
      (i : ℕ) (vs : List (GoValue T)) (es : List Bytes)
      → Encodes vs es
      → encode_params fmt i vs ≡ ok es
  unfolding encode_params
  encode_params-eq-ok i [] [] h = refl
  encode_params-eq-ok i [] (e ∷ es) h = absurd h
  encode_params-eq-ok i (v ∷ vs) [] h = absurd h
  encode_params-eq-ok i (v ∷ vs) (e ∷ es) h =
      rw (h.0, map_err) (rw (encode_params-eq-ok (i + 1) vs es h.1))

  map_err-eq-ok :
      {E F : Type 0} (f : E → F) (m : Result E Bytes) {a : Bytes} → map_err f m ≡ ok a → m ≡ ok a
  map_err-eq-ok f (ok b) h = cc
  map_err-eq-ok f (err e) h = cc

  encode_params-Encodes :
      (i : ℕ) (vs : List (GoValue T)) {es : List Bytes}
      → encode_params fmt i vs ≡ ok es
      → Encodes vs es
  unfolding encode_params
  encode_params-Encodes i [] {es} h = let e : es ≡ [] = cc in rw e tt
  encode_params-Encodes i (v ∷ vs) {es} h =
      let (t, p, h') = ok_of_bind (map_err (encode_failed i) (encode fmt v)) _ h in
      let (ts, q, h'') = ok_of_bind (encode_params fmt (i + 1) vs) _ h' in
      let e : es ≡ t ∷ ts = cc in
      rw e (map_err-eq-ok (encode_failed i) (encode fmt v) p, encode_params-Encodes (i + 1) vs q)

  -- The first parameter that has no text decides the error, which names its place.
  pub encode_params_error :
      (i : ℕ) (vs : List (GoValue T)) (es : List Bytes) (v : GoValue T) (rest : List (GoValue T))
      (e : EncodeError)
      → Encodes vs es
      → encode fmt v ≡ err e
      → encode_params fmt i (vs ++ (v ∷ rest)) ≡ err (encode_failed (i + length vs) e)
  unfolding encode_params
  encode_params_error i [] [] v rest e h k =
      let z : i + 0 ≡ i = omega arith in rw (k, map_err) (rw z)
  encode_params_error i [] (t ∷ es) v rest e h k = absurd h
  encode_params_error i (w ∷ vs) [] v rest e h k = absurd h
  encode_params_error i (w ∷ vs) (t ∷ es) v rest e h k =
      let z : i + suc (length vs) ≡ i + 1 + length vs = omega arith in
      rw (h.0, map_err) (rw (encode_params_error (i + 1) vs es v rest e h.1 k) (rw z))

  module _ (query : Bytes) (v : GoValue T) (vs : List (GoValue T))
      (filled : is_empty_slice v ≡ false) where
    interpolate_params2_lem :
        (index : List ℕ)
        → length index ≡ length (v ∷ vs)
        → are_valid 0 query index ≡ true
        → interpolate_params2 fmt query (v ∷ vs) index
          ≡ (encode_params fmt 0 (v ∷ vs) >>= λ es. ok (assemble query index es))
    unfolding interpolate_params2
    interpolate_params2_lem index n a =
        rw (filled, (==_iff (length index) (length (v ∷ vs))).1 n, a)

    -- With a first parameter that is no empty slice, as many parameters as placeholders, and a
    -- text for each: the statement is built, prepared or not, to the same text, which is the query
    -- with the texts at its placeholders.
    pub build_query_total :
        (es : List Bytes)
        → length (placeholders query) ≡ length (v ∷ vs)
        → Encodes (v ∷ vs) es
        → (r : Bytes) × (build_query fmt query (v ∷ vs) none ≡ ok r)
          × (build_query fmt query (v ∷ vs) (some (placeholders query)) ≡ ok r)
          × Substitutes 0 query (placeholders query) es r
    unfolding build_query
    build_query_total es n h = (
      splice query 0 index es,
      rw built,
      rw (count, built),
      splice-Substitutes query 0 index es lengths (placeholders-Located query),
    )
      where
        index : List ℕ
        index = placeholders query

        lengths : length es ≡ length index
        lengths = length-Encodes (v ∷ vs) es h ∙ sym n

        count : (length index == length (v ∷ vs)) ≡ true
        count = (==_iff (length index) (length (v ∷ vs))).1 n

        built : interpolate_params2 fmt query (v ∷ vs) index ≡ ok (splice query 0 index es)
        built =
            interpolate_params2_lem index n
              (Located-are_valid 0 query index (placeholders-Located query))
            ∙ rw (encode_params-eq-ok 0 (v ∷ vs) es h)
                (ap ok (assemble-splice query index es lengths (placeholders-Located query)))

    built_checks :
        (index : List ℕ) (r : Bytes)
        → build_query fmt query (v ∷ vs) (some index) ≡ ok r
        → (length index ≡ length (v ∷ vs))
          × (are_valid 0 query index ≡ true)
          × ((encode_params fmt 0 (v ∷ vs) >>= λ es. ok (assemble query index es)) ≡ ok r)
    unfolding build_query interpolate_params2
    built_checks index r h = ground arith

    -- With a first parameter that is no empty slice: a statement that is built from any list of
    -- offsets has every parameter's text at an offset of a question mark, in order, and is
    -- otherwise the query.
    pub build_query_sound :
        (index : List ℕ) (r : Bytes)
        → build_query fmt query (v ∷ vs) (some index) ≡ ok r
        → (es : List Bytes) × Encodes (v ∷ vs) es × Substitutes 0 query index es r
    build_query_sound index r h =
        let (n, a, m) = built_checks index r h in
        let (es, p, q) = ok_of_bind (encode_params fmt 0 (v ∷ vs)) _ m in
        let texts = encode_params-Encodes 0 (v ∷ vs) p in
        let lengths = length-Encodes (v ∷ vs) es texts ∙ sym n in
        let located = are_valid-Located 0 query index a in
        let e : r ≡ splice query 0 index es =
          cc (q, assemble-splice query index es lengths located) in
        (
          es,
          texts,
          subst (λ t. Substitutes 0 query index es t) (sym e)
              (splice-Substitutes query 0 index es lengths located),
        )

    -- With a first parameter that is no empty slice: a parameter too few or too many is an error,
    -- prepared or not, and there is no statement.
    pub build_query_count :
        length (placeholders query) ≢ length (v ∷ vs)
        → (build_query fmt query (v ∷ vs) none ≡ err (interpolating placeholder_count))
          × (build_query fmt query (v ∷ vs) (some (placeholders query))
              ≡ err (wrong_args (length (placeholders query)) (length (v ∷ vs))))
    unfolding build_query interpolate_params2
    build_query_count n = (ground arith, ground arith)

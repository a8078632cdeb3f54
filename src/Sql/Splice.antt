-- ===== src/Sql/Splice.antt =====
-- interpolate.go: `interpolateParams2`, which copies the query and the encoded parameters into one
-- buffer, and `interpolateParams` and `buildQuery` above it.
pub mod Buffer
pub mod Total
use lake_go.Prelude.{
  ℕ, zero, suc, ◌+◌, ◌-◌, Bool, true, false, not, ◌||◌, Option, none, some, List, [], ◌∷◌, Bytes,
  length, get_elem?, take, drop, replicate, ltb, ◌==◌, if◌then◌else◌,
}
use lake_go.Prelude.Result.{Result, ok, err, ◌>>=◌, map_err}
use lake_go.Sql.Scanner.{question, placeholders}
use lake_go.Sql.Encoder.{GoValue, slice, byte_slice, nil, EncodeError, Formats, encode}

pub data BuildError : Type 0 where
  -- "expect %v args, got %v"
  wrong_args : ℕ → ℕ → BuildError
  -- ErrPlaceholderCount
  placeholder_count : BuildError
  -- "failed to encode parameter %d"
  encode_failed : ℕ → EncodeError → BuildError
  -- "buildRequest: failed to interpolate params"
  interpolating : BuildError → BuildError

-- `copy(buf[k:], src)`: what does not fit is not copied.
unfoldable pub copy : Bytes → ℕ → Bytes → Bytes
copy [] k src = []
copy (b ∷ buf) (suc k) src = b ∷ copy buf k src
copy (b ∷ buf) zero [] = b ∷ buf
copy (b ∷ buf) zero (c ∷ src) = c ∷ copy buf zero src

-- `s[i:j]`
abbrev pub subslice : Bytes → ℕ → ℕ → Bytes
subslice s i j = take (j - i) (drop i s)

-- The loop over `index`, and the copy behind it.
unfoldable pub fill : Bytes → List ℕ → List Bytes → Bytes → ℕ → ℕ → Bytes
fill query [] encoded buf k i = copy buf k (drop i query)
fill query (idx ∷ index) [] buf k i = buf
fill query (idx ∷ index) (e ∷ encoded) buf k i =
    let gap = copy buf k (subslice query i idx) in
    let k' = k + (idx - i) in fill query index encoded (copy gap k' e) (k' + length e) (idx + 1)

abbrev pub total_length : List Bytes → ℕ
total_length [] = 0
total_length (e ∷ es) = length e + total_length es

-- `make([]byte, n)`, filled.
unfoldable pub assemble : Bytes → List ℕ → List Bytes → Bytes
assemble query index encoded =
    let n = length query - length index + total_length encoded in
    fill query index encoded (replicate n 0) 0 0

-- The loop that checks the offsets; `lo` is `previous + 1`.
unfoldable pub are_valid : ℕ → Bytes → List ℕ → Bool
are_valid lo query [] = true
are_valid lo query (o ∷ os) = elim (get_elem? query o) [
  | none ↦ false
  | some c ↦ if ltb o lo || not (c == question) then false else are_valid (o + 1) query os
]

unfoldable pub is_empty_slice : {T : Type 0} → GoValue T → Bool
is_empty_slice (slice nil) = true
is_empty_slice (byte_slice []) = true
is_empty_slice _ = false

module _ {T : Type 0} (fmt : Formats T) where
  unfoldable pub encode_params : ℕ → List (GoValue T) → Result BuildError (List Bytes)
  encode_params i [] = ok []
  encode_params i (v ∷ vs) = do
    t ← map_err (encode_failed i) (encode fmt v)
    ts ← encode_params (i + 1) vs
    ok (t ∷ ts)

  unfoldable pub interpolate_params2 : Bytes → List (GoValue T) → List ℕ → Result BuildError Bytes
  unfolding is_empty_slice
  interpolate_params2 query [] index = ok query
  interpolate_params2 query (v ∷ vs) index =
      if is_empty_slice v
      then ok query
      else if not (length index == length (v ∷ vs))
      then err placeholder_count
      else if not (are_valid 0 query index)
      then err placeholder_count
      else encode_params 0 (v ∷ vs) >>= λ encoded. ok (assemble query index encoded)

  pub interpolate_params : Bytes → List (GoValue T) → Result BuildError Bytes
  interpolate_params query params = interpolate_params2 query params (placeholders query)

  -- The offsets are those of a prepared statement, or none.
  unfoldable pub build_query : Bytes → List (GoValue T) → Option (List ℕ) → Result BuildError Bytes
  unfolding interpolate_params
  build_query query args (some index) =
      if length index == length args
      then interpolate_params2 query args index
      else err (wrong_args (length index) (length args))
  build_query query [] none = ok query
  build_query query (v ∷ vs) none = map_err interpolating (interpolate_params query (v ∷ vs))

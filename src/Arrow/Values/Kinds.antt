-- ===== src/Arrow/Values/Kinds.antt =====
-- A value of a column has the same Go type whether it comes in JSON or in Arrow.
use lake_go.Prelude.{ℕ, refl, inl, inr, Bool-cases, Bytes, codes, bytes_eq}
use lake_go.Prelude.Result.{OnOk, returns, fails, OnOk-after}
use lake_go.Arrow.Values.{Column, ArrowLib, Marshaled, binary_value, materialize_driver_value}
use lake_go.Types.ColumnType.Kinds.{a_blob, HasKind, kind_of_name, instant_kind, text_kind}

module _ {Z T E M : Type 0} (lib : ArrowLib Z T E M) where
  binary_value-HasKind : (v : Marshaled T M) → OnOk (HasKind a_blob) (binary_value lib v)
  unfolding binary_value
  binary_value-HasKind (Marshaled.bytes s) = returns refl
  binary_value-HasKind (Marshaled.text s) = returns refl
  binary_value-HasKind _ = fails

  pub materialize_driver_value-HasKind :
      (name : Bytes) (c : Column T M) (i : ℕ) (location : Z)
      → OnOk (HasKind (kind_of_name name)) (materialize_driver_value lib name c i location)
  unfolding materialize_driver_value kind_of_name
  materialize_driver_value-HasKind name c i location =
      elim (Bool-cases (bytes_eq name (codes "Null"))) [
        | inl n ↦ rw n (returns tt)
        | inr n ↦ elim (Bool-cases (bytes_eq name (codes "Binary"))) [
          | inl b ↦ rw (n, b) (OnOk-after _ _ binary_value-HasKind)
          | inr b ↦ elim (Bool-cases (bytes_eq name (codes "Date"))) [
            | inl d ↦ rw (n, b, d) (instant_kind _)
            | inr d ↦ elim (Bool-cases (bytes_eq name (codes "Timestamp"))) [
              | inl t ↦ rw (n, b, d, t) (instant_kind _)
              | inr t ↦ elim (Bool-cases (bytes_eq name (codes "Timestamp_Tz"))) [
                | inl z ↦ rw (n, b, d, t, z) (instant_kind _)
                | inr z ↦ rw (n, b, d, t, z) (text_kind _)
              ]
            ]
          ]
        ]
      ]

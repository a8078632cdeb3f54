-- ===== src/Arrow/Schema/Bases.antt =====
-- The text of each type of the Arrow library is read as the column type that it stands for.
use lake_go.Prelude.{
  ◌≡◌, refl, Bool, true, false, not, ◌&&◌, Option, none, some, List, [], ◌∷◌, arith, All, Bytes,
  codes, bytes_eq, if_both, if◌then◌else◌,
}
use lake_go.Prelude.Decimal.{ℤ, decimal_ℤ}
use lake_go.Prelude.Result.{Result, ok, OnOk, returns, fails, OnOk-bind, ◌>>=◌}
use lake_go.Types.TypeDesc.{TypeDesc, desc, Descs, cons, normalize, is_empty}
use lake_go.Arrow.Schema.{
  ArrowType, ArrowField, ArrowFields, SchemaError, null, float32, decimal64, decimal128, decimal256,
  list, large_list, arrow_map, struct, fixed_size_list, other, field, call, named_extension,
  vector_name, extension_result, nullable_name, data_type_string, base_data_type_string,
  struct_parts,
}
use lake_go.Arrow.Schema.Texts.{IsWord, Reads, ReadsAll}
use lake_go.Arrow.Schema.Reads.{Reads-word, Reads-decimal_ℤ, Reads-call}
use lake_go.Arrow.Schema.Desc.{
  named, one, decimal_desc, vector_desc, extension_desc, is_null_type, nullable_desc, field_desc,
  base_desc, field_descs,
}

-- A base type is read back, is "Null" only as the null type, and is left alone by `Normalize`.
pub record IsBase (d : TypeDesc) (is_null : Bool) (t : Bytes) : Type 0 where
  pub reads : Reads t d
  pub null_name : bytes_eq t (codes "Null") ≡ is_null
  pub normal : normalize d ≡ some d

IsBase-word :
    (t : Bytes) (b : Bool)
    → All IsWord t
    → is_empty t ≡ false
    → bytes_eq t (codes "Null") ≡ b
    → normalize (named t) ≡ some (named t)
    → IsBase (named t) b t
IsBase-word t b w full e n = record { reads = Reads-word t w full; null_name = e; normal = n }

-- The extensions that have a type of their own name.
data OfName : Option Bytes → Type 0 where
  known : {t : Bytes} → IsBase (named t) false t → OfName (some t)
  unknown : OfName none

OfName-if :
    (e k : Bytes) (t : Bytes) {o : Option Bytes}
    → IsBase (named t) false t
    → OfName o
    → OfName (if bytes_eq e k then some t else o)
OfName-if e k t h rest = if_both OfName (bytes_eq e k) (known h) rest

OfName-word :
    (e k : Bytes) (t : Bytes) {o : Option Bytes}
    → All IsWord t
    → is_empty t ≡ false
    → bytes_eq t (codes "Null") ≡ false
    → normalize (named t) ≡ some (named t)
    → OfName o
    → OfName (if bytes_eq e k then some t else o)
OfName-word e k t w full not_null n rest =
    OfName-if e k t (IsBase-word t false w full not_null n) rest

named_extension-OfName : (e : Bytes) → OfName (named_extension e)
unfolding named_extension normalize
named_extension-OfName e = OfName-word e _ _ (omega arith) refl refl refl (
    OfName-word e _ _ (omega arith) refl refl refl (
      OfName-word e _ _ (omega arith) refl refl refl (
        OfName-word e _ _ (omega arith) refl refl refl (
          OfName-word e _ _ (omega arith) refl refl refl (
            OfName-word e _ _ (omega arith) refl refl refl (
              OfName-word e _ _ (omega arith) refl refl refl
                (OfName-word e _ _ (omega arith) refl refl refl unknown)))))))

vector_name-Bases :
    (name : Bytes) (type : ArrowType)
    → OnOk (IsBase (vector_desc type) false) (vector_name name type)
unfolding vector_name normalize
vector_name-Bases name (fixed_size_list float32 n) = returns (record {
  reads =
      Reads-call (codes "Vector") (decimal_ℤ n ∷ []) _ (omega arith) refl (Reads-decimal_ℤ n, tt);
  null_name = refl;
  normal = refl;
})
vector_name-Bases name (fixed_size_list _ n) = fails
vector_name-Bases name _ = fails

extension_result-Bases :
    (name : Bytes) (type : ArrowType) (e : Bytes) {o : Option Bytes}
    → OfName o
    → OnOk (IsBase (extension_desc type o) false) (extension_result name type e o)
unfolding extension_result
extension_result-Bases name type e (known h) = returns h
extension_result-Bases name type e unknown =
    if_both (OnOk (IsBase (vector_desc type) false)) (bytes_eq e (codes "Vector"))
      (vector_name-Bases name type) fails

word-IsBase :
    (t : Bytes) (b : Bool)
    → All IsWord t
    → is_empty t ≡ false
    → bytes_eq t (codes "Null") ≡ b
    → normalize (named t) ≡ some (named t)
    → OnOk {E = SchemaError} (IsBase (named t) b) (ok t)
word-IsBase t b w full e n = returns (IsBase-word t b w full e n)

-- A name with arguments: `head` is neither "Nullable" nor "DateTime".
call-IsBase :
    (name : Bytes) (xs : List Bytes) (ds : Descs)
    → All IsWord name
    → is_empty name ≡ false
    → bytes_eq (call name xs) (codes "Null") ≡ false
    → normalize (desc name false ds) ≡ some (desc name false ds)
    → ReadsAll xs ds
    → OnOk {E = SchemaError} (IsBase (desc name false ds) false) (ok (call name xs))
call-IsBase name xs ds w full e n r =
    returns (record { reads = Reads-call name xs ds w full r; null_name = e; normal = n })

decimal-IsBase :
    (p s : ℤ)
    → OnOk {E = SchemaError}
        (IsBase (decimal_desc p s) false)
        (ok (call (codes "Decimal") (decimal_ℤ p ∷ decimal_ℤ s ∷ [])))
unfolding normalize
decimal-IsBase p s =
    call-IsBase (codes "Decimal") (decimal_ℤ p ∷ decimal_ℤ s ∷ []) _ (omega arith) refl refl refl
      (Reads-decimal_ℤ p, (Reads-decimal_ℤ s, tt))

array-IsBase :
    {r : Result SchemaError Bytes} {d : TypeDesc}
    → OnOk (λ t. Reads t d) r
    → OnOk
        (IsBase (desc (codes "Array") false (one d)) false)
        (r >>= λ inner. ok (call (codes "Array") (inner ∷ [])))
unfolding normalize
array-IsBase {d = d} h =
    OnOk-bind _ h
      (λ t r. call-IsBase (codes "Array") (t ∷ []) (one d) (omega arith) refl refl refl (r, tt))

pub nullable_Reads :
    (nullable b : Bool) {d : TypeDesc} {t : Bytes}
    → IsBase d b t
    → Reads (nullable_name nullable t) (nullable_desc (nullable && not b) d)
nullable_Reads false b h = h.reads
nullable_Reads true true h = rw h.null_name h.reads
nullable_Reads true false {d} {t} h =
    rw h.null_name (Reads-call (codes "Nullable") (t ∷ []) (one d) (omega arith) refl (h.reads, tt))

mutual
  unfolding data_type_string field_desc normalize

  data_type_string-Reads :
      (f : ArrowField) → OnOk (λ t. Reads t (field_desc f)) (data_type_string f)
  data_type_string-Reads (field name type nullable extension) =
      OnOk-bind _ (base_data_type_string-Bases name type extension)
        (λ t h. returns (nullable_Reads nullable (is_null_type extension type) h))

  pub base_data_type_string-Bases :
      (name : Bytes) (type : ArrowType) (extension : Option Bytes)
      → OnOk
          (IsBase (base_desc type extension) (is_null_type extension type))
          (base_data_type_string name type extension)
  base_data_type_string-Bases name type (some e) =
      extension_result-Bases name type e (named_extension-OfName e)
  base_data_type_string-Bases name null none = word-IsBase _ true (omega arith) refl refl refl
  base_data_type_string-Bases name (decimal64 p s) none = decimal-IsBase p s
  base_data_type_string-Bases name (decimal128 p s) none = decimal-IsBase p s
  base_data_type_string-Bases name (decimal256 p s) none = decimal-IsBase p s
  base_data_type_string-Bases name (list f) none = array-IsBase (data_type_string-Reads f)
  base_data_type_string-Bases name (large_list f) none = array-IsBase (data_type_string-Reads f)
  base_data_type_string-Bases name (arrow_map k v) none =
      OnOk-bind _ (data_type_string-Reads k) (λ key r.
        OnOk-bind _ (data_type_string-Reads v) (λ value q.
          call-IsBase (codes "Map") (key ∷ value ∷ []) (cons (field_desc k) (one (field_desc v)))
            (omega arith) refl refl refl (r, (q, tt))))
  base_data_type_string-Bases name (struct fs) none =
      OnOk-bind _ (struct_parts-ReadsAll fs) (λ parts r.
        call-IsBase (codes "Tuple") parts (field_descs fs) (omega arith) refl refl refl r)
  base_data_type_string-Bases name (fixed_size_list _ _) none = fails
  base_data_type_string-Bases name other none = fails
  base_data_type_string-Bases name _ none = word-IsBase _ false (omega arith) refl refl refl

  struct_parts-ReadsAll :
      (fs : ArrowFields) → OnOk (λ parts. ReadsAll parts (field_descs fs)) (struct_parts fs)
  struct_parts-ReadsAll ArrowFields.nil = returns tt
  struct_parts-ReadsAll (ArrowFields.cons f fs) =
      OnOk-bind _ (data_type_string-Reads f)
        (λ t r. OnOk-bind _ (struct_parts-ReadsAll fs) (λ parts rs. returns (r, rs)))

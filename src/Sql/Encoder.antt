-- ===== src/Sql/Encoder.antt =====
-- encoder.go: the text of a bound parameter. What `reflect` tells apart is a constructor of
-- `GoValue`, and a map or a value of any other type carries its `fmt.Sprint` text. An instant and the
-- three wrappers are structs with no exported field.
pub mod Closed
pub mod Parameter
pub mod Minus
use lake_go.Prelude.{ℕ, Bool, true, false, [], ◌∷◌, ◌++◌, Bytes, codes, if◌then◌else◌}
use lake_go.Prelude.Decimal.{ℤ, decimal, decimal_ℤ}
use lake_go.Prelude.Result.{Result, ok, err, ◌>>=◌}
use lake_go.Sql.Escape.{escape, quote}

-- `T` is the type of instants. A float is its width and its bits.
mutual
  pub data GoValue (T : Type 0) : Type 0 where
    null : GoValue T
    bool : Bool → GoValue T
    int : ℤ → GoValue T
    uint : ℕ → GoValue T
    float : ℕ → ℕ → GoValue T
    string : Bytes → GoValue T
    byte_slice : Bytes → GoValue T
    time : T → GoValue T
    nil_pointer : GoValue T
    pointer : GoValue T → GoValue T
    slice : Values T → GoValue T
    struct : Fields T → GoValue T
    go_map : Bytes → Entries T → GoValue T
    array : GoValue T → GoValue T
    tuple : GoValue T → GoValue T
    tmap : GoValue T → GoValue T
    other : Bytes → GoValue T

  pub data Values (T : Type 0) : Type 0 where
    nil : Values T
    cons : GoValue T → Values T → Values T

  -- A field: embedded or not, exported or not, and its value.
  pub data Fields (T : Type 0) : Type 0 where
    end : Fields T
    field : Bool → Bool → GoValue T → Fields T → Fields T

  pub data Entries (T : Type 0) : Type 0 where
    empty : Entries T
    entry : GoValue T → GoValue T → Entries T → Entries T

-- "expected array or slice", "expected struct", "expected map"
pub data EncodeError : Type 0 where
  not_slice not_struct not_map : EncodeError

-- The two formats of the standard library that the encoder calls.
pub record Formats (T : Type 0) : Type 0 where
  pub format_float : ℕ → ℕ → Bytes
  pub format_time : T → Bytes

abbrev pub comma : Bytes
comma = b',' ∷ []

abbrev pub bracket : ℕ → Bytes → ℕ → Bytes
bracket l s r = l ∷ (s ++ r ∷ [])

module _ {T : Type 0} (fmt : Formats T) where
  -- `encode`, for the values that `Encode` hands on; it hands on none of the last clause.
  pub encode_scalar : GoValue T → Bytes
  encode_scalar null = codes "NULL"
  encode_scalar (bool true) = codes "1"
  encode_scalar (bool false) = codes "0"
  encode_scalar (int z) = decimal_ℤ z
  encode_scalar (uint n) = decimal n
  encode_scalar (float w bits) = fmt.format_float w bits
  encode_scalar (string s) = quote (escape s)
  encode_scalar (time t) = quote (fmt.format_time t)
  encode_scalar (other s) = s
  encode_scalar _ = []

  -- The elements of a `[]byte` that `Array` wraps are numbers.
  pub encode_byte_elements : Bool → Bytes → Bytes
  encode_byte_elements first [] = []
  encode_byte_elements first (c ∷ s) =
      (if first then [] else comma) ++ (decimal c ++ encode_byte_elements false s)

  unfoldable mutual
    unfolding encode_scalar encode_byte_elements

    -- `Encode`
    pub encode : GoValue T → Result EncodeError Bytes
    encode (array v) = encode_array v
    encode (tuple v) = do b ← encode_tuple_part v; ok (bracket b'(' b b')')
    encode (tmap v) = encode_map v
    encode (byte_slice s) = ok s
    encode nil_pointer = ok (codes "NULL")
    encode (pointer v) = encode v
    encode (slice xs) = do b ← encode_elements true xs; ok (bracket b'[' b b']')
    encode (struct fs) = do b ← encode_fields true fs; ok (bracket b'(' b b')')
    encode (go_map text es) = ok text
    encode v = ok (encode_scalar v)

    -- `encodeArray`
    pub encode_array : GoValue T → Result EncodeError Bytes
    encode_array (slice xs) = do b ← encode_elements true xs; ok (bracket b'[' b b']')
    encode_array (byte_slice s) = ok (bracket b'[' (encode_byte_elements true s) b']')
    encode_array _ = err not_slice

    pub encode_elements : Bool → Values T → Result EncodeError Bytes
    encode_elements first nil = ok []
    encode_elements first (cons x xs) = do
      b ← encode x
      more ← encode_elements false xs
      ok ((if first then [] else comma) ++ (b ++ more))

    -- `encodeTuplePart`: through one pointer, to a struct.
    pub encode_tuple_part : GoValue T → Result EncodeError Bytes
    encode_tuple_part (pointer v) = encode_struct v
    encode_tuple_part (struct fs) = encode_fields true fs
    encode_tuple_part (time _) = ok []
    encode_tuple_part (array _) = ok []
    encode_tuple_part (tuple _) = ok []
    encode_tuple_part (tmap _) = ok []
    encode_tuple_part _ = err not_struct

    pub encode_struct : GoValue T → Result EncodeError Bytes
    encode_struct (struct fs) = encode_fields true fs
    encode_struct (time _) = ok []
    encode_struct (array _) = ok []
    encode_struct (tuple _) = ok []
    encode_struct (tmap _) = ok []
    encode_struct _ = err not_struct

    -- The loop over the fields; the flag is `i == 0`.
    pub encode_fields : Bool → Fields T → Result EncodeError Bytes
    encode_fields first end = ok []
    encode_fields first (field true exported v fs) = do
      b ← encode_tuple_part v
      more ← encode_fields false fs
      ok ((if first then [] else comma) ++ (b ++ more))
    encode_fields first (field false false v fs) = encode_fields false fs
    encode_fields first (field false true v fs) = do
      b ← encode v
      more ← encode_fields false fs
      ok ((if first then [] else comma) ++ (b ++ more))

    -- `encodeMap`
    pub encode_map : GoValue T → Result EncodeError Bytes
    encode_map (go_map _ es) = do b ← encode_entries true es; ok (codes "map(" ++ (b ++ b')' ∷ []))
    encode_map _ = err not_map

    pub encode_entries : Bool → Entries T → Result EncodeError Bytes
    encode_entries first empty = ok []
    encode_entries first (entry k v es) = do
      key ← encode k
      value ← encode v
      more ← encode_entries false es
      ok ((if first then [] else comma) ++ (key ++ (comma ++ (value ++ more))))

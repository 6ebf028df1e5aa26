-- ===== src/Value.antt =====
-- What Go passes as `any` to a statement.
use filtrx.Base.{ℕ, Bool, List, [], ◌∷◌, Bytes, Option, none, some}
use filtrx.Base.Int.{ℤ}

mutual
  -- A dynamic value by its kind. A float is its bit pattern, a time an abstract instant.
  pub data Value : Type 0 where
    null : Value
    int : ℤ → Value
    uint : ℕ → Value
    float : ℕ → Value
    text : Bytes → Value
    bool : Bool → Value
    time : ℕ → Value
    bytes : Bytes → Value
    slice : Values → Value

  pub data Values : Type 0 where
    nil : Values
    cons : Value → Values → Values

unfoldable pub elems : Values → List Value
elems nil = []
elems (cons v vs) = v ∷ elems vs

-- The elements of a []byte
abbrev pub byte_values : Bytes → Values
byte_values [] = nil
byte_values (c ∷ cs) = cons (uint c) (byte_values cs)

-- rv.Kind() == reflect.Slice, with the elements; a []byte is a slice
unfoldable pub as_slice : Value → Option (List Value)
unfolding elems
as_slice (slice vs) = some (elems vs)
as_slice (bytes b) = some (elems (byte_values b))
as_slice _ = none

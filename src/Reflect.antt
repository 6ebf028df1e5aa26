-- ===== src/Reflect.antt =====
-- plan.go: what reflection says of a filter struct's type, and the role of a field.
use filtrx.Base.{ℕ, Bool, true, false, not, ◌||◌, Bytes, codes, is_empty, if◌then◌else◌}
use filtrx.Naming.{Tag, get_tag, has_tag}

-- A field's type as far as reflection asks: the marker types, the kind, and the interfaces.
pub data Marker : Type 0 where
  no_marker table_marker join_marker : Marker

-- A slice of structs names its element type, which may be a type around the field.
pub data Kind : Type 0 where
  slice_of_structs : ℕ → Kind
  slice_of_others : Kind
  other_kind : Kind

pub record FieldInfo : Type 0 where
  pub name : Bytes
  pub exported : Bool
  pub tag : Tag
  pub marker : Marker
  pub kind : Kind
  pub is_exists : Bool
  pub is_predicate : Bool
  pub is_setter : Bool

mutual
  -- A struct type: its identity and its fields.
  pub data StructType : Type 0 where
    struct : ℕ → FieldList → StructType

  pub data FieldList : Type 0 where
    end : FieldList
    field : FieldInfo → SubType → FieldList → FieldList

  -- The type of a field `Sub` of the field's type, which Exists[T] has.
  pub data SubType : Type 0 where
    no_sub : SubType
    sub_struct : StructType → SubType

pub data Role : Type 0 where
  role_none role_group role_exists role_predicate role_scalar role_slice : Role

unfoldable pub is_slice : Kind → Bool
is_slice (slice_of_structs n) = true
is_slice slice_of_others = true
is_slice other_kind = false

unfoldable pub classify_field : FieldInfo → Role
classify_field f =
    if not f.exported
    then role_none
    else if not (is_empty (get_tag f.tag (codes "group")))
    then role_group
    else if f.is_exists
    then role_exists
    else if f.is_predicate
    then role_predicate
    else if f.is_setter
    then role_scalar
    else if is_slice f.kind
    then role_slice
    else role_none

unfoldable pub has_filter_tag : Tag → Bool
has_filter_tag tag =
    has_tag tag (codes "col")
    || (has_tag tag (codes "op") || (has_tag tag (codes "group") || has_tag tag (codes "exists")))

-- ===== src/Bind/Fields.antt =====
-- bind.go: a filter struct filled from a query string, field by field. The destination is the list
-- of its fields' descriptions and values, in order.
pub mod Keys
pub mod Panics
pub mod Absent
pub mod Bare
pub mod Filled
use filtrx.Base.{
  ℕ, Bool, true, false, not, ◌&&◌, ◌||◌, Option, none, some, List, [], ◌∷◌, ◌++◌, Bytes, codes,
  split, is_empty, if◌then◌else◌,
}
use filtrx.Base.Compare.{bytes_eq, to_lower}
use filtrx.Base.Int.{ℤ, pos}
use filtrx.Value.{Value, null, int, uint, float, text, bool}
use filtrx.Holders.{Opt}
use filtrx.Naming.{get_tag, wire_name, first_part}
use filtrx.Reflect.{
  FieldInfo, Role, role_none, role_group, role_exists, role_predicate, role_scalar, role_slice,
  classify_field,
}
use filtrx.Bind.{Strings, UrlValues, first_value, list_values}

-- A type that a query value is parsed to: one with the method UnmarshalText, or a kind, with its bits.
pub data ScalarType : Type 0 where
  unmarshaler : ℕ → ScalarType
  string_type bool_type other_type : ScalarType
  int_type uint_type float_type : ℕ → ScalarType

-- strconv at a number of bits, and the UnmarshalText and zero value of the types that have it: the
-- value after the call, and whether there was no error.
pub record Parsers : Type 0 where
  pub strings : Strings
  pub parse_int : Bytes → ℕ → Option ℤ
  pub parse_uint : Bytes → ℕ → Option ℕ
  pub parse_float : Bytes → ℕ → Option ℕ
  pub unmarshal_text : ℕ → Bytes → Value → Value × Bool
  pub zero_value : ℕ → Value

-- Why binding stops.
pub data Fault : Type 0 where
  bad_value : Bytes → Fault
  panicked : Fault

-- What binding leaves, and the fault if one stopped it.
abbrev pub Run {ℓ} : Type ℓ → Type ℓ
Run A = A × Option Fault

-- A value that a query string can fill, or another one.
pub data Cell : Type 0 where
  opt_cell : ScalarType → Opt Value → Cell
  slice_cell : ScalarType → List Value → Cell
  other_cell : Cell

-- A field of a holder.
pub record SubField : Type 0 where
  pub info : FieldInfo
  pub cell : Cell

pub data Target : Type 0 where
  plain : Cell → Target
  holder_struct : List SubField → Target

pub record Field : Type 0 where
  pub info : FieldInfo
  pub target : Target

-- v.Set of what was parsed
unfoldable pub set_parsed {ℓ} : {A : Type ℓ} → (A → Value) → Value → Option A → Value × Bool
set_parsed box v none = (v, false)
set_parsed box v (some a) = (box a, true)

-- A loop that stops at the first fault; what is behind it is left as it was.
unfoldable pub keep_going {ℓ} : {A : Type ℓ} → Run A → List A → Run (List A) → Run (List A)
keep_going (a, some e) behind rest = (a ∷ behind, some e)
keep_going (a, none) behind (bs, e) = (a ∷ bs, e)

unfoldable pub each_until {ℓ} : {A : Type ℓ} → (A → Run A) → List A → Run (List A)
each_until step [] = ([], none)
each_until step (a ∷ xs) = keep_going (step a) xs (each_until step xs)

unfoldable pub with_cell : SubField → Run Cell → Run SubField
with_cell sf (c, e) = (record sf { cell = c }, e)

unfoldable pub slice_run : ScalarType → Run (List Value) → Run Cell
slice_run t (vs, e) = (slice_cell t vs, e)

unfoldable pub plain_run : Run Cell → Run Target
plain_run (c, e) = (plain c, e)

unfoldable pub holder_run : Run (List SubField) → Run Target
holder_run (sfs, e) = (holder_struct sfs, e)

unfoldable pub with_target : Field → Run Target → Run Field
with_target f (t, e) = (record f { target = t }, e)

-- `jsonName`
unfoldable pub json_name : FieldInfo → Bytes
json_name f =
    let tag = get_tag f.tag (codes "json") in
    if is_empty tag then to_lower f.name else first_part (split b',' tag)

unfoldable pub op_key : Bytes → Bytes → Bytes
op_key wire opword = wire ++ (b'_' ∷ opword)

-- A struct that is no Opt itself is not bindable.
unfoldable pub refuse_if : Bytes → Target → Option Bytes → Run Target
refuse_if wire t none = (t, none)
refuse_if wire t (some raw) = (t, some (bad_value wire))

module _ (ps : Parsers) where
  unfoldable pub zero_of : ScalarType → Value
  zero_of (unmarshaler i) = ps.zero_value i
  zero_of string_type = text []
  zero_of bool_type = bool false
  zero_of (int_type w) = int (pos 0)
  zero_of (uint_type w) = uint 0
  zero_of (float_type w) = float 0
  zero_of other_type = null

  -- `parseScalar`: the value after it, and whether there was no error.
  unfoldable pub parse_scalar : ScalarType → Bytes → Value → Value × Bool
  parse_scalar (unmarshaler i) s v = ps.unmarshal_text i s v
  parse_scalar string_type s v = (text s, true)
  parse_scalar bool_type s v = set_parsed bool v (ps.strings.parse_bool s)
  parse_scalar (int_type w) s v = set_parsed int v (ps.parse_int s w)
  parse_scalar (uint_type w) s v = set_parsed uint v (ps.parse_uint s w)
  parse_scalar (float_type w) s v = set_parsed float v (ps.parse_float s w)
  parse_scalar other_type s v = (v, false)

  -- `setString` of *Opt[T]
  unfoldable pub set_string : ScalarType → Opt Value → Bytes → Opt Value × Bool
  set_string t o s =
      let (v, fine) = parse_scalar t s o.val in
      (record { val = v; set = if fine then true else o.set }, fine)

  unfoldable pub opt_run : ScalarType → Bytes → Opt Value × Bool → Run Cell
  opt_run t key (o, fine) = (opt_cell t o, if fine then none else some (bad_value key))

  -- `setScalar`; reflection panics at the value of an unexported field.
  unfoldable pub set_scalar : Bool → Cell → Bytes → Bytes → Run Cell
  set_scalar false c raw key = (c, some panicked)
  set_scalar true (opt_cell t o) raw key = opt_run t key (set_string t o raw)
  set_scalar true c raw key = (c, some (bad_value key))

  unfoldable pub cons_parsed : Value × Bool → Option (List Value) → Option (List Value)
  cons_parsed (v, false) vs = none
  cons_parsed (v, true) none = none
  cons_parsed (v, true) (some vs) = some (v ∷ vs)

  -- The loop of `bindSlice`, none where a value is not parsed.
  unfoldable pub parse_all : ScalarType → List Bytes → Option (List Value)
  parse_all t [] = some []
  parse_all t (r ∷ rs) = cons_parsed (parse_scalar t r (zero_of t)) (parse_all t rs)

  -- `sv.Set(out)`, or the error.
  unfoldable pub set_slice : Bool → List Value → Bytes → Option (List Value) → Run (List Value)
  set_slice exported vs key none = (vs, some (bad_value key))
  set_slice true vs key (some out) = (out, none)
  set_slice false vs key (some out) = (vs, some panicked)

  unfoldable pub slice_values :
      Bool → ScalarType → List Value → Bytes → List Bytes → Run (List Value)
  slice_values exported t vs key [] = (vs, none)
  slice_values exported t vs key (r ∷ rs) = set_slice exported vs key (parse_all t (r ∷ rs))

  unfoldable pub or_alias : UrlValues → Bytes → Bytes → List Bytes → List Bytes
  or_alias values key alias [] =
      if bytes_eq alias key then [] else list_values ps.strings values alias
  or_alias values key alias (r ∷ rs) = r ∷ rs

  -- `bindSlice`
  unfoldable pub bind_slice :
      UrlValues → Bytes → Bool → ScalarType → List Value → Bytes → Run (List Value)
  bind_slice values key exported t vs alias =
      slice_values exported t vs key (or_alias values key alias (list_values ps.strings values key))

  -- `first` of the key, and for "eq" of the bare name.
  unfoldable pub or_bare : Option Bytes → Bool → Option Bytes → Option Bytes
  or_bare (some raw) is_eq bare = some raw
  or_bare none is_eq bare = if is_eq then bare else none

  unfoldable pub set_if : Bool → Cell → Bytes → Option Bytes → Run Cell
  set_if exported c key none = (c, none)
  set_if exported c key (some raw) = set_scalar exported c raw key

  -- A field of a holder that has an operator word.
  unfoldable pub bind_cell : UrlValues → Bytes → Bytes → Bool → Cell → Run Cell
  bind_cell values wire opword exported (slice_cell t vs) =
      slice_run t (bind_slice values (op_key wire opword) exported t vs (op_key wire opword))
  bind_cell values wire opword exported c = set_if exported c (op_key wire opword) (
      or_bare (first_value values (op_key wire opword)) (bytes_eq opword (codes "eq"))
        (first_value values wire))

  -- A round of the loop of `bindHolder`.
  unfoldable pub bind_sub : UrlValues → Bytes → SubField → Run SubField
  bind_sub values wire sf =
      let opword = json_name sf.info in
      if is_empty opword || bytes_eq opword (codes "-")
      then (sf, none)
      else with_cell sf (bind_cell values wire opword sf.info.exported sf.cell)

  -- `bindHolder`; the fields of a type that is no struct cannot be counted.
  unfoldable pub bind_holder : UrlValues → Bytes → Target → Run Target
  bind_holder values wire (holder_struct sfs) = holder_run (each_until (bind_sub values wire) sfs)
  bind_holder values wire t = (t, some panicked)

  unfoldable pub bind_list : UrlValues → Bytes → Bool → Target → Run Target
  bind_list values wire exported (plain (slice_cell t vs)) =
      plain_run (slice_run t (bind_slice values wire exported t vs wire))
  bind_list values wire exported t = (t, none)

  unfoldable pub bind_scalar : UrlValues → Bytes → Bool → Target → Run Target
  bind_scalar values wire exported (plain c) =
      plain_run (set_if exported c wire (first_value values wire))
  bind_scalar values wire exported (holder_struct sfs) =
      refuse_if wire (holder_struct sfs) (first_value values wire)

  -- `bindField`
  unfoldable pub bind_role : UrlValues → Bytes → Role → Bool → Target → Run Target
  bind_role values wire role_scalar exported t = bind_scalar values wire exported t
  bind_role values wire role_slice exported t = bind_list values wire exported t
  bind_role values wire role_predicate exported t = bind_holder values wire t
  bind_role values wire role exported t = (t, none)

  -- A round of the loop of `Bind`.
  unfoldable pub bind_field : UrlValues → Field → Run Field
  bind_field values f =
      if not f.info.exported || not (is_empty (get_tag f.info.tag (codes "group")))
      then (f, none)
      else let wire = wire_name f.info.tag f.info.name in
        if bytes_eq wire (codes "-")
        then (f, none)
        else with_target f (bind_role values wire (classify_field f.info) f.info.exported f.target)

  unfoldable pub bind_fields : UrlValues → List Field → Run (List Field)
  bind_fields values fs = each_until (bind_field values) fs

-- The argument of `Bind`.
pub data Dest : Type 0 where
  not_a_pointer nil_pointer pointer_to_other : Dest
  pointer_to : List Field → Dest

-- What Bind returns: nil, its complaint about the argument, or a fault.
pub data Returned : Type 0 where
  done bad_dest : Returned
  fault : Fault → Returned

unfoldable pub returned : Option Fault → Returned
returned none = done
returned (some e) = fault e

unfoldable pub bound_to : Run (List Field) → Dest × Returned
bound_to (fs, e) = (pointer_to fs, returned e)

-- `Bind`: the destination after it, and what it returns.
unfoldable pub bind_dest : Parsers → UrlValues → Dest → Dest × Returned
bind_dest ps values (pointer_to fs) = bound_to (bind_fields ps values fs)
bind_dest ps values dest = (dest, bad_dest)

-- ===== src/Bind/Fields/Keys.antt =====
-- Which parameters of a query string `Bind` looks at.
use filtrx.Base.{◌≡◌, refl, ap, Bool, none, some, List, [], ◌∷◌, Bytes}
use filtrx.Value.{Value}
use filtrx.Naming.{wire_name}
use filtrx.Reflect.{Role, role_scalar, role_slice, role_predicate, classify_field}
use filtrx.Bind.{UrlValues, first_of, first_value, list_values, list_entries}
use filtrx.Bind.Fields.{
  ScalarType, Parsers, Cell, opt_cell, slice_cell, other_cell, SubField, Target, plain,
  holder_struct, Field, each_until, json_name, or_alias, bind_slice, op_key, bind_cell, bind_sub,
  bind_holder, bind_list, bind_scalar, bind_role, bind_field, bind_fields, Dest, not_a_pointer,
  nil_pointer, pointer_to_other, pointer_to, bind_dest, slice_run, holder_run,
}

-- The parameters of a field of a holder, of a field, and of the destination.
abbrev pub sub_keys : Bytes → List SubField → List Bytes
sub_keys wire [] = []
sub_keys wire (sf ∷ sfs) = op_key wire (json_name sf.info) ∷ sub_keys wire sfs

abbrev pub target_keys : Bytes → Target → List Bytes
target_keys wire (plain c) = wire ∷ []
target_keys wire (holder_struct sfs) = wire ∷ sub_keys wire sfs

abbrev pub field_keys : Field → List Bytes
field_keys f = target_keys (wire_name f.info.tag f.info.name) f.target

abbrev pub Agree : UrlValues → UrlValues → List Bytes → Type 0
Agree v w [] = Unit
Agree v w (k ∷ ks) = (v k ≡ w k) × Agree v w ks

abbrev pub AgreeAll : UrlValues → UrlValues → List Field → Type 0
AgreeAll v w [] = Unit
AgreeAll v w (f ∷ fs) = Agree v w (field_keys f) × AgreeAll v w fs

abbrev pub AgreeDest : UrlValues → UrlValues → Dest → Type 0
AgreeDest v w (pointer_to fs) = AgreeAll v w fs
AgreeDest v w d = Unit

module _ (ps : Parsers) (v w : UrlValues) where
  list_values-Agree :
      (k : Bytes) → v k ≡ w k → list_values ps.strings v k ≡ list_values ps.strings w k
  unfolding list_values
  list_values-Agree k h =
      ap
        (λ o.
          let out : List Bytes = elim o [ none ↦ [] | some vs ↦ list_entries ps.strings vs ] in out)
        h

  first_value-Agree : (k : Bytes) → v k ≡ w k → first_value v k ≡ first_value w k
  unfolding first_value
  first_value-Agree k h = ap first_of h

  or_alias-Agree :
      (key alias : Bytes) (raws : List Bytes)
      → v alias ≡ w alias
      → or_alias ps v key alias raws ≡ or_alias ps w key alias raws
  unfolding or_alias
  or_alias-Agree key alias [] h = rw (list_values-Agree alias h) refl
  or_alias-Agree key alias (r ∷ rs) h = refl

  bind_slice-Agree :
      (key : Bytes) (exported : Bool) (t : ScalarType) (vs : List Value)
      → v key ≡ w key
      → bind_slice ps v key exported t vs key ≡ bind_slice ps w key exported t vs key
  unfolding bind_slice
  bind_slice-Agree key exported t vs h =
      rw (list_values-Agree key h, or_alias-Agree key key (list_values ps.strings w key) h) refl

  bind_cell-Agree :
      (wire opword : Bytes) (exported : Bool) (c : Cell)
      → v wire ≡ w wire
      → v (op_key wire opword) ≡ w (op_key wire opword)
      → bind_cell ps v wire opword exported c ≡ bind_cell ps w wire opword exported c
  unfolding bind_cell
  bind_cell-Agree wire opword exported (slice_cell t vs) h k =
      ap (slice_run t) (bind_slice-Agree (op_key wire opword) exported t vs k)
  bind_cell-Agree wire opword exported (opt_cell t o) h k =
      rw (first_value-Agree (op_key wire opword) k, first_value-Agree wire h) refl
  bind_cell-Agree wire opword exported other_cell h k =
      rw (first_value-Agree (op_key wire opword) k, first_value-Agree wire h) refl

  bind_sub-Agree :
      (wire : Bytes) (sf : SubField)
      → v wire ≡ w wire
      → v (op_key wire (json_name sf.info)) ≡ w (op_key wire (json_name sf.info))
      → bind_sub ps v wire sf ≡ bind_sub ps w wire sf
  unfolding bind_sub
  bind_sub-Agree wire sf h k =
      rw (bind_cell-Agree wire (json_name sf.info) sf.info.exported sf.cell h k) refl

  each_until-subs :
      (wire : Bytes) (sfs : List SubField)
      → v wire ≡ w wire
      → Agree v w (sub_keys wire sfs)
      → each_until (bind_sub ps v wire) sfs ≡ each_until (bind_sub ps w wire) sfs
  unfolding each_until
  each_until-subs wire [] h a = refl
  each_until-subs wire (sf ∷ sfs) h (k, a) =
      rw (bind_sub-Agree wire sf h k, each_until-subs wire sfs h a) refl

  bind_role-Agree :
      (wire : Bytes) (r : Role) (exported : Bool) (t : Target)
      → Agree v w (target_keys wire t)
      → bind_role ps v wire r exported t ≡ bind_role ps w wire r exported t
  unfolding bind_role bind_scalar bind_list bind_holder
  bind_role-Agree wire role_scalar exported (plain c) (h, a) = rw (first_value-Agree wire h) refl
  bind_role-Agree wire role_scalar exported (holder_struct sfs) (h, a) =
      rw (first_value-Agree wire h) refl
  bind_role-Agree wire role_slice exported (plain (slice_cell t vs)) (h, a) =
      rw (bind_slice-Agree wire exported t vs h) refl
  bind_role-Agree wire role_slice exported (plain (opt_cell t o)) a = refl
  bind_role-Agree wire role_slice exported (plain other_cell) a = refl
  bind_role-Agree wire role_slice exported (holder_struct sfs) a = refl
  bind_role-Agree wire role_predicate exported (plain c) a = refl
  bind_role-Agree wire role_predicate exported (holder_struct sfs) (h, a) =
      ap holder_run (each_until-subs wire sfs h a)
  bind_role-Agree wire r exported t a = refl

  bind_field-Agree : (f : Field) → Agree v w (field_keys f) → bind_field ps v f ≡ bind_field ps w f
  unfolding bind_field
  bind_field-Agree f a =
      rw
        (bind_role-Agree (wire_name f.info.tag f.info.name) (classify_field f.info) f.info.exported
          f.target a)
        refl

  bind_fields-Agree :
      (fs : List Field) → AgreeAll v w fs → bind_fields ps v fs ≡ bind_fields ps w fs
  unfolding bind_fields each_until
  bind_fields-Agree [] a = refl
  bind_fields-Agree (f ∷ fs) (h, a) = rw (bind_field-Agree f h, bind_fields-Agree fs a) refl

-- Two query strings that agree on the wire name of each field of the destination and, for a holder,
-- on that name with each operator word, are bound alike, faults included: every other parameter,
-- such as one of paging or sorting, is ignored.
pub bind_dest-Agree :
    (ps : Parsers) (v w : UrlValues) (d : Dest)
    → AgreeDest v w d
    → bind_dest ps v d ≡ bind_dest ps w d
unfolding bind_dest
bind_dest-Agree ps v w (pointer_to fs) a = rw (bind_fields-Agree ps v w fs a) refl
bind_dest-Agree ps v w not_a_pointer a = refl
bind_dest-Agree ps v w nil_pointer a = refl
bind_dest-Agree ps v w pointer_to_other a = refl

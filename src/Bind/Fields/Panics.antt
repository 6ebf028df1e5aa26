-- ===== src/Bind/Fields/Panics.antt =====
-- When `Bind` can panic: at a holder that is no struct, or that has an unexported field.
use filtrx.Base.{
  ◌≡◌, refl, Bool, true, false, ◌||◌, not, Option, none, some, List, [], ◌∷◌, Bytes, codes,
  is_empty, if◌then◌else◌,
}
use filtrx.Base.Compare.{bytes_eq}
use filtrx.Value.{Value}
use filtrx.Holders.{Opt}
use filtrx.Naming.{wire_name, get_tag}
use filtrx.Reflect.{Role, role_scalar, role_slice, role_predicate, classify_field}
use filtrx.Bind.{UrlValues, first_value}
use filtrx.Bind.Fields.{
  ScalarType, Parsers, Fault, bad_value, panicked, Run, Cell, opt_cell, slice_cell, other_cell,
  SubField, Target, plain, holder_struct, Field, each_until, keep_going, with_cell, with_target,
  json_name, bind_slice, set_if, op_key, bind_cell, bind_sub, bind_holder, bind_list, bind_scalar,
  bind_role, bind_field, bind_fields, Dest, not_a_pointer, nil_pointer, pointer_to_other,
  pointer_to, bind_dest, slice_values, slice_run, holder_run, plain_run, set_string, opt_run,
  set_scalar, set_slice, parse_all, refuse_if, Returned, fault, returned, bound_to,
}

abbrev pub Calm : Option Fault → Type 0
Calm (some panicked) = ⊥
Calm e = Unit

abbrev pub CalmReturn : Returned → Type 0
CalmReturn (fault panicked) = ⊥
CalmReturn r = Unit

abbrev pub AllExported : List SubField → Type 0
AllExported [] = Unit
AllExported (sf ∷ sfs) = (sf.info.exported ≡ true) × AllExported sfs

-- A holder is a struct with exported fields only.
abbrev pub Fillable : Role → Target → Type 0
Fillable role_predicate (plain c) = ⊥
Fillable role_predicate (holder_struct sfs) = AllExported sfs
Fillable r t = Unit

abbrev pub AllFillable : List Field → Type 0
AllFillable [] = Unit
AllFillable (f ∷ fs) = Fillable (classify_field f.info) f.target × AllFillable fs

abbrev pub FillableDest : Dest → Type 0
FillableDest (pointer_to fs) = AllFillable fs
FillableDest d = Unit

module _ {A : Type 0} where
  keep_going-Calm :
      (r : Run A) (xs : List A) (rest : Run (List A))
      → Calm r.1
      → Calm rest.1
      → Calm (keep_going r xs rest).1
  unfolding keep_going
  keep_going-Calm (a, none) xs rest h k = k
  keep_going-Calm (a, some (bad_value key)) xs rest h k = tt
  keep_going-Calm (a, some panicked) xs rest h k = h

if-Calm : {A : Type 0} (b : Bool) (r s : Run A) → Calm r.1 → Calm s.1 → Calm (if b then r else s).1
if-Calm true r s h k = h
if-Calm false r s h k = k

-- A field of a struct value is set only where it is exported.
if-exported :
    {A : Type 0} (b exported : Bool) (r s : Run A)
    → Calm r.1
    → (exported ≡ true → Calm s.1)
    → Calm (if not exported || b then r else s).1
if-exported b true r s h k = if-Calm b r s h (k refl)
if-exported b false r s h k = h

refuse_if-Calm : (wire : Bytes) (t : Target) (raw : Option Bytes) → Calm (refuse_if wire t raw).1
unfolding refuse_if
refuse_if-Calm wire t none = tt
refuse_if-Calm wire t (some raw) = tt

module _ (ps : Parsers) (values : UrlValues) where
  opt_run-Calm :
      (t : ScalarType) (key : Bytes) (o : Opt Value) (fine : Bool)
      → Calm (opt_run ps t key (o, fine)).1
  unfolding opt_run
  opt_run-Calm t key o true = tt
  opt_run-Calm t key o false = tt

  set_scalar-Calm : (c : Cell) (raw key : Bytes) → Calm (set_scalar ps true c raw key).1
  unfolding set_scalar
  set_scalar-Calm (opt_cell t o) raw key =
      let out = set_string ps t o raw in opt_run-Calm t key out.0 out.1
  set_scalar-Calm (slice_cell t vs) raw key = tt
  set_scalar-Calm other_cell raw key = tt

  set_if-Calm : (c : Cell) (key : Bytes) (raw : Option Bytes) → Calm (set_if ps true c key raw).1
  unfolding set_if
  set_if-Calm c key none = tt
  set_if-Calm c key (some raw) = set_scalar-Calm c raw key

  set_slice-Calm :
      (vs : List Value) (key : Bytes) (out : Option (List Value))
      → Calm (set_slice ps true vs key out).1
  unfolding set_slice
  set_slice-Calm vs key none = tt
  set_slice-Calm vs key (some out) = tt

  slice_values-Calm :
      (t : ScalarType) (vs : List Value) (key : Bytes) (raws : List Bytes)
      → Calm (slice_values ps true t vs key raws).1
  unfolding slice_values
  slice_values-Calm t vs key [] = tt
  slice_values-Calm t vs key (r ∷ rs) = set_slice-Calm vs key (parse_all ps t (r ∷ rs))

  bind_slice-Calm :
      (key : Bytes) (t : ScalarType) (vs : List Value)
      → Calm (bind_slice ps values key true t vs key).1
  unfolding bind_slice
  bind_slice-Calm key t vs = slice_values-Calm t vs key _

  bind_cell-Calm :
      (wire opword : Bytes) (c : Cell) → Calm (bind_cell ps values wire opword true c).1
  unfolding bind_cell slice_run
  bind_cell-Calm wire opword (slice_cell t vs) = bind_slice-Calm (op_key wire opword) t vs
  bind_cell-Calm wire opword (opt_cell t o) = set_if-Calm (opt_cell t o) _ _
  bind_cell-Calm wire opword other_cell = set_if-Calm other_cell _ _

  bind_cell-exported :
      (wire opword : Bytes) (c : Cell) (exported : Bool)
      → exported ≡ true
      → Calm (bind_cell ps values wire opword exported c).1
  bind_cell-exported wire opword c true h = bind_cell-Calm wire opword c
  bind_cell-exported wire opword c false h = absurd (cc)

  bind_sub-Calm :
      (wire : Bytes) (sf : SubField) → sf.info.exported ≡ true → Calm (bind_sub ps values wire sf).1
  unfolding bind_sub with_cell
  bind_sub-Calm wire sf h =
      let opword = json_name sf.info in
      if-Calm {A = SubField} (is_empty opword || bytes_eq opword (codes "-")) (sf, none)
        (with_cell sf (bind_cell ps values wire opword sf.info.exported sf.cell)) tt
        (bind_cell-exported wire opword sf.cell sf.info.exported h)

  each_until-Calm :
      (wire : Bytes) (sfs : List SubField)
      → AllExported sfs
      → Calm (each_until (bind_sub ps values wire) sfs).1
  unfolding each_until
  each_until-Calm wire [] h = tt
  each_until-Calm wire (sf ∷ sfs) (h, hs) =
      keep_going-Calm (bind_sub ps values wire sf) sfs _ (bind_sub-Calm wire sf h)
        (each_until-Calm wire sfs hs)

  bind_role-Calm :
      (wire : Bytes) (r : Role) (t : Target)
      → Fillable r t
      → Calm (bind_role ps values wire r true t).1
  unfolding bind_role bind_scalar bind_list bind_holder plain_run slice_run holder_run
  bind_role-Calm wire role_scalar (plain c) h = set_if-Calm c wire (first_value values wire)
  bind_role-Calm wire role_scalar (holder_struct sfs) h =
      refuse_if-Calm wire (holder_struct sfs) (first_value values wire)
  bind_role-Calm wire role_slice (plain (slice_cell t vs)) h = bind_slice-Calm wire t vs
  bind_role-Calm wire role_slice (plain (opt_cell t o)) h = tt
  bind_role-Calm wire role_slice (plain other_cell) h = tt
  bind_role-Calm wire role_slice (holder_struct sfs) h = tt
  bind_role-Calm wire role_predicate (holder_struct sfs) h = each_until-Calm wire sfs h
  bind_role-Calm wire role_predicate (plain c) h = absurd h
  bind_role-Calm wire r t h = tt

  bind_role-exported :
      (wire : Bytes) (r : Role) (t : Target) (exported : Bool)
      → exported ≡ true
      → Fillable r t
      → Calm (bind_role ps values wire r exported t).1
  bind_role-exported wire r t true e h = bind_role-Calm wire r t h
  bind_role-exported wire r t false e h = absurd (cc)

  bind_field-Calm :
      (f : Field) → Fillable (classify_field f.info) f.target → Calm (bind_field ps values f).1
  unfolding bind_field with_target
  bind_field-Calm f h =
      let wire = wire_name f.info.tag f.info.name in
      let run =
        with_target f (bind_role ps values wire (classify_field f.info) f.info.exported f.target) in
      if-exported {A = Field} (not (is_empty (get_tag f.info.tag (codes "group")))) f.info.exported
        (f, none) (if bytes_eq wire (codes "-") then (f, none) else run) tt
        (λ e.
          if-Calm {A = Field} (bytes_eq wire (codes "-")) (f, none) run tt
            (bind_role-exported wire (classify_field f.info) f.target f.info.exported e h))

  bind_fields-Calm : (fs : List Field) → AllFillable fs → Calm (bind_fields ps values fs).1
  unfolding bind_fields each_until
  bind_fields-Calm [] h = tt
  bind_fields-Calm (f ∷ fs) (h, hs) =
      keep_going-Calm (bind_field ps values f) fs _ (bind_field-Calm f h) (bind_fields-Calm fs hs)

  returned-Calm : (e : Option Fault) → Calm e → CalmReturn (returned e)
  unfolding returned
  returned-Calm none h = tt
  returned-Calm (some (bad_value key)) h = tt
  returned-Calm (some panicked) h = h

  -- If every holder of the destination is a struct whose fields are exported, as those of the package
  -- are, then Bind does not panic on any query string: it returns nil or an error.
  pub bind_dest-Calm : (d : Dest) → FillableDest d → CalmReturn (bind_dest ps values d).1
  unfolding bind_dest bound_to
  bind_dest-Calm (pointer_to fs) h =
      returned-Calm (bind_fields ps values fs).1 (bind_fields-Calm fs h)
  bind_dest-Calm not_a_pointer h = tt
  bind_dest-Calm nil_pointer h = tt
  bind_dest-Calm pointer_to_other h = tt

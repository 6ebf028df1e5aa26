-- ===== src/Compile/Columns.antt =====
-- Which columns and verbatim SQL a compiled filter can use: only what its type declares.
use filtrx.Base.{
  ℕ, Bool, true, false, Option, none, some, List, [], ◌∷◌, ◌++◌, Bytes, if◌then◌else◌,
}
use filtrx.Value.{Value}
use filtrx.Cond.{
  Cond, Conds, Inner, Op, leaf, group, raw, exists, full_text, nil, cons, absent, present,
}
use filtrx.Holders.{exists_active}
use filtrx.Reflect.{StructType, struct, FieldList, end, field, SubType, no_sub, sub_struct}
use filtrx.Plan.{
  StepKind, step_predicate, step_scalar, step_slice, step_group, step_exists, Result, ok, error,
  Plan,
}
use filtrx.Plan.Cache.{plan_of}
use filtrx.Compile.{
  StructValue, struct_value, FieldValues, no_fields, field_value, FieldValue, holder, scalar, elems,
  structs, exists_value, unread, StructValues, no_structs, one_struct, combine, inner_of,
  slice_cond, group_cond, add_child, to_conds,
}
use filtrx.Compile.Refers.{RefersStep, RefersSub, step_of-RefersStep}
use filtrx.Compile.Direct.{
  step_of, when_ok, when, fields_of, direct, direct_fields, direct_field, direct_children,
}

module _ (Column Verbatim : Bytes → Type 0) where
  -- Every column of the condition is such a column, and all that its text takes over as it stands, the
  -- source and the correlation of an EXISTS and the configuration of a full-text match, is such a text.
  -- Raw SQL is not part of it.
  abbrev mutual
    pub Uses : Cond → Type 0
    Uses (leaf col op v) = Column col
    Uses (group or cs) = UsesConds cs
    Uses (raw sql args) = ⊥
    Uses (exists negate src on c) = Verbatim src × Verbatim on × UsesInner c
    Uses (full_text col config query) = Column col × Verbatim config

    pub UsesConds : Conds → Type 0
    UsesConds nil = Unit
    UsesConds (cons c cs) = Uses c × UsesConds cs

    pub UsesInner : Inner → Type 0
    UsesInner absent = Unit
    UsesInner (present c) = Uses c

  abbrev pub AllUse : List Cond → Type 0
  AllUse [] = Unit
  AllUse (c ∷ cs) = Uses c × AllUse cs

  abbrev pub UsesOption : Option Cond → Type 0
  UsesOption none = Unit
  UsesOption (some c) = Uses c

  -- The column of a step that has one, and the tags of an Exists field.
  abbrev pub DeclaresStep : Option StepKind → Type 0
  DeclaresStep (some (step_predicate col)) = Column col
  DeclaresStep (some (step_scalar col op)) = Column col
  DeclaresStep (some (step_slice col op)) = Column col
  DeclaresStep (some (step_exists src on t)) = Verbatim src × Verbatim on
  DeclaresStep k = Unit

  abbrev mutual
    pub Declares : StructType → Type 0
    Declares (struct n fs) = DeclaresFields fs

    pub DeclaresFields : FieldList → Type 0
    DeclaresFields end = Unit
    DeclaresFields (field f sub fs) =
        DeclaresStep (step_of f sub) × DeclaresSub sub × DeclaresFields fs

    pub DeclaresSub : SubType → Type 0
    DeclaresSub no_sub = Unit
    DeclaresSub (sub_struct t) = Declares t

  -- The holders in a value put conditions on the column that they are given, and no others, with such
  -- verbatim text only.
  abbrev mutual
    pub Respects : StructValue → Type 0
    Respects (struct_value fvs) = RespectsFields fvs

    pub RespectsFields : FieldValues → Type 0
    RespectsFields no_fields = Unit
    RespectsFields (field_value v vs) = RespectsField v × RespectsFields vs

    pub RespectsField : FieldValue → Type 0
    RespectsField (holder f) = (col : Bytes) → Column col → AllUse (f col)
    RespectsField (structs vs es) = RespectsAll es
    RespectsField (exists_value toggle sub) = Respects sub
    RespectsField v = Unit

    pub RespectsAll : StructValues → Type 0
    RespectsAll no_structs = Unit
    RespectsAll (one_struct v vs) = Respects v × RespectsAll vs

  pub AllUse-append : (cs ds : List Cond) → AllUse cs → AllUse ds → AllUse (cs ++ ds)
  AllUse-append [] ds h k = k
  AllUse-append (c ∷ cs) ds (h, hs) k = (h, AllUse-append cs ds hs k)

  UsesConds-to_conds : (cs : List Cond) → AllUse cs → UsesConds (to_conds cs)
  unfolding to_conds
  UsesConds-to_conds [] h = tt
  UsesConds-to_conds (c ∷ cs) (h, hs) = (h, UsesConds-to_conds cs hs)

  UsesOption-combine : (cs : List Cond) → AllUse cs → UsesOption (combine cs)
  unfolding combine
  UsesOption-combine [] h = tt
  UsesOption-combine (c ∷ []) h = h.0
  UsesOption-combine (c ∷ d ∷ cs) h = UsesConds-to_conds (c ∷ d ∷ cs) h

  AllUse-group_cond : (or : Bool) (cs : List Cond) → AllUse cs → AllUse (group_cond or cs)
  unfolding group_cond
  AllUse-group_cond or [] h = tt
  AllUse-group_cond or (c ∷ cs) h = (UsesConds-to_conds (c ∷ cs) h, tt)

  AllUse-slice_cond :
      (col : Bytes) (op : Op) (vs : List Value) → Column col → AllUse (slice_cond col op vs)
  unfolding slice_cond
  AllUse-slice_cond col op [] h = tt
  AllUse-slice_cond col op (v ∷ vs) h = (h, tt)

  AllUse-add_child :
      (o : Option Cond) (cs : List Cond) → UsesOption o → AllUse cs → AllUse (add_child o cs)
  unfolding add_child
  AllUse-add_child none cs h k = k
  AllUse-add_child (some c) cs h k = (h, k)

  AllUse-when_ok : (r : Result Plan) (cs : List Cond) → AllUse cs → AllUse (when_ok r cs)
  AllUse-when_ok (ok p) cs h = h
  AllUse-when_ok (error e) cs h = tt

  AllUse-when : (b : Bool) (cs : List Cond) → AllUse cs → AllUse (when b cs)
  AllUse-when true cs h = h
  AllUse-when false cs h = tt

  UsesInner-inner_of : (o : Option Cond) → UsesOption o → UsesInner (inner_of o)
  unfolding inner_of
  UsesInner-inner_of none h = tt
  UsesInner-inner_of (some c) h = h

  AllUse-scalar : (set : Bool) (c : Cond) → Uses c → AllUse (if set then c ∷ [] else [])
  AllUse-scalar true c h = (h, tt)
  AllUse-scalar false c h = tt

  pub Declares-fields_of : (t : StructType) → Declares t → DeclaresFields (fields_of t)
  Declares-fields_of (struct n fs) h = h

  Declares-RefersSub : (sub : SubType) → DeclaresSub sub → RefersSub Declares sub
  Declares-RefersSub no_sub h = tt
  Declares-RefersSub (sub_struct t) h = h

  module _ (types : ℕ → StructType) (all : (n : ℕ) → Declares (types n)) where
    mutual
      unfolding direct

      pub direct-uses :
          (v : StructValue) (fs : FieldList)
          → DeclaresFields fs
          → Respects v
          → UsesOption (direct types v fs)
      direct-uses (struct_value fvs) fs d r =
          UsesOption-combine (direct_fields types fvs fs) (direct_fields-uses fvs fs d r)

      direct_fields-uses :
          (fvs : FieldValues) (fs : FieldList)
          → DeclaresFields fs
          → RespectsFields fvs
          → AllUse (direct_fields types fvs fs)
      direct_fields-uses no_fields fs d r = tt
      direct_fields-uses (field_value v vs) end d r = tt
      direct_fields-uses (field_value v vs) (field f sub fs) (d, s, ds) (r, rs) =
          AllUse-append (direct_field types v (step_of f sub)) (direct_fields types vs fs)
            (direct_field-uses v (step_of f sub) d
              (step_of-RefersStep Declares f sub (Declares-RefersSub sub s)) r)
            (direct_fields-uses vs fs ds rs)

      direct_field-uses :
          (v : FieldValue) (k : Option StepKind)
          → DeclaresStep k
          → RefersStep Declares k
          → RespectsField v
          → AllUse (direct_field types v k)
      direct_field-uses (holder f) (some (step_predicate col)) d t r = r col d
      direct_field-uses (scalar set w) (some (step_scalar col op)) d t r =
          AllUse-scalar set (leaf col op w) d
      direct_field-uses (elems vs) (some (step_slice col op)) d t r = AllUse-slice_cond col op vs d
      direct_field-uses (structs vs es) (some (step_slice col op)) d t r =
          AllUse-slice_cond col op vs d
      direct_field-uses (structs vs es) (some (step_group or n)) d t r =
          AllUse-when_ok (plan_of (types n)) _ (
            AllUse-group_cond or _ (
              direct_children-uses es (fields_of (types n)) (Declares-fields_of (types n) (all n))
                r))
      direct_field-uses (exists_value toggle sub) (some (step_exists src on t)) d h r =
          AllUse-when (exists_active toggle).0 _ (
            AllUse-when_ok (plan_of t) _ (
              (
                d.0,
                d.1,
                UsesInner-inner_of _ (direct-uses sub (fields_of t) (Declares-fields_of t h) r),
              ),
              tt,
            ))
      direct_field-uses unread (some (step_predicate col)) d t r = tt
      direct_field-uses v k d t r = tt

      direct_children-uses :
          (es : StructValues) (fs : FieldList)
          → DeclaresFields fs
          → RespectsAll es
          → AllUse (direct_children types es fs)
      direct_children-uses no_structs fs d r = tt
      direct_children-uses (one_struct v vs) fs d (r, rs) =
          AllUse-add_child (direct types v fs) (direct_children types vs fs) (direct-uses v fs d r)
            (direct_children-uses vs fs d rs)

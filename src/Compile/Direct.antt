-- ===== src/Compile/Direct.antt =====
-- The reading of a filter by its fields, with no plan, index or cache.
use filtrx.Base.{ℕ, Bool, true, false, Option, none, some, List, [], ◌∷◌, ◌++◌, if◌then◌else◌}
use filtrx.Cond.{Cond, leaf, exists}
use filtrx.Holders.{exists_active}
use filtrx.Reflect.{
  FieldInfo, StructType, struct, FieldList, end, field, SubType, no_sub, sub_struct,
}
use filtrx.Plan.{
  StepKind, step_predicate, step_scalar, step_slice, step_group, step_exists, Plan, empty_plan,
  Result, ok, error, Action, skip, fail, add, set_source, plan_sub, field_action,
}
use filtrx.Plan.Cache.{plan_of}
use filtrx.Compile.{
  StructValue, struct_value, FieldValues, no_fields, field_value, FieldValue, holder, scalar, elems,
  structs, exists_value, StructValues, no_structs, one_struct, combine, inner_of, slice_cond,
  group_cond, add_child,
}

-- The step of a field, if it has one.
abbrev pub kind_of : Action → SubType → Option StepKind
kind_of (add k) sub = some k
kind_of (plan_sub src on) (sub_struct t) = some (step_exists src on t)
kind_of (plan_sub src on) no_sub = none
kind_of skip sub = none
kind_of (fail e) sub = none
kind_of (set_source r) sub = none

abbrev pub step_of : FieldInfo → SubType → Option StepKind
step_of f sub = kind_of (field_action f empty_plan) sub

abbrev pub when_ok : Result Plan → List Cond → List Cond
when_ok (ok p) cs = cs
when_ok (error e) cs = []

abbrev pub when : Bool → List Cond → List Cond
when true cs = cs
when false cs = []

abbrev pub fields_of : StructType → FieldList
fields_of (struct n fs) = fs

module _ (types : ℕ → StructType) where
  -- The conditions of the fields in order, ANDed; a group is its elements' filters, and an Exists
  -- the filter of its Sub.
  unfoldable mutual
    pub direct : StructValue → FieldList → Option Cond
    direct (struct_value fvs) fs = combine (direct_fields fvs fs)

    pub direct_fields : FieldValues → FieldList → List Cond
    direct_fields no_fields fs = []
    direct_fields (field_value v vs) end = []
    direct_fields (field_value v vs) (field f sub fs) =
        direct_field v (step_of f sub) ++ direct_fields vs fs

    pub direct_field : FieldValue → Option StepKind → List Cond
    direct_field (holder predicates) (some (step_predicate col)) = predicates col
    direct_field (scalar set v) (some (step_scalar col op)) = if set then leaf col op v ∷ [] else []
    direct_field (elems vs) (some (step_slice col op)) = slice_cond col op vs
    direct_field (structs vs es) (some (step_slice col op)) = slice_cond col op vs
    direct_field (structs vs es) (some (step_group or n)) =
        when_ok (plan_of (types n)) (group_cond or (direct_children es (fields_of (types n))))
    direct_field (exists_value toggle sub) (some (step_exists src on t)) =
        when (exists_active toggle).0 (
          when_ok (plan_of t)
            (exists (exists_active toggle).1 src on (inner_of (direct sub (fields_of t))) ∷ []))
    direct_field v k = []

    pub direct_children : StructValues → FieldList → List Cond
    direct_children no_structs fs = []
    direct_children (one_struct v vs) fs = add_child (direct v fs) (direct_children vs fs)

-- ===== src/Compile/Meaning.antt =====
-- Which rows the compiled condition of a filter value keeps, read off the fields.
mod Blank
pub mod Kept
use filtrx.Base.{
  ℕ, ◌≡◌, refl, ◌∙◌, ap, Bool, true, false, ◌&&◌, ◌||◌, not, Option, none, some, List, [], ◌∷◌,
  ◌++◌, arith, Bytes, if◌then◌else◌,
}
use filtrx.Value.{Value, slice}
use filtrx.Cond.{Cond, Conds, Op, leaf, group, exists, nil, cons, Inner, absent, present}
use filtrx.Holders.{exists_active, values}
use filtrx.Holders.Meaning.{each_holds, each_holds-append}
use filtrx.Holders.Open.{no_conds, none_of}
use filtrx.Reflect.{FieldInfo, StructType, FieldList, end, field, SubType}
use filtrx.Plan.{
  StepKind, step_predicate, step_scalar, step_slice, step_group, step_exists, Plan, Result, ok,
  error,
}
use filtrx.Plan.Cache.{plan_of}
use filtrx.Meaning.{
  Database, Row, Truth, and_truth, or_truth, is_true, truth, any_row, eval_leaf, eval, eval_inner,
  eval_and, eval_or, holds, passes, yes_true, no_false, unknown,
}
use filtrx.Compile.{
  StructValue, struct_value, FieldValues, no_fields, field_value, FieldValue, holder, scalar, elems,
  structs, exists_value, unread, StructValues, no_structs, one_struct, combine, inner_of,
  slice_cond, group_cond, add_child, to_conds,
}
use filtrx.Compile.Direct.{
  step_of, when_ok, when, fields_of, direct, direct_fields, direct_field, direct_children,
}

-- The element type of a group, or the Sub of an Exists, has a plan.
abbrev pub has_plan : Result Plan → Bool
has_plan (ok p) = true
has_plan (error e) = false

module _ (types : ℕ → StructType) where
  -- No field of the value is set: the filter asks nothing.
  unfoldable mutual
    pub is_blank : StructValue → FieldList → Bool
    is_blank (struct_value fvs) fs = blank_fields fvs fs

    pub blank_fields : FieldValues → FieldList → Bool
    blank_fields no_fields fs = true
    blank_fields (field_value v vs) end = true
    blank_fields (field_value v vs) (field f sub fs) =
        blank_field v (step_of f sub) && blank_fields vs fs

    pub blank_field : FieldValue → Option StepKind → Bool
    blank_field (holder predicates) (some (step_predicate col)) = no_conds (predicates col)
    blank_field (scalar set v) (some (step_scalar col op)) = not set
    blank_field (elems vs) (some (step_slice col op)) = none_of vs
    blank_field (structs vs es) (some (step_slice col op)) = none_of vs
    blank_field (structs vs es) (some (step_group or n)) =
        not (has_plan (plan_of (types n))) || blank_children es (fields_of (types n))
    blank_field (exists_value toggle sub) (some (step_exists src on t)) =
        not toggle.set || not (has_plan (plan_of t))
    blank_field v k = true

    pub blank_children : StructValues → FieldList → Bool
    blank_children no_structs fs = true
    blank_children (one_struct v vs) fs = is_blank v fs && blank_children vs fs

module _ (types : ℕ → StructType) (db : Database) where
  -- The row is what the filter value asks for: every field that is set is met; an `or` group is met by
  -- one of its elements that ask something, if there is one; an Exists that is set to true by a related
  -- row that its Sub asks for, one that is set to false by the absence of such a row. A group or Exists
  -- whose filter type has no plan asks nothing.
  unfoldable mutual
    pub meets : Row → StructValue → FieldList → Bool
    meets row (struct_value fvs) fs = meets_fields row fvs fs

    pub meets_fields : Row → FieldValues → FieldList → Bool
    meets_fields row no_fields fs = true
    meets_fields row (field_value v vs) end = true
    meets_fields row (field_value v vs) (field f sub fs) =
        meets_field row v (step_of f sub) && meets_fields row vs fs

    pub meets_field : Row → FieldValue → Option StepKind → Bool
    meets_field row (holder predicates) (some (step_predicate col)) =
        each_holds db row (predicates col)
    meets_field row (scalar set v) (some (step_scalar col op)) =
        not set || is_true (eval_leaf db row op col v)
    meets_field row (elems vs) (some (step_slice col op)) =
        none_of vs || is_true (eval_leaf db row op col (slice (values vs)))
    meets_field row (structs vs es) (some (step_slice col op)) =
        none_of vs || is_true (eval_leaf db row op col (slice (values vs)))
    meets_field row (structs vs es) (some (step_group or n)) =
        let asked = fields_of (types n) in
        not (has_plan (plan_of (types n)))
        || (if or
            then blank_children types es asked || meets_some row es asked
            else meets_every row es asked)
    meets_field row (exists_value toggle sub) (some (step_exists src on t)) =
        let found = any_row (λ r. meets r sub (fields_of t)) (db.related src on row) in
        not toggle.set || (not (has_plan (plan_of t)) || (if toggle.val then found else not found))
    meets_field row v k = true

    pub meets_every : Row → StructValues → FieldList → Bool
    meets_every row no_structs fs = true
    meets_every row (one_struct v vs) fs = meets row v fs && meets_every row vs fs

    pub meets_some : Row → StructValues → FieldList → Bool
    meets_some row no_structs fs = false
    meets_some row (one_struct v vs) fs =
        (not (is_blank types v fs) && meets row v fs) || meets_some row vs fs

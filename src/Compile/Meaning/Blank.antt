-- ===== src/Compile/Meaning/Blank.antt =====
-- A filter value gives no condition exactly if it asks nothing.
use filtrx.Base.{
  ℕ, ◌≡◌, refl, ◌∙◌, ap, Bool, true, false, ◌&&◌, ◌||◌, not, Option, none, some, List, [], ◌∷◌,
  ◌++◌, Bytes, Bool-cases, inl, inr,
}
use filtrx.Value.{Value}
use filtrx.Cond.{Cond, Op, exists}
use filtrx.Holders.{Opt, exists_active}
use filtrx.Reflect.{StructType, FieldList, end, field}
use filtrx.Plan.{
  StepKind, step_predicate, step_scalar, step_slice, step_group, step_exists, Plan, Result, ok,
  error,
}
use filtrx.Plan.Cache.{plan_of}
use filtrx.Compile.{
  StructValue, struct_value, FieldValues, no_fields, field_value, FieldValue, holder, scalar, elems,
  structs, exists_value, unread, StructValues, no_structs, one_struct, combine, inner_of,
  slice_cond, group_cond, add_child,
}
use filtrx.Compile.Direct.{
  step_of, when_ok, when, fields_of, direct, direct_fields, direct_field, direct_children,
}
use filtrx.Holders.Open.{no_conds, none_of}
use filtrx.Compile.Meaning.{has_plan, is_blank, blank_fields, blank_field, blank_children}

abbrev pub is_none : Option Cond → Bool
is_none none = true
is_none (some c) = false

no_conds-append : (cs es : List Cond) → no_conds (cs ++ es) ≡ (no_conds cs && no_conds es)
no_conds-append [] es = refl
no_conds-append (c ∷ cs) es = refl

is_none-combine : (cs : List Cond) → is_none (combine cs) ≡ no_conds cs
unfolding combine
is_none-combine [] = refl
is_none-combine (c ∷ []) = refl
is_none-combine (c ∷ d ∷ cs) = refl

no_conds-add_child :
    (o : Option Cond) (cs : List Cond) → no_conds (add_child o cs) ≡ (is_none o && no_conds cs)
unfolding add_child
no_conds-add_child none cs = refl
no_conds-add_child (some c) cs = refl

no_conds-slice :
    (col : Bytes) (op : Op) (vs : List Value) → no_conds (slice_cond col op vs) ≡ none_of vs
unfolding slice_cond
no_conds-slice col op [] = refl
no_conds-slice col op (v ∷ vs) = refl

no_conds-group :
    (r : Result Plan) (or : Bool) (cs : List Cond)
    → no_conds (when_ok r (group_cond or cs)) ≡ (not (has_plan r) || no_conds cs)
unfolding group_cond
no_conds-group (error e) or cs = refl
no_conds-group (ok p) or [] = refl
no_conds-group (ok p) or (c ∷ cs) = refl

no_conds-exists :
    (active : Bool) (r : Result Plan) (c : Cond)
    → no_conds (when active (when_ok r (c ∷ []))) ≡ (not active || not (has_plan r))
no_conds-exists true (error e) c = refl
no_conds-exists true (ok p) c = refl
no_conds-exists false r c = refl

-- An Exists takes part exactly if it is set.
exists_active-set : (toggle : Opt Bool) → (exists_active toggle).0 ≡ toggle.set
unfolding exists_active
exists_active-set toggle = elim (Bool-cases toggle.set) [ inl e ↦ rw e refl | inr e ↦ rw e refl ]

module _ (types : ℕ → StructType) where
  mutual
    unfolding direct is_blank

    pub is_none-direct :
        (v : StructValue) (fs : FieldList) → is_none (direct types v fs) ≡ is_blank types v fs
    is_none-direct (struct_value fvs) fs =
        is_none-combine (direct_fields types fvs fs) ∙ no_conds-direct_fields fvs fs

    no_conds-direct_fields :
        (fvs : FieldValues) (fs : FieldList)
        → no_conds (direct_fields types fvs fs) ≡ blank_fields types fvs fs
    no_conds-direct_fields no_fields fs = refl
    no_conds-direct_fields (field_value v vs) end = refl
    no_conds-direct_fields (field_value v vs) (field f sub fs) =
        rw
          (
            no_conds-append (direct_field types v (step_of f sub)) (direct_fields types vs fs),
            no_conds-direct_field v (step_of f sub),
            no_conds-direct_fields vs fs,
          )
          refl

    no_conds-direct_field :
        (v : FieldValue) (k : Option StepKind)
        → no_conds (direct_field types v k) ≡ blank_field types v k
    no_conds-direct_field (holder predicates) (some (step_predicate col)) = refl
    no_conds-direct_field (scalar true v) (some (step_scalar col op)) = refl
    no_conds-direct_field (scalar false v) (some (step_scalar col op)) = refl
    no_conds-direct_field (elems vs) (some (step_slice col op)) = no_conds-slice col op vs
    no_conds-direct_field (structs vs es) (some (step_slice col op)) = no_conds-slice col op vs
    no_conds-direct_field (structs vs es) (some (step_group or n)) =
        no_conds-group (plan_of (types n)) or (direct_children types es (fields_of (types n)))
        ∙ ap (λ b. not (has_plan (plan_of (types n))) || b)
            (no_conds-direct_children es (fields_of (types n)))
    no_conds-direct_field (exists_value toggle sub) (some (step_exists src on t)) =
        no_conds-exists (exists_active toggle).0 (plan_of t)
          (exists (exists_active toggle).1 src on (inner_of (direct types sub (fields_of t))))
        ∙ ap (λ b. not b || not (has_plan (plan_of t))) (exists_active-set toggle)
    no_conds-direct_field unread k = refl
    no_conds-direct_field v k = refl

    pub no_conds-direct_children :
        (es : StructValues) (fs : FieldList)
        → no_conds (direct_children types es fs) ≡ blank_children types es fs
    no_conds-direct_children no_structs fs = refl
    no_conds-direct_children (one_struct v vs) fs =
        rw
          (
            no_conds-add_child (direct types v fs) (direct_children types vs fs),
            is_none-direct v fs,
            no_conds-direct_children vs fs,
          )
          refl

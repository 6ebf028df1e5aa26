-- ===== src/Compile/Meaning/Kept.antt =====
-- The compiled condition of a filter value keeps exactly the rows that the value asks for.
use filtrx.Base.{
  ℕ, ◌≡◌, refl, sym, ◌∙◌, ap, Bool, true, false, ◌&&◌, ◌||◌, not, Option, none, some, List, [], ◌∷◌,
  arith, Bytes, if◌then◌else◌,
}
use filtrx.Value.{Value, slice}
use filtrx.Cond.{Cond, Op, exists, leaf}
use filtrx.Holders.{Opt, exists_active, values}
use filtrx.Holders.Meaning.{each_holds, each_holds-append}
use filtrx.Reflect.{StructType, FieldList, end, field}
use filtrx.Plan.{
  StepKind, step_predicate, step_scalar, step_slice, step_group, step_exists, Plan, Result, ok,
  error, PlanCache,
}
use filtrx.Plan.Cache.{plan_of, Known, IsValid}
use filtrx.Meaning.{
  Database, Row, is_true, is_true-and, is_true-or, any_row, eval_leaf, eval, eval_inner, eval_and,
  eval_or, holds, passes,
}
use filtrx.Compile.{
  StructValue, struct_value, FieldValues, no_fields, field_value, FieldValue, holder, scalar, elems,
  structs, exists_value, unread, StructValues, no_structs, one_struct, combine, inner_of,
  slice_cond, group_cond, add_child, to_conds, struct_arg, compile_filter,
}
use filtrx.Compile.Where.{read_struct, compile_filter-direct}
use filtrx.Query.{compiled}
use filtrx.Compile.Direct.{
  step_of, when_ok, when, fields_of, direct, direct_fields, direct_field, direct_children,
}
use filtrx.Holders.Open.{no_conds, none_of}
use filtrx.Compile.Meaning.{has_plan, meets, meets_fields, meets_field, meets_every, meets_some}
use filtrx.Compile.Meaning.Blank.{is_none, is_none-direct, no_conds-direct_children}

pub any_row-same :
    (f g : Row → Bool) → ((r : Row) → f r ≡ g r) → (rs : List Row) → any_row f rs ≡ any_row g rs
unfolding any_row
any_row-same f g h [] = refl
any_row-same f g h (r ∷ rs) = rw (h r, any_row-same f g h rs) refl

and_true : (b : Bool) → (b && true) ≡ b
and_true b = ground arith

module _ (db : Database) (row : Row) where
  abbrev some_holds : List Cond → Bool
  some_holds [] = false
  some_holds (c ∷ cs) = holds db row c || some_holds cs

  is_true-eval_and :
      (cs : List Cond) → is_true (eval_and db row (to_conds cs)) ≡ each_holds db row cs
  unfolding eval each_holds to_conds
  is_true-eval_and [] = refl
  is_true-eval_and (c ∷ cs) =
      rw (is_true-and (eval db row c) (eval_and db row (to_conds cs)), is_true-eval_and cs) refl

  is_true-eval_or : (cs : List Cond) → is_true (eval_or db row (to_conds cs)) ≡ some_holds cs
  unfolding eval to_conds
  is_true-eval_or [] = refl
  is_true-eval_or (c ∷ cs) =
      rw (is_true-or (eval db row c) (eval_or db row (to_conds cs)), is_true-eval_or cs) refl

  each_holds-nil : each_holds db row [] ≡ true
  unfolding each_holds
  each_holds-nil = refl

  each_holds-one : (c : Cond) → each_holds db row (c ∷ []) ≡ holds db row c
  unfolding each_holds
  each_holds-one c = ground arith

  each_holds-leaf :
      (op : Op) (col : Bytes) (v : Value)
      → each_holds db row (leaf col op v ∷ []) ≡ is_true (eval_leaf db row op col v)
  unfolding eval
  each_holds-leaf op col v = each_holds-one (leaf col op v)

  passes-combine : (cs : List Cond) → passes db row (combine cs) ≡ each_holds db row cs
  unfolding combine eval
  passes-combine [] = unfold each_holds in refl
  passes-combine (c ∷ []) = sym (each_holds-one c)
  passes-combine (c ∷ d ∷ cs) = is_true-eval_and (c ∷ d ∷ cs)

  each_holds-slice :
      (col : Bytes) (op : Op) (vs : List Value)
      → each_holds db row (slice_cond col op vs)
        ≡ (none_of vs || is_true (eval_leaf db row op col (slice (values vs))))
  unfolding slice_cond each_holds eval
  each_holds-slice col op [] = refl
  each_holds-slice col op (v ∷ vs) = ground arith

  each_holds-group :
      (r : Result Plan) (or : Bool) (cs : List Cond)
      → each_holds db row (when_ok r (group_cond or cs))
        ≡ (not (has_plan r) || (if or then no_conds cs || some_holds cs else each_holds db row cs))
  unfolding group_cond each_holds eval
  each_holds-group (error e) or cs = refl
  each_holds-group (ok p) true [] = refl
  each_holds-group (ok p) false [] = refl
  each_holds-group (ok p) true (c ∷ cs) = and_true _ ∙ is_true-eval_or (c ∷ cs)
  each_holds-group (ok p) false (c ∷ cs) = and_true _ ∙ is_true-eval_and (c ∷ cs)

  each_holds-exists :
      (active : Bool) (r : Result Plan) (c : Cond)
      → each_holds db row (when active (when_ok r (c ∷ [])))
        ≡ (not active || (not (has_plan r) || holds db row c))
  unfolding each_holds
  each_holds-exists true (error e) c = refl
  each_holds-exists true (ok p) c = ground arith
  each_holds-exists false r c = refl

  each_holds-add_child :
      (o : Option Cond) (cs : List Cond)
      → each_holds db row (add_child o cs) ≡ (passes db row o && each_holds db row cs)
  unfolding add_child each_holds
  each_holds-add_child none cs = refl
  each_holds-add_child (some c) cs = refl

  some_holds-add_child :
      (o : Option Cond) (cs : List Cond)
      → some_holds (add_child o cs) ≡ ((not (is_none o) && passes db row o) || some_holds cs)
  unfolding add_child
  some_holds-add_child none cs = refl
  some_holds-add_child (some c) cs = refl

  is_true-inner : (o : Option Cond) → is_true (eval_inner db row (inner_of o)) ≡ passes db row o
  unfolding inner_of eval
  is_true-inner none = refl
  is_true-inner (some c) = refl

-- An Exists that is set to true asks for what is found, one that is set to false for its absence.
asks :
    (set val planned found : Bool)
    → let active : Bool × Bool = if set then (true, not val) else (false, false) in
      (not active.0 || (not planned || (if active.1 then not found else found)))
      ≡ (not set || (not planned || (if val then found else not found)))
asks true true planned found = refl
asks true false planned found = refl
asks false val planned found = refl

exists_active-asks :
    (toggle : Opt Bool) (planned found : Bool)
    → (not (exists_active toggle).0
        || (not planned || (if (exists_active toggle).1 then not found else found)))
      ≡ (not toggle.set || (not planned || (if toggle.val then found else not found)))
unfolding exists_active
exists_active-asks toggle planned found = asks toggle.set toggle.val planned found

holds-exists :
    (db : Database) (row : Row) (negate : Bool) (src on : Bytes) (o : Option Cond)
    (test : Row → Bool)
    → ((r : Row) → passes db r o ≡ test r)
    → holds db row (exists negate src on (inner_of o)) ≡ (
        if negate
        then not (any_row test (db.related src on row))
        else any_row test (db.related src on row))
unfolding eval
holds-exists db row negate src on o test same =
    rw
      (← any_row-same (λ r. is_true (eval_inner db r (inner_of o))) test
        (λ r. is_true-inner db r o ∙ same r) (db.related src on row))
      (ground arith)

module _ (types : ℕ → StructType) (db : Database) where
  mutual
    unfolding direct meets

    pub passes-direct :
        (row : Row) (v : StructValue) (fs : FieldList)
        → passes db row (direct types v fs) ≡ meets types db row v fs
    passes-direct row (struct_value fvs) fs =
        passes-combine db row (direct_fields types fvs fs) ∙ each_holds-fields row fvs fs

    each_holds-fields :
        (row : Row) (fvs : FieldValues) (fs : FieldList)
        → each_holds db row (direct_fields types fvs fs) ≡ meets_fields types db row fvs fs
    each_holds-fields row no_fields fs = each_holds-nil db row
    each_holds-fields row (field_value v vs) end = each_holds-nil db row
    each_holds-fields row (field_value v vs) (field f sub fs) =
        rw
          (
            each_holds-append db row (direct_field types v (step_of f sub))
                (direct_fields types vs fs),
            each_holds-field row v (step_of f sub),
            each_holds-fields row vs fs,
          )
          refl

    each_holds-field :
        (row : Row) (v : FieldValue) (k : Option StepKind)
        → each_holds db row (direct_field types v k) ≡ meets_field types db row v k
    each_holds-field row (holder predicates) (some (step_predicate col)) = refl
    each_holds-field row (scalar true v) (some (step_scalar col op)) =
        each_holds-leaf db row op col v
    each_holds-field row (scalar false v) (some (step_scalar col op)) = each_holds-nil db row
    each_holds-field row (elems vs) (some (step_slice col op)) = each_holds-slice db row col op vs
    each_holds-field row (structs vs es) (some (step_slice col op)) =
        each_holds-slice db row col op vs
    each_holds-field row (structs vs es) (some (step_group or n)) =
        each_holds-group db row (plan_of (types n)) or
          (direct_children types es (fields_of (types n)))
        ∙ rw
            (
              no_conds-direct_children types es (fields_of (types n)),
              some_holds-children row es (fields_of (types n)),
              each_holds-children row es (fields_of (types n)),
            )
            refl
    each_holds-field row (exists_value toggle sub) (some (step_exists src on t)) =
        each_holds-exists db row (exists_active toggle).0 (plan_of t) _
        ∙ ap (λ b. not (exists_active toggle).0 || (not (has_plan (plan_of t)) || b))
            (holds-exists db row (exists_active toggle).1 src on (direct types sub (fields_of t))
              (λ r. meets types db r sub (fields_of t)) (λ r. passes-direct r sub (fields_of t)))
        ∙ exists_active-asks toggle (has_plan (plan_of t)) _
    each_holds-field row unread k = each_holds-nil db row
    each_holds-field row v k = each_holds-nil db row

    each_holds-children :
        (row : Row) (es : StructValues) (fs : FieldList)
        → each_holds db row (direct_children types es fs) ≡ meets_every types db row es fs
    each_holds-children row no_structs fs = each_holds-nil db row
    each_holds-children row (one_struct v vs) fs =
        rw
          (
            each_holds-add_child db row (direct types v fs) (direct_children types vs fs),
            passes-direct row v fs,
            each_holds-children row vs fs,
          )
          refl

    some_holds-children :
        (row : Row) (es : StructValues) (fs : FieldList)
        → some_holds db row (direct_children types es fs) ≡ meets_some types db row es fs
    some_holds-children row no_structs fs = refl
    some_holds-children row (one_struct v vs) fs =
        rw
          (
            some_holds-add_child db row (direct types v fs) (direct_children types vs fs),
            passes-direct row v fs,
            is_none-direct types v fs,
            some_holds-children row vs fs,
          )
          refl

pub compile_filter-meets :
    (types : ℕ → StructType)
    → ((n : ℕ) → Known types (types n))
    → (t : StructType) (v : StructValue) (p : Plan) (c : PlanCache) → Known types t
    → IsValid types c
    → plan_of t ≡ ok p
    → (d : Option Cond) × ((compile_filter types (struct_arg t v) c).0 ≡ compiled d p.source)
      × ((db : Database) (row : Row) → passes db row d ≡ meets types db row v (fields_of t))
compile_filter-meets types all t v p c k valid e = (
  direct types v (fields_of t),
  (compile_filter-direct types all (struct_arg t v) c k valid).0
      ∙ ap (λ r. read_struct types r v t) e,
  λ db row. passes-direct types db row v (fields_of t),
)

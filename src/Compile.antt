-- ===== src/Compile.antt =====
-- plan.go: a filter value compiled by its plan to a condition, and `compileFilter`.
pub mod Direct
mod Refers
mod Steps
pub mod Refine
pub mod Where
pub mod Columns
pub mod Declared
pub mod Holding
pub mod Groups
pub mod Meaning
use filtrx.Base.{
  ℕ, zero, suc, Bool, true, false, Option, none, some, List, [], ◌∷◌, ◌++◌, Bytes, if◌then◌else◌,
}
use filtrx.Value.{Value, slice}
use filtrx.Cond.{Cond, Conds, Inner, Op, leaf, group, exists, nil, cons, absent, present}
use filtrx.Source.{SourceSpec}
use filtrx.Holders.{Opt, values, exists_active}
use filtrx.Reflect.{StructType}
use filtrx.Plan.{
  StepKind, step_predicate, step_scalar, step_slice, step_group, step_exists, FieldStep, Plan,
  PlanError, Result, ok, error, PlanCache, plan_for,
}
use filtrx.Query.{Compiled, compiled, rejected}

mutual
  pub data StructValue : Type 0 where
    struct_value : FieldValues → StructValue

  pub data FieldValues : Type 0 where
    no_fields : FieldValues
    field_value : FieldValue → FieldValues → FieldValues

  -- A field's value by what the compiler asks of it: the method Predicates, the Opt's methods, the
  -- elements of a slice (as `any`, and as structs where they are), or Exists[T] with its toggle.
  pub data FieldValue : Type 0 where
    holder : (Bytes → List Cond) → FieldValue
    scalar : Bool → Value → FieldValue
    elems : List Value → FieldValue
    structs : List Value → StructValues → FieldValue
    exists_value : Opt Bool → StructValue → FieldValue
    unread : FieldValue

  pub data StructValues : Type 0 where
    no_structs : StructValues
    one_struct : StructValue → StructValues → StructValues

unfoldable pub to_conds : List Cond → Conds
to_conds [] = nil
to_conds (c ∷ cs) = cons c (to_conds cs)

-- The end of `build`: nothing, the one condition, or all of them ANDed.
unfoldable pub combine : List Cond → Option Cond
combine [] = none
combine (c ∷ []) = some c
combine (c ∷ d ∷ cs) = some (group false (to_conds (c ∷ d ∷ cs)))

unfoldable pub inner_of : Option Cond → Inner
inner_of none = absent
inner_of (some c) = present c

unfoldable pub slice_cond : Bytes → Op → List Value → List Cond
slice_cond col op [] = []
slice_cond col op (v ∷ vs) = leaf col op (slice (values (v ∷ vs))) ∷ []

unfoldable pub group_cond : Bool → List Cond → List Cond
group_cond or [] = []
group_cond or (c ∷ cs) = group or (to_conds (c ∷ cs)) ∷ []

unfoldable pub add_child : Option Cond → List Cond → List Cond
add_child none cs = cs
add_child (some c) cs = c ∷ cs

-- What a field gives for a step, with the cache before and after.
abbrev pub Contribution : Type 0
Contribution = StepKind → PlanCache → List Cond × PlanCache

-- v.Field(i); an index beyond the fields is not met.
unfoldable pub contribution_at : ℕ → List Contribution → Contribution
contribution_at i [] k c = ([], c)
contribution_at zero (f ∷ fs) k c = f k c
contribution_at (suc i) (f ∷ fs) k c = contribution_at i fs k c

-- The loop of `build` over the steps.
unfoldable pub run_steps : List Contribution → List FieldStep → PlanCache → List Cond × PlanCache
run_steps fs [] c = ([], c)
run_steps fs (s ∷ ss) c =
    let (cs, c') = contribution_at s.idx fs s.kind c in
    let (ds, c'') = run_steps fs ss c' in (cs ++ ds, c'')

unfoldable pub combined : List Cond × PlanCache → Option Cond × PlanCache
combined (cs, c) = (combine cs, c)

unfoldable pub grouped : Bool → List Cond × PlanCache → List Cond × PlanCache
grouped or (cs, c) = (group_cond or cs, c)

unfoldable pub existing : Bool → Bytes → Bytes → Option Cond × PlanCache → List Cond × PlanCache
existing negate src on (c, cache) = (exists negate src on (inner_of c) ∷ [], cache)

module _ (types : ℕ → StructType) where
  unfoldable mutual
    -- `build`; the loop's body for each field is `contribute`.
    pub build : StructValue → Plan → PlanCache → Option Cond × PlanCache
    build (struct_value fvs) p c = combined (run_steps (contributions fvs) p.steps c)

    pub contributions : FieldValues → List Contribution
    contributions no_fields = []
    contributions (field_value fv fvs) = contribute fv ∷ contributions fvs

    -- The `switch s.kind`.
    pub contribute : FieldValue → StepKind → PlanCache → List Cond × PlanCache
    contribute (holder predicates) (step_predicate col) c = (predicates col, c)
    contribute (scalar set v) (step_scalar col op) c = ((if set then leaf col op v ∷ [] else []), c)
    contribute (elems vs) (step_slice col op) c = (slice_cond col op vs, c)
    contribute (structs vs es) (step_slice col op) c = (slice_cond col op vs, c)
    contribute (structs vs es) (step_group or n) c =
        let (r, c') = plan_for (types n) c in
        elim r [ error e ↦ ([], c') | ok p ↦ grouped or (children es p c') ]
    contribute (exists_value toggle sub) (step_exists src on t) c =
        let (active, negate) = exists_active toggle in
        elim active [
          | false ↦ ([], c)
          | true ↦
              let (r, c') = plan_for t c in
              elim r [ error e ↦ ([], c') | ok p ↦ existing negate src on (build sub p c') ]
        ]
    contribute fv k c = ([], c)

    pub children : StructValues → Plan → PlanCache → List Cond × PlanCache
    children no_structs p c = ([], c)
    children (one_struct v vs) p c =
        let (d, c') = build v p c in let (ds, c'') = children vs p c' in (add_child d ds, c'')

-- The argument of `Where`: through pointers to a struct, or not.
pub data FilterArg : Type 0 where
  nil_pointer not_a_struct : FilterArg
  pointer : FilterArg → FilterArg
  struct_arg : StructType → StructValue → FilterArg

unfoldable pub compiled_as : Option SourceSpec → Option Cond × PlanCache → Compiled × PlanCache
compiled_as source (c, cache) = (compiled c source, cache)

-- `compileFilter`
unfoldable pub compile_filter : (ℕ → StructType) → FilterArg → PlanCache → Compiled × PlanCache
compile_filter types nil_pointer c = (compiled none none, c)
compile_filter types not_a_struct c = (rejected, c)
compile_filter types (pointer a) c = compile_filter types a c
compile_filter types (struct_arg t v) c =
    let (r, c') = plan_for t c in
    elim r [ error e ↦ (rejected, c') | ok p ↦ compiled_as p.source (build types v p c') ]

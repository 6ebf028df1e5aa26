-- ===== src/Compile/Refine.antt =====
-- The compiler gives the condition that is read off the fields.
use filtrx.Base.{
  ℕ, ◌≡◌, refl, ap, Bool, true, false, Option, none, some, List, [], ◌∷◌, ◌++◌, Bytes, arith,
  length, append-nil, append_assoc,
}
use filtrx.Cond.{Cond, exists}
use filtrx.Holders.{exists_active}
use filtrx.Reflect.{SubType, no_sub, sub_struct, StructType, struct, FieldList, end, field}
use filtrx.Plan.{
  StepKind, step_predicate, step_scalar, step_slice, step_group, step_exists, Plan, Result, ok,
  error, PlanCache, plan_for,
}
use filtrx.Plan.Cache.{KnownSub, plan_of, Known, KnownFields, IsValid, plan_for-IsValid}
use filtrx.Compile.{
  StructValue, struct_value, FieldValues, no_fields, field_value, FieldValue, holder, scalar, elems,
  structs, exists_value, unread, StructValues, no_structs, one_struct, combine, inner_of,
  group_cond, Contribution, run_steps, combined, grouped, existing, build, contributions,
  contribute, children,
}
use filtrx.Compile.Direct.{
  step_of, when_ok, when, fields_of, direct, direct_fields, direct_field, direct_children,
}
use filtrx.Compile.Refers.{RefersStep, RefersSub, step_of-RefersStep}
use filtrx.Compile.Steps.{
  steps_from, plan_of-steps, length-snoc, Same, run_steps-beyond, run_steps-end, run_steps-fields,
}

module _ (types : ℕ → StructType) where
  Known-RefersSub : (sub : SubType) → KnownSub types sub → RefersSub (Known types) sub
  Known-RefersSub no_sub h = tt
  Known-RefersSub (sub_struct t) h = h

  combined-Same :
      (run : List Cond × PlanCache) (cs : List Cond)
      → Same types {A = List Cond} run cs
      → Same types {A = Option Cond} (combined run) (combine cs)
  unfolding combined
  combined-Same run cs (same, v) = (ap combine same, v)

  group-Same :
      (run : Result Plan × PlanCache) (r : Result Plan) (or : Bool)
      (rest : Plan → PlanCache → List Cond × PlanCache) (cs : List Cond)
      → Same types {A = Result Plan} run r
      → ((p : Plan) (c : PlanCache)
          → r ≡ ok p
          → IsValid types c
          → Same types {A = List Cond} (rest p c) cs)
      → Same types {A = List Cond}
          (elim run.0 [ error e ↦ ([], run.1) | ok p ↦ grouped or (rest p run.1) ])
          (when_ok r (group_cond or cs))
  unfolding grouped
  group-Same run (error e) or rest cs (same, v) ih = rw same (refl, v)
  group-Same run (ok p) or rest cs (same, v) ih =
      let (here, valid) = ih p run.1 refl v in rw same (ap (group_cond or) here, valid)

  exists-Same :
      (run : Result Plan × PlanCache) (r : Result Plan) (negate : Bool) (src on : Bytes)
      (rest : Plan → PlanCache → Option Cond × PlanCache) (d : Option Cond)
      → Same types {A = Result Plan} run r
      → ((p : Plan) (c : PlanCache)
          → r ≡ ok p
          → IsValid types c
          → Same types {A = Option Cond} (rest p c) d)
      → Same types {A = List Cond}
          (elim run.0 [ error e ↦ ([], run.1) | ok p ↦ existing negate src on (rest p run.1) ])
          (when_ok r (exists negate src on (inner_of d) ∷ []))
  unfolding existing
  exists-Same run (error e) negate src on rest d (same, v) ih = rw same (refl, v)
  exists-Same run (ok p) negate src on rest d (same, v) ih =
      let (here, valid) = ih p run.1 refl v in
      rw same (ap (λ o. exists negate src on (inner_of o) ∷ []) here, valid)

  active-Same :
      (active : Bool) (c : PlanCache) (run : List Cond × PlanCache) (cs : List Cond)
      → IsValid types c
      → Same types {A = List Cond} run cs
      → Same types {A = List Cond} (elim active [ false ↦ ([], c) | true ↦ run ]) (when active cs)
  active-Same true c run cs v h = h
  active-Same false c run cs v h = (refl, v)

  direct_field-none : (v : FieldValue) → direct_field types v none ≡ []
  unfolding direct
  direct_field-none (holder f) = refl
  direct_field-none v = refl

  module _ (all : (n : ℕ) → Known types (types n)) where
    mutual
      unfolding build direct

      build-Same :
          (v : StructValue) (t : StructType) (p : Plan) (c : PlanCache)
          → plan_of t ≡ ok p
          → Known types t
          → IsValid types c
          → Same types {A = Option Cond} (build types v p c) (direct types v (fields_of t))
      build-Same (struct_value fvs) (struct n fs) p c e k v = rw (plan_of-steps n fs p e) (
          combined-Same (run_steps (contributions types fvs) (steps_from 0 fs) c)
            (direct_fields types fvs fs) (contributions-Same fvs [] fs c k.1 v))

      contributions-Same :
          (fvs : FieldValues) (pre : List Contribution) (fs : FieldList) (c : PlanCache)
          → KnownFields types fs
          → IsValid types c
          → Same types {A = List Cond}
              (run_steps (pre ++ contributions types fvs) (steps_from (length pre) fs) c)
              (direct_fields types fvs fs)
      contributions-Same no_fields pre fs c k v =
          rw (append-nil pre, run_steps-beyond types pre fs (length pre) c (omega arith)) (refl, v)
      contributions-Same (field_value fv fvs) pre end c k v =
          rw
            (run_steps-end types (pre ++ (contribute types fv ∷ contributions types fvs))
              (length pre) c)
            (refl, v)
      contributions-Same (field_value fv fvs) pre (field f sub fs) c (s, k) v =
          run_steps-fields types pre (contribute types fv) (contributions types fvs) f sub fs c
            (direct_field types fv (step_of f sub)) (direct_fields types fvs fs) v
            (λ k' e. rw e (
              contribute-Same fv k' c
                (rw e at (step_of-RefersStep (Known types) f sub (Known-RefersSub sub s))) v))
            (λ e. rw e (direct_field-none fv))
            (λ c' v'.
              rw
                (
                  append_assoc pre (contribute types fv ∷ []) (contributions types fvs),
                  length-snoc pre (contribute types fv),
                )
                at (contributions-Same fvs (pre ++ contribute types fv ∷ []) fs c' k v'))

      contribute-Same :
          (fv : FieldValue) (k : StepKind) (c : PlanCache)
          → RefersStep (Known types) (some k)
          → IsValid types c
          → Same types {A = List Cond} (contribute types fv k c) (direct_field types fv (some k))
      contribute-Same (holder f) (step_predicate col) c h v = (refl, v)
      contribute-Same (scalar set w) (step_scalar col op) c h v = (refl, v)
      contribute-Same (elems vs) (step_slice col op) c h v = (refl, v)
      contribute-Same unread (step_predicate col) c h v = (refl, v)
      contribute-Same (structs vs es) (step_group or n) c h v =
          group-Same (plan_for (types n) c) (plan_of (types n)) or (children types es)
            (direct_children types es (fields_of (types n)))
            (plan_for-IsValid types (types n) c (all n) v)
            (λ p c' e v'. children-Same es (types n) p c' e (all n) v')
      contribute-Same (exists_value toggle sub) (step_exists src on t) c h v =
          active-Same (exists_active toggle).0 c _ _ v (
            exists-Same (plan_for t c) (plan_of t) (exists_active toggle).1 src on (build types sub)
              (direct types sub (fields_of t)) (plan_for-IsValid types t c h v)
              (λ p c' e v'. build-Same sub t p c' e h v'))
      contribute-Same fv k c h v = (refl, v)

      children-Same :
          (es : StructValues) (t : StructType) (p : Plan) (c : PlanCache)
          → plan_of t ≡ ok p
          → Known types t
          → IsValid types c
          → Same types {A = List Cond}
              (children types es p c)
              (direct_children types es (fields_of t))
      children-Same no_structs t p c e k v = (refl, v)
      children-Same (one_struct x xs) t p c e k v =
          let (here, valid) = build-Same x t p c e k v in
          let (rest, valid') = children-Same xs t p (build types x p c).1 e k valid in
          (rw (here, rest) refl, valid')

    -- For types of the program and any valid cache: building a filter value by its type's plan, by
    -- step indices and through the cache, for nested filters too, gives exactly the condition read
    -- off the fields in order, a group or an Exists by the fields of its own type, where a group
    -- whose element type has no plan gives nothing; and the cache stays valid.
    pub build-direct :
        (v : StructValue) (t : StructType) (p : Plan) (c : PlanCache)
        → plan_of t ≡ ok p
        → Known types t
        → IsValid types c
        → ((build types v p c).0 ≡ direct types v (fields_of t))
          × IsValid types (build types v p c).1
    build-direct v t p c e k h = build-Same v t p c e k h

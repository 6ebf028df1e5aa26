-- ===== src/Compile/Where.antt =====
-- `Where` as a whole: the argument, the plan through the cache, and the condition.
use filtrx.Base.{ℕ, ◌≡◌, refl, ap, none}
use filtrx.Reflect.{StructType}
use filtrx.Plan.{Plan, Result, ok, error, PlanCache, plan_for}
use filtrx.Plan.Cache.{plan_of, Known, IsValid, plan_for-IsValid}
use filtrx.Compile.{
  StructValue, FilterArg, nil_pointer, not_a_struct, pointer, struct_arg, build, compiled_as,
  compile_filter,
}
use filtrx.Compile.Direct.{fields_of, direct}
use filtrx.Compile.Refine.{build-direct}
use filtrx.Query.{Compiled, compiled, rejected}

module _ (types : ℕ → StructType) where
  abbrev pub read_struct : Result Plan → StructValue → StructType → Compiled
  read_struct (error e) v t = rejected
  read_struct (ok p) v t = compiled (direct types v (fields_of t)) p.source

  -- What the argument stands for, read with no cache.
  abbrev pub read_filter : FilterArg → Compiled
  read_filter nil_pointer = compiled none none
  read_filter not_a_struct = rejected
  read_filter (pointer a) = read_filter a
  read_filter (struct_arg t v) = read_struct (plan_of t) v t

  abbrev pub KnownArg : FilterArg → Type 0
  KnownArg nil_pointer = Unit
  KnownArg not_a_struct = Unit
  KnownArg (pointer a) = KnownArg a
  KnownArg (struct_arg t v) = Known types t

  read-struct :
      (run : Result Plan × PlanCache) (r : Result Plan) (v : StructValue) (t : StructType)
      → (run.0 ≡ r) × IsValid types run.1
      → ((p : Plan) (c : PlanCache)
          → r ≡ ok p
          → IsValid types c
          → ((build types v p c).0 ≡ direct types v (fields_of t))
            × IsValid types (build types v p c).1)
      → let out : Compiled × PlanCache = elim run.0 [
        | error e ↦ (rejected, run.1)
        | ok p ↦ compiled_as p.source (build types v p run.1)
      ] in
        (out.0 ≡ read_struct r v t) × IsValid types out.1
  unfolding compiled_as
  read-struct run (error e) v t (same, valid) built = rw same (refl, valid)
  read-struct run (ok p) v t (same, valid) built =
      let (here, valid') = built p run.1 refl valid in
      rw same (ap (λ o. compiled o p.source) here, valid')

  -- From any valid cache, `compileFilter` of any argument gives what reading it directly gives: an
  -- absent condition for a nil pointer, an error for what is no struct or has no plan, and for a
  -- struct the condition of its fields in order with the source that its markers declare; and it
  -- leaves a valid cache. So a filter compiles to the same condition whatever was compiled before.
  pub compile_filter-direct :
      ((n : ℕ) → Known types (types n))
      → (a : FilterArg) (c : PlanCache) → KnownArg a
      → IsValid types c
      → ((compile_filter types a c).0 ≡ read_filter a) × IsValid types (compile_filter types a c).1
  unfolding compile_filter
  compile_filter-direct all nil_pointer c k v = (refl, v)
  compile_filter-direct all not_a_struct c k v = (refl, v)
  compile_filter-direct all (pointer a) c k v = compile_filter-direct all a c k v
  compile_filter-direct all (struct_arg t s) c k v =
      read-struct (plan_for t c) (plan_of t) s t (plan_for-IsValid types t c k v)
        (λ p c' e v'. build-direct types all s t p c' e k v')

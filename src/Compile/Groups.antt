-- ===== src/Compile/Groups.antt =====
-- Groups whose element type has no plan.
use filtrx.Base.{ℕ, ◌≡◌, refl, sym, ap, Option, some, List, [], ◌∙◌, ◌⊎◌, inl, inr}
use filtrx.Cond.{Cond}
use filtrx.Reflect.{StructType, FieldList, end, field}
use filtrx.Plan.{StepKind, step_group, Plan, PlanError, Result, error, ok, PlanCache}
use filtrx.Plan.Cache.{plan_of, Known, IsValid}
use filtrx.Compile.{
  StructValue, struct_value, FieldValues, no_fields, field_value, FieldValue, holder, scalar, elems,
  structs, exists_value, unread, combine, struct_arg, compile_filter,
}
use filtrx.Compile.Direct.{step_of, when_ok, fields_of, direct, direct_fields, direct_field}
use filtrx.Compile.Where.{read_struct, compile_filter-direct}
use filtrx.Query.{compiled}

module _ (types : ℕ → StructType) where
  -- A group field whose element type has no plan.
  abbrev pub Unplanned : Option StepKind → Type 0
  Unplanned (some (step_group or n)) = (e : PlanError) × (plan_of (types n) ≡ error e)
  Unplanned k = ⊥

  -- The two filters agree but in such fields.
  abbrev pub SameBut : FieldValues → FieldValues → FieldList → Type 0
  SameBut no_fields no_fields fs = Unit
  SameBut (field_value v vs) (field_value w ws) end = Unit
  SameBut (field_value v vs) (field_value w ws) (field f sub fs) =
      ((v ≡ w) ⊎ Unplanned (step_of f sub)) × SameBut vs ws fs
  SameBut vs ws fs = ⊥

  when_ok-error :
      (e : PlanError) (r : Result Plan) (cs : List Cond) → r ≡ error e → when_ok r cs ≡ []
  when_ok-error e r cs h = rw h refl

  direct_field-Unplanned :
      (v : FieldValue) (k : Option StepKind) → Unplanned k → direct_field types v k ≡ []
  unfolding direct
  direct_field-Unplanned (structs vs es) (some (step_group or n)) (e, h) =
      when_ok-error e (plan_of (types n)) _ h
  direct_field-Unplanned (holder f) (some (step_group or n)) h = refl
  direct_field-Unplanned (scalar set v) (some (step_group or n)) h = refl
  direct_field-Unplanned (elems vs) (some (step_group or n)) h = refl
  direct_field-Unplanned (exists_value toggle sub) (some (step_group or n)) h = refl
  direct_field-Unplanned unread (some (step_group or n)) h = refl
  direct_field-Unplanned v k h = absurd h

  direct_field-same :
      (v w : FieldValue) (k : Option StepKind)
      → (v ≡ w) ⊎ Unplanned k
      → direct_field types v k ≡ direct_field types w k
  direct_field-same v w k (inl same) = ap (λ u. direct_field types u k) same
  direct_field-same v w k (inr gone) =
      direct_field-Unplanned v k gone ∙ sym (direct_field-Unplanned w k gone)

  direct_fields-same :
      (vs ws : FieldValues) (fs : FieldList)
      → SameBut vs ws fs
      → direct_fields types vs fs ≡ direct_fields types ws fs
  unfolding direct
  direct_fields-same no_fields no_fields fs h = refl
  direct_fields-same no_fields (field_value w ws) fs h = absurd h
  direct_fields-same (field_value v vs) no_fields fs h = absurd h
  direct_fields-same (field_value v vs) (field_value w ws) end h = refl
  direct_fields-same (field_value v vs) (field_value w ws) (field f sub fs) (h, hs) =
      rw (direct_field-same v w (step_of f sub) h, direct_fields-same vs ws fs hs) refl

  direct-same :
      (vs ws : FieldValues) (fs : FieldList)
      → SameBut vs ws fs
      → direct types (struct_value vs) fs ≡ direct types (struct_value ws) fs
  unfolding direct
  direct-same vs ws fs h = ap combine (direct_fields-same vs ws fs h)

  -- Let two values of a filter type that has a plan differ only in group fields whose element type has
  -- none. From any valid cache both compile, without an error, to one and the same condition: what a
  -- caller sets in such a field is lost.
  pub compile_filter-Unplanned :
      ((n : ℕ) → Known types (types n))
      → (t : StructType) (vs ws : FieldValues) (p : Plan) (c : PlanCache) → Known types t
      → IsValid types c
      → plan_of t ≡ ok p
      → SameBut vs ws (fields_of t)
      → (d : Option Cond) × ((compile_filter types (struct_arg t (struct_value vs)) c).0
          ≡ compiled d p.source)
        × ((compile_filter types (struct_arg t (struct_value ws)) c).0 ≡ compiled d p.source)
  compile_filter-Unplanned all t vs ws p c k valid planned same =
      let read = λ (v : StructValue). ap (λ r. read_struct types r v t) planned in
      (
        direct types (struct_value vs) (fields_of t),
        (compile_filter-direct types all (struct_arg t (struct_value vs)) c k valid).0
            ∙ read (struct_value vs),
        (compile_filter-direct types all (struct_arg t (struct_value ws)) c k valid).0
            ∙ read (struct_value ws)
            ∙ ap (λ d. compiled d p.source) (sym (direct-same vs ws (fields_of t) same)),
      )

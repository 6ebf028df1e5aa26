-- ===== src/Compile/Refers.antt =====
-- The type that a field's step refers to is that of the field's Sub.
use filtrx.Base.{Option, none, some, Bytes, arith}
use filtrx.Source.{SourceSpec}
use filtrx.Reflect.{
  FieldInfo, StructType, SubType, no_sub, sub_struct, Role, role_none, role_group, role_exists,
  role_predicate, role_scalar, role_slice, classify_field, Marker, no_marker, table_marker,
  join_marker,
}
use filtrx.Plan.{
  StepKind, step_exists, empty_plan, role_action, group_step, exists_tags, with_op, filter_action,
  Action, skip, fail, add, set_source, plan_sub, field_action, marker_action,
}
use filtrx.Naming.{column_name}
use filtrx.Compile.Direct.{kind_of, step_of}

module _ (Q : StructType → Type 0) where
  abbrev pub RefersSub : SubType → Type 0
  RefersSub no_sub = Unit
  RefersSub (sub_struct t) = Q t

  -- The type that a step refers to is known.
  abbrev pub RefersStep : Option StepKind → Type 0
  RefersStep (some (step_exists src on t)) = Q t
  RefersStep k = Unit

  -- Only `plan_sub` leads to a step that refers to the type of a Sub.
  abbrev RefersAction : Action → Type 0
  RefersAction (add k) = RefersStep (some k)
  RefersAction a = Unit

  role_action-RefersAction :
      (r : Role) (f : FieldInfo) (col : Bytes) → RefersAction (role_action r f col)
  unfolding role_action group_step exists_tags with_op
  role_action-RefersAction role_none f col = tt
  role_action-RefersAction role_group f col = ground arith
  role_action-RefersAction role_exists f col = ground arith
  role_action-RefersAction role_predicate f col = tt
  role_action-RefersAction role_scalar f col = ground arith
  role_action-RefersAction role_slice f col = ground arith

  filter_action-RefersAction : (r : Role) (f : FieldInfo) → RefersAction (filter_action r f)
  unfolding filter_action
  filter_action-RefersAction role_none f = ground arith
  filter_action-RefersAction r f =
      ground (arith, role_action-RefersAction r f (column_name f.tag f.name))

  marker_action-RefersAction :
      (m : Marker) (f : FieldInfo) (s : Option SourceSpec) → RefersAction (marker_action m f s)
  unfolding marker_action
  marker_action-RefersAction no_marker f s = filter_action-RefersAction (classify_field f) f
  marker_action-RefersAction table_marker f s =
      ground (arith, filter_action-RefersAction (classify_field f) f)
  marker_action-RefersAction join_marker f s =
      ground (arith, filter_action-RefersAction (classify_field f) f)

  kind_of-RefersStep :
      (a : Action) (sub : SubType) → RefersAction a → RefersSub sub → RefersStep (kind_of a sub)
  kind_of-RefersStep skip sub k h = tt
  kind_of-RefersStep (fail e) sub k h = tt
  kind_of-RefersStep (add s) sub k h = k
  kind_of-RefersStep (set_source r) sub k h = tt
  kind_of-RefersStep (plan_sub src on) no_sub k h = tt
  kind_of-RefersStep (plan_sub src on) (sub_struct t) k h = h

  pub step_of-RefersStep :
      (f : FieldInfo) (sub : SubType) → RefersSub sub → RefersStep (step_of f sub)
  unfolding field_action
  step_of-RefersStep f sub h =
      kind_of-RefersStep (field_action f empty_plan) sub
        (marker_action-RefersAction f.marker f none) h

-- ===== src/Plan.antt =====
-- plan.go: the plan of a filter struct, from the description of its type, and the cache of plans.
pub mod Cache
pub mod Goroutines
use filtrx.Base.{
  ℕ, suc, Bool, true, false, ◌&&◌, ◌||◌, not, Option, none, some, List, [], ◌∷◌, ◌++◌, Bytes, codes,
  is_empty, ◌==◌, if◌then◌else◌,
}
use filtrx.Base.Compare.{bytes_eq}
use filtrx.Reflect.{
  Marker, no_marker, table_marker, join_marker, Kind, slice_of_structs, slice_of_others, other_kind,
  FieldInfo, StructType, struct, FieldList, end, field, SubType, no_sub, sub_struct, Role,
  role_none, role_group, role_exists, role_predicate, role_scalar, role_slice, is_slice,
  classify_field, has_filter_tag,
}
use filtrx.Source.{
  SourceSpec, MarkerTags, SourceError, Parsed, parsed, failed, parse_table, parse_join,
}
use filtrx.Cond.{Op, eq, in_list, not_in}
use filtrx.Naming.{Tag, get_tag, has_tag, column_name, op_word, group_or}

pub data PlanError : Type 0 where
  bad_source : SourceError → PlanError
  unsupported_field group_not_slice bad_group_tag exists_needs_source exists_needs_on exists_bad_sub
        unknown_op bad_slice_op join_without_table :
      PlanError

-- What a step does, with the settings of its kind.
pub data StepKind : Type 0 where
  step_predicate : Bytes → StepKind
  step_scalar : Bytes → Op → StepKind
  step_slice : Bytes → Op → StepKind
  step_group : Bool → ℕ → StepKind
  step_exists : Bytes → Bytes → StructType → StepKind

pub record FieldStep : Type 0 where
  pub idx : ℕ
  pub kind : StepKind

pub record Plan : Type 0 where
  pub steps : List FieldStep
  pub source : Option SourceSpec

abbrev pub empty_plan : Plan
empty_plan = record { steps = []; source = none }

-- A result or an error; `planResult` in the cache.
pub data Result {ℓ} (A : Type ℓ) : Type ℓ where
  ok : A → Result A
  error : PlanError → Result A

unfoldable pub marker_tags : Tag → MarkerTags
marker_tags tag = record {
  table = get_tag tag (codes "table");
  alias = get_tag tag (codes "as");
  on = get_tag tag (codes "on");
  kind = get_tag tag (codes "type");
}

abbrev pub no_source : SourceSpec
no_source = record { table = []; alias = []; joins = [] }

unfoldable pub source_or_new : Option SourceSpec → SourceSpec
source_or_new none = no_source
source_or_new (some s) = s

unfoldable pub table_source : Parsed SourceSpec → Result SourceSpec
table_source (failed e) = error (bad_source e)
table_source (parsed s) = ok s

unfoldable pub add_join : Tag → SourceSpec → Result SourceSpec
add_join tag s = elim (parse_join (marker_tags tag)) [
  | failed e ↦ error (bad_source e)
  | parsed j ↦ ok (record s { joins = s.joins ++ j ∷ [] })
]

-- What the loop of `buildPlan` does with a field, before the plan of an Exists field's filter.
pub data Action : Type 0 where
  skip : Action
  fail : PlanError → Action
  add : StepKind → Action
  set_source : Result SourceSpec → Action
  plan_sub : Bytes → Bytes → Action

unfoldable pub group_step : Option Bool → Kind → Action
group_step or (slice_of_structs n) = elim or [
  | none ↦ fail bad_group_tag
  | some b ↦ add (step_group b n)
]
group_step or _ = fail group_not_slice

unfoldable pub exists_tags : Tag → Action
exists_tags tag =
    let src = get_tag tag (codes "exists") in
    let on = get_tag tag (codes "on") in
    if is_empty src
    then fail exists_needs_source
    else if is_empty on
    then fail exists_needs_on
    else plan_sub src on

-- `scalarOp`
unfoldable pub scalar_op : Tag → Result Op
scalar_op tag =
    let w = get_tag tag (codes "op") in
    if is_empty w then ok eq else elim (op_word w) [ none ↦ error unknown_op | some o ↦ ok o ]

unfoldable pub list_op : Option Op → Result Op
list_op (some in_list) = ok in_list
list_op (some not_in) = ok not_in
list_op _ = error bad_slice_op

unfoldable pub slice_op : Tag → Result Op
slice_op tag =
    let w = get_tag tag (codes "op") in if is_empty w then ok in_list else list_op (op_word w)

unfoldable pub with_op : (Op → StepKind) → Result Op → Action
with_op k (ok o) = add (k o)
with_op k (error e) = fail e

-- The `switch role`.
unfoldable pub role_action : Role → FieldInfo → Bytes → Action
role_action role_none f col = skip
role_action role_group f col = group_step (group_or (get_tag f.tag (codes "group"))) f.kind
role_action role_exists f col = exists_tags f.tag
role_action role_predicate f col = add (step_predicate col)
role_action role_scalar f col = with_op (step_scalar col) (scalar_op f.tag)
role_action role_slice f col = with_op (step_slice col) (slice_op f.tag)

-- A field that is no marker.
unfoldable pub filter_action : Role → FieldInfo → Action
filter_action role_none f =
    if f.exported && has_filter_tag f.tag then fail unsupported_field else skip
filter_action role f =
    let col = column_name f.tag f.name in
    if bytes_eq col (codes "-") then skip else role_action role f col

unfoldable pub marker_action : Marker → FieldInfo → Option SourceSpec → Action
marker_action no_marker f s = filter_action (classify_field f) f
marker_action table_marker f s =
    if f.exported
    then set_source (table_source (parse_table (marker_tags f.tag) (source_or_new s)))
    else filter_action (classify_field f) f
marker_action join_marker f s =
    if f.exported
    then set_source (add_join f.tag (source_or_new s))
    else filter_action (classify_field f) f

unfoldable pub field_action : FieldInfo → Plan → Action
field_action f p = marker_action f.marker f p.source

unfoldable pub add_step : ℕ → StepKind → Plan → Plan
add_step i k p = record p { steps = p.steps ++ record { idx = i; kind = k } ∷ [] }

-- The check behind the loop.
unfoldable pub check_source : Plan → Result Plan
check_source p = elim p.source [
  | none ↦ ok p
  | some s ↦ if is_empty s.table then error join_without_table else ok p
]

-- The entries of the cache, the newest first.
abbrev pub PlanCache : Type 0
PlanCache = List (ℕ × Result Plan)

unfoldable pub load : ℕ → PlanCache → Option (Result Plan)
load n [] = none
load n ((m, r) ∷ c) = if m == n then some r else load n c

unfoldable pub store : ℕ → Result Plan × PlanCache → Result Plan × PlanCache
store n (r, c) = (r, (n, r) ∷ c)

unfoldable mutual
  -- `planFor`: from the cache, or built and stored, an error too.
  pub plan_for : StructType → PlanCache → Result Plan × PlanCache
  plan_for (struct n fs) c = elim (load n c) [
    | some r ↦ (r, c)
    | none ↦ store n (plan_fields fs 0 empty_plan c)
  ]

  -- The loop of `buildPlan` from field `i` on.
  pub plan_fields : FieldList → ℕ → Plan → PlanCache → Result Plan × PlanCache
  plan_fields end i p c = (check_source p, c)
  plan_fields (field f sub fs) i p c = elim (field_action f p) [
    | skip ↦ plan_fields fs (suc i) p c
    | fail e ↦ (error e, c)
    | add k ↦ plan_fields fs (suc i) (add_step i k p) c
    | set_source (error e) ↦ (error e, c)
    | set_source (ok s) ↦ plan_fields fs (suc i) (record p { source = some s }) c
    | plan_sub src on ↦ plan_exists src on sub (plan_fields fs (suc i)) i p c
  ]

  -- `existsStep` behind its tags, then the rest of the loop.
  pub plan_exists :
      Bytes
      → Bytes
      → SubType
      → (Plan → PlanCache → Result Plan × PlanCache)
      → ℕ
      → Plan
      → PlanCache
      → Result Plan × PlanCache
  plan_exists src on no_sub rest i p c = (error exists_bad_sub, c)
  plan_exists src on (sub_struct t) rest i p c =
      let (r, c') = plan_for t c in
      elim r [ error e ↦ (error e, c') | ok q ↦ rest (add_step i (step_exists src on t) p) c' ]

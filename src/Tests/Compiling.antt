-- ===== src/Tests/Compiling.antt =====
-- plan.go on concrete filter types and values.
use filtrx.Base.{
  inr, is_empty, if◌then◌else◌, ℕ, zero, suc, ◌≡◌, refl, ◌||◌, true, false, Option, none, List, [],
  ◌∷◌, Bytes, codes, map,
}
use filtrx.Base.{split}
use filtrx.Base.Compare.{bytes_eq, lookup, to_lower}
use filtrx.Source.{parse_table}
use filtrx.Running.{running}
use filtrx.Compile
use filtrx.Base.Int.{ℤ, pos}
use filtrx.Value.{Value, text, int}
use filtrx.Dialect.{postgres}
use filtrx.Cond.{Cond, build}
use filtrx.Holders.{
  exists_active, Opt, Range, Match, Text, FullText, match_predicates, text_predicates,
  full_text_predicates, range_predicates, append_opt, append_in, append_null,
}
use filtrx.Naming.{
  Tag, snake, snake_from, snake_letter, is_upper, is_some, ends_word, is_lower, is_digit,
  starts_lower, or_empty, get_tag, has_tag, op_word, group_or, column_name, first_part,
}
use filtrx.Reflect.{
  no_marker, table_marker, slice_of_structs, slice_of_others, other_kind, FieldInfo, StructType,
  struct, end, field, no_sub, sub_struct, is_slice, classify_field, has_filter_tag,
}
use filtrx.Plan.{
  Plan, ok, PlanCache, plan_for, error, unknown_op, step_group, marker_tags, source_or_new,
  table_source, add_join, group_step, exists_tags, scalar_op, list_op, slice_op, with_op,
  role_action, filter_action, marker_action, field_action, add_step, check_source, load, store,
}
use filtrx.Plan.Cache.{Known, IsValid, plan_of}
use filtrx.Compile.{
  StructValue, struct_value, FieldValues, no_fields, field_value, FieldValue, holder, scalar, elems,
  structs, exists_value, unread, no_structs, one_struct, FilterArg, pointer, struct_arg,
  compile_filter, contribute, to_conds, combine, inner_of, slice_cond, group_cond, add_child,
  contribution_at, run_steps, combined, grouped, existing, compiled_as,
}
use filtrx.Compile.Where.{read_filter, compile_filter-direct}
use filtrx.Compile.Columns.{Declares}
use filtrx.Compile.Declared.{UsesCompiled, Keeps, compile_filter-Uses}
use filtrx.Compile.Holding.{range_predicates-AllUse}
use filtrx.Compile.Groups.{compile_filter-Unplanned}
use filtrx.Query.{Compiled, compiled, rejected}

abbrev tags : List (Bytes × Bytes) → Tag
tags entries key = lookup key entries

abbrev pub a_field : Bytes → List (Bytes × Bytes) → FieldInfo
a_field n entries = record {
  name = n;
  exported = true;
  tag = tags entries;
  marker = no_marker;
  kind = other_kind;
  is_exists = false;
  is_predicate = false;
  is_setter = false;
}

-- type PostFilter struct { Title Opt[string] }
abbrev post_filter : StructType
post_filter = struct 2 (field (record (a_field (codes "Title") []) { is_setter = true }) no_sub end)

-- type NameFilter struct { Name Opt[string] `op:"like"` }
abbrev name_filter : StructType
name_filter = struct 1 (
    field (record (a_field (codes "Name") ((codes "op", codes "like") ∷ [])) { is_setter = true })
      no_sub end)

-- A type with a wrong operator.
abbrev bad_filter : StructType
bad_filter = struct 3 (
    field (record (a_field (codes "Name") ((codes "op", codes "is") ∷ [])) { is_setter = true })
      no_sub end)

-- A type with a group of that type, whose tag no one has checked.
abbrev losing_filter : StructType
losing_filter = struct 4 (
    field
      (record (a_field (codes "Any") ((codes "group", codes "or") ∷ [])) {
        kind = slice_of_structs 3;
      })
      no_sub end)

abbrev user_filter : StructType
user_filter = struct 0 (
    field
      (record (a_field (codes "From") ((codes "table", codes "users") ∷ [])) {
        marker = table_marker;
      })
      no_sub
      (field (record (a_field (codes "UserAge") []) { is_predicate = true }) no_sub
        (field (record (a_field (codes "ID") []) { kind = slice_of_others }) no_sub
          (field
            (record (a_field (codes "Any") ((codes "group", codes "or") ∷ [])) {
              kind = slice_of_structs 1;
            })
            no_sub
            (field
              (record (a_field (codes "Posts") (
                (codes "exists", codes "posts")
                ∷ (codes "on", codes "posts.user_id = users.id")
                ∷ [])) { is_exists = true })
              (sub_struct post_filter) end)))))

abbrev pub types : ℕ → StructType
types zero = user_filter
types (suc zero) = name_filter
types (suc (suc zero)) = post_filter
types (suc (suc (suc zero))) = bad_filter
types (suc (suc (suc (suc zero)))) = losing_filter
types (suc (suc (suc (suc (suc n))))) = struct (suc (suc (suc (suc (suc n))))) end

pub all_Known : (n : ℕ) → Known types (types n)
all_Known zero = (refl, (tt, (tt, (tt, (tt, ((refl, (tt, tt)), tt))))))
all_Known (suc zero) = (refl, (tt, tt))
all_Known (suc (suc zero)) = (refl, (tt, tt))
all_Known (suc (suc (suc zero))) = (refl, (tt, tt))
all_Known (suc (suc (suc (suc zero)))) = (refl, (tt, tt))
all_Known (suc (suc (suc (suc (suc n))))) = (refl, tt)

abbrev unset : Opt ℤ
unset = record { val = pos 0; set = false }

abbrev adults : Range ℤ
adults = record {
  eq_to = unset;
  ne_to = unset;
  gt_than = unset;
  lt_than = unset;
  gte_than = record { val = pos 18; set = true };
  lte_than = unset;
  in_set = [];
  is_null_opt = record { val = false; set = false };
}

abbrev named : Bytes → StructValue
named s = struct_value (field_value (scalar true (text s)) no_fields)

abbrev user_value : StructValue
user_value = struct_value (
    field_value unread (
      field_value (holder (range_predicates int adults)) (
        field_value (elems (int (pos 7) ∷ [])) (
          field_value
            (structs []
              (one_struct (named (codes "a%")) (one_struct (named (codes "b%")) no_structs)))
            (field_value (exists_value (record { val = true; set = true }) (named (codes "hello")))
              no_fields)))))

-- To name `compiling` on an `unfolding` line opens the definitions of the compiler.
unfoldable pub compiling : Unit {0}
unfolding running codes range_predicates append_opt append_in append_null exists_active bytes_eq
    lookup to_lower parse_table or_empty get_tag has_tag snake snake_from snake_letter is_upper
    is_some ends_word is_lower is_digit starts_lower op_word group_or column_name first_part split
    is_slice classify_field has_filter_tag marker_tags source_or_new table_source add_join
    group_step exists_tags scalar_op list_op slice_op with_op role_action filter_action
    marker_action field_action add_step check_source load store plan_for to_conds combine inner_of
    slice_cond group_cond add_child contribution_at run_steps combined grouped existing
    Compile.build compiled_as compile_filter
compiling = tt

abbrev condition_of : Compiled → Option Cond
condition_of rejected = none
condition_of (compiled c source) = c

user_filter_compiled :
    build
      (condition_of (compile_filter types (pointer (struct_arg user_filter user_value)) []).0)
      postgres
    ≡ (
      codes
          "(\"user_age\" >= $1 AND \"id\" IN ($2) AND (\"name\" LIKE $3 OR \"name\" LIKE $4) AND EXISTS (SELECT 1 FROM posts WHERE posts.user_id = users.id AND \"title\" = $5))",
      int (pos 18)
          ∷ int (pos 7)
          ∷ text (codes "a%")
          ∷ text (codes "b%")
          ∷ text (codes "hello")
          ∷ [],
    )
unfolding compiling
user_filter_compiled = refl

unit_names :
    map snake (codes "ID" ∷ codes "UserID" ∷ codes "HTTPStatus" ∷ codes "OAuth2Token" ∷ [])
    ≡ codes "id" ∷ codes "user_id" ∷ codes "http_status" ∷ codes "o_auth2_token" ∷ []
unfolding compiling
unit_names = refl

-- The run above, a second time with the cache that the first one left.
abbrev warm : PlanCache
warm = (compile_filter types (pointer (struct_arg user_filter user_value)) []).1

compile_filter-direct_example :
    ((compile_filter types (pointer (struct_arg user_filter user_value)) warm).0
      ≡ read_filter types (pointer (struct_arg user_filter user_value)))
    × IsValid types (compile_filter types (pointer (struct_arg user_filter user_value)) warm).1
compile_filter-direct_example =
    compile_filter-direct types all_Known (pointer (struct_arg user_filter user_value)) warm
      (all_Known 0)
      (compile_filter-direct types all_Known (pointer (struct_arg user_filter user_value)) []
        (all_Known 0) tt).1

-- The columns of the types above.
abbrev InTypes : Bytes → Type 0
InTypes col =
    (bytes_eq col (codes "user_age")
      || (bytes_eq col (codes "id")
          || (bytes_eq col (codes "name") || bytes_eq col (codes "title"))))
    ≡ true

-- The tags of the Exists field, and the default configuration of full-text search.
abbrev InTags : Bytes → Type 0
InTags s =
    (bytes_eq s (codes "posts")
      || bytes_eq s (codes "posts.user_id = users.id")
      || bytes_eq s (codes "english"))
    ≡ true

all_Declares : (n : ℕ) → Declares InTypes InTags (types n)
unfolding compiling
all_Declares zero = (tt, tt, (refl, tt, (refl, tt, (tt, tt, ((refl, refl), (refl, tt, tt), tt)))))
all_Declares (suc zero) = (refl, tt, tt)
all_Declares (suc (suc zero)) = (refl, tt, tt)
all_Declares (suc (suc (suc zero))) = (tt, tt, tt)
all_Declares (suc (suc (suc (suc zero)))) = (tt, tt, tt)
all_Declares (suc (suc (suc (suc (suc n))))) = tt

compile_filter-Uses_example :
    UsesCompiled InTypes InTags
      (compile_filter types (pointer (struct_arg user_filter user_value)) []).0
    × ((T : Type 0) (box : T → Value) (r : Range T) → Keeps InTypes InTags (range_predicates box r))
    × ((T : Type 0) (box : T → Value) (m : Match T) → Keeps InTypes InTags (match_predicates box m))
    × ((t : Text) → Keeps InTypes InTags (text_predicates t))
    × ((f : FullText)
        → InTags (if is_empty f.config then codes "english" else f.config)
        → Keeps InTypes InTags (full_text_predicates f))
compile_filter-Uses_example =
    compile_filter-Uses InTypes InTags types all_Declares all_Known
      (pointer (struct_arg user_filter user_value)) [] (all_Known 0)
      (
        all_Declares 0,
        (
          tt,
          (
            (λ col h. range_predicates-AllUse InTypes InTags col h int adults),
            (tt, (((tt, tt), ((tt, tt), tt)), ((tt, tt), tt))),
          ),
        ),
      )
      tt

bad_filter_refused : plan_of (types 3) ≡ error unknown_op
unfolding compiling plan_of
bad_filter_refused = refl

abbrev lost : FieldValues
lost = field_value (structs [] (one_struct (named (codes "a%")) no_structs)) no_fields

abbrev nothing_lost : FieldValues
nothing_lost = field_value (structs [] no_structs) no_fields

abbrev losing_plan : Plan
losing_plan = record { steps = record { idx = 0; kind = step_group true 3 } ∷ []; source = none }

losing_filter_planned : plan_of losing_filter ≡ ok losing_plan
unfolding compiling plan_of
losing_filter_planned = refl

compile_filter-Unplanned_example :
    (d : Option Cond) × ((compile_filter types (struct_arg losing_filter (struct_value lost)) []).0
      ≡ compiled d none)
    × ((compile_filter types (struct_arg losing_filter (struct_value nothing_lost)) []).0
        ≡ compiled d none)
unfolding compiling
compile_filter-Unplanned_example =
    compile_filter-Unplanned types all_Known losing_filter lost nothing_lost losing_plan []
      (all_Known 4) tt losing_filter_planned (inr (unknown_op, bad_filter_refused), tt)

-- ===== src/Example/Models/Plans.antt =====
-- The plans of the filter structs of examples/models.go, computed from their tags.
use filtrx.Base.{ℕ, zero, suc, ◌≡◌, refl, true, none, some, [], ◌∷◌, codes, split, is_empty}
use filtrx.Base.Compare.{bytes_eq, lookup, to_lower}
use filtrx.Cond.{in_list}
use filtrx.Source.{SourceSpec, parse_table, parse_join, join_kind}
use filtrx.Naming.{
  or_empty, get_tag, has_tag, op_word, group_or, column_name, first_part, snake, snake_from,
  snake_letter, is_upper, is_some,
}
use filtrx.Reflect.{is_slice, classify_field, has_filter_tag}
use filtrx.Plan.{
  Plan, ok, step_predicate, step_slice, step_group, step_exists, marker_tags, source_or_new,
  table_source, add_join, group_step, exists_tags, scalar_op, list_op, slice_op, with_op,
  role_action, filter_action, marker_action, field_action, add_step, check_source,
}
use filtrx.Plan.Cache.{Known, plan_of}
use filtrx.Example.Models.{
  types, article_filter_type, article_by_author_type, author_with_published_type, article_sub_type,
}

-- To name `planning` on an `unfolding` line opens the definitions that make a plan.
unfoldable pub planning : Unit {0}
unfolding codes split is_empty bytes_eq lookup to_lower parse_table parse_join join_kind or_empty
    get_tag has_tag op_word group_or column_name first_part snake snake_from snake_letter is_upper
    is_some is_slice classify_field has_filter_tag marker_tags source_or_new table_source add_join
    group_step exists_tags scalar_op list_op slice_op with_op role_action filter_action
    marker_action field_action add_step check_source
planning = tt

pub types-Known : (n : ℕ) → Known types (types n)
types-Known zero = (refl, (tt, (tt, (tt, (tt, (tt, tt))))))
types-Known (suc zero) = (refl, (tt, tt))
types-Known (suc (suc zero)) = (refl, (tt, (tt, (tt, (tt, tt)))))
types-Known (suc (suc (suc zero))) = (refl, (tt, ((refl, (tt, tt)), tt)))
types-Known (suc (suc (suc (suc zero)))) = (refl, (tt, tt))
types-Known (suc (suc (suc (suc (suc n))))) = (refl, tt)

abbrev pub article_filter_plan : Plan
article_filter_plan = record {
  steps =
      record { idx = 0; kind = step_predicate (codes "status") }
      ∷ record { idx = 1; kind = step_predicate (codes "title") }
      ∷ record { idx = 2; kind = step_predicate (codes "views") }
      ∷ record { idx = 3; kind = step_slice (codes "id") in_list }
      ∷ record { idx = 4; kind = step_group true 0 }
      ∷ [];
  source = none;
}

pub article_filter-plan : plan_of article_filter_type ≡ ok article_filter_plan
unfolding planning plan_of
article_filter-plan = refl

abbrev pub joined_source : SourceSpec
joined_source = record {
  table = codes "articles";
  alias = codes "a";
  joins =
      record {
        kind = [];
        table = codes "authors";
        alias = codes "au";
        on = codes "au.id = a.author_id";
      }
      ∷ [];
}

abbrev pub authors_source : SourceSpec
authors_source = record { table = codes "authors"; alias = codes "au"; joins = [] }

abbrev pub article_by_author_plan : Plan
article_by_author_plan = record {
  steps =
      record { idx = 2; kind = step_predicate (codes "a.status") }
      ∷ record { idx = 3; kind = step_predicate (codes "au.name") }
      ∷ [];
  source = some joined_source;
}

pub article_by_author-plan : plan_of article_by_author_type ≡ ok article_by_author_plan
unfolding planning plan_of
article_by_author-plan = refl

abbrev pub published_plan : Plan
published_plan = record {
  steps =
      record {
        idx = 1;
        kind = step_exists (codes "articles a") (codes "a.author_id = au.id") article_sub_type;
      }
      ∷ [];
  source = some authors_source;
}

pub author_with_published-plan : plan_of author_with_published_type ≡ ok published_plan
unfolding planning plan_of
author_with_published-plan = refl

-- The Sub of the EXISTS has a plan.
abbrev pub article_sub_plan : Plan
article_sub_plan = record {
  steps = record { idx = 0; kind = step_predicate (codes "a.status") } ∷ [];
  source = none;
}

pub article_sub-plan : plan_of article_sub_type ≡ ok article_sub_plan
unfolding planning plan_of
article_sub-plan = refl

-- ===== src/Example/Store/Joined.antt =====
-- examples/store.go: which rows the join of `ArticlesByAuthorName` and the EXISTS of `PublishedAuthors`
-- keep. Neither has a soft-delete scope.
use filtrx.Base.{
  ◌≡◌, refl, ◌∙◌, ap, arith, Bool, true, false, ◌&&◌, ◌||◌, not, Option, some, ◌++◌, Bytes, codes,
  is_empty,
}
use filtrx.Value.{text}
use filtrx.Cond.{Cond, leaf, like}
use filtrx.Source.{SourceSpec}
use filtrx.Holders.{exists_active, match_predicates}
use filtrx.Holders.Optional.{some_opt, none_opt}
use filtrx.Holders.Meaning.{each_holds, stands, match_predicates-meets, text_predicates-meets}
use filtrx.Meaning.{Database, Row, passes, is_true, is_eq, any_row}
use filtrx.Plan.Cache.{IsValid, plan_of}
use filtrx.Compile.Direct.{fields_of}
use filtrx.Compile.Meaning.{meets, has_plan}
use filtrx.Compile.Meaning.Kept.{compile_filter-meets, any_row-same}
use filtrx.Query.{
  compiled, where_filter, for_filter, require_table, lacks_table, select, order_by, add_order,
  effective_cond,
}
use filtrx.Example.Models.{
  ArticleByAuthor, AuthorWithPublished, no_match, no_text, types, article_by_author_type,
  author_with_published_type, article_sub_type, by_author_value, published_value,
}
use filtrx.Example.Models.Plans.{
  planning, types-Known, article_by_author-plan, article_by_author_plan, author_with_published-plan,
  published_plan, article_sub-plan, joined_source, authors_source,
}
use filtrx.Example.Store.{World, articles_by_author_name_query, published_authors_query}

abbrev by_name : Bytes → ArticleByAuthor
by_name name = record {
  status = record no_match { eq_to = some_opt (codes "published") };
  name = record no_text { like_pattern = some_opt (codes "%" ++ name ++ codes "%") };
}

-- `For` on a filter whose source has a table has that filter as its condition.
for_filter-cond :
    (d : Option Cond) (s : SourceSpec)
    → is_empty s.table ≡ false
    → effective_cond (for_filter (compiled d (some s))) ≡ d
unfolding for_filter where_filter require_table lacks_table effective_cond is_empty
for_filter-cond d s h = rw h refl

module _ (db : Database) (row : Row) where
  -- The article is published, and its author's name is like the pattern.
  abbrev pub by_author_asked : Bytes → Bool
  by_author_asked name =
      stands db is_eq (row (codes "a.status")) (text (codes "published"))
      && is_true
          (db.other (leaf (codes "au.name") like (text (codes "%" ++ name ++ codes "%"))) row)

  meets-by_name :
      (name : Bytes)
      → meets types db row (by_author_value (by_name name)) (fields_of article_by_author_type)
        ≡ by_author_asked name
  unfolding planning meets by_author_value some_opt none_opt
  meets-by_name name =
      rw
        (
          match_predicates-meets db row (codes "a.status") text (by_name name).status,
          text_predicates-meets db row (codes "au.name") (by_name name).name,
        )
        (ground arith)

  -- The author has an article that is published.
  abbrev pub published_asked : Bool
  published_asked =
      any_row (λ r. stands db is_eq (r (codes "a.status")) (text (codes "published")))
        (db.related (codes "articles a") (codes "a.author_id = au.id") row)

abbrev with_published : AuthorWithPublished
with_published = record {
  when = some_opt true;
  sub = record { status = record no_match { eq_to = some_opt (codes "published") } };
}

published_sub :
    (db : Database) (r : Row)
    → (each_holds db r (match_predicates text with_published.sub.status (codes "a.status")) && true)
      ≡ stands db is_eq (r (codes "a.status")) (text (codes "published"))
unfolding some_opt none_opt
published_sub db r =
    rw (match_predicates-meets db r (codes "a.status") text with_published.sub.status)
      (ground arith)

planned :
    (plan found asked : Bool) → plan ≡ true → found ≡ asked → ((not plan || found) && true) ≡ asked
planned plan found asked p h = ground arith

meets-with_published :
    (db : Database) (row : Row)
    → meets types db row (published_value with_published) (fields_of author_with_published_type)
      ≡ published_asked db row
unfolding planning meets published_value exists_active some_opt
meets-with_published db row =
    planned (has_plan (plan_of article_sub_type)) _ _ (ap has_plan article_sub-plan) (
      any_row-same _ _ (published_sub db)
        (db.related (codes "articles a") (codes "a.author_id = au.id") row))

module _ (w : World) (valid : IsValid types w.cache) where
  -- The join of ArticlesByAuthorName keeps exactly the published articles whose author's name is like
  -- the pattern, and the query of PublishedAuthors exactly the authors with a related row that is
  -- published: whether an article is deleted is not asked by either.
  pub joined_queries-kept :
      (db : Database) (row : Row)
      → ((name : Bytes)
          → passes db row (effective_cond (articles_by_author_name_query w name))
            ≡ by_author_asked db row name)
        × (passes db row (effective_cond (published_authors_query w)) ≡ published_asked db row)
  unfolding articles_by_author_name_query published_authors_query order_by add_order select
      effective_cond codes is_empty
  joined_queries-kept db row = (
    (λ name.
        let (d, same, keeps) =
          compile_filter-meets types types-Known article_by_author_type
            (by_author_value (by_name name)) article_by_author_plan w.cache (types-Known 2) valid
            article_by_author-plan in
        ap (λ c. passes db row (effective_cond (for_filter c))) same
        ∙ ap (passes db row) (for_filter-cond d joined_source refl)
        ∙ keeps db row
        ∙ meets-by_name db row name),
    (let (d, same, keeps) =
          compile_filter-meets types types-Known author_with_published_type
            (published_value with_published) published_plan w.cache (types-Known 3) valid
            author_with_published-plan in
        ap (λ c. passes db row (effective_cond (for_filter c))) same
        ∙ ap (passes db row) (for_filter-cond d authors_source refl)
        ∙ keeps db row
        ∙ meets-with_published db row),
  )

-- ===== src/Example/Store/Reads.antt =====
-- Which rows the queries of examples/store.go keep.
use filtrx.Base.{
  ◌≡◌, refl, sym, ◌∙◌, ap, arith, Bool, true, ◌&&◌, ◌||◌, Option, none, List, Bytes, codes,
  is_empty, not, Bool-cases, inl, inr,
}
use filtrx.Base.Int.{ℤ}
use filtrx.Cond.{Cond}
use filtrx.Keyset.{is_nil}
use filtrx.Paginate.{PagingParams}
use filtrx.Meaning.{Database, Row, passes}
use filtrx.Plan.Cache.{IsValid}
use filtrx.Compile.Meaning.{meets}
use filtrx.Compile.Meaning.Kept.{compile_filter-meets}
use filtrx.Compile.Direct.{fields_of}
use filtrx.Query.{
  Query, compiled, where_filter, select, from_table, soft_delete, order_by, page, effective_cond,
  add_order, SeekParams, SoftScope, scope_active, seek, order_by_desc, order_by_relevance,
  set_having, group_by_cols, set_cond,
}
use filtrx.Query.Scope.{in_scope, effective_cond-in_scope}
use filtrx.Sort.Rest.{unordered, sort-unordered}
use filtrx.Example.Models.{ArticleFilter, article_cols, article_filter_type, article_value, types}
use filtrx.Example.Models.Plans.{types-Known, article_filter-plan, article_filter_plan}
use filtrx.Example.Shown.{asked_for, meets-article}
use filtrx.Mutate.{Assignments, update}
use filtrx.Example.Store.Writes.{update_prepared}
use filtrx.Example.Store.{
  World, sortable, deleted_at, from_articles, compile_article_filter, list_articles_query,
  article_feed_query, search_articles_query, article_counts_query, articles_by_tag_query, by_id,
}

module _ (w : World) where
  -- The query of `ListArticles` in front of the sort parameter.
  abbrev pub filtered_articles : ArticleFilter → Query
  filtered_articles f =
      soft_delete deleted_at
        (where_filter (compile_article_filter w f) (select article_cols from_articles))

  pub list_articles_query-unordered :
      (f : ArticleFilter) (spec : Bytes) (p : PagingParams)
      → unordered (list_articles_query w f spec p) ≡ page p (unordered (filtered_articles f))
  unfolding list_articles_query order_by add_order page
  list_articles_query-unordered f spec p =
      ap (page p) (sort-unordered w.parsers.strings.trim_space sortable spec (filtered_articles f))

  module _ (valid : IsValid types w.cache) where
    pub compile_article_filter-meets :
        (f : ArticleFilter)
        → (d : Option Cond) × (compile_article_filter w f ≡ compiled d none)
          × ((db : Database) (row : Row)
              → passes db row d
                ≡ meets types db row (article_value f) (fields_of article_filter_type))
    compile_article_filter-meets f =
        compile_filter-meets types types-Known article_filter_type (article_value f)
          article_filter_plan w.cache (types-Known 0) valid article_filter-plan

    -- With any valid cache of plans, filter, sort parameter and page, and for rows of any database:
    -- the query of ListArticles keeps a row exactly if it is what the filter asks for, by status,
    -- title, views, id and alternatives, and is not deleted.
    pub list_articles_query-shown :
        (f : ArticleFilter) (spec : Bytes) (p : PagingParams) (db : Database) (row : Row)
        → passes db row (effective_cond (list_articles_query w f spec p))
          ≡ (asked_for db row f && is_nil (row deleted_at))
    unfolding effective_cond page soft_delete where_filter select from_table codes is_empty
    list_articles_query-shown f spec p db row =
        let (d, same, keeps) = compile_article_filter-meets f in
        ap (λ q. passes db row (effective_cond q)) (list_articles_query-unordered f spec p)
        ∙ effective_cond-in_scope db row (filtered_articles f)
        ∙ ap (λ b. b && is_nil (row deleted_at))
            (ap (λ c. passes db row (where_filter c (select article_cols from_articles)).cond) same
              ∙ keeps db row
              ∙ meets-article db row f)

-- A query whose condition holds of no deleted row.
abbrev pub HidesDeleted : Query → Type 0
HidesDeleted q =
    (db : Database) (row : Row)
    → passes db row (effective_cond q) ≡ true
    → is_nil (row deleted_at) ≡ true

active_only :
    (kept : Bool) (col : Bytes) (scope : SoftScope) (row : Row)
    → col ≡ deleted_at
    → scope ≡ scope_active
    → (kept && (is_empty col || in_scope scope col row)) ≡ true
    → is_nil (row deleted_at) ≡ true
unfolding codes is_empty
active_only kept col scope row c s h = let k = rw (c, s) at h in ground arith

scoped-HidesDeleted :
    (q : Query) → q.soft_delete_col ≡ deleted_at → q.soft_scope ≡ scope_active → HidesDeleted q
scoped-HidesDeleted q col scope db row h =
    active_only (passes db row q.cond) q.soft_delete_col q.soft_scope row col scope
      (sym (effective_cond-in_scope db row q) ∙ h)

seek-HidesDeleted : (p : SeekParams) (q : Query) → HidesDeleted q → HidesDeleted (seek p q)
unfolding seek effective_cond
seek-HidesDeleted p q h = elim (Bool-cases (not (is_empty p.after) && not (is_empty p.before))) [
  | inl both ↦ rw both h
  | inr fine ↦ rw fine h
]

-- The order, the error and the page say nothing of the rows that pass.
unordered-HidesDeleted :
    (q r : Query) (p : PagingParams)
    → unordered q ≡ page p (unordered r)
    → HidesDeleted r
    → HidesDeleted q
unfolding effective_cond page
unordered-HidesDeleted q r p same hides db row h =
    hides db row (sym (ap (λ c. passes db row (effective_cond c)) same) ∙ h)

module _ (w : World) where
  -- Every read endpoint of the store but the joined one and the EXISTS declares the soft-delete scope:
  -- whatever the filter, sort parameter, page, cursor, search text or tags are, no deleted row passes
  -- the condition of the query. What UpdateArticle runs, for whatever id and assignments, is the
  -- update of a query with this property.
  pub queries-HidesDeleted :
      ((f : ArticleFilter) (spec : Bytes) (p : PagingParams)
        → HidesDeleted (list_articles_query w f spec p))
      × ((p : SeekParams) → HidesDeleted (article_feed_query w p))
      × ((query : Bytes) → HidesDeleted (search_articles_query w query))
      × ((least : ℤ) → HidesDeleted (article_counts_query w least))
      × ((tags : List Bytes) → HidesDeleted (articles_by_tag_query w tags))
      × ((id : ℤ) (set : Assignments)
          → (q : Query) × HidesDeleted q × (update_prepared w id set ≡ update q set))
  unfolding article_feed_query search_articles_query article_counts_query articles_by_tag_query
      update_prepared by_id order_by order_by_desc order_by_relevance add_order soft_delete
      set_having group_by_cols set_cond select from_table
  queries-HidesDeleted = (
    (λ f spec p.
        unordered-HidesDeleted _ (filtered_articles w f) p
          (list_articles_query-unordered w f spec p)
          (scoped-HidesDeleted (filtered_articles w f) refl refl)),
    (λ p. seek-HidesDeleted p _ (scoped-HidesDeleted _ refl refl)),
    (λ query. scoped-HidesDeleted (search_articles_query w query) refl refl),
    (λ least. scoped-HidesDeleted (article_counts_query w least) refl refl),
    (λ tags. scoped-HidesDeleted (articles_by_tag_query w tags) refl refl),
    (λ id set. (
      soft_delete deleted_at (by_id id),
      scoped-HidesDeleted (soft_delete deleted_at (by_id id)) refl refl,
      refl,
    )),
  )

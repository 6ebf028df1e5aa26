-- ===== src/Tests/Serving/Filtering.antt =====
-- Filters and scopes on the rows of concrete articles.
use filtrx.Base.{◌≡◌, ◌&&◌, ◌||◌, some, List, [], ◌∷◌, Bytes, codes, is_empty}
use filtrx.Base.Int.{ℤ, pos}
use filtrx.Value.{int}
use filtrx.Holders.{Range, range_predicates}
use filtrx.Holders.Meaning.{each_holds, meets_range, range_predicates-meets}
use filtrx.Holders.Optional.{some_opt}
use filtrx.Meaning.{passes}
use filtrx.Cond.{Cond}
use filtrx.Cond.Constructors.{eq_of}
use filtrx.Paginate.{PagingParams}
use filtrx.Query.{
  Query, SeekParams, effective_cond, from_table, soft_delete, only_deleted, set_cond,
}
use filtrx.Query.Scope.{in_scope, effective_cond-in_scope}
use filtrx.Example.Models.{
  ArticleFilter, article_filter, no_filters, one_filter, no_match, no_text, no_range,
}
use filtrx.Example.Store.{
  deleted_at, list_articles_query, article_feed_query, search_articles_query, article_counts_query,
  articles_by_tag_query, articles_by_author_name_query, published_authors_query,
}
use filtrx.Mutate.{Assignments, update}
use filtrx.Example.Store.Writes.{update_prepared}
use filtrx.Example.Store.Reads.{HidesDeleted, queries-HidesDeleted}
use filtrx.Example.Store.Joined.{by_author_asked, published_asked, joined_queries-kept}
use filtrx.Tests.Serving.{world, database, row_of, first_article, published}

abbrev some_views : Range ℤ
some_views = record no_range { gte_than = some_opt (pos 5); in_set = pos 10 ∷ pos 20 ∷ [] }

range_predicates-meets_example :
    each_holds database (row_of first_article) (range_predicates int some_views (codes "views"))
    ≡ meets_range database int (row_of first_article (codes "views")) some_views
range_predicates-meets_example =
    range_predicates-meets database (row_of first_article) (codes "views") int some_views

abbrev only_published : ArticleFilter
only_published =
    article_filter (record no_match { eq_to = some_opt published }) no_text no_range [] no_filters

-- Published, or with some of the views, or without a filter.
abbrev alternatives : ArticleFilter
alternatives = article_filter no_match no_text no_range (pos 1 ∷ pos 2 ∷ []) (
    one_filter only_published (
      one_filter (article_filter no_match no_text some_views [] no_filters)
        (one_filter (article_filter no_match no_text no_range [] no_filters) no_filters)))

-- The trash, filtered by an id.
abbrev trash : Query
trash = only_deleted (
    soft_delete deleted_at
      (set_cond (some (eq_of (codes "id") (int (pos 3)))) (from_table (codes "articles"))))

effective_cond-in_scope_example : passes database (row_of first_article) (effective_cond trash) ≡ (
    passes database (row_of first_article) trash.cond
    && (is_empty trash.soft_delete_col
        || in_scope trash.soft_scope trash.soft_delete_col (row_of first_article)))
effective_cond-in_scope_example = effective_cond-in_scope database (row_of first_article) trash

queries-HidesDeleted_example :
    ((f : ArticleFilter) (spec : Bytes) (p : PagingParams)
      → HidesDeleted (list_articles_query world f spec p))
    × ((p : SeekParams) → HidesDeleted (article_feed_query world p))
    × ((query : Bytes) → HidesDeleted (search_articles_query world query))
    × ((least : ℤ) → HidesDeleted (article_counts_query world least))
    × ((tags : List Bytes) → HidesDeleted (articles_by_tag_query world tags))
    × ((id : ℤ) (set : Assignments)
        → (q : Query) × HidesDeleted q × (update_prepared world id set ≡ update q set))
queries-HidesDeleted_example = queries-HidesDeleted world

joined_queries-kept_example :
    ((name : Bytes)
      → passes database
          (row_of first_article)
          (effective_cond (articles_by_author_name_query world name))
        ≡ by_author_asked database (row_of first_article) name)
    × (passes database (row_of first_article) (effective_cond (published_authors_query world))
        ≡ published_asked database (row_of first_article))
joined_queries-kept_example = joined_queries-kept world tt database (row_of first_article)

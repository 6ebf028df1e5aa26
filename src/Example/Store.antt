-- ===== src/Example/Store.antt =====
-- examples/store.go: one method for each endpoint, over the query builder.
pub mod Writes
pub mod Reads
pub mod Joined
use filtrx.Base.{
  ℕ, Bool, true, Option, none, some, List, [], ◌∷◌, ◌++◌, Bytes, codes, if◌then◌else◌,
}
use filtrx.Base.Int.{ℤ, pos, eqb_ℤ}
use filtrx.Value.{Value, int, text, time}
use filtrx.Cond.Constructors.{eq_of, raw_of, overlaps_of}
use filtrx.Paginate.{PagingParams, Panic}
use filtrx.Holders.Optional.{some_opt}
use filtrx.Plan.{PlanCache}
use filtrx.Compile.{FilterArg, struct_arg, compile_filter}
use filtrx.Query.{
  Query, CompileError, SeekParams, Compiled, from_table, for_filter, where_filter, select, set_cond,
  order_by, order_by_desc, order_by_relevance, group_by_cols, set_having, page, soft_delete, seek,
}
use filtrx.Query.Statement.{Statement}
use filtrx.Sort.{sort}
use filtrx.Listing.{PageInfo, Db, Result, ok, compile_error, query_error, panicked, Listed}
use filtrx.Seeking.{Codec, Mapper}
use filtrx.Connection.{Connection, list, list_connection}
use filtrx.Mutate.{
  Assignments, Execution, Outcome, affected, compile_failed, query_failed, delete, update, run,
}
use filtrx.Bind.{UrlValues, Bound, bound, invalid, first_value, bind_page, bind_seek}
use filtrx.Bind.Fields.{
  Parsers, Fault, bad_value, Returned, done as bound_fields, bad_dest, fault,
  panicked as bind_panicked, bind_dest,
}
use filtrx.Example.Models.{
  Author, Article, AuthorArticleCount, article_cols, ArticleFilter, ArticleSearch, ArticleByAuthor,
  AuthorWithPublished, no_match, no_text, article_filter_type, article_search_type,
  article_by_author_type, author_with_published_type, types, article_value, search_value,
  by_author_value, published_value,
}
use filtrx.Example.Wire.{zero_article_filter, filter_in}

-- A table as sqlx scans it.
pub record Table {ℓ} (T : Type ℓ) : Type ℓ where
  pub db : Db T
  pub mapper : Mapper T

-- What the methods use: the database, the encoding of cursors, the parsers of Bind, the clock, pq.Array,
-- and the plans that are cached so far. An insert gives the new row's id and creation time.
pub record World : Type 0 where
  pub articles : Table Article
  pub authors : Table Author
  pub counts : Table AuthorArticleCount
  pub execute : Statement → Execution
  pub insert : Statement → Option (ℤ × ℕ)
  pub codec : Codec
  pub parsers : Parsers
  pub now : ℕ
  pub array : List Bytes → Value
  pub cache : PlanCache

-- An error that wraps ErrCompile, one of Bind with the parameter that it names, or one of the database.
pub data Failure : Type 0 where
  not_compiled : CompileError → Failure
  bad_query : Bytes → Failure
  bad_destination db_failed : Failure

-- What a method returns, or a panic in it.
pub data Answer {ℓ} (A : Type ℓ) : Type ℓ where
  served : A → Answer A
  failed : Failure → Answer A
  crashed : Answer A

unfoldable pub of_result {ℓ} : {A : Type ℓ} → Result A → Answer A
of_result (ok a) = served a
of_result (compile_error e) = failed (not_compiled e)
of_result query_error = failed db_failed
of_result (panicked p) = crashed

unfoldable pub with_rows {ℓ} : {T : Type ℓ} → List T → Answer PageInfo → Answer (List T × PageInfo)
with_rows rows (served info) = served (rows, info)
with_rows rows (failed e) = failed e
with_rows rows crashed = crashed

unfoldable pub of_listed {ℓ} : {T : Type ℓ} → Listed T → Answer (List T × PageInfo)
of_listed l = with_rows l.dest (of_result l.result)

-- `_, err := filtrx.List(…)`
unfoldable pub rows_only {ℓ} : {T : Type ℓ} → Answer (List T × PageInfo) → Answer (List T)
rows_only (served (rows, info)) = served rows
rows_only (failed e) = failed e
rows_only crashed = crashed

unfoldable pub of_outcome : Outcome → Answer ℤ
of_outcome (affected n) = served n
of_outcome (compile_failed e) = failed (not_compiled e)
of_outcome query_failed = failed db_failed

-- `if err != nil { return }` behind Bind, and behind BindPage and BindSeek.
unfoldable pub after_bind {ℓ} : {A : Type ℓ} → Returned → Answer A → Answer A
after_bind bound_fields rest = rest
after_bind bad_dest rest = failed bad_destination
after_bind (fault (bad_value key)) rest = failed (bad_query key)
after_bind (fault bind_panicked) rest = crashed

unfoldable pub after_bound {ℓ k} : {A : Type ℓ} {B : Type k} → Bound A → (A → Answer B) → Answer B
after_bound (bound a) rest = rest a
after_bound (invalid key) rest = failed (bad_query key)

-- vals.Get
unfoldable pub get_value : UrlValues → Bytes → Bytes
get_value vals key = elim (first_value vals key) [ none ↦ [] | some v ↦ v ]

-- `sortable`
abbrev pub sortable : List (Bytes × Bytes)
sortable =
    (codes "title", codes "title")
    ∷ (codes "views", codes "views")
    ∷ (codes "created", codes "created_at")
    ∷ []

abbrev pub deleted_at : Bytes
deleted_at = codes "deleted_at"

abbrev pub from_articles : Query
from_articles = from_table (codes "articles")

unfoldable pub by_id : ℤ → Query
by_id id = set_cond (some (eq_of (codes "id") (int id))) from_articles

module _ (w : World) where
  abbrev pub compile_article_filter : ArticleFilter → Compiled
  compile_article_filter f =
      (compile_filter types (struct_arg article_filter_type (article_value f)) w.cache).0

  -- The query of `ListArticles`.
  unfoldable pub list_articles_query : ArticleFilter → Bytes → PagingParams → Query
  list_articles_query f spec p =
      let filtered = where_filter (compile_article_filter f) (select article_cols from_articles) in
      let sorted =
        sort w.parsers.strings.trim_space sortable spec (soft_delete deleted_at filtered) in
      page p (order_by (codes "id") sorted)

  unfoldable pub list_articles : UrlValues → Answer (List Article × PageInfo)
  list_articles vals =
      let (dest, ret) = bind_dest w.parsers vals zero_article_filter in
      after_bind ret (
        after_bound (bind_page w.parsers.strings vals) (λ p. of_listed (
          list w.articles.db w.codec w.articles.mapper
            (list_articles_query (filter_in dest) (get_value vals (codes "sort")) p) [])))

  abbrev pub sized : SeekParams → SeekParams
  sized p = if eqb_ℤ p.size (pos 0) then record p { size = pos 10 } else p

  -- The query of `ArticleFeed`.
  unfoldable pub article_feed_query : SeekParams → Query
  article_feed_query p = seek p (
      order_by (codes "id") (
        order_by_desc (codes "created_at")
          (soft_delete deleted_at (select article_cols from_articles))))

  unfoldable pub article_feed : UrlValues → Answer (Connection Article)
  article_feed vals = after_bound (bind_seek w.parsers.strings vals) (λ p.
      of_result
        (list_connection w.articles.db w.codec w.articles.mapper (article_feed_query (sized p))))

  -- The query of `SearchArticles`.
  unfoldable pub search_articles_query : Bytes → Query
  search_articles_query query =
      let f : ArticleSearch = record { body = record { query = some_opt query; config = [] } } in
      let compiled_search =
        (compile_filter types (struct_arg article_search_type (search_value f)) w.cache).0 in
      order_by_relevance (codes "search_vec") query
        (soft_delete deleted_at (where_filter compiled_search (select article_cols from_articles)))

  unfoldable pub search_articles : Bytes → Answer (List Article)
  search_articles query =
      rows_only
        (of_listed (list w.articles.db w.codec w.articles.mapper (search_articles_query query) []))

  -- The query of `ArticlesByAuthorName`.
  unfoldable pub articles_by_author_name_query : Bytes → Query
  articles_by_author_name_query name =
      let f : ArticleByAuthor = record {
        status = record no_match { eq_to = some_opt (codes "published") };
        name = record no_text { like_pattern = some_opt (codes "%" ++ name ++ codes "%") };
      } in
      let compiled_join =
        (compile_filter types (struct_arg article_by_author_type (by_author_value f)) w.cache).0 in
      order_by (codes "a.id") (
        select
          (codes "a.id"
            ∷ codes "a.author_id"
            ∷ codes "a.title"
            ∷ codes "a.body"
            ∷ codes "a.status"
            ∷ codes "a.tags"
            ∷ codes "a.views"
            ∷ codes "a.created_at"
            ∷ [])
          (for_filter compiled_join))

  unfoldable pub articles_by_author_name : Bytes → Answer (List Article)
  articles_by_author_name name = rows_only (
      of_listed
        (list w.articles.db w.codec w.articles.mapper (articles_by_author_name_query name) []))

  -- The query of `PublishedAuthors`.
  unfoldable pub published_authors_query : Query
  published_authors_query =
      let f : AuthorWithPublished = record {
        when = some_opt true;
        sub = record { status = record no_match { eq_to = some_opt (codes "published") } };
      } in
      let compiled_exists =
        (compile_filter types (struct_arg author_with_published_type (published_value f))
          w.cache).0 in
      order_by (codes "au.id") (
        select (codes "au.id" ∷ codes "au.name" ∷ codes "au.email" ∷ [])
          (for_filter compiled_exists))

  unfoldable pub published_authors : Answer (List Author)
  published_authors =
      rows_only (of_listed (list w.authors.db w.codec w.authors.mapper published_authors_query []))

  -- The query of `ArticleCountsByAuthor`.
  unfoldable pub article_counts_query : ℤ → Query
  article_counts_query least = order_by (codes "author_id") (
      order_by_desc (codes "n") (
        set_having (some (raw_of (codes "COUNT(*) >= ?") (int least ∷ []))) (
          group_by_cols (codes "author_id" ∷ []) (
            soft_delete deleted_at
              (select (codes "author_id" ∷ codes "COUNT(*) AS n" ∷ []) from_articles)))))

  unfoldable pub article_counts_by_author : ℤ → Answer (List AuthorArticleCount)
  article_counts_by_author least =
      rows_only
        (of_listed (list w.counts.db w.codec w.counts.mapper (article_counts_query least) []))

  -- The query of `ArticlesByTag`.
  unfoldable pub articles_by_tag_query : List Bytes → Query
  articles_by_tag_query tags = order_by (codes "id") (
      soft_delete deleted_at (
        set_cond (some (overlaps_of (codes "tags") (w.array tags)))
          (select article_cols from_articles)))

  unfoldable pub articles_by_tag : List Bytes → Answer (List Article)
  articles_by_tag tags =
      rows_only
        (of_listed (list w.articles.db w.codec w.articles.mapper (articles_by_tag_query tags) []))

-- ===== src/Example/Server/Page.antt =====
-- examples/server.go: the whole of GET /articles, from the query string to the page in the response.
use filtrx.Base.{
  ◌≡◌, refl, ◌∙◌, ap, not, ◌&&◌, some, List, [], ◌∷◌, Bytes, codes, length, if◌then◌else◌,
}
use filtrx.Base.Int.{ℤ, pos}
use filtrx.Cond.{build}
use filtrx.Keyset.{is_nil}
use filtrx.Keyset.Kept.{kept}
use filtrx.Meaning.{Database, Row}
use filtrx.Paginate.{PagingParams, window, paginate, needs_total, resolve}
use filtrx.Plan.Cache.{IsValid}
use filtrx.Query.{Query, effective_cond, page}
use filtrx.Query.Statement.{build_select, count_statement}
use filtrx.Sort.Unknown.{HasUnknown}
use filtrx.Paginate.Window.{selected}
use filtrx.Listing.{fetched}
use filtrx.Listing.Scan.{answer, rows_asked}
use filtrx.Listing.Offset.{info_of, list_offset-selected}
use filtrx.Connection.Errors.{list-offset}
use filtrx.Bind.{bound, bind_page}
use filtrx.Bind.Fields.{done, bind_dest}
use filtrx.Example.Models.{Article, ArticleFilter, types}
use filtrx.Example.Wire.{zero_article_filter, filter_in}
use filtrx.Example.Shown.{asked_for}
use filtrx.Example.Store.{
  World, sortable, deleted_at, get_value, list_articles_query, list_articles, after_bind,
  after_bound, of_listed, of_result, with_rows,
}
use filtrx.Example.Store.Reads.{list_articles_query-shown}
use filtrx.Example.Server.{Request, response, articles_page, get_articles, reply, page_body}
use filtrx.Example.Server.Status.{query-unsought, query-rankable, query-fine, sort_keys_of}

module _ (sem : Database) (view : Article → Row) where
  -- The articles that a filter asks for and that are not deleted, in their order.
  abbrev pub shown : ArticleFilter → List Article → List Article
  shown f [] = []
  shown f (a ∷ rest) =
      if asked_for sem (view a) f && is_nil (view a deleted_at)
      then a ∷ shown f rest
      else shown f rest

  pub kept-shown :
      (w : World)
      → IsValid types w.cache
      → (f : ArticleFilter) (spec : Bytes) (p : PagingParams) (rows : List Article)
      → kept sem view (effective_cond (list_articles_query w f spec p)) rows ≡ shown f rows
  kept-shown w valid f spec p [] = refl
  kept-shown w valid f spec p (a ∷ rest) =
      rw (list_articles_query-shown w valid f spec p sem (view a), kept-shown w valid f spec p rest)
        refl

module _ (w : World) (sem : Database) (view : Article → Row) (r : Request) (p : PagingParams) where
  abbrev pub filter_of : ArticleFilter
  filter_of = filter_in (bind_dest w.parsers r.query zero_article_filter).0

  abbrev pub query_of : Query
  query_of = list_articles_query w filter_of (get_value r.query (codes "sort")) p

  -- The rows of a table, in the order of the query, for which its WHERE is true.
  abbrev pub found : List Article → List Article
  found table = kept sem view (effective_cond query_of) table

  -- The database answers the SELECT of the page with the found rows behind its offset, up to one more
  -- than its limit, and COUNT with the number of the found rows.
  abbrev pub IsAnswered : ℤ → ℤ → List Article → Type 0
  IsAnswered limit offset table =
      let filter_text = build (effective_cond query_of) query_of.dialect in
      let (l, o) = resolve limit offset (pos (length (found table))) in
      let window_total = p.include_total && not (needs_total limit) in
      (w.articles.db.query (build_select query_of filter_text.0 filter_text.1 l o window_total)
        ≡ fetched (answer window_total (pos (length (found table))) (rows_asked l o (found table))))
      × (w.articles.db.count (count_statement query_of filter_text.0 filter_text.1)
          ≡ some (pos (length (found table))))

  -- With a query string that binds, sort keys that are all sortable, paging arguments that give a
  -- window, a valid cache of plans and a database that answers the page's statements by the rows for
  -- which WHERE is true: GET /articles answers 200 with exactly the page that Paginate selects of the
  -- articles that the bound filter asks for and that are not deleted, with their total if it was asked
  -- for or counted, the offset, and whether more are behind the page.
  pub get_articles-page :
      IsValid types w.cache
      → (limit offset : ℤ) (table : List Article)
      → (bind_dest w.parsers r.query zero_article_filter).1 ≡ done
      → bind_page w.parsers.strings r.query ≡ bound p
      → (HasUnknown sortable (sort_keys_of w r) → ⊥)
      → paginate p ≡ window limit offset
      → IsAnswered limit offset table
      → let articles = shown sem view filter_of table in
        let (l, o) = resolve limit offset (pos (length articles)) in
        get_articles w r
        ≡ response 200 (
            articles_page
              (selected (paginate p) articles)
              (info_of (needs_total limit) p.include_total l o articles))
  unfolding get_articles list_articles after_bind after_bound list_articles_query page of_listed
      of_result with_rows reply
  get_articles-page valid limit offset table fine paged known windowed (asked, counted) =
      let fine_query = query-fine w valid filter_of (get_value r.query (codes "sort")) p known in
      let listed =
        list-offset w.articles.db w.codec w.articles.mapper query_of [] fine_query
          (query-unsought w valid filter_of (get_value r.query (codes "sort")) p)
        ∙ list_offset-selected w.articles.db query_of limit offset (found table) fine_query
            (query-rankable w valid filter_of (get_value r.query (codes "sort")) p) windowed asked
            counted in
      rw (fine, paged)
        (ap (λ l. reply 200 page_body (of_listed l)) listed
          ∙ ap
              (λ xs.
                let (l, o) = resolve limit offset (pos (length xs)) in
                response 200 (
                  articles_page (selected (paginate p) xs)
                    (info_of (needs_total limit) p.include_total l o xs)))
              (kept-shown sem view w valid filter_of (get_value r.query (codes "sort")) p table))

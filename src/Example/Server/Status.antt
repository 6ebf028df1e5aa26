-- ===== src/Example/Server/Status.antt =====
-- examples/server.go: when GET /articles answers 400.
use filtrx.Base.{
  ℕ, ◌≡◌, refl, ◌∙◌, ap, arith, Bool, false, not, ◌&&◌, none, some, List, [], Bytes, codes, inl,
  inr, ◌↔◌,
}
use filtrx.Dialect.{Dialect, postgres, supports_relevance}
use filtrx.Paginate.{PagingParams}
use filtrx.Plan.Cache.{IsValid}
use filtrx.Query.{
  CompileError, where_filter, select, from_table, soft_delete, order_by, page, add_order,
  has_relevance_order, sort_key_not_allowed,
}
use filtrx.Sort.{sort}
use filtrx.Sort.Allowed.{keys_of}
use filtrx.Sort.Unknown.{HasUnknown, sort-err_cases}
use filtrx.Listing.{
  PageInfo, Result, ok, compile_error, query_error, panicked as list_panicked, cannot_rank,
}
use filtrx.Listing.Errors.{NoCompileError}
use filtrx.Connection.Errors.{list-NoCompileError, list-compile_error}
use filtrx.Connection.{list}
use filtrx.Bind.{Bound, bound, invalid, bind_page}
use filtrx.Bind.Fields.{
  Returned, done, bad_dest, fault, bad_value, panicked as bind_panicked, bind_dest,
}
use filtrx.Example.Models.{Article, ArticleFilter, types, article_cols}
use filtrx.Example.Wire.{zero_article_filter, filter_in}
use filtrx.Example.Store.{
  World, sortable, get_value, list_articles_query, list_articles, from_articles, of_listed,
  of_result, with_rows, after_bind, after_bound, Answer,
}
use filtrx.Example.Store.Reads.{
  filtered_articles, list_articles_query-unordered, compile_article_filter-meets,
}
use filtrx.Example.Server.{
  Request, Body, Response, response, panicked, reply, error_status, page_body, get_articles,
}

-- The status of a response; a panic has none.
abbrev pub Answers : ℕ → Response → Type 0
Answers code (response c b) = c ≡ code
Answers code panicked = ⊥

abbrev IsBad : Response → Type 0
IsBad r = Answers 400 r

module _ {ℓ} {A : Type ℓ} (body : A → Body) where
  IsBad-after_bind :
      (ret : Returned) (rest : Answer A)
      → IsBad (reply 200 body (after_bind ret rest))
      → (ret ≡ done) × IsBad (reply 200 body rest)
  unfolding after_bind reply error_status
  IsBad-after_bind done rest h = (refl, h)
  IsBad-after_bind bad_dest rest h = absurd (omega arith)
  IsBad-after_bind (fault (bad_value key)) rest h = absurd (omega arith)
  IsBad-after_bind (fault bind_panicked) rest h = absurd h

  IsBad-after_bound :
      (p : Bound PagingParams) (rest : PagingParams → Answer A)
      → IsBad (reply 200 body (after_bound p rest))
      → (n : PagingParams) × (p ≡ bound n) × IsBad (reply 200 body (rest n))
  unfolding after_bound reply error_status
  IsBad-after_bound (bound n) rest h = (n, refl, h)
  IsBad-after_bound (invalid key) rest h = absurd (omega arith)

-- Rows behind a result that is no compile error are not answered with 400.
IsBad-rows :
    (rows : List Article) (res : Result PageInfo)
    → NoCompileError res
    → IsBad (reply 200 page_body (with_rows rows (of_result res)))
    → ⊥
unfolding of_result with_rows reply error_status
IsBad-rows rows (ok info) h e = omega arith
IsBad-rows rows (compile_error c) h e = h
IsBad-rows rows query_error h e = omega arith
IsBad-rows rows (list_panicked p) h e = e

IsBad-refused :
    (rows : List Article) (res : Result PageInfo) (c : CompileError)
    → res ≡ compile_error c
    → IsBad (reply 200 page_body (with_rows rows (of_result res)))
unfolding of_result with_rows reply error_status
IsBad-refused rows res c e = rw e refl

postgres-ranks :
    (ranked : Bool) (d : Dialect) → d ≡ postgres → (ranked && not (supports_relevance d)) ≡ false
unfolding supports_relevance
postgres-ranks ranked d e = rw e (ground arith)

module _ (w : World) where
  -- Bind and BindPage find no error in the query string.
  abbrev pub Binds : Request → Type 0
  Binds r =
      ((bind_dest w.parsers r.query zero_article_filter).1 ≡ done)
      × (p : PagingParams) × (bind_page w.parsers.strings r.query ≡ bound p)

  abbrev pub sort_keys_of : Request → List Bytes
  sort_keys_of r = keys_of sortable w.parsers.strings.trim_space (get_value r.query (codes "sort"))

module _ (w : World) (valid : IsValid types w.cache) where
  filtered_articles-fine :
      (f : ArticleFilter)
      → ((filtered_articles w f).err ≡ none)
        × ((filtered_articles w f).seek ≡ none)
        × ((filtered_articles w f).dialect ≡ postgres)
  unfolding soft_delete where_filter select from_table
  filtered_articles-fine f =
      let (d, same, keeps) = compile_article_filter-meets w valid f in
      (
        ap (λ c. (where_filter c (select article_cols from_articles)).err) same,
        ap (λ c. (where_filter c (select article_cols from_articles)).seek) same,
        ap (λ c. (where_filter c (select article_cols from_articles)).dialect) same,
      )

  module _ (f : ArticleFilter) (spec : Bytes) (p : PagingParams) where
    pub query-unsought : (list_articles_query w f spec p).seek ≡ none
    unfolding page
    query-unsought =
        ap (λ q. q.seek) (list_articles_query-unordered w f spec p) ∙ (filtered_articles-fine f).1

    pub query-rankable : cannot_rank (list_articles_query w f spec p) ≡ false
    unfolding page cannot_rank
    query-rankable = postgres-ranks (has_relevance_order (list_articles_query w f spec p)) _ (
        ap (λ q. q.dialect) (list_articles_query-unordered w f spec p)
        ∙ (filtered_articles-fine f).2)

    query-err :
        (list_articles_query w f spec p).err
        ≡ (sort w.parsers.strings.trim_space sortable spec (filtered_articles w f)).err
    unfolding list_articles_query page order_by add_order
    query-err = refl

    abbrev listed : Response
    listed = reply 200 page_body (
        of_listed
          (list w.articles.db w.codec w.articles.mapper (list_articles_query w f spec p) []))

    listed-fine : (list_articles_query w f spec p).err ≡ none → IsBad listed → ⊥
    unfolding of_listed
    listed-fine fine h =
        IsBad-rows _ _
          (list-NoCompileError w.articles.db w.codec w.articles.mapper
            (list_articles_query w f spec p) [] fine query-unsought query-rankable)
          h

    listed-refused : (list_articles_query w f spec p).err ≡ some sort_key_not_allowed → IsBad listed
    unfolding of_listed
    listed-refused bad = IsBad-refused _ _ sort_key_not_allowed (
        list-compile_error w.articles.db w.codec w.articles.mapper (list_articles_query w f spec p)
          [] sort_key_not_allowed bad)

    pub query-fine :
        (HasUnknown sortable (keys_of sortable w.parsers.strings.trim_space spec) → ⊥)
        → (list_articles_query w f spec p).err ≡ none
    query-fine known =
        elim (sort-err_cases sortable w.parsers.strings.trim_space spec (filtered_articles w f)
          (filtered_articles-fine f).0) [
            | inl (fine, h) ↦ query-err ∙ fine
            | inr (bad, unknown) ↦ absurd (known unknown)
          ]

    unknown_iff :
        IsBad listed ↔ HasUnknown sortable (keys_of sortable w.parsers.strings.trim_space spec)
    unknown_iff =
        elim (sort-err_cases sortable w.parsers.strings.trim_space spec (filtered_articles w f)
          (filtered_articles-fine f).0) [
            | inl (fine, known) ↦
                ((λ h. absurd (listed-fine (query-err ∙ fine) h)), (λ u. absurd (known u)))
            | inr (bad, unknown) ↦ ((λ h. unknown), (λ u. listed-refused (query-err ∙ bad)))
          ]

  -- GET /articles answers 400 Bad Request exactly if the query string binds and some key of its sort
  -- parameter is not one of the sortable keys: not for a parameter that cannot be parsed.
  pub get_articles-bad_request_iff :
      (r : Request)
      → Answers 400 (get_articles w r) ↔ (Binds w r × HasUnknown sortable (sort_keys_of w r))
  unfolding get_articles list_articles after_bind after_bound
  get_articles-bad_request_iff r =
      let dest = (bind_dest w.parsers r.query zero_article_filter).0 in
      let spec = get_value r.query (codes "sort") in
      (
        (λ h.
            let (fine, behind) =
              IsBad-after_bind page_body (bind_dest w.parsers r.query zero_article_filter).1 _ h in
            let (p, paged, bad) =
              IsBad-after_bound page_body (bind_page w.parsers.strings r.query) _ behind in
            ((fine, p, paged), (unknown_iff (filter_in dest) spec p).0 bad)),
        (λ ((fine, p, paged), u). rw (fine, paged) ((unknown_iff (filter_in dest) spec p).1 u)),
      )

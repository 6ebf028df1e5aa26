-- ===== src/Tests/Serving/Reading.antt =====
-- The read endpoints of the article service on concrete requests.
use filtrx.Base.{◌≡◌, refl, true, some, [], ◌∷◌, codes, split, is_empty, ap, sym, ◌∙◌, length, ◌↔◌}
use filtrx.Base.Int.{pos}
use filtrx.Holders.Optional.{some_opt, none_opt}
use filtrx.Keyset.{is_nil}
use filtrx.Paginate.{
  PagingParams, no_paging, paginate, window, needs_total, resolve, choose_limit, start_offset,
  apply_before,
}
use filtrx.Paginate.Window.{selected}
use filtrx.Listing.{fetched}
use filtrx.Listing.Scan.{answer, rows_asked}
use filtrx.Listing.Offset.{info_of}
use filtrx.Example.Models.{no_match, no_text, no_range, ArticleFilter, article_filter, no_filters}
use filtrx.Example.Store.{sortable, get_value}
use filtrx.Example.Server.{response, articles_page, get_articles}
use filtrx.Example.Server.Status.{Answers, Binds, sort_keys_of, get_articles-bad_request_iff}
use filtrx.Example.Server.Page.{shown, kept-shown, filter_of, found, IsAnswered, get_articles-page}
use filtrx.Sort.{signed_key}
use filtrx.Sort.Unknown.{HasUnknown, all_known-known}
use filtrx.Bind.{
  bind_page, bound, then_bind, bind_number, checked, bind_total, truthy, first_value, first_of,
}
use filtrx.Bind.Fields.{bind_dest, done}
use filtrx.Example.Wire.{zero_article_filter}
use filtrx.Example.Shown.{asked_for, all_nothing}
use filtrx.Base.Compare.{bytes_eq, lookup}
use filtrx.Tests.Binding.{short_strings}
use filtrx.Tests.Filling.{filling}
use filtrx.Tests.Serving.{
  world, database, row_of, popular, four, published, first_article, fourth_article,
}

abbrev first_one : PagingParams
first_one = record no_paging { first = some (pos 1); include_total = true }

get_articles-bad_request_iff_example :
    Answers 400 (get_articles world popular)
    ↔ (Binds world popular × HasUnknown sortable (sort_keys_of world popular))
get_articles-bad_request_iff_example = get_articles-bad_request_iff world tt popular

-- The filter that is bound to ?status=published&views_gte=5.
abbrev popular_filter : ArticleFilter
popular_filter =
    article_filter (record no_match { eq_to = some_opt published }) no_text
      (record no_range { gte_than = some_opt (pos 5) }) [] no_filters

popular_bound : (bind_dest world.parsers popular.query zero_article_filter).1 ≡ done
unfolding filling codes
popular_bound = refl

popular_filtered : filter_of world database row_of popular first_one ≡ popular_filter
unfolding filling codes some_opt none_opt
popular_filtered = refl

popular_paged : bind_page short_strings popular.query ≡ bound first_one
unfolding filling codes bind_page then_bind bind_number checked bind_total truthy
popular_paged = refl

sort_known : HasUnknown sortable (sort_keys_of world popular) → ⊥
unfolding codes is_empty get_value first_value first_of lookup bytes_eq split signed_key
sort_known = all_known-known sortable (sort_keys_of world popular) refl

first_window : paginate first_one ≡ window (pos 1) (pos 0)
unfolding paginate choose_limit start_offset apply_before
first_window = refl

popular_shown : shown database row_of popular_filter four ≡ first_article ∷ fourth_article ∷ []
unfolding codes asked_for some_opt none_opt is_nil bytes_eq all_nothing
popular_shown = refl

four-found :
    found world database row_of popular first_one four ≡ first_article ∷ fourth_article ∷ []
four-found =
    kept-shown database row_of world tt (filter_of world database row_of popular first_one)
      (get_value popular.query (codes "sort")) first_one four
    ∙ ap (λ f. shown database row_of f four) popular_filtered
    ∙ popular_shown

four-IsAnswered : IsAnswered world database row_of popular first_one (pos 1) (pos 0) four
unfolding needs_total resolve
four-IsAnswered = (
  ap
      (λ xs.
        let (l, o) = resolve (pos 1) (pos 0) (pos (length xs)) in
        fetched (answer true (pos (length xs)) (rows_asked l o xs)))
      (sym four-found),
  ap (λ xs. some (pos (length xs))) (sym four-found),
)

get_articles-page_example :
    let f = filter_of world database row_of popular first_one in
    let articles = shown database row_of f four in
    let (l, o) = resolve (pos 1) (pos 0) (pos (length articles)) in
    get_articles world popular
    ≡ response 200 (
        articles_page
          (selected (paginate first_one) articles)
          (info_of (needs_total (pos 1)) true l o articles))
get_articles-page_example =
    get_articles-page world database row_of popular first_one tt (pos 1) (pos 0) four popular_bound
      popular_paged sort_known first_window four-IsAnswered

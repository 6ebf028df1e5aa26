-- ===== src/Example/Server.antt =====
-- examples/server.go: the HTTP handlers, from the request to the status and body of the response.
pub mod Status
pub mod Page
pub mod Deleting
pub mod Feed
use filtrx.Base.{
  ℕ, Bool, true, false, Option, none, some, List, [], ◌∷◌, Bytes, codes, split, is_empty,
  if◌then◌else◌,
}
use filtrx.Base.Compare.{bytes_eq}
use filtrx.Base.Int.{ℤ, pos}
use filtrx.Query.{CompileError}
use filtrx.Listing.{PageInfo}
use filtrx.Connection.{Connection}
use filtrx.Mutate.{Assignments}
use filtrx.Bind.{UrlValues}
use filtrx.Example.Models.{Author, Article, AuthorArticleCount}
use filtrx.Example.Store.{
  World, Failure, not_compiled, Answer, served, failed, crashed, get_value, list_articles,
  article_feed, search_articles, articles_by_author_name, published_authors,
  article_counts_by_author, articles_by_tag,
}
use filtrx.Example.Store.Writes.{create_row, update_row, soft_delete_article, purge_article}

-- r.URL.Query(), r.PathValue("id") and r.Body, with encoding/json on the body, where an error is none.
pub record Request : Type 0 where
  pub query : UrlValues
  pub id : Bytes
  pub article_body : Option Article
  pub set_body : Option Assignments

-- What is encoded as JSON, or the text of http.Error.
pub data Body : Type 0 where
  articles_page : List Article → PageInfo → Body
  connection : Connection Article → Body
  articles : List Article → Body
  authors : List Author → Body
  counts : List AuthorArticleCount → Body
  article : Article → Body
  updated : ℤ → Body
  deleted : ℤ → Body
  error_of : Failure → Body
  bad_id bad_body : Body

-- A response, or a panic in the handler.
pub data Response : Type 0 where
  response : ℕ → Body → Response
  panicked : Response

-- `writeErr`
unfoldable pub error_status : Failure → ℕ
error_status (not_compiled e) = 400
error_status e = 500

-- A handler from the call of the store on: `writeErr`, or `writeJSON`.
unfoldable pub reply {ℓ} : {A : Type ℓ} → ℕ → (A → Body) → Answer A → Response
reply code body (served a) = response code (body a)
reply code body (failed e) = response (error_status e) (error_of e)
reply code body crashed = panicked

abbrev pub page_body : List Article × PageInfo → Body
page_body (rows, info) = articles_page rows info

-- r.URL.Query()["tag"], where one value is split at its commas
unfoldable pub split_tags : Option (List Bytes) → List Bytes
split_tags none = []
split_tags (some (v ∷ [])) = split b',' v
split_tags (some vs) = vs

unfoldable pub parsed_or : ℤ → Option ℤ → ℤ
parsed_or z none = z
parsed_or z (some n) = n

module _ (w : World) where
  unfoldable pub get_articles : Request → Response
  get_articles r = reply 200 page_body (list_articles w r.query)

  unfoldable pub get_feed : Request → Response
  get_feed r = reply 200 connection (article_feed w r.query)

  unfoldable pub get_search : Request → Response
  get_search r = reply 200 articles (search_articles w (get_value r.query (codes "q")))

  unfoldable pub get_by_tag : Request → Response
  get_by_tag r = reply 200 articles (articles_by_tag w (split_tags (r.query (codes "tag"))))

  unfoldable pub get_by_author : Request → Response
  get_by_author r =
      reply 200 articles (articles_by_author_name w (get_value r.query (codes "name")))

  unfoldable pub get_published : Request → Response
  get_published r = reply 200 authors (published_authors w)

  -- strconv.Atoi on `min`, which is 1 if it is empty or no number.
  unfoldable pub least_count : UrlValues → ℤ
  least_count vals =
      let v = get_value vals (codes "min") in
      if is_empty v then pos 1 else parsed_or (pos 1) (w.parsers.strings.atoi v)

  unfoldable pub get_stats : Request → Response
  get_stats r = reply 200 counts (article_counts_by_author w (least_count r.query))

  unfoldable pub with_status : Article → Article
  with_status a = if is_empty a.status then record a { status = codes "draft" } else a

  unfoldable pub create_article : Request → Response
  create_article r = elim r.article_body [
    | none ↦ response 400 bad_body
    | some a ↦ reply 201 article (create_row w (with_status a))
  ]

  unfoldable pub update_article : Request → Response
  update_article r = elim (w.parsers.strings.atoi r.id) [
    | none ↦ response 400 bad_id
    | some id ↦ elim r.set_body [
      | none ↦ response 400 bad_body
      | some set ↦ reply 200 updated (update_row w id set)
    ]
  ]

  unfoldable pub delete_article : Request → Response
  delete_article r = elim (w.parsers.strings.atoi r.id) [
    | none ↦ response 400 bad_id
    | some id ↦ reply 200 deleted (
        if bytes_eq (get_value r.query (codes "purge")) (codes "true")
        then purge_article w id
        else soft_delete_article w id)
  ]

-- The handlers by the patterns of `routes`; http.ServeMux chooses one.
pub data Route : Type 0 where
  list_route feed_route search_route by_tag_route by_author_route published_route stats_route
        create_route update_route delete_route :
      Route

-- `routes`
unfoldable pub routes : List (Bytes × Route)
routes =
    (codes "GET /articles", list_route)
    ∷ (codes "GET /articles/feed", feed_route)
    ∷ (codes "GET /articles/search", search_route)
    ∷ (codes "GET /articles/by-tag", by_tag_route)
    ∷ (codes "GET /articles/by-author", by_author_route)
    ∷ (codes "GET /authors/published", published_route)
    ∷ (codes "GET /stats/articles-per-author", stats_route)
    ∷ (codes "POST /articles", create_route)
    ∷ (codes "PATCH /articles/{id}", update_route)
    ∷ (codes "DELETE /articles/{id}", delete_route)
    ∷ []

unfoldable pub handle : World → Route → Request → Response
handle w list_route = get_articles w
handle w feed_route = get_feed w
handle w search_route = get_search w
handle w by_tag_route = get_by_tag w
handle w by_author_route = get_by_author w
handle w published_route = get_published w
handle w stats_route = get_stats w
handle w create_route = create_article w
handle w update_route = update_article w
handle w delete_route = delete_article w

-- ===== src/Example/Server/Feed.antt =====
-- examples/server.go: a client that follows GET /articles/feed from end cursor to end cursor.
use filtrx.Base.{
  ℕ, zero, suc, ◌+◌, ◌≤◌, ◌<◌, ◌≡◌, refl, ◌∙◌, ap, arith, Bool, false, Option, none, some, List, [],
  ◌∷◌, Bytes, codes, length, is_empty, leb, ◌==◌, if◌then◌else◌,
}
use filtrx.Base.Int.{pos, half_range}
use filtrx.Value.{Value}
use filtrx.Keyset.{is_nil}
use filtrx.Keyset.Semantics.{NeverHolds}
use filtrx.Keyset.Kept.{kept, columns, AllNoNulls, Ordered}
use filtrx.Meaning.{Database, Row, passes as row_passes}
use filtrx.Query.{
  Query, effective_cond, from_table, select, soft_delete, order_by, order_by_desc, add_order,
  has_relevance_order, any_rank,
}
use filtrx.Query.Scope.{effective_cond-in_scope}
use filtrx.Listing.{
  PageInfo, Result, ok, compile_error, query_error, panicked as list_panicked, Listed,
}
use filtrx.Seeking.{key, key_fields, seek_error}
use filtrx.Connection.{Connection, list_connection}
use filtrx.Connection.Walk.{Paging, continue, pages, forward, matching, Served, Counted, AllGood}
use filtrx.Connection.Relay.{as_page, connection_at, connection_page}
use filtrx.Connection.Complete.{pages_complete}
use filtrx.Bind.{bound, bind_seek}
use filtrx.Example.Models.{Article, article_cols}
use filtrx.Example.Store.{
  World, deleted_at, from_articles, sized, article_feed_query, article_feed, after_bound, of_result,
}
use filtrx.Example.Server.{Request, Response, response, connection, reply, get_feed}

-- What the client keeps of a response: the nodes behind those it has, if it is a connection.
abbrev as_feed : List Article → Response → Listed Article
as_feed dest (response code (connection c)) = as_page dest (ok c)
as_feed dest r = record { result = query_error; dest = dest; issued = [] }

as_feed-continue :
    (again : Bytes → List Article → Option (List Article)) (dest : List Article)
    (r : Result (Connection Article))
    → continue again (as_feed dest (reply 200 connection (of_result r)))
      ≡ continue again (as_page dest r)
unfolding reply of_result
as_feed-continue again dest (ok c) = refl
as_feed-continue again dest (compile_error e) = refl
as_feed-continue again dest query_error = refl
as_feed-continue again dest (list_panicked p) = refl

-- The size of a page is one more than this: a size of 0 stands for 10.
abbrev pub page_rest : ℕ → ℕ
page_rest zero = 9
page_rest (suc n) = n

-- The query of `ArticleFeed` in front of Seek.
abbrev pub feed_base : Query
feed_base = order_by (codes "id") (
    order_by_desc (codes "created_at") (soft_delete deleted_at (select article_cols from_articles)))

feed_base-active :
    (sem : Database) (row : Row)
    → row_passes sem row (effective_cond feed_base) ≡ is_nil (row deleted_at)
unfolding order_by order_by_desc add_order soft_delete select from_table codes is_empty
feed_base-active sem row = effective_cond-in_scope sem row feed_base

module _ (view : Article → Row) where
  -- The articles that are not deleted, in their order.
  abbrev pub active : List Article → List Article
  active [] = []
  active (a ∷ rest) = if is_nil (view a deleted_at) then a ∷ active rest else active rest

  matching-active :
      (sem : Database) (rows : List Article)
      → kept sem view (effective_cond feed_base) rows ≡ active rows
  matching-active sem [] = refl
  matching-active sem (a ∷ rest) =
      rw (matching-active sem rest)
        (ap (λ b. if b then a ∷ active rest else active rest) (feed_base-active sem (view a)))

module _ {ℓ} {T : Type ℓ} where
  result-same :
      (again other : Bytes → List T → Option (List T)) (r : Result PageInfo) (dest : List T)
      → ((c : Bytes) (d : List T) → again c d ≡ other c d)
      → continue again (record { result = r; dest = dest; issued = [] })
        ≡ continue other (record { result = r; dest = dest; issued = [] })
  result-same again other (ok info) dest same = rw (same info.end_cursor dest) refl
  result-same again other (compile_error e) dest same = refl
  result-same again other query_error dest same = refl
  result-same again other (list_panicked p) dest same = refl

  continue-same :
      (again other : Bytes → List T → Option (List T)) (p : Listed T)
      → ((c : Bytes) (d : List T) → again c d ≡ other c d)
      → continue again p ≡ continue other p
  continue-same again other p same = result-same again other p.result p.dest same

  pages-same :
      (page other : Bytes → List T → Listed T)
      → ((again : Bytes → List T → Option (List T)) (c : Bytes) (d : List T)
          → continue again (page c d) ≡ continue again (other c d))
      → (fuel : ℕ) (c : Bytes) (d : List T) → pages page fuel c d ≡ pages other fuel c d
  pages-same page other same zero c d = refl
  pages-same page other same (suc fuel) c d =
      same (pages page fuel) c d
      ∙ continue-same (pages page fuel) (pages other fuel) (other c d)
          (pages-same page other same fuel)

-- The requests of a client: at a cursor, for a number of rows.
abbrev pub AsksFor : World → (Bytes → Request) → ℕ → Bool → Type 0
AsksFor w ask n total =
    (cursor : Bytes)
    → bind_seek w.parsers.strings (ask cursor).query
      ≡ bound (record { after = cursor; before = []; size = pos n; include_total = total })

sized-rest :
    (w : World) (n : ℕ) (cursor : Bytes) (total : Bool)
    → sized w (record { after = cursor; before = []; size = pos n; include_total = total })
      ≡ record {
        after = cursor;
        before = [];
        size = pos (suc (page_rest n));
        include_total = total;
      }
sized-rest w zero cursor total = refl
sized-rest w (suc n) cursor total =
    let positive : (suc n + 0 == 0) ≡ false = ground arith in rw positive refl

module _ (w : World) (sem : Database) (view : Article → Row) (cursor_of : Article → Bytes)
    (table : List Article) (count n : ℕ) (total : Bool) (ask : Bytes → Request) where
  abbrev pub feed_paging : Paging Article
  feed_paging = record {
    table = table;
    view = view;
    cursor_of = cursor_of;
    sem = sem;
    db = w.articles.db;
    codec = w.codec;
    mapper = w.articles.mapper;
    q = feed_base;
    m = page_rest n;
    count = count;
    total = total;
  }

  abbrev pub feed_page : Bytes → List Article → Listed Article
  feed_page cursor dest = as_feed dest (get_feed w (ask cursor))

  get_feed-connection :
      (cursor : Bytes)
      → AsksFor w ask n total
      → get_feed w (ask cursor)
        ≡ reply 200 connection (of_result (connection_at feed_paging cursor))
  unfolding get_feed article_feed article_feed_query after_bound
  get_feed-connection cursor asks = rw (asks cursor) (
      ap
        (λ p. reply 200 connection (
          of_result
            (list_connection w.articles.db w.codec w.articles.mapper (article_feed_query w p))))
        (sized-rest w n cursor total))

  feed_page-continue :
      AsksFor w ask n total
      → (again : Bytes → List Article → Option (List Article)) (cursor : Bytes)
        (dest : List Article)
      → continue again (feed_page cursor dest)
        ≡ continue again (connection_page feed_paging cursor dest)
  feed_page-continue asks again cursor dest =
      ap (λ r. continue again (as_feed dest r)) (get_feed-connection cursor asks)
      ∙ as_feed-continue again dest (connection_at feed_paging cursor)

  feed_checks : seek_error feed_base (forward feed_paging []) ≡ none
  unfolding seek_error has_relevance_order any_rank order_by order_by_desc add_order soft_delete
      select from_table
  feed_checks =
      let positive : leb (suc (page_rest n) + 0) 0 ≡ false = ground arith in rw positive refl

  -- Let the requests of a client bind to a cursor and a size, let id and created_at be fields of the
  -- rows without NULLs, let the articles that are not deleted be in the order of the feed with keys that
  -- the cursor encoding keeps, and let the database answer each page by its filter, order and limit.
  -- Then a client that follows GET /articles/feed at the end cursor of each connection, from the start
  -- until no next page is left, stops within one request more than there are such articles, and has got
  -- every article that is not deleted exactly once, in order, and no deleted one.
  pub feed_pages_complete :
      AsksFor w ask n total
      → (fs : List (Article → Value)) → suc (page_rest n) + 1 < half_range
      → key_fields w.articles.mapper feed_base.order ≡ some fs
      → ((a : Article) → key fs a ≡ columns sem view feed_base.order a)
      → NeverHolds sem
      → AllNoNulls sem view feed_base.order table
      → Ordered sem view feed_base.order (matching feed_paging)
      → AllGood feed_paging (matching feed_paging)
      → (fuel : ℕ) → Served feed_paging none
      → Counted feed_paging none
      → length (matching feed_paging) ≤ fuel
      → pages feed_page (suc fuel) [] [] ≡ some (active view table)
  unfolding order_by order_by_desc add_order soft_delete select from_table
  feed_pages_complete asks fs small fields agree never placed ordered good fuel served counted
        bounded =
      pages-same feed_page (connection_page feed_paging) (feed_page-continue asks) (suc fuel) [] []
      ∙ (pages_complete feed_paging fs refl feed_checks small fields agree never placed ordered good
          fuel served counted bounded).1
      ∙ ap some (matching-active view sem table)

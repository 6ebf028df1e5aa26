-- ===== src/Tests/Serving.antt =====
-- The article service on a table of four articles.
pub mod Reading
pub mod Filtering
pub mod Acting
pub mod Feeding
use Prim.Native.Nat.{Ordering, compare}
use filtrx.Base.{
  ℕ, zero, suc, ◌≡◌, refl, Bool, true, false, ◌&&◌, Option, none, some, List, [], ◌∷◌, Bytes, codes,
  if◌then◌else◌,
}
use filtrx.Base.Compare.{bytes_eq, lookup}
use filtrx.Base.Int.{ℤ, pos, eqb_ℤ}
use filtrx.Value.{Value, null, int, text, time}
use filtrx.Keyset.{is_nil}
use filtrx.Meaning.{Database, Row, no_false}
use filtrx.Paginate.{no_paging, PagingParams}
use filtrx.Listing.{fetched, done as no_more, refused_query}
use filtrx.Listing.Scan.{answer}
use filtrx.Mutate.{executed}
use filtrx.Bind.{UrlValues}
use filtrx.Example.Models.{Author, Article, AuthorArticleCount, types}
use filtrx.Example.Store.{World, Table}
use filtrx.Example.Server.{Request}
use filtrx.Tests.Binding.{short_strings}

abbrev article_of : ℕ → Bytes → ℕ → Article
article_of id status views = record {
  id = pos id;
  author_id = pos 1;
  title = codes "Go";
  body = [];
  status = status;
  tags = [];
  views = pos views;
  created_at = 0;
}

abbrev published : Bytes
published = codes "published"

abbrev first_article : Article
first_article = article_of 1 published 10

abbrev fourth_article : Article
fourth_article = article_of 4 published 5

-- The articles by falling views.
abbrev four : List Article
four =
    article_of 3 published 20 ∷ first_article ∷ article_of 2 (codes "draft") 7 ∷ fourth_article ∷ []

-- The columns of an article; the third is deleted.
abbrev row_of : Article → Row
row_of a col =
    if bytes_eq col (codes "status")
    then text a.status
    else if bytes_eq col (codes "views")
    then int a.views
    else if bytes_eq col (codes "id")
    then int a.id
    else if bytes_eq col (codes "deleted_at") && eqb_ℤ a.id (pos 3)
    then time 9
    else null

abbrev compare_both : Value → Value → Ordering
compare_both (int (pos a)) (int (pos b)) = compare a b
compare_both (text s) (text t) = if bytes_eq s t then Ordering.eq else Ordering.lt
compare_both v w = Ordering.lt

abbrev database : Database
database = record {
  compare_values = compare_both;
  related = λ src on r. [];
  other = λ c r. no_false;
}

-- The database answers every page with the first and the fourth article, in a total of two.
abbrev world : World
world = record {
  articles = record {
    db = record {
      query = λ s. fetched (answer true (pos 2) (first_article ∷ fourth_article ∷ []));
      count = λ s. some (pos 2);
    };
    mapper = record { field = λ col. none };
  };
  authors = record {
    db = record { query = λ s. refused_query; count = λ s. none };
    mapper = record { field = λ col. none };
  };
  counts = record {
    db = record { query = λ s. refused_query; count = λ s. none };
    mapper = record { field = λ col. none };
  };
  execute = λ s. executed (some (pos 1));
  insert = λ s. none;
  codec = record { encode = λ vs. none; decode = λ c. none };
  parsers = record {
    strings = short_strings;
    parse_int = λ s w. short_strings.atoi s;
    parse_uint = λ s w. none;
    parse_float = λ s w. none;
    unmarshal_text = λ i s v. (v, false);
    zero_value = λ i. null;
  };
  now = 100;
  array = λ tags. null;
  cache = [];
}

abbrev ask : List (Bytes × List Bytes) → Bytes → Request
ask entries id = record {
  query = (λ key. lookup key entries);
  id = id;
  article_body = none;
  set_body = none;
}

-- ?status=published&views_gte=5&sort=-views&first=1&total=true
abbrev popular : Request
popular =
    ask
      ((codes "status", published ∷ [])
        ∷ (codes "views_gte", (0 ∷ 5 ∷ []) ∷ [])
        ∷ (codes "sort", codes "-views" ∷ [])
        ∷ (codes "first", (0 ∷ 1 ∷ []) ∷ [])
        ∷ (codes "total", (1 ∷ []) ∷ [])
        ∷ [])
      []

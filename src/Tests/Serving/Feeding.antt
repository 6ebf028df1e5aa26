-- ===== src/Tests/Serving/Feeding.antt =====
-- The feed of three articles and a deleted one, in pages of two.
use Prim.Native.Nat.{Ordering, compare}
use filtrx.Base.{
  ℕ, zero, suc, ◌≡◌, refl, false, ◌&&◌, Option, none, some, List, [], ◌∷◌, Bytes, codes, arith,
  if◌then◌else◌, take,
}
use filtrx.Base.Compare.{bytes_eq}
use filtrx.Base.Int.{pos, eqb_ℤ}
use filtrx.Value.{Value, null, int, time}
use filtrx.Keyset.{
  is_nil, keyset_cond, branches, after_compare, after_value, after_null, null_eq, or_nothing,
}
use filtrx.Keyset.Semantics.{key_position, position}
use filtrx.Meaning.{Database, Row, no_false, eval, eval_leaf}
use filtrx.Query.{
  order_by, order_by_desc, add_order, select, soft_delete, from_table, has_relevance_order,
  any_rank, effective_cond, scope_cond,
}
use filtrx.Query.Statement.{build_keyset_select, keyset_limit, count_statement}
use filtrx.Seeking.{key, key_fields, add_field, unqualify, last_part, seek_error}
use filtrx.Listing.{Reply, fetched, broken}
use filtrx.Listing.Scan.{answer}
use filtrx.Connection.Walk.{pages}
use filtrx.Bind.{
  bind_seek, then_bind, bind_number, checked, bind_total, truthy, first_value, first_of,
  text_or_empty, size_or_zero,
}
use filtrx.Example.Models.{Article}
use filtrx.Example.Store.{World}
use filtrx.Example.Server.{Request}
use filtrx.Example.Server.Feed.{AsksFor, active, feed_page, feed_pages_complete}
use filtrx.Running.{running}
use filtrx.Tests.Serving.{world, article_of, published}

abbrev created : ℕ → ℕ → Article
created id at = record (article_of id published 0) { created_at = at }

abbrev newest : Article
newest = created 1 8

abbrev middle : Article
middle = created 2 7

abbrev oldest : Article
oldest = created 4 5

-- The third article is deleted.
abbrev stored : List Article
stored = newest ∷ middle ∷ created 3 6 ∷ oldest ∷ []

abbrev feed_row : Article → Row
feed_row a col =
    if bytes_eq col (codes "created_at")
    then time a.created_at
    else if bytes_eq col (codes "id")
    then int a.id
    else if bytes_eq col (codes "deleted_at") && eqb_ℤ a.id (pos 3)
    then time 9
    else null

abbrev compare_keys : Value → Value → Ordering
compare_keys (int (pos a)) (int (pos b)) = compare a b
compare_keys (time a) (time b) = compare a b
compare_keys v w = Ordering.eq

abbrev feed_database : Database
feed_database = record {
  compare_values = compare_keys;
  related = λ src on r. [];
  other = λ c r. no_false;
}

abbrev behind_id : ℕ → List Article
behind_id (suc zero) = middle ∷ oldest ∷ []
behind_id (suc (suc zero)) = oldest ∷ []
behind_id n = []

-- The rows by the arguments of a page's SELECT: the key of its boundary, and the limit.
abbrev serve : List Value → Reply Article
serve (int (pos l) ∷ []) = fetched (answer false (pos 0) (take l (newest ∷ middle ∷ oldest ∷ [])))
serve (t ∷ u ∷ int (pos id) ∷ int (pos l) ∷ []) =
    fetched (answer false (pos 0) (take l (behind_id id)))
serve _ = fetched broken

abbrev encode_key : List Value → Option Bytes
encode_key (time t ∷ int (pos n) ∷ []) = some (t ∷ n ∷ [])
encode_key _ = none

abbrev decode_key : Bytes → Option (List Value)
decode_key (t ∷ n ∷ []) = some (time t ∷ int (pos n) ∷ [])
decode_key _ = none

abbrev id_value : Article → Value
id_value a = int a.id

abbrev created_value : Article → Value
created_value a = time a.created_at

abbrev field_of : Bytes → Option (Article → Value)
field_of col =
    if bytes_eq col (codes "created_at")
    then some created_value
    else if bytes_eq col (codes "id")
    then some id_value
    else none

abbrev feed_world : World
feed_world = record world {
  articles = record {
    db = record { query = λ s. serve s.args; count = λ s. some (pos 3) };
    mapper = record { field = field_of };
  };
  codec = record { encode = encode_key; decode = decode_key };
}

-- ?after=…&size=2
abbrev ask_feed : Bytes → Request
ask_feed cursor = record {
  query = (λ key.
      if bytes_eq key (codes "after")
      then some (cursor ∷ [])
      else if bytes_eq key (codes "size")
      then some ((0 ∷ 2 ∷ []) ∷ [])
      else none);
  id = [];
  article_body = none;
  set_body = none;
}

abbrev cursor_of : Article → Bytes
cursor_of a =
    a.created_at ∷ (if eqb_ℤ a.id (pos 1) then 1 else if eqb_ℤ a.id (pos 2) then 2 else 4) ∷ []

asks : AsksFor feed_world ask_feed 2 false
unfolding codes bytes_eq bind_seek then_bind bind_number checked bind_total truthy first_value
    first_of text_or_empty size_or_zero
asks cursor = refl

-- To name `feeding` on an `unfolding` line opens what the feed asks of the database.
unfoldable feeding : Unit {0}
unfolding running seek_error key_fields add_field unqualify last_part key keyset_cond branches
    after_compare after_value after_null null_eq is_nil or_nothing build_keyset_select keyset_limit
    has_relevance_order any_rank effective_cond scope_cond eval_leaf eval key_position position
    count_statement order_by order_by_desc add_order select soft_delete from_table codes bytes_eq
feeding = tt

feed_pages_complete_example :
    pages (feed_page feed_world feed_database feed_row cursor_of stored 3 2 false ask_feed) 4 [] []
    ≡ some (active feed_row stored)
unfolding feeding
feed_pages_complete_example =
    feed_pages_complete feed_world feed_database feed_row cursor_of stored 3 2 false ask_feed asks
      (created_value ∷ id_value ∷ []) (omega arith) refl (λ a. refl) (λ r. refl)
      (
        (λ e. refl, (λ e. refl, tt)),
        (
          (λ e. refl, (λ e. refl, tt)),
          ((λ e. refl, (λ e. refl, tt)), ((λ e. refl, (λ e. refl, tt)), tt)),
        ),
      )
      (refl, ((refl, refl), ((refl, refl), tt)), (refl, ((refl, refl), tt), (refl, tt, tt)))
      (
        ((refl, refl, refl), refl, refl),
        (((refl, refl, refl), refl, refl), (((refl, refl, refl), refl, refl), tt)),
      )
      3 refl refl (omega arith)

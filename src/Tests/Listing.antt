-- ===== src/Tests/Listing.antt =====
-- query.go: `List` on offset pages, against a database that reads LIMIT and OFFSET off the arguments.
use filtrx.Base.{ℕ, ◌≡◌, refl, true, false, some, List, [], ◌∷◌, take, drop, codes}
use filtrx.Base.Int.{pos}
use filtrx.Value.{Value, int}
use filtrx.Paginate.{
  no_paging, paginate, choose_limit, start_offset, apply_before, resolve, needs_total,
}
use filtrx.Paginate.Window.{selected}
use filtrx.Query.{Query, from_table, order_by, page, has_relevance_order, any_rank}
use filtrx.Query.Statement.{Statement}
use filtrx.Listing.{
  Db, Reply, fetched, broken, ok, empty_info, list_offset, list_page, fetch_page, finish_page,
  with_total, select_rows, scan_rows, cut, is_truncated, unless_refused, cannot_rank,
}
use filtrx.Listing.Scan.{answer}
use filtrx.Listing.Offset.{list_offset-selected, info_of}
use filtrx.Running.{running}

abbrev users : List ℕ
users = 0 ∷ 1 ∷ 2 ∷ 3 ∷ 4 ∷ 5 ∷ []

abbrev serve : List Value → Reply ℕ
serve (int (pos l) ∷ int (pos o) ∷ []) = fetched (answer true (pos 6) (take l (drop o users)))
serve _ = fetched broken

abbrev users_db : Db ℕ
users_db = record { query = λ s. serve s.args; count = λ s. some (pos 6) }

abbrev second_page : Query
second_page =
    page (record no_paging { first = some (pos 2); after = some (pos 1); include_total = true })
      (order_by (codes "id") (from_table (codes "users")))

abbrev users_select : Statement
users_select = record {
  sql =
      codes
        "SELECT *, COUNT(*) OVER() AS _filtrx_total FROM \"users\" ORDER BY \"id\" LIMIT $1 OFFSET $2";
  args = int (pos 3) ∷ int (pos 2) ∷ [];
}

list_second_page : list_offset users_db second_page [] ≡ record {
  result = ok (record empty_info { total = pos 6; offset = pos 2; truncated = true });
  dest = 2 ∷ 3 ∷ [];
  issued = users_select ∷ [];
}
unfolding running list_offset list_page fetch_page finish_page with_total select_rows scan_rows cut
    is_truncated unless_refused cannot_rank has_relevance_order any_rank paginate choose_limit
    start_offset apply_before resolve needs_total
list_second_page = refl

-- Rows that are in the destination before take the place of the page's.
rows_before_lost : (list_offset users_db second_page (7 ∷ 8 ∷ [])).dest ≡ 7 ∷ 8 ∷ []
unfolding running list_offset list_page fetch_page finish_page with_total select_rows scan_rows cut
    is_truncated unless_refused cannot_rank has_relevance_order any_rank paginate choose_limit
    start_offset apply_before resolve needs_total
rows_before_lost = refl

list_offset-selected_example : list_offset users_db second_page [] ≡ record {
  result = ok (info_of false true (pos 2) (pos 2) users);
  dest = selected (paginate second_page.paging) users;
  issued = users_select ∷ [];
}
unfolding running cannot_rank has_relevance_order any_rank paginate choose_limit start_offset
    apply_before resolve needs_total
list_offset-selected_example =
    list_offset-selected users_db second_page (pos 2) (pos 2) users refl refl refl refl refl

-- ===== src/Query/Statement/Refine.antt =====
-- A whole SELECT is its tokens, numbered from one.
use filtrx.Base.{
  ℕ, ◌≡◌, Bool, Option, List, ◌∷◌, ◌++◌, append_assoc, length, length-append, Bytes, codes,
}
use native.Mathlib.Nat.{zero-add, add_assoc}
use filtrx.Dialect.{Dialect}
use filtrx.Base.Int.{ℤ}
use filtrx.Value.{Value}
use filtrx.Cond.{Cond, build}
use filtrx.Cond.Tokens.{Token, lit, holes, render, holes-append, render-append}
use filtrx.Query.{Query, OrderTerm}
use filtrx.Query.Statement.{
  Statement, where_sql, limit_offset, finish, build_select, keyset_limit, build_keyset_select,
}
use filtrx.Query.Statement.Clauses.{
  cond_tokens, clause, grouping_tokens, order_tokens, page_tokens, keyset_tokens, finish_tokens,
  select_tokens, keyset_select_tokens,
}
use filtrx.Query.Statement.Numbering.{
  CanRank, piece, statement, build_at-piece, write_group_having-piece, write_order-piece,
  limit_offset-piece, keyset_limit-piece, where_sql-clause, holes-clause,
}

-- Four parts behind a head, each numbered behind the arguments so far, are one sequence.
four_parts :
    (d : Dialect) (head : Bytes) (w g o p : List Token)
    → ◌≡◌ {A = Statement}
        (record {
          sql =
              head
              ++ render d 0 w
              ++ render d (length (holes w)) g
              ++ render d (length (holes w ++ holes g)) o
              ++ render d (length (holes w ++ holes g ++ holes o)) p;
          args = holes w ++ holes g ++ holes o ++ holes p;
        })
        (statement d ((lit head ∷ w) ++ (g ++ (o ++ p))))
four_parts d head w g o p =
    unfold render holes in
    simp (render-append, holes-append, append_assoc, length-append, zero-add, add_assoc)

finish-statement :
    (q : Query) (head : Bytes) (c : Option Cond) (order : List OrderTerm)
    (page : ℕ → Bytes × List Value) (page_ts : List Token)
    → CanRank q.dialect order
    → ((n : ℕ) → page n ≡ piece q.dialect n page_ts)
    → finish q
        (head ++ where_sql (render q.dialect 0 (cond_tokens q.dialect c)))
        (holes (cond_tokens q.dialect c))
        order
        page
      ≡ statement q.dialect (finish_tokens q head c order page_ts)
unfolding finish finish_tokens
finish-statement q head c order page page_ts can paged =
    rw
      (
        write_group_having-piece q (holes (cond_tokens q.dialect c)),
        write_order-piece q.dialect order _ can,
        paged,
        where_sql-clause,
      )
      (rw (← holes-clause (codes " WHERE ") (cond_tokens q.dialect c)) (
        four_parts q.dialect head (clause (codes " WHERE ") (cond_tokens q.dialect c))
          (grouping_tokens q) (order_tokens q.dialect order) page_ts))

-- The SELECT of an offset page is the text of its tokens: the placeholders of WHERE, HAVING, the
-- relevance terms, LIMIT and OFFSET are numbered one by one from the first, and the arguments are
-- the values of the holes in that order. Relevance terms need a dialect that has them.
pub build_select-statement :
    (q : Query) (c : Option Cond) (limit offset : ℤ) (window : Bool)
    → CanRank q.dialect q.order
    → build_select q (build c q.dialect).0 (build c q.dialect).1 limit offset window
      ≡ statement q.dialect (select_tokens q c limit offset window)
unfolding build_select select_tokens build
build_select-statement q c limit offset window can = rw build_at-piece (
    finish-statement q _ c q.order (limit_offset q.dialect limit offset)
      (page_tokens q.dialect limit offset) can (limit_offset-piece q.dialect limit offset))

-- The SELECT of a keyset page is the text of its tokens, for any ordering: the placeholders of
-- WHERE, HAVING, the relevance terms and LIMIT are numbered one by one from the first, and the
-- arguments are the values of the holes in that order. Relevance terms need a dialect that has them.
pub build_keyset_select-statement :
    (q : Query) (c : Option Cond) (order : List OrderTerm) (limit : ℤ)
    → CanRank q.dialect order
    → build_keyset_select q (build c q.dialect).0 (build c q.dialect).1 order limit
      ≡ statement q.dialect (keyset_select_tokens q c order limit)
unfolding build_keyset_select keyset_select_tokens build
build_keyset_select-statement q c order limit can = rw build_at-piece (
    finish-statement q _ c order (keyset_limit q.dialect limit) (keyset_tokens limit) can
      (keyset_limit-piece q.dialect limit))

-- ===== src/Query/Statement/Clauses.antt =====
-- The tokens of each clause of a SELECT: what it should render to, stated without positions.
use filtrx.Base.{
  Bool, true, false, Option, none, some, List, [], ◌∷◌, ◌++◌, Bytes, codes, is_empty, if◌then◌else◌,
}
use filtrx.Base.Int.{ℤ, pos, ◌+ℤ◌, ltb_ℤ}
use filtrx.Value.{int, text}
use filtrx.Dialect.{Dialect, postgres, mysql, sqlite, quote_ident, order_clause, all_rows_limit}
use filtrx.Cond.{Cond}
use filtrx.Cond.Tokens.{Token, lit, hole}
use filtrx.Cond.Spec.{tokens}
use filtrx.Query.{Query, OrderTerm, RankSpec}
use filtrx.Query.Statement.{from_clause, projection, group_by_sql, window_column}

-- Nothing at all would be written.
unfoldable pub is_blank : List Token → Bool
is_blank [] = true
is_blank (lit s ∷ ts) = if is_empty s then is_blank ts else false
is_blank (hole v ∷ ts) = false

unfoldable pub cond_tokens : Dialect → Option Cond → List Token
cond_tokens d none = []
cond_tokens d (some c) = tokens d c

-- A clause with its keyword, left out where its condition writes nothing.
unfoldable pub clause : Bytes → List Token → List Token
clause keyword ts = if is_blank ts then [] else lit keyword ∷ ts

unfoldable pub grouping_tokens : Query → List Token
grouping_tokens q =
    lit (group_by_sql q.dialect q.group_by)
    ∷ clause (codes " HAVING ") (cond_tokens q.dialect q.having)

unfoldable pub rank_tokens : Dialect → Bytes → RankSpec → List Token
rank_tokens postgres col r =
    lit (codes "ts_rank(" ++ col ++ codes ", websearch_to_tsquery('" ++ r.config ++ codes "', ")
    ∷ hole (text r.query)
    ∷ lit (codes "))")
    ∷ []
rank_tokens mysql col r =
    lit (codes "MATCH(" ++ col ++ codes ") AGAINST(")
    ∷ hole (text r.query)
    ∷ lit (codes " IN NATURAL LANGUAGE MODE)")
    ∷ []
rank_tokens sqlite col r = lit col ∷ []

unfoldable pub term_tokens : Dialect → OrderTerm → Option RankSpec → List Token
term_tokens d o none = lit (order_clause d (quote_ident d o.col) o.desc o.nulls) ∷ []
term_tokens d o (some r) =
    rank_tokens d (quote_ident d o.col) r ++ lit (if o.desc then codes " DESC" else []) ∷ []

unfoldable pub terms_tokens : Dialect → Bool → List OrderTerm → List Token
terms_tokens d later [] = []
terms_tokens d later (o ∷ os) =
    lit (if later then codes ", " else []) ∷ (term_tokens d o o.rank ++ terms_tokens d true os)

unfoldable pub order_tokens : Dialect → List OrderTerm → List Token
order_tokens d [] = []
order_tokens d (o ∷ os) = lit (codes " ORDER BY ") ∷ terms_tokens d false (o ∷ os)

-- One more row than the limit is asked for.
unfoldable pub page_tokens : Dialect → ℤ → ℤ → List Token
page_tokens d limit offset =
    if ltb_ℤ (pos 0) limit
    then lit (codes " LIMIT ")
      ∷ hole (int (limit +ℤ pos 1))
      ∷ lit (codes " OFFSET ")
      ∷ hole (int offset)
      ∷ []
    else if ltb_ℤ (pos 0) offset
    then lit (if is_empty (all_rows_limit d) then [] else codes " LIMIT " ++ all_rows_limit d)
      ∷ lit (codes " OFFSET ")
      ∷ hole (int offset)
      ∷ []
    else []

unfoldable pub keyset_tokens : ℤ → List Token
keyset_tokens limit = lit (codes " LIMIT ") ∷ hole (int limit) ∷ []

-- The clauses of a SELECT whose condition is `c`.
unfoldable pub finish_tokens :
    Query → Bytes → Option Cond → List OrderTerm → List Token → List Token
finish_tokens q head c order page =
    (lit head ∷ clause (codes " WHERE ") (cond_tokens q.dialect c))
    ++ (grouping_tokens q ++ (order_tokens q.dialect order ++ page))

unfoldable pub select_tokens : Query → Option Cond → ℤ → ℤ → Bool → List Token
select_tokens q c limit offset window =
    finish_tokens q
      (codes "SELECT " ++ projection q ++ window_column window ++ codes " FROM " ++ from_clause q) c
      q.order (page_tokens q.dialect limit offset)

unfoldable pub keyset_select_tokens : Query → Option Cond → List OrderTerm → ℤ → List Token
keyset_select_tokens q c order limit =
    finish_tokens q (codes "SELECT " ++ projection q ++ codes " FROM " ++ from_clause q) c order
      (keyset_tokens limit)

-- ===== src/Query/Statement.antt =====
-- query.go and keyset.go: the text and the arguments of the SELECT and COUNT statements.
pub mod Clauses
pub mod Numbering
pub mod Refine
use filtrx.Base.{
  ℕ, suc, ◌+◌, ◌≡◌, refl, Bool, true, false, ◌||◌, Option, none, some, List, [], ◌∷◌, ◌++◌, map,
  length, Bytes, codes, join, is_empty, not, if◌then◌else◌,
}
use filtrx.Base.Int.{ℤ, pos, ◌+ℤ◌, ltb_ℤ}
use filtrx.Dialect.{Dialect, placeholder, quote_ident, order_clause, rank_expr, all_rows_limit}
use filtrx.Cond.{Cond, build_at}
use filtrx.Value.{Value, int, text}
use filtrx.Source.{SourceSpec, render}
use filtrx.Query.{Query, OrderTerm, RankSpec}

pub record Statement : Type 0 where
  pub sql : Bytes
  pub args : List Value

unfoldable pub from_clause : Query → Bytes
from_clause q = elim q.source [ none ↦ [] | some s ↦ render q.dialect s ]

-- The column list where none is given.
unfoldable pub default_projection : Dialect → Option SourceSpec → Bytes
default_projection d none = codes "*"
default_projection d (some s) =
    if is_empty s.alias then codes "*" else quote_ident d s.alias ++ codes ".*"

unfoldable pub projection : Query → Bytes
projection q = elim q.columns [
  | [] ↦ default_projection q.dialect q.source
  | c ∷ cs ↦ join (codes ", ") (c ∷ cs)
]

unfoldable pub where_sql : Bytes → Bytes
where_sql where_text = if is_empty where_text then [] else codes " WHERE " ++ where_text

unfoldable pub group_by_sql : Dialect → List Bytes → Bytes
group_by_sql d [] = []
group_by_sql d (c ∷ cs) = codes " GROUP BY " ++ join (codes ", ") (map (quote_ident d) (c ∷ cs))

-- The HAVING clause behind `grouped`, if its condition renders to something.
unfoldable pub write_having : Bytes → List Value → Bytes × List Value → Bytes × List Value
write_having grouped args (hs, ha) =
    if is_empty hs then (grouped, args) else (grouped ++ codes " HAVING " ++ hs, args ++ ha)

-- `writeGroupHaving`: what it writes, and the running arguments.
unfoldable pub write_group_having : Query → List Value → Bytes × List Value
write_group_having q args =
    let grouped = group_by_sql q.dialect q.group_by in
    elim q.having [
      | none ↦ (grouped, args)
      | some c ↦ write_having grouped args (build_at (some c) q.dialect (length args))
    ]

unfoldable pub has_grouping : Query → Bool
has_grouping q = elim q.group_by [
  | c ∷ cs ↦ true
  | [] ↦ elim q.having [ none ↦ false | some c ↦ true ]
]

-- One round of the loop of `writeOrder`: the text and the argument of a term.
unfoldable pub write_term : Dialect → OrderTerm → Option RankSpec → ℕ → Bytes × List Value
write_term d o none n = (order_clause d (quote_ident d o.col) o.desc o.nulls, [])
write_term d o (some r) n = (
  rank_expr d (quote_ident d o.col) r.config (placeholder d (suc n))
      ++ (if o.desc then codes " DESC" else []),
  text r.query ∷ [],
)

-- The loop of `writeOrder`; the flag says that this is not the first term.
unfoldable pub write_terms : Dialect → Bool → List OrderTerm → ℕ → Bytes × List Value
write_terms d later [] n = ([], [])
write_terms d later (o ∷ os) n =
    let (term, bound) = write_term d o o.rank n in
    let (rest, others) = write_terms d true os (n + length bound) in
    ((if later then codes ", " else []) ++ term ++ rest, bound ++ others)

unfoldable pub write_order : Dialect → List OrderTerm → ℕ → Bytes × List Value
write_order d [] n = ([], [])
write_order d (o ∷ os) n =
    let (terms, bound) = write_terms d false (o ∷ os) n in (codes " ORDER BY " ++ terms, bound)

-- The LIMIT and OFFSET of an offset page behind `n` arguments.
unfoldable pub limit_offset : Dialect → ℤ → ℤ → ℕ → Bytes × List Value
limit_offset d limit offset n =
    if ltb_ℤ (pos 0) limit
    then (
      codes " LIMIT " ++ placeholder d (suc n) ++ codes " OFFSET " ++ placeholder d (suc (suc n)),
      int (limit +ℤ pos 1) ∷ int offset ∷ [],
    )
    else if ltb_ℤ (pos 0) offset
    then (
      (if is_empty (all_rows_limit d) then [] else codes " LIMIT " ++ all_rows_limit d)
          ++ codes " OFFSET "
          ++ placeholder d (suc n),
      int offset ∷ [],
    )
    else ([], [])

unfoldable pub window_column : Bool → Bytes
window_column window = if window then codes ", COUNT(*) OVER() AS " ++ codes "_filtrx_total" else []

-- The clauses behind WHERE: grouping, then ordering, then the page.
unfoldable pub finish :
    Query → Bytes → List Value → List OrderTerm → (ℕ → Bytes × List Value) → Statement
finish q head where_args order page =
    let (grouped, args) = write_group_having q where_args in
    let (ordered, rank_args) = write_order q.dialect order (length args) in
    let (paged, page_args) = page (length (args ++ rank_args)) in
    record { sql = head ++ grouped ++ ordered ++ paged; args = (args ++ rank_args) ++ page_args }

unfoldable pub build_select : Query → Bytes → List Value → ℤ → ℤ → Bool → Statement
build_select q where_text where_args limit offset window =
    finish q
      (codes "SELECT "
        ++ projection q
        ++ window_column window
        ++ codes " FROM "
        ++ from_clause q
        ++ where_sql where_text)
      where_args q.order (limit_offset q.dialect limit offset)

-- The LIMIT of a keyset page behind `n` arguments.
unfoldable pub keyset_limit : Dialect → ℤ → ℕ → Bytes × List Value
keyset_limit d limit n = (codes " LIMIT " ++ placeholder d (suc n), int limit ∷ [])

unfoldable pub build_keyset_select : Query → Bytes → List Value → List OrderTerm → ℤ → Statement
build_keyset_select q where_text where_args order limit =
    finish q
      (codes "SELECT " ++ projection q ++ codes " FROM " ++ from_clause q ++ where_sql where_text)
      where_args order (keyset_limit q.dialect limit)

-- The statement that `count` runs.
unfoldable pub count_statement : Query → Bytes → List Value → Statement
count_statement q where_text args =
    if has_grouping q
    then (let (grouped, args') = write_group_having q args in
        record {
          sql =
              codes "SELECT COUNT(*) FROM (SELECT 1 FROM "
              ++ from_clause q
              ++ where_sql where_text
              ++ grouped
              ++ codes ") AS _filtrx_grp";
          args = args';
        })
    else record {
      sql = codes "SELECT COUNT(*) FROM " ++ from_clause q ++ where_sql where_text;
      args = args;
    }

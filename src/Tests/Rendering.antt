-- ===== src/Tests/Rendering.antt =====
-- Conditions, identifiers and statements of cond.go, dialect.go and query.go on concrete inputs.
use filtrx.Base.{◌≡◌, refl, true, none, some, [], ◌∷◌, ◌++◌, codes, arith}
use filtrx.Base.Int.{pos}
use filtrx.Value.{int, text, slice, nil as no_values, cons as with_value}
use filtrx.Dialect.{
  postgres, mysql, quote, quote_ident, order_clause, nulls_first, supports_relevance,
}
use filtrx.Dialect.Quoting.{read_identifier, read_identifier-quote}
use filtrx.Cond.{Cond, leaf, raw, eq, in_list, and_of, or_of, build, build_at, op_class}
use filtrx.Cond.Constructors.{in_of, not_in_of, raw_of}
use filtrx.Cond.Tokens.{holes, render}
use filtrx.Cond.Spec.{tokens}
use filtrx.Cond.Render.{build_at-render}
use filtrx.Cond.Shape.{erase, erase_operand, build_at-same_text}
use filtrx.Query.{Query, from_table, order_by, order_by_relevance, set_having, add_order}
use filtrx.Running.{running}
use filtrx.Query.Statement.{build_select, build_keyset_select}
use filtrx.Query.Statement.Clauses.{select_tokens, keyset_select_tokens}
use filtrx.Query.Statement.Numbering.{statement}
use filtrx.Query.Statement.Refine.{build_select-statement, build_keyset_select-statement}

quoted_star : quote_ident postgres (codes "u.*") ≡ codes "\"u\".*"
unfolding running
quoted_star = refl

quoted_dot : quote_ident mysql (codes "u.st`atus") ≡ codes "`u`.`st``atus`"
unfolding running
quoted_dot = refl

mysql_nulls : order_clause mysql (codes "a") true nulls_first ≡ codes "ISNULL(a) DESC, a DESC"
unfolding running
mysql_nulls = refl

abbrev roles : Cond
roles = and_of (
    some (leaf (codes "a") eq (int (pos 1)))
    ∷ none
    ∷ some (
        leaf (codes "b") in_list
          (slice (with_value (int (pos 2)) (with_value (int (pos 3)) no_values))))
    ∷ some (raw (codes "f(?)=?") (int (pos 4) ∷ []))
    ∷ [])

rendered_roles : build (some roles) postgres ≡ (
  codes "(\"a\" = $1 AND \"b\" IN ($2, $3) AND f($4)=)",
  int (pos 1) ∷ int (pos 2) ∷ int (pos 3) ∷ int (pos 4) ∷ [],
)
unfolding running
rendered_roles = refl

-- A group without children is no nil child: it stays, and writes nothing between the joiners.
empty_group_kept :
    build (some (and_of (some (or_of []) ∷ some (leaf (codes "a") eq (int (pos 1))) ∷ []))) postgres
    ≡ (codes "( AND \"a\" = $1)", int (pos 1) ∷ [])
unfolding running
empty_group_kept = refl

read_identifier-quote_example :
    read_identifier b'"' (quote (codes "a\"b") b'"' ++ codes " = $1")
    ≡ some (codes "a\"b", codes " = $1")
unfolding codes
read_identifier-quote_example =
    read_identifier-quote b'"' (codes "a\"b") (codes " = $1") (omega arith)

build_at-render_example :
    build_at (some roles) mysql 3
    ≡ (render mysql 3 (tokens mysql roles), holes (tokens mysql roles))
build_at-render_example = build_at-render roles mysql 3

abbrev friendly : Cond
friendly = leaf (codes "name") eq (text (codes "ann"))

abbrev hostile : Cond
hostile = leaf (codes "name") eq (text (codes "x' OR 1=1 --"))

build_at-same_text_example :
    (build_at (some friendly) postgres 0).0 ≡ (build_at (some hostile) postgres 0).0
unfolding erase erase_operand op_class
build_at-same_text_example = build_at-same_text friendly hostile postgres 0 refl

abbrev ranked : Query
ranked = set_having (some (raw (codes "COUNT(*) > ?") (int (pos 1) ∷ []))) (
    order_by (codes "id")
      (order_by_relevance (codes "body") (codes "fast") (from_table (codes "t"))))

build_select-statement_example :
    build_select ranked
      (build (some roles) ranked.dialect).0
      (build (some roles) ranked.dialect).1
      (pos 20)
      (pos 40)
      true
    ≡ statement ranked.dialect (select_tokens ranked (some roles) (pos 20) (pos 40) true)
unfolding set_having order_by order_by_relevance add_order from_table supports_relevance
build_select-statement_example =
    build_select-statement ranked (some roles) (pos 20) (pos 40) true (λ e. refl)

build_keyset_select-statement_example :
    build_keyset_select ranked
      (build (some roles) ranked.dialect).0
      (build (some roles) ranked.dialect).1
      ranked.order
      (pos 21)
    ≡ statement ranked.dialect (keyset_select_tokens ranked (some roles) ranked.order (pos 21))
unfolding set_having order_by order_by_relevance add_order from_table supports_relevance
build_keyset_select-statement_example =
    build_keyset_select-statement ranked (some roles) ranked.order (pos 21) (λ e. refl)

paged : build_select ranked (codes "1=1") [] (pos 20) (pos 40) true ≡ record {
  sql =
      codes
        "SELECT *, COUNT(*) OVER() AS _filtrx_total FROM \"t\" WHERE 1=1 HAVING COUNT(*) > $1 ORDER BY ts_rank(\"body\", websearch_to_tsquery('english', $2)) DESC, \"id\" LIMIT $3 OFFSET $4";
  args = int (pos 1) ∷ text (codes "fast") ∷ int (pos 21) ∷ int (pos 40) ∷ [];
}
unfolding running
paged = refl

lists :
    (build (some (in_of (codes "id") (slice (with_value (int (pos 1)) no_values)))) postgres
      ≡ (codes "\"id\" IN ($1)", int (pos 1) ∷ []))
    × (build (some (not_in_of (codes "id") (slice no_values))) postgres ≡ (codes "1=1", []))
    × (build (some (raw_of (codes "f(?)") (int (pos 1) ∷ []))) postgres
        ≡ (codes "f($1)", int (pos 1) ∷ []))
unfolding running in_of not_in_of raw_of
lists = (refl, refl, refl)

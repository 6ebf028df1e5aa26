-- ===== src/Tests/Writing.antt =====
-- Delete and Update of mutate.go on concrete queries.
use mathlib.Core.List.{Permᴰ}
use filtrx.Base.{none, ◌≡◌, ◌≢◌, refl, some, [], ◌∷◌, ◌++◌, codes}
use filtrx.Base.Int.{pos}
use filtrx.Base.Compare.{bytes_eq, lookup}
use filtrx.Value.{int}
use filtrx.Cond.{leaf, eq}
use filtrx.Query.{Query, from_table, set_cond}
use filtrx.Query.Statement.{Statement, from_clause}
use filtrx.Query.Statement.Numbering.{statement}
use filtrx.Running.{running}
use filtrx.Mutate.{ready, delete, update, Assignments}
use filtrx.Mutate.Guard.{Plain, filter_text, filter_args, delete-ready}
use filtrx.Mutate.Refine.{update_tokens, update-statement}
use filtrx.Mutate.Sorted.{update-perm}

abbrev one_row : Query
one_row = set_cond (some (leaf (codes "id") eq (int (pos 7)))) (from_table (codes "t"))

abbrev every_row : Query
every_row = from_table (codes "t")

abbrev assignments : Assignments
assignments = (codes "b", int (pos 2)) ∷ (codes "a", int (pos 1)) ∷ []

abbrev delete_one : Statement
delete_one = record { sql = codes "DELETE FROM \"t\" WHERE \"id\" = $1"; args = int (pos 7) ∷ [] }

abbrev update_one : Statement
update_one = record {
  sql = codes "UPDATE \"t\" SET \"a\" = $1, \"b\" = $2 WHERE \"id\" = $3";
  args = int (pos 1) ∷ int (pos 2) ∷ int (pos 7) ∷ [];
}

deleted : delete one_row ≡ ready delete_one
unfolding running
deleted = refl

updated : update one_row assignments ≡ ready update_one
unfolding running
updated = refl

delete-ready_example :
    (one_row.err ≡ none)
    × Plain one_row.source
    × (filter_text one_row ≢ [])
    × (delete_one ≡ record {
      sql = codes "DELETE FROM " ++ from_clause one_row ++ codes " WHERE " ++ filter_text one_row;
      args = filter_args one_row;
    })
unfolding from_table set_cond
delete-ready_example = delete-ready one_row deleted refl

update-statement_example :
    update_one ≡ statement one_row.dialect (update_tokens one_row assignments)
unfolding from_table set_cond
update-statement_example = update-statement one_row assignments updated refl

update-perm_example :
    update one_row assignments
    ≡ update one_row ((codes "a", int (pos 1)) ∷ (codes "b", int (pos 2)) ∷ [])
unfolding lookup codes bytes_eq
update-perm_example =
    update-perm one_row assignments ((codes "a", int (pos 1)) ∷ (codes "b", int (pos 2)) ∷ [])
      (Permᴰ.swap refl refl) (refl, (refl, tt))

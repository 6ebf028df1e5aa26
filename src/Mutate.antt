-- ===== src/Mutate.antt =====
-- mutate.go: filter-driven DELETE and UPDATE.
pub mod Guard
pub mod Sorted
pub mod Refine
use filtrx.Base.{
  ℕ, zero, suc, ◌+◌, ◌≡◌, refl, Bool, true, false, ◌&&◌, ◌||◌, not, Option, none, some, List, [],
  ◌∷◌, ◌++◌, map, length, Bytes, codes, is_empty, ltb, ◌==◌, if◌then◌else◌,
}
use filtrx.Base.Int.{ℤ, pos}
use filtrx.Base.Compare.{bytes_le, lookup}
use filtrx.Value.{Value, null}
use filtrx.Dialect.{Dialect, quote_ident, placeholder}
use filtrx.Cond.{Cond, build, build_at}
use filtrx.Source.{SourceSpec}
use filtrx.Query.{Query, CompileError, joined_source, no_assignment, no_filter, effective_cond}
use filtrx.Query.Statement.{Statement, from_clause, where_sql}

-- A statement to run, or the compile error that is returned in its place.
pub data Prepared : Type 0 where
  ready : Statement → Prepared
  refused : CompileError → Prepared

-- The test of `singleTable`.
unfoldable pub is_joined : Option SourceSpec → Bool
is_joined none = false
is_joined (some s) = not (is_empty s.alias) || (elim s.joins [ [] ↦ false | j ∷ js ↦ true ])

unfoldable pub single_table : Query → Option CompileError
single_table q = if is_joined q.source then some joined_source else none

-- `if err := …; err != nil { return }`
abbrev pub unless : Option CompileError → Prepared → Prepared
unless (some e) p = refused e
unless none p = p

unfoldable pub delete_checked : Query → Bytes × List Value → Prepared
delete_checked q (where_text, args) =
    if is_empty where_text && not q.unfiltered
    then refused no_filter
    else ready (record {
      sql = codes "DELETE FROM " ++ from_clause q ++ where_sql where_text;
      args = args;
    })

-- `Delete` up to the call of `exec`.
unfoldable pub delete : Query → Prepared
delete q =
    unless q.err (unless (single_table q) (delete_checked q (build (effective_cond q) q.dialect)))

-- sort.Strings
unfoldable pub insert_sorted : Bytes → List Bytes → List Bytes
insert_sorted c [] = c ∷ []
insert_sorted c (x ∷ xs) = if bytes_le c x then c ∷ x ∷ xs else x ∷ insert_sorted c xs

unfoldable pub sort_strings : List Bytes → List Bytes
sort_strings [] = []
sort_strings (c ∷ cs) = insert_sorted c (sort_strings cs)

-- The entries of a Go map in the order of an iteration; no key stands twice.
abbrev pub Assignments : Type 0
Assignments = List (Bytes × Value)

abbrev pub key_of : Bytes × Value → Bytes
key_of e = e.0

-- set[c]
unfoldable pub assigned : Assignments → Bytes → Value
assigned set c = elim (lookup c set) [ none ↦ null | some v ↦ v ]

-- The loop over the sorted columns behind `n` arguments; the flag says that it is not the first.
unfoldable pub write_assignments : Dialect → Bool → ℕ → List Bytes → Bytes
write_assignments d later n [] = []
write_assignments d later n (c ∷ cs) =
    (if later then codes ", " else [])
    ++ quote_ident d c
    ++ codes " = "
    ++ placeholder d (suc n)
    ++ write_assignments d true (suc n) cs

-- The WHERE behind the assignments, rendered anew so that its placeholders follow theirs.
unfoldable pub update_where : Query → ℕ → Bytes → List Value → Bytes × List Value
update_where q n where_text where_args =
    if is_empty where_text
    then ([], where_args)
    else (let again = build_at (effective_cond q) q.dialect n in
        (codes " WHERE " ++ again.0, again.1))

unfoldable pub update_checked : Query → Assignments → Bytes × List Value → Prepared
update_checked q set (where_text, where_args) =
    if is_empty where_text && not q.unfiltered
    then refused no_filter
    else (let cols = sort_strings (map key_of set) in
        let (filter_text, filter_args) = update_where q (length cols) where_text where_args in
        ready (record {
          sql =
              codes "UPDATE "
              ++ from_clause q
              ++ codes " SET "
              ++ write_assignments q.dialect false 0 cols
              ++ filter_text;
          args = map (assigned set) cols ++ filter_args;
        }))

unfoldable pub no_assignments : Assignments → Option CompileError
no_assignments [] = some no_assignment
no_assignments (e ∷ es) = none

-- `Update` up to the call of `exec`.
unfoldable pub update : Query → Assignments → Prepared
update q set = unless q.err (
    unless (single_table q)
      (unless (no_assignments set) (update_checked q set (build (effective_cond q) q.dialect))))

-- How the database answers a statement: a failure, or a result that may not count its rows.
pub data Execution : Type 0 where
  exec_failed : Execution
  executed : Option ℤ → Execution

pub data Outcome : Type 0 where
  affected : ℤ → Outcome
  compile_failed : CompileError → Outcome
  query_failed : Outcome

unfoldable pub exec : (Statement → Execution) → Statement → Outcome
exec db s = elim (db s) [
  | exec_failed ↦ query_failed
  | executed none ↦ affected (pos 0)
  | executed (some n) ↦ affected n
]

-- `Delete` and `Update` on a database.
unfoldable pub run : (Statement → Execution) → Prepared → Outcome
run db (refused e) = compile_failed e
run db (ready s) = exec db s

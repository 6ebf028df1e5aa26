-- ===== src/Mutate/Guard.antt =====
-- What Delete and Update refuse, and what a statement that they run looks like.
use filtrx.Base.{
  ◌≡◌, ◌≢◌, refl, Bool, true, false, not, ◌||◌, if◌then◌else◌, Option, none, some, List, [], ◌∷◌,
  ◌++◌, map, length, append_assoc, Bytes, codes, is_empty, Bool-cases, inl, inr,
}
use filtrx.Value.{Value}
use filtrx.Cond.{build, build_at}
use filtrx.Query.{Query, CompileError, joined_source, no_filter, effective_cond}
use filtrx.Source.{SourceSpec, JoinSpec}
use filtrx.Query.Statement.{Statement, from_clause, where_sql}
use filtrx.Mutate.{
  Prepared, ready, refused, unless, is_joined, single_table, delete_checked, delete, Assignments,
  no_assignments, update_checked, update, update_where, sort_strings, key_of, assigned,
  write_assignments,
}

-- The text of the query's whole filter, soft-delete scope included.
abbrev pub filter_text : Query → Bytes
filter_text q = (build (effective_cond q) q.dialect).0

abbrev pub filter_args : Query → List Value
filter_args q = (build (effective_cond q) q.dialect).1

unless-ready :
    (e : Option CompileError) (p : Prepared) {s : Statement}
    → unless e p ≡ ready s
    → (e ≡ none) × (p ≡ ready s)
unless-ready none p h = (refl, h)
unless-ready (some e) p h = cc

is_empty-ne : (w : Bytes) → is_empty w ≡ false → w ≢ []
unfolding is_empty
is_empty-ne [] h = cc
is_empty-ne (c ∷ w) h = λ e. cc

assignments-ne : (set : Assignments) → no_assignments set ≡ none → set ≢ []
unfolding no_assignments
assignments-ne [] h = cc
assignments-ne (e ∷ es) h = λ p. cc

-- The table of the query has no alias and no joins.
abbrev pub Plain : Option SourceSpec → Type 0
Plain none = Unit
Plain (some s) = (s.alias ≡ []) × (s.joins ≡ [])

no_joins :
    (js : List JoinSpec)
    → (let out : Bool = elim js [ [] ↦ false | j ∷ js' ↦ true ] in out) ≡ false
    → js ≡ []
no_joins [] h = refl
no_joins (j ∷ js) h = absurd (cc)

no_alias :
    (a : Bytes) (rest : Bool) → (not (is_empty a) || rest) ≡ false → (a ≡ []) × (rest ≡ false)
unfolding is_empty
no_alias [] rest h = (refl, h)
no_alias (c ∷ a) rest h = absurd (cc)

is_joined-Plain : (src : Option SourceSpec) → is_joined src ≡ false → Plain src
unfolding is_joined
is_joined-Plain none h = tt
is_joined-Plain (some s) h =
    let (alias, rest) = no_alias s.alias _ h in (alias, no_joins s.joins rest)

refused_if : (b : Bool) (e : CompileError) → (if b then some e else none) ≡ none → b ≡ false
refused_if true e h = absurd (cc)
refused_if false e h = refl

single_table-Plain : (q : Query) → single_table q ≡ none → Plain q.source
unfolding single_table
single_table-Plain q h = is_joined-Plain q.source (refused_if (is_joined q.source) joined_source h)

delete_checked-ready :
    (q : Query) (w : Bytes) (args : List Value) {s : Statement}
    → delete_checked q (w, args) ≡ ready s
    → q.unfiltered ≡ false
    → (w ≢ [])
      × (s ≡ record {
        sql = codes "DELETE FROM " ++ from_clause q ++ codes " WHERE " ++ w;
        args = args;
      })
unfolding delete_checked where_sql
delete_checked-ready q w args h u = elim (Bool-cases (is_empty w)) [
  | inl e ↦ cc (rw (e, delete_checked, u) at h)
  | inr e ↦ (
    is_empty-ne w e,
    cc (
      rw (e, delete_checked, where_sql) at h,
      append_assoc (codes "DELETE FROM " ++ from_clause q) (codes " WHERE ") w,
    ),
  )
]

-- A DELETE that is run without Unfiltered is one of a query that had no error, on a table without an
-- alias and joins, if it has one, and with a filter that is not empty: its text is DELETE FROM the
-- table WHERE the query's filter, scope included, and its arguments are the filter's.
pub delete-ready :
    (q : Query) {s : Statement}
    → delete q ≡ ready s
    → q.unfiltered ≡ false
    → (q.err ≡ none)
      × Plain q.source
      × (filter_text q ≢ [])
      × (s ≡ record {
        sql = codes "DELETE FROM " ++ from_clause q ++ codes " WHERE " ++ filter_text q;
        args = filter_args q;
      })
unfolding delete
delete-ready q h u =
    let (no_error, single) = unless-ready q.err _ h in
    let (plain, checked) = unless-ready (single_table q) _ single in
    let (filtered, text) = delete_checked-ready q (filter_text q) (filter_args q) checked u in
    (no_error, single_table-Plain q plain, filtered, text)

update_checked-ready :
    (q : Query) (set : Assignments) (w : Bytes) (args : List Value) {s : Statement}
    → update_checked q set (w, args) ≡ ready s
    → q.unfiltered ≡ false
    → let cols = sort_strings (map key_of set) in
      let again = build_at (effective_cond q) q.dialect (length cols) in
      (w ≢ [])
      × (s ≡ record {
        sql =
            codes "UPDATE "
            ++ from_clause q
            ++ codes " SET "
            ++ write_assignments q.dialect false 0 cols
            ++ (codes " WHERE " ++ again.0);
        args = map (assigned set) cols ++ again.1;
      })
unfolding update_checked update_where
update_checked-ready q set w args h u = elim (Bool-cases (is_empty w)) [
  | inl e ↦ cc (rw (e, update_checked, u) at h)
  | inr e ↦ (is_empty-ne w e, cc (rw (e, update_checked, update_where) at h))
]

-- An UPDATE that is run without Unfiltered has a filter that is not empty and at least one column to
-- set: its text is UPDATE the table SET the assignments WHERE the query's filter, scope included,
-- rendered behind the assignments, and its arguments are the assigned values, then the filter's.
pub update-ready :
    (q : Query) (set : Assignments) {s : Statement}
    → update q set ≡ ready s
    → q.unfiltered ≡ false
    → let cols = sort_strings (map key_of set) in
      let again = build_at (effective_cond q) q.dialect (length cols) in
      (set ≢ [])
      × (filter_text q ≢ [])
      × (s ≡ record {
        sql =
            codes "UPDATE "
            ++ from_clause q
            ++ codes " SET "
            ++ write_assignments q.dialect false 0 cols
            ++ (codes " WHERE " ++ again.0);
        args = map (assigned set) cols ++ again.1;
      })
unfolding update
update-ready q set h u =
    let (no_error, single) = unless-ready q.err _ h in
    let (plain, some_set) = unless-ready (single_table q) _ single in
    let (has_set, checked) = unless-ready (no_assignments set) _ some_set in
    let (filtered, text) = update_checked-ready q set (filter_text q) (filter_args q) checked u in
    (assignments-ne set has_set, filtered, text)

-- Without a filter, without Unfiltered and on a plain table, Delete and Update both refuse and run
-- nothing, whatever the assignments are.
pub unfiltered_refused :
    (q : Query) (a : Bytes × Value) (set : Assignments)
    → q.err ≡ none
    → single_table q ≡ none
    → filter_text q ≡ []
    → q.unfiltered ≡ false
    → (delete q ≡ refused no_filter) × (update q (a ∷ set) ≡ refused no_filter)
unfolding delete update delete_checked update_checked is_empty no_assignments
unfiltered_refused q a set e single f u = (simp (e, single, f, u), simp (e, single, f, u))

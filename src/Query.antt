-- ===== src/Query.antt =====
-- query.go: the fluent `Query`. A method that returns its receiver is a function on queries.
pub mod Statement
pub mod Scope
use filtrx.Base.{
  ℕ, ◌+◌, ◌≡◌, refl, Bool, true, false, ◌&&◌, ◌||◌, not, Option, none, some, List, [], ◌∷◌, ◌++◌,
  Bytes, codes, split, is_empty, drop_first, ◌==◌, if◌then◌else◌,
}
use filtrx.Base.Int.{ℤ, pos}
use filtrx.Dialect.{
  Dialect, postgres, NullsPos, nulls_default, nulls_first, nulls_last, supports_relevance,
}
use filtrx.Cond.{Cond, leaf, is_null, is_not_null, and_of}
use filtrx.Value.{null}
use filtrx.Paginate.{PagingParams, no_paging}
use filtrx.Source.{SourceSpec}

-- A full-text relevance ordering: the search string and the Postgres configuration.
pub record RankSpec : Type 0 where
  pub query : Bytes
  pub config : Bytes

pub record OrderTerm : Type 0 where
  pub col : Bytes
  pub desc : Bool
  pub nulls : NullsPos
  pub rank : Option RankSpec

pub data SoftScope : Type 0 where
  scope_active scope_with_deleted scope_only_deleted : SoftScope

-- The reasons of `ErrCompile`; a deferred one is stored in the query.
pub data CompileError : Type 0 where
  filter_error no_table_marker sort_key_not_allowed both_cursors joined_source no_assignment
        no_filter no_relevance seek_needs_order seek_size seek_relevance seek_field bad_cursor
        cursor_length not_seek :
      CompileError

pub record SeekState : Type 0 where
  pub cursor : Bytes
  pub before : Bool
  pub size : ℤ
  pub total : Bool

pub record SeekParams : Type 0 where
  pub after : Bytes
  pub before : Bytes
  pub size : ℤ
  pub include_total : Bool

pub record Query : Type 0 where
  pub source : Option SourceSpec
  pub columns : List Bytes
  pub cond : Option Cond
  pub group_by : List Bytes
  pub having : Option Cond
  pub order : List OrderTerm
  pub paging : PagingParams
  pub seek : Option SeekState
  pub dialect : Dialect
  pub unfiltered : Bool
  pub soft_delete_col : Bytes
  pub soft_scope : SoftScope
  pub err : Option CompileError

-- &Query{dialect: Postgres}
abbrev pub new_query : Query
new_query = record {
  source = none;
  columns = [];
  cond = none;
  group_by = [];
  having = none;
  order = [];
  paging = no_paging;
  seek = none;
  dialect = postgres;
  unfiltered = false;
  soft_delete_col = [];
  soft_scope = scope_active;
  err = none;
}

unfoldable pub from_table : Bytes → Query
from_table table = record new_query {
  source = some (record { table = table; alias = []; joins = [] });
}

-- What `compileFilter` returns for a filter struct.
pub data Compiled : Type 0 where
  compiled : Option Cond → Option SourceSpec → Compiled
  rejected : Compiled

unfoldable pub where_filter : Compiled → Query → Query
where_filter rejected q = record q { err = some filter_error }
where_filter (compiled c none) q = record q { cond = c }
where_filter (compiled c (some src)) q = record q { cond = c; source = some src }

-- The check of `For` on the source.
unfoldable pub lacks_table : Option SourceSpec → Bool
lacks_table none = true
lacks_table (some s) = is_empty s.table

unfoldable pub require_table : Option CompileError → Query → Query
require_table (some e) q = q
require_table none q = if lacks_table q.source then record q { err = some no_table_marker } else q

unfoldable pub for_filter : Compiled → Query
for_filter f = let q = where_filter f new_query in require_table q.err q

unfoldable pub select : List Bytes → Query → Query
select cols q = record q { columns = cols }

unfoldable pub set_cond : Option Cond → Query → Query
set_cond c q = record q { cond = c }

unfoldable pub add_order : OrderTerm → Query → Query
add_order o q = record q { order = q.order ++ o ∷ [] }

abbrev pub plain_term : Bytes → Bool → OrderTerm
plain_term col desc = record { col = col; desc = desc; nulls = nulls_default; rank = none }

unfoldable pub order_by : Bytes → Query → Query
order_by col q = add_order (plain_term col false) q

unfoldable pub order_by_desc : Bytes → Query → Query
order_by_desc col q = add_order (plain_term col true) q

unfoldable pub order_by_nulls : Bytes → Bool → Bool → Query → Query
order_by_nulls col desc first q =
    add_order
      (record {
        col = col;
        desc = desc;
        nulls = (if first then nulls_first else nulls_last);
        rank = none;
      })
      q

unfoldable pub order_by_relevance : Bytes → Bytes → Query → Query
order_by_relevance col query q =
    add_order
      (record {
        col = col;
        desc = true;
        nulls = nulls_default;
        rank = some (record { query = query; config = codes "english" });
      })
      q

unfoldable pub group_by_cols : List Bytes → Query → Query
group_by_cols cols q = record q { group_by = q.group_by ++ cols }

unfoldable pub set_having : Option Cond → Query → Query
set_having c q = record q { having = c }

unfoldable pub page : PagingParams → Query → Query
page p q = record q { paging = p }

unfoldable pub on_dialect : Dialect → Query → Query
on_dialect d q = record q { dialect = d }

unfoldable pub soft_delete : Bytes → Query → Query
soft_delete col q = record q { soft_delete_col = col; soft_scope = scope_active }

unfoldable pub with_deleted : Query → Query
with_deleted q = record q { soft_scope = scope_with_deleted }

unfoldable pub only_deleted : Query → Query
only_deleted q = record q { soft_scope = scope_only_deleted }

unfoldable pub set_unfiltered : Query → Query
set_unfiltered q = record q { unfiltered = true }

-- `Seek` of keyset.go.
unfoldable pub seek : SeekParams → Query → Query
seek p q =
    if not (is_empty p.after) && not (is_empty p.before)
    then record q { err = some both_cursors }
    else record q {
      seek = some (
          if is_empty p.before
          then record { cursor = p.after; before = false; size = p.size; total = p.include_total }
          else record { cursor = p.before; before = true; size = p.size; total = p.include_total });
    }

unfoldable pub any_rank : List OrderTerm → Bool
any_rank [] = false
any_rank (o ∷ os) = elim o.rank [ none ↦ any_rank os | some r ↦ true ]

unfoldable pub has_relevance_order : Query → Bool
has_relevance_order q = any_rank q.order

-- The scope's condition on the soft-delete column.
unfoldable pub scope_cond : SoftScope → Bytes → Option Cond
scope_cond scope_active col = some (leaf col is_null null)
scope_cond scope_with_deleted col = none
scope_cond scope_only_deleted col = some (leaf col is_not_null null)

-- The filter and the scope together, where either may be absent.
unfoldable pub both : Option Cond → Option Cond → Option Cond
both c none = c
both none (some s) = some s
both (some c) (some s) = some (and_of (some c ∷ some s ∷ []))

unfoldable pub effective_cond : Query → Option Cond
effective_cond q =
    if is_empty q.soft_delete_col
    then q.cond
    else both q.cond (scope_cond q.soft_scope q.soft_delete_col)

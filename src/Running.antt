-- ===== src/Running.antt =====
-- To name `running` on an `unfolding` line opens the definitions that render a statement.
use filtrx.Base.{codes, contains, itoa, join, split, is_empty}
use filtrx.Base.Compare.{bytes_eq, bytes_le, lookup}
use filtrx.Base.Int.{wrap, neg, ◌+ℤ◌, ◌-ℤ◌}
use filtrx.Value.{as_slice, elems}
use filtrx.Dialect.{
  double, full_text_match, is_star, placeholder, quote, quote_ident, quote_name, quote_segment,
  order_clause, supports_nulls_ordering, rank_expr, all_rows_limit, supports_relevance,
}
use filtrx.Cond.{
  write, write_leaf, empty_list_sql, write_operand, op_class, write_bound, write_sql, bind, and_of,
  or_of, compact, empty_slice, joiner, op_sql, write_elems, write_full_text, write_list,
  write_parts, build, build_at,
}
use filtrx.Source.{aliased, render, render_join, render_joins}
use filtrx.Query.{
  from_table, set_cond, order_by, order_by_relevance, add_order, set_having, page, soft_delete,
  effective_cond, both, scope_cond,
}
use filtrx.Query.Statement.{
  from_clause, where_sql, projection, default_projection, write_group_having, group_by_sql,
  write_having, write_order, write_terms, write_term, limit_offset, window_column, finish,
  build_select, count_statement, has_grouping,
}
use filtrx.Mutate.{
  single_table, is_joined, delete_checked, delete, update, update_checked, update_where,
  no_assignments, write_assignments, assigned, sort_strings, insert_sorted,
}

unfoldable pub running : Unit {0}
unfolding codes contains itoa join split is_empty bytes_eq bytes_le lookup wrap neg ◌+ℤ◌ ◌-ℤ◌
    as_slice elems double full_text_match is_star placeholder quote quote_ident quote_name
    quote_segment order_clause supports_nulls_ordering rank_expr all_rows_limit supports_relevance
    write write_leaf empty_list_sql write_operand op_class write_bound write_sql bind and_of or_of
    compact empty_slice joiner op_sql write_elems write_full_text write_list write_parts build
    build_at aliased render render_join render_joins from_table set_cond order_by order_by_relevance
    add_order set_having page soft_delete effective_cond both scope_cond from_clause where_sql
    projection default_projection write_group_having group_by_sql write_having write_order
    write_terms write_term limit_offset window_column finish build_select count_statement
    has_grouping single_table is_joined delete_checked delete update update_checked update_where
    no_assignments write_assignments assigned sort_strings insert_sorted
running = tt

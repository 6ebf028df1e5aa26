-- ===== src/Tests/Cursors.antt =====
-- keyset.go and connection.go: keyset pages against a database that reads its arguments.
use filtrx.Base.{
  ℕ, suc, ◌≡◌, refl, true, false, Option, none, some, List, [], ◌∷◌, map, take, drop, codes, Bytes,
  arith,
}
use filtrx.Base.Int.{pos}
use filtrx.Value.{Value, int}
use filtrx.Query.{Query, SeekState, from_table, order_by, has_relevance_order, any_rank}
use filtrx.Query.Statement.{Statement, build_keyset_select, keyset_limit}
use filtrx.Keyset.{
  keyset_cond, branches, after_compare, after_value, after_null, null_eq, is_nil, or_nothing,
}
use filtrx.Listing.{Db, Reply, ok, fetched, broken}
use filtrx.Listing.Scan.{answer}
use filtrx.Seeking.{
  Codec, Mapper, KeysetResult, run_keyset, unless_error, seek_error, fetch_fields, key_fields,
  add_field, unqualify, last_part, seek_filter, with_boundary, fetch_keyset, fetch_order,
  finish_keyset, finish_cursors, keyset_counted, encode_all, add_cursor, natural_order, drop_extra,
  sliced, slice_to, reverse_from, scan_reply, scan_keys, key, reverse,
}
use filtrx.Seeking.Rows.{in_order}
use filtrx.Seeking.Page.{run_keyset-page}
use filtrx.Connection.Safe.{Calm, list_connection-Calm}
use filtrx.Connection.{first_cursor, last_cursor, Connection, list_connection}
use filtrx.Connection.Edges.{list_connection-edges, Labelled}
use filtrx.Running.{running}

abbrev pub users : List ℕ
users = 0 ∷ 1 ∷ 2 ∷ 3 ∷ 4 ∷ 5 ∷ []

-- The rows with a greater id than the cursor's.
abbrev serve : List Value → Reply ℕ
serve (int (pos k) ∷ int (pos l) ∷ []) =
    fetched (answer false (pos 0) (take l (drop (suc k) users)))
serve (int (pos l) ∷ []) = fetched (answer false (pos 0) (take l users))
serve _ = fetched broken

abbrev pub users_db : Db ℕ
users_db = record { query = λ s. serve s.args; count = λ s. some (pos 6) }

abbrev encode_id : List Value → Option Bytes
encode_id (int (pos n) ∷ []) = some (n ∷ [])
encode_id _ = none

abbrev decode_id : Bytes → Option (List Value)
decode_id (n ∷ []) = some (int (pos n) ∷ [])
decode_id _ = none

abbrev pub id_codec : Codec
id_codec = record { encode = encode_id; decode = decode_id }

abbrev pub id_of : ℕ → Value
id_of n = int (pos n)

abbrev pub id_mapper : Mapper ℕ
id_mapper = record { field = λ col. some id_of }

abbrev after_one : SeekState
after_one = record { cursor = 1 ∷ []; before = false; size = pos 2; total = true }

abbrev pub users_query : Query
users_query = record (order_by (codes "u.id") (from_table (codes "users"))) {
  seek = some after_one;
}

abbrev keyset_select : Statement
keyset_select = record {
  sql = codes "SELECT * FROM \"users\" WHERE \"u\".\"id\" > $1 ORDER BY \"u\".\"id\" LIMIT $2";
  args = int (pos 1) ∷ int (pos 3) ∷ [];
}

abbrev users_count : Statement
users_count = record { sql = codes "SELECT COUNT(*) FROM \"users\""; args = [] }

abbrev two_after_one : KeysetResult
two_after_one = record {
  cursors = (2 ∷ []) ∷ (3 ∷ []) ∷ [];
  truncated = true;
  total = pos 6;
  total_set = true;
}

unqualified : unqualify (codes "s.u.id") ≡ codes "id"
unfolding running unqualify last_part
unqualified = refl

run_after_one : run_keyset users_db id_codec id_mapper users_query after_one [] ≡ record {
  result = ok two_after_one;
  dest = 2 ∷ 3 ∷ [];
  issued = keyset_select ∷ users_count ∷ [];
}
unfolding running run_keyset unless_error seek_error fetch_fields key_fields add_field unqualify
    last_part seek_filter with_boundary fetch_keyset fetch_order finish_keyset finish_cursors
    keyset_counted encode_all add_cursor natural_order drop_extra sliced slice_to reverse_from
    scan_reply scan_keys key reverse keyset_cond branches after_compare after_value after_null
    null_eq is_nil or_nothing build_keyset_select keyset_limit has_relevance_order any_rank
run_after_one = refl

run_keyset-page_example :
    run_keyset users_db id_codec id_mapper users_query after_one (9 ∷ []) ≡ record {
      result = ok two_after_one;
      dest = 9 ∷ 2 ∷ 3 ∷ [];
      issued = keyset_select ∷ users_count ∷ [];
    }
unfolding running seek_error key_fields add_field unqualify last_part seek_filter with_boundary
    fetch_order encode_all add_cursor key keyset_cond in_order branches after_compare after_value
    after_null null_eq is_nil or_nothing build_keyset_select keyset_limit has_relevance_order
    any_rank
run_keyset-page_example =
    run_keyset-page users_db id_codec id_mapper users_query (1 ∷ []) false true 2 6 (id_of ∷ []) _
      ((2 ∷ []) ∷ (3 ∷ []) ∷ []) (9 ∷ []) (2 ∷ 3 ∷ 4 ∷ 5 ∷ []) refl (omega arith) refl refl refl
      refl refl

list_connection-edges_example :
    (conn : Connection ℕ) × (list_connection users_db id_codec id_mapper users_query ≡ ok conn)
    × (map (λ e. e.node) conn.edges ≡ 2 ∷ 3 ∷ [])
    × Labelled id_codec (id_of ∷ []) conn.edges
    × (conn.page_info.has_next_page ≡ true)
    × (conn.page_info.has_previous_page ≡ true)
    × (conn.page_info.start_cursor ≡ first_cursor two_after_one.cursors)
    × (conn.page_info.end_cursor ≡ last_cursor [] two_after_one.cursors)
    × (conn.total_count ≡ pos 6)
unfolding running encode_all add_cursor key
list_connection-edges_example =
    list_connection-edges users_db id_codec id_mapper users_query after_one (id_of ∷ [])
      two_after_one (2 ∷ 3 ∷ []) _ refl refl run_after_one refl

list_connection-Calm_example : Calm (list_connection users_db id_codec id_mapper users_query)
list_connection-Calm_example = list_connection-Calm users_db id_codec id_mapper users_query

-- ===== src/Connection.antt =====
-- What `List` and `ListConnection` make of a keyset page: listKeyset of keyset.go, connection.go.
pub mod Edges
pub mod Safe
pub mod Errors
pub mod Walk
pub mod Relay
pub mod Complete
use filtrx.Base.{
  ℕ, Bool, true, false, Option, none, some, List, [], ◌∷◌, Bytes, is_empty, not, if◌then◌else◌,
}
use filtrx.Base.Int.{ℤ, pos, negsuc}
use filtrx.Paginate.{index_out_of_range}
use filtrx.Query.{Query, SeekState, CompileError, not_seek}
use filtrx.Listing.{
  PageInfo, empty_info, Db, Result, ok, compile_error, query_error, panicked, Listed, list_offset,
}
use filtrx.Seeking.{Codec, Mapper, KeysetResult, Ran, run_keyset}

unfoldable pub first_cursor : List Bytes → Bytes
first_cursor [] = []
first_cursor (c ∷ cs) = c

unfoldable pub last_cursor : Bytes → List Bytes → Bytes
last_cursor c [] = c
last_cursor c (d ∷ ds) = last_cursor d ds

unfoldable pub keyset_info : KeysetResult → PageInfo
keyset_info r = record empty_info {
  truncated = r.truncated;
  start_cursor = first_cursor r.cursors;
  end_cursor = last_cursor [] r.cursors;
  total = (if r.total_set then r.total else pos 0);
}

unfoldable pub keyset_listed : Result KeysetResult → Result PageInfo
keyset_listed (ok r) = ok (keyset_info r)
keyset_listed (compile_error e) = compile_error e
keyset_listed query_error = query_error
keyset_listed (panicked p) = panicked p

-- `listKeyset`
unfoldable pub list_keyset {ℓ} :
    {T : Type ℓ} → Db T → Codec → Mapper T → Query → SeekState → List T → Listed T
list_keyset db codec mapper q s dest =
    let r = run_keyset db codec mapper q s dest in
    record { result = keyset_listed r.result; dest = r.dest; issued = r.issued }

-- `List`
unfoldable pub list {ℓ} : {T : Type ℓ} → Db T → Codec → Mapper T → Query → List T → Listed T
list db codec mapper q dest = elim q.err [
  | some e ↦ record { result = compile_error e; dest = dest; issued = [] }
  | none ↦ elim q.seek [
    | some s ↦ list_keyset db codec mapper q s dest
    | none ↦ list_offset db q dest
  ]
]

pub record Edge {ℓ} (T : Type ℓ) : Type ℓ where
  pub node : T
  pub cursor : Bytes

pub record RelayPageInfo : Type 0 where
  pub has_next_page : Bool
  pub has_previous_page : Bool
  pub start_cursor : Bytes
  pub end_cursor : Bytes

pub record Connection {ℓ} (T : Type ℓ) : Type ℓ where
  pub edges : List (Edge T)
  pub page_info : RelayPageInfo
  pub total_count : ℤ

unfoldable pub add_edge {ℓ} :
    {T : Type ℓ} → Edge T → Option (List (Edge T)) → Option (List (Edge T))
add_edge e (some es) = some (e ∷ es)
add_edge e none = none

-- The loop over the rows, which indexes the cursors.
unfoldable pub edges_of {ℓ} : {T : Type ℓ} → List T → List Bytes → Option (List (Edge T))
edges_of [] cs = some []
edges_of (r ∷ rs) [] = none
edges_of (r ∷ rs) (c ∷ cs) = add_edge (record { node = r; cursor = c }) (edges_of rs cs)

unfoldable pub relay_info : SeekState → KeysetResult → RelayPageInfo
relay_info s r = record {
  has_next_page = (if s.before then not (is_empty s.cursor) else r.truncated);
  has_previous_page = (if s.before then r.truncated else not (is_empty s.cursor));
  start_cursor = first_cursor r.cursors;
  end_cursor = last_cursor [] r.cursors;
}

unfoldable pub connected {ℓ} :
    {T : Type ℓ} → SeekState → KeysetResult → Option (List (Edge T)) → Result (Connection T)
connected s r none = panicked index_out_of_range
connected s r (some es) = ok (record {
  edges = es;
  page_info = relay_info s r;
  total_count = (if r.total_set then r.total else negsuc 0);
})

unfoldable pub connection_of {ℓ} :
    {T : Type ℓ} → SeekState → Result KeysetResult → List T → Result (Connection T)
connection_of s (ok r) rows = connected s r (edges_of rows r.cursors)
connection_of s (compile_error e) rows = compile_error e
connection_of s query_error rows = query_error
connection_of s (panicked p) rows = panicked p

-- The checks of `ListConnection`, in front of what it does with the seek state.
unfoldable pub with_seek {ℓ} :
    {A : Type ℓ} → Option CompileError → Option SeekState → (SeekState → Result A) → Result A
with_seek (some e) seek rest = compile_error e
with_seek none none rest = compile_error not_seek
with_seek none (some s) rest = rest s

-- `ListConnection`
unfoldable pub list_connection {ℓ} :
    {T : Type ℓ} → Db T → Codec → Mapper T → Query → Result (Connection T)
list_connection db codec mapper q =
    with_seek q.err q.seek
      (λ s. let r = run_keyset db codec mapper q s [] in connection_of s r.result r.dest)

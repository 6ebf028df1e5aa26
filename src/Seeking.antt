-- ===== src/Seeking.antt =====
-- keyset.go: a keyset page against a database, from the checks of `runKeyset` to its cursors.
pub mod Slices
pub mod Rows
pub mod Page
pub mod Lengths
use filtrx.Base.{
  ℕ, suc, ◌+◌, Bool, true, false, not, Option, none, some, List, [], ◌∷◌, ◌++◌, map, length, take,
  drop, Bytes, split, is_empty, ◌==◌, leb, if◌then◌else◌,
}
use filtrx.Paginate.{index_out_of_range}
use filtrx.Base.Int.{ℤ, pos, negsuc, ◌+ℤ◌, ltb_ℤ, leb_ℤ}
use filtrx.Value.{Value}
use filtrx.Cond.{Cond, build, and_of}
use filtrx.Query.{
  Query, OrderTerm, SeekState, CompileError, seek_needs_order, seek_size, seek_relevance,
  seek_field, bad_cursor, cursor_length, has_relevance_order, effective_cond,
}
use filtrx.Query.Statement.{Statement, build_keyset_select, count_statement}
use filtrx.Keyset.{keyset_cond, reversed_order}
use filtrx.Listing.{
  PageInfo, empty_info, Fetch, Reply, Db, Result, ok, compile_error, query_error, panicked, row,
  scan_failed, broken, done, refused_query, fetched, Listed, list_offset,
}

-- The encoding of boundary values as a cursor, and back.
pub record Codec : Type 0 where
  pub encode : List Value → Option Bytes
  pub decode : Bytes → Option (List Value)

-- sqlx's mapper: the field of the row type for a column name.
pub record Mapper {ℓ} (T : Type ℓ) : Type ℓ where
  pub field : Bytes → Option (T → Value)

unfoldable pub last_part : Bytes → List Bytes → Bytes
last_part p [] = p
last_part p (q ∷ ps) = last_part q ps

unfoldable pub unqualify : Bytes → Bytes
unqualify col = last_part [] (split b'.' col)

-- `reverse` as the list it leaves.
unfoldable pub reverse {ℓ} : {A : Type ℓ} → List A → List A
reverse [] = []
reverse (x ∷ xs) = reverse xs ++ x ∷ []

pub record KeysetResult : Type 0 where
  pub cursors : List Bytes
  pub truncated : Bool
  pub total : ℤ
  pub total_set : Bool

-- The result, the destination slice, and the statements that were run, in order.
pub record Ran {ℓ} (T : Type ℓ) (A : Type 0) : Type ℓ where
  pub result : Result A
  pub dest : List T
  pub issued : List Statement

unfoldable pub add_field {ℓ} :
    {T : Type ℓ} → Option (T → Value) → Option (List (T → Value)) → Option (List (T → Value))
add_field (some f) (some fs) = some (f ∷ fs)
add_field (some f) none = none
add_field none fs = none

-- The fields of the order columns, if each has one.
unfoldable pub key_fields {ℓ} : {T : Type ℓ} → Mapper T → List OrderTerm → Option (List (T → Value))
key_fields mapper [] = some []
key_fields mapper (o ∷ os) = add_field (mapper.field (unqualify o.col)) (key_fields mapper os)

unfoldable pub key {ℓ} : {T : Type ℓ} → List (T → Value) → T → List Value
key fs t = map (λ f. f t) fs

pub data Filter : Type 0 where
  usable : Option Cond → Filter
  unusable : CompileError → Filter

-- The base filter with the seek predicate, for decoded boundary values.
unfoldable pub with_boundary : Query → SeekState → Option (List Value) → Filter
with_boundary q s none = unusable bad_cursor
with_boundary q s (some vals) =
    if length vals == length q.order
    then usable (some (and_of (effective_cond q ∷ some (keyset_cond q.order vals s.before) ∷ [])))
    else unusable cursor_length

unfoldable pub seek_filter : Codec → Query → SeekState → Filter
seek_filter codec q s =
    if is_empty s.cursor
    then usable (effective_cond q)
    else with_boundary q s (codec.decode s.cursor)

unfoldable pub fetch_order : Query → SeekState → List OrderTerm
fetch_order q s = if s.before then reversed_order q.order else q.order

-- The scan of `runKeyset`: the destination and the keys, or an error with what was appended so far.
pub data Keyed {ℓ} (T : Type ℓ) : Type ℓ where
  keyed : List T → List (List Value) → Keyed T
  failed_keys : List T → Keyed T

module _ {ℓ} {T : Type ℓ} where
  unfoldable pub scan_keys : List (T → Value) → Fetch T → List T → List (List Value) → Keyed T
  scan_keys fs done dest keys = keyed dest keys
  scan_keys fs broken dest keys = failed_keys dest
  scan_keys fs scan_failed dest keys = failed_keys dest
  scan_keys fs (row t total rest) dest keys =
      scan_keys fs rest (dest ++ t ∷ []) (keys ++ key fs t ∷ [])

  unfoldable pub scan_reply : List (T → Value) → Reply T → List T → Keyed T
  scan_reply fs refused_query dest = failed_keys dest
  scan_reply fs (fetched f) dest = scan_keys fs f dest []

-- `xs[:start+n]`, none where Go panics: at a negative bound, and behind the rows that are there. (How
-- far the array goes on behind them is not modelled.)
unfoldable pub slice_to {ℓ} : {A : Type ℓ} → ℕ → ℤ → List A → Option (List A)
slice_to start (negsuc n) xs = none
slice_to start (pos n) xs = if leb (start + n) (length xs) then some (take (start + n) xs) else none

-- The cut of the extra row behind `start`, where there was one more.
unfoldable pub drop_extra {ℓ} : {A : Type ℓ} → Bool → ℕ → ℤ → List A → Option (List A)
drop_extra more start size xs = if more then slice_to start size xs else some xs

-- `reverse(xs[start:])`, in place.
unfoldable pub reverse_from {ℓ} : {A : Type ℓ} → ℕ → List A → Option (List A)
reverse_from start xs =
    if leb start (length xs) then some (take start xs ++ reverse (drop start xs)) else none

unfoldable pub natural_order {ℓ} : {A : Type ℓ} → Bool → ℕ → List A → Option (List A)
natural_order before start xs = if before then reverse_from start xs else some xs

unfoldable pub add_cursor : Option Bytes → Option (List Bytes) → Option (List Bytes)
add_cursor (some c) (some cs) = some (c ∷ cs)
add_cursor (some c) none = none
add_cursor none cs = none

unfoldable pub encode_all : Codec → List (List Value) → Option (List Bytes)
encode_all codec [] = some []
encode_all codec (k ∷ ks) = add_cursor (codec.encode k) (encode_all codec ks)

-- The total of the query's own filter, without the seek predicate.
unfoldable pub keyset_counted : Option ℤ → KeysetResult → Result KeysetResult
keyset_counted none res = query_error
keyset_counted (some n) res = ok (record res { total = n; total_set = true })

-- A slice of the rows and one of their keys, and what follows where neither panics.
unfoldable pub sliced {ℓ} :
    {T : Type ℓ}
    → Option (List T)
    → Option (List (List Value))
    → List T
    → List Statement
    → (List T → List (List Value) → Ran T KeysetResult)
    → Ran T KeysetResult
sliced (some d) (some ks) dest issued rest = rest d ks
sliced (some d) none dest issued rest = record {
  result = panicked index_out_of_range;
  dest = d;
  issued = issued;
}
sliced none ks dest issued rest = record {
  result = panicked index_out_of_range;
  dest = dest;
  issued = issued;
}

module _ {ℓ} {T : Type ℓ} (db : Db T) (codec : Codec) (q : Query) (s : SeekState) where
  unfoldable pub finish_cursors :
      Option (List Bytes) → Bool → List T → List Statement → Ran T KeysetResult
  finish_cursors none more dest issued = record {
    result = query_error;
    dest = dest;
    issued = issued;
  }
  finish_cursors (some cs) more dest issued =
      let res : KeysetResult = record {
        cursors = cs;
        truncated = more;
        total = pos 0;
        total_set = false;
      } in
      let (where_text, where_args) = build (effective_cond q) q.dialect in
      let counting = count_statement q where_text where_args in
      if s.total
      then record {
        result = keyset_counted (db.count counting) res;
        dest = dest;
        issued = issued ++ counting ∷ [];
      }
      else record { result = ok res; dest = dest; issued = issued }

  -- Behind the scan, where the destination had `start` rows.
  unfoldable pub finish_keyset : Keyed T → ℕ → List Statement → Ran T KeysetResult
  finish_keyset (failed_keys dest) start issued = record {
    result = query_error;
    dest = dest;
    issued = issued;
  }
  finish_keyset (keyed dest keys) start issued =
      let more = ltb_ℤ s.size (pos (length keys)) in
      sliced (drop_extra more start s.size dest) (drop_extra more 0 s.size keys) dest issued
        (λ d ks.
          sliced (natural_order s.before start d) (natural_order s.before 0 ks) d issued
            (λ d' ks'. finish_cursors (encode_all codec ks') more d' issued))

  unfoldable pub fetch_keyset : List (T → Value) → Filter → List T → Ran T KeysetResult
  fetch_keyset fs (unusable e) dest = record { result = compile_error e; dest = dest; issued = [] }
  fetch_keyset fs (usable c) dest =
      let (where_text, where_args) = build c q.dialect in
      let selecting =
        build_keyset_select q where_text where_args (fetch_order q s) (s.size +ℤ pos 1) in
      finish_keyset (scan_reply fs (db.query selecting) dest) (length dest) (selecting ∷ [])

  unfoldable pub fetch_fields : Option (List (T → Value)) → List T → Ran T KeysetResult
  fetch_fields none dest = record { result = compile_error seek_field; dest = dest; issued = [] }
  fetch_fields (some fs) dest = fetch_keyset fs (seek_filter codec q s) dest

-- The checks in front.
unfoldable pub seek_error : Query → SeekState → Option CompileError
seek_error q s = elim q.order [
  | [] ↦ some seek_needs_order
  | o ∷ os ↦
      if leb_ℤ s.size (pos 0)
      then some seek_size
      else if has_relevance_order q
      then some seek_relevance
      else none
]

unfoldable pub unless_error {ℓ} :
    {T : Type ℓ} {A : Type 0} → Option CompileError → List T → Ran T A → Ran T A
unless_error (some e) dest rest = record { result = compile_error e; dest = dest; issued = [] }
unless_error none dest rest = rest

-- `runKeyset` with the query's seek state.
unfoldable pub run_keyset {ℓ} :
    {T : Type ℓ} → Db T → Codec → Mapper T → Query → SeekState → List T → Ran T KeysetResult
run_keyset db codec mapper q s dest =
    unless_error (seek_error q s) dest (fetch_fields db codec q s (key_fields mapper q.order) dest)

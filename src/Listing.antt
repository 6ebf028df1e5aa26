-- ===== src/Listing.antt =====
-- `List` of query.go on offset pages, against a database that is a parameter: what it runs, what it
-- appends to the destination, and the `PageInfo` it returns.
pub mod Scan
pub mod Offset
pub mod Errors
use filtrx.Base.{
  ℕ, suc, ◌+◌, Bool, true, false, ◌&&◌, ◌||◌, not, Option, none, some, List, [], ◌∷◌, ◌++◌, take,
  Bytes, ltb, if◌then◌else◌,
}
use filtrx.Base.Int.{ℤ, pos, pos_part, ltb_ℤ}
use filtrx.Value.{Value}
use filtrx.Dialect.{supports_relevance}
use filtrx.Cond.{build}
use filtrx.Paginate.{Panic, Paginated, panic, no_rows, window, paginate, needs_total, resolve}
use filtrx.Query.{Query, CompileError, no_relevance, has_relevance_order, effective_cond}
use filtrx.Query.Statement.{Statement, build_select, count_statement}

pub record PageInfo : Type 0 where
  pub total : ℤ
  pub offset : ℤ
  pub truncated : Bool
  pub start_cursor : Bytes
  pub end_cursor : Bytes

-- PageInfo{}
abbrev pub empty_info : PageInfo
empty_info = record {
  total = pos 0;
  offset = pos 0;
  truncated = false;
  start_cursor = [];
  end_cursor = [];
}

-- The rows of a result as they are scanned, each with the window total if the result has that
-- column; a scan may fail, and the iteration may end with an error.
pub data Fetch {ℓ} (T : Type ℓ) : Type ℓ where
  row : T → Option ℤ → Fetch T → Fetch T
  scan_failed : Fetch T
  broken : Fetch T
  done : Fetch T

pub data Reply {ℓ} (T : Type ℓ) : Type ℓ where
  refused_query : Reply T
  fetched : Fetch T → Reply T

-- sqlx on a database: a query's rows as `T` values, and the number that a COUNT returns.
pub record Db {ℓ} (T : Type ℓ) : Type ℓ where
  pub query : Statement → Reply T
  pub count : Statement → Option ℤ

pub data Result {ℓ} (A : Type ℓ) : Type ℓ where
  ok : A → Result A
  compile_error : CompileError → Result A
  query_error : Result A
  panicked : Panic → Result A

-- The result, the destination slice, and the statements that were run, in order.
pub record Listed {ℓ} (T : Type ℓ) : Type ℓ where
  pub result : Result PageInfo
  pub dest : List T
  pub issued : List Statement

-- `selectRows` returns the number of rows and the total, or an error with what was appended so far.
pub data Scanned {ℓ} (T : Type ℓ) : Type ℓ where
  scanned : List T → ℕ → ℤ → Scanned T
  failed_scan : List T → Scanned T

unfoldable pub count_result : Option ℤ → PageInfo → Result PageInfo
count_result none info = query_error
count_result (some n) info = ok (record info { total = n })

-- The query was limited and a further row was there.
unfoldable pub is_truncated : ℤ → ℕ → Bool
is_truncated limit n = ltb_ℤ (pos 0) limit && ltb_ℤ limit (pos n)

module _ {ℓ} {T : Type ℓ} where
  -- The loop over `rows.Next()`: the destination, the rows so far and the sink of the total.
  unfoldable pub scan_rows : Fetch T → List T → ℕ → ℤ → Scanned T
  scan_rows done dest n sink = scanned dest n sink
  scan_rows broken dest n sink = failed_scan dest
  scan_rows scan_failed dest n sink = failed_scan dest
  scan_rows (row t none rest) dest n sink = scan_rows rest (dest ++ t ∷ []) (suc n) sink
  scan_rows (row t (some total) rest) dest n sink = scan_rows rest (dest ++ t ∷ []) (suc n) total

  unfoldable pub select_rows : Reply T → List T → Scanned T
  select_rows refused_query dest = failed_scan dest
  select_rows (fetched f) dest = scan_rows f dest 0 (pos 0)

  -- The extra row is cut off: `*dest = (*dest)[:limit]`.
  unfoldable pub cut : ℤ → ℕ → List T → List T
  cut limit n dest = if is_truncated limit n then take (pos_part limit) dest else dest

module _ {ℓ} {T : Type ℓ} (db : Db T) (q : Query) (where_text : Bytes)
    (where_args : List Value) where
  -- The final `switch`: the total from before, from the window, or from one more COUNT.
  unfoldable pub with_total : Bool → Bool → ℕ → ℤ → PageInfo → List T → List Statement → Listed T
  with_total pre_counted wanted n sink info dest issued =
      if pre_counted || not wanted
      then record { result = ok info; dest = dest; issued = issued }
      else if ltb 0 n
      then record { result = ok (record info { total = sink }); dest = dest; issued = issued }
      else (let s = count_statement q where_text where_args in
          record {
            result = count_result (db.count s) info;
            dest = dest;
            issued = issued ++ s ∷ [];
          })

  unfoldable pub finish_page : Scanned T → Bool → ℤ → PageInfo → List Statement → Listed T
  finish_page (failed_scan dest) pre_counted limit info issued = record {
    result = query_error;
    dest = dest;
    issued = issued;
  }
  finish_page (scanned dest n sink) pre_counted limit info issued =
      with_total pre_counted q.paging.include_total n sink
        (record info { truncated = is_truncated limit n }) (cut limit n dest) issued

  -- From the call of the paginator on.
  unfoldable pub fetch_page : Bool → ℤ → ℤ × ℤ → List T → List Statement → Listed T
  fetch_page pre_counted total (limit, offset) dest issued =
      let s =
        build_select q where_text where_args limit offset
          (q.paging.include_total && not pre_counted) in
      finish_page (select_rows (db.query s) dest) pre_counted limit
        (record empty_info { total = total; offset = offset }) (issued ++ s ∷ [])

  -- A COUNT that has to come first.
  unfoldable pub pre_count : Option ℤ → ℤ → ℤ → List T → List Statement → Listed T
  pre_count none limit offset dest issued = record {
    result = query_error;
    dest = dest;
    issued = issued;
  }
  pre_count (some n) limit offset dest issued =
      fetch_page true n (resolve limit offset n) dest issued

  unfoldable pub list_page : Paginated → List T → Listed T
  list_page (panic p) dest = record { result = panicked p; dest = dest; issued = [] }
  list_page (no_rows wanted) dest =
      let s = count_statement q where_text where_args in
      if wanted
      then record { result = count_result (db.count s) empty_info; dest = dest; issued = s ∷ [] }
      else record { result = ok empty_info; dest = dest; issued = [] }
  list_page (window limit offset) dest =
      let s = count_statement q where_text where_args in
      if needs_total limit
      then pre_count (db.count s) limit offset dest (s ∷ [])
      else fetch_page false (pos 0) (resolve limit offset (pos 0)) dest []

-- The checks in front of an offset page: the deferred error, and relevance ordering.
unfoldable pub unless_refused {ℓ} :
    {T : Type ℓ} → Option CompileError → Bool → List T → Listed T → Listed T
unless_refused (some e) unranked dest rest = record {
  result = compile_error e;
  dest = dest;
  issued = [];
}
unless_refused none true dest rest = record {
  result = compile_error no_relevance;
  dest = dest;
  issued = [];
}
unless_refused none false dest rest = rest

unfoldable pub cannot_rank : Query → Bool
cannot_rank q = has_relevance_order q && not (supports_relevance q.dialect)

-- `List` on a query without Seek.
unfoldable pub list_offset {ℓ} : {T : Type ℓ} → Db T → Query → List T → Listed T
list_offset db q dest =
    let (where_text, where_args) = build (effective_cond q) q.dialect in
    unless_refused q.err (cannot_rank q) dest
      (list_page db q where_text where_args (paginate q.paging) dest)

unfoldable pub counted : Option ℤ → Result ℤ
counted none = query_error
counted (some n) = ok n

-- The method `Count`.
unfoldable pub count_matching {ℓ} : {T : Type ℓ} → Db T → Query → Result ℤ
count_matching db q = elim q.err [
  | some e ↦ compile_error e
  | none ↦
      let (where_text, where_args) = build (effective_cond q) q.dialect in
      counted (db.count (count_statement q where_text where_args))
]

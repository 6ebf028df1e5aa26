-- ===== src/Listing/Errors.antt =====
-- When List on an offset page returns a compile error.
use filtrx.Base.{
  ℕ, ◌≡◌, Bool, true, false, ◌||◌, not, Option, none, some, List, [], Bytes, ltb, Bool-cases, inl,
  inr,
}
use filtrx.Base.Int.{ℤ, pos}
use filtrx.Value.{Value}
use filtrx.Cond.{build}
use filtrx.Paginate.{Paginated, panic, no_rows, window, paginate, needs_total, resolve}
use filtrx.Query.{Query, CompileError, effective_cond}
use filtrx.Query.Statement.{Statement, count_statement}
use filtrx.Listing.{
  PageInfo, empty_info, Db, Result, compile_error, Listed, Scanned, scanned, failed_scan,
  count_result, is_truncated, cut, with_total, finish_page, fetch_page, pre_count, list_page,
  unless_refused, cannot_rank, list_offset,
}

abbrev pub NoCompileError {ℓ} : {A : Type ℓ} → Result A → Type 0
NoCompileError (compile_error e) = ⊥
NoCompileError r = Unit

NoCompileError-count_result :
    (n : Option ℤ) (info : PageInfo) → NoCompileError (count_result n info)
unfolding count_result
NoCompileError-count_result none info = tt
NoCompileError-count_result (some n) info = tt

module _ {ℓ} {T : Type ℓ} (db : Db T) (q : Query) (where_text : Bytes)
    (where_args : List Value) where
  NoCompileError-with_total :
      (pre wanted : Bool) (n : ℕ) (sink : ℤ) (info : PageInfo) (dest : List T)
      (issued : List Statement)
      → NoCompileError
          (with_total db q where_text where_args pre wanted n sink info dest issued).result
  unfolding with_total
  NoCompileError-with_total pre wanted n sink info dest issued =
      elim (Bool-cases (pre || not wanted)) [
        | inl fine ↦ rw fine tt
        | inr more ↦ elim (Bool-cases (ltb 0 n)) [
          | inl rows ↦ rw (more, rows) tt
          | inr empty ↦
              rw (more, empty)
                (NoCompileError-count_result (db.count (count_statement q where_text where_args))
                  info)
        ]
      ]

  NoCompileError-finish_page :
      (s : Scanned T) (pre : Bool) (limit : ℤ) (info : PageInfo) (issued : List Statement)
      → NoCompileError (finish_page db q where_text where_args s pre limit info issued).result
  unfolding finish_page
  NoCompileError-finish_page (failed_scan dest) pre limit info issued = tt
  NoCompileError-finish_page (scanned dest n sink) pre limit info issued =
      NoCompileError-with_total pre q.paging.include_total n sink
        (record info { truncated = is_truncated limit n }) (cut limit n dest) issued

  NoCompileError-fetch_page :
      (pre : Bool) (total : ℤ) (at_rows : ℤ × ℤ) (dest : List T) (issued : List Statement)
      → NoCompileError (fetch_page db q where_text where_args pre total at_rows dest issued).result
  unfolding fetch_page
  NoCompileError-fetch_page pre total (limit, offset) dest issued =
      NoCompileError-finish_page _ pre limit _ _

  NoCompileError-pre_count :
      (n : Option ℤ) (limit offset : ℤ) (dest : List T) (issued : List Statement)
      → NoCompileError (pre_count db q where_text where_args n limit offset dest issued).result
  unfolding pre_count
  NoCompileError-pre_count none limit offset dest issued = tt
  NoCompileError-pre_count (some n) limit offset dest issued =
      NoCompileError-fetch_page true n (resolve limit offset n) dest issued

  NoCompileError-list_page :
      (p : Paginated) (dest : List T)
      → NoCompileError (list_page db q where_text where_args p dest).result
  unfolding list_page
  NoCompileError-list_page (panic p) dest = tt
  NoCompileError-list_page (no_rows true) dest =
      NoCompileError-count_result (db.count (count_statement q where_text where_args)) empty_info
  NoCompileError-list_page (no_rows false) dest = tt
  NoCompileError-list_page (window limit offset) dest = elim (Bool-cases (needs_total limit)) [
    | inl counted ↦ rw counted (NoCompileError-pre_count _ limit offset dest _)
    | inr known ↦ rw known (NoCompileError-fetch_page false (pos 0) _ dest [])
  ]

unless_refused-NoCompileError {ℓ} :
    {T : Type ℓ} (e : Option CompileError) (unranked : Bool) (dest : List T) (rest : Listed T)
    → e ≡ none
    → unranked ≡ false
    → NoCompileError rest.result
    → NoCompileError (unless_refused e unranked dest rest).result
unfolding unless_refused
unless_refused-NoCompileError none false dest rest e u h = h
unless_refused-NoCompileError (some c) u dest rest e r h = absurd (cc)
unless_refused-NoCompileError none true dest rest e u h = absurd (cc)

pub list_offset-NoCompileError {ℓ} :
    {T : Type ℓ} (db : Db T) (q : Query) (dest : List T)
    → q.err ≡ none
    → cannot_rank q ≡ false
    → NoCompileError (list_offset db q dest).result
unfolding list_offset
list_offset-NoCompileError db q dest fine rankable =
    unless_refused-NoCompileError q.err (cannot_rank q) dest _ fine rankable (
      NoCompileError-list_page db q (build (effective_cond q) q.dialect).0
        (build (effective_cond q) q.dialect).1 (paginate q.paging) dest)

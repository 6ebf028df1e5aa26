-- ===== src/Connection/Walk.antt =====
-- Paging forward from end cursor to end cursor, against a database that keeps the rows of a WHERE,
-- in the order of an ORDER BY, up to a LIMIT.
use filtrx.Base.{
  ℕ, zero, suc, ◌+◌, ◌<◌, ◌≡◌, refl, ◌∙◌, ap, Bool, true, false, Option, none, some, List, [], ◌∷◌,
  ◌++◌, map, length, take, Bytes, ltb, is_empty, if◌then◌else◌, arith, Bool-cases, inl, inr, ◌==◌,
}
use filtrx.Base.Int.{pos, half_range}
use filtrx.Value.{Value}
use filtrx.Cond.{Cond, build}
use filtrx.Query.{
  OrderTerm, Query, SeekState, CompileError, effective_cond, scope_cond, seek, has_relevance_order,
}
use filtrx.Query.Statement.{build_keyset_select, count_statement}
use filtrx.Meaning.{Database}
use filtrx.Keyset.Kept.{kept, columns, behind}
use filtrx.Listing.{Db, ok, compile_error, query_error, panicked, Listed, fetched}
use filtrx.Listing.Scan.{answer}
use filtrx.Query.Statement.{Statement}
use filtrx.Seeking.{
  run_keyset, Codec, Mapper, key, key_fields, seek_filter, usable, seek_error, with_boundary,
  encode_all, add_cursor, fetch_order,
}
use filtrx.Seeking.Rows.{in_order}
use filtrx.Seeking.Page.{page_result, run_keyset-page}
use filtrx.Connection.{list, list_keyset, keyset_listed, keyset_info}

-- What a client does: it asks for the next page at the end cursor until none is left.
abbrev pub continue {ℓ} :
    {T : Type ℓ} → (Bytes → List T → Option (List T)) → Listed T → Option (List T)
continue again p = elim p.result [
  | ok info ↦ if info.truncated then again info.end_cursor p.dest else some p.dest
  | compile_error e ↦ none
  | query_error ↦ none
  | panicked x ↦ none
]

abbrev pub pages {ℓ} :
    {T : Type ℓ} → (Bytes → List T → Listed T) → ℕ → Bytes → List T → Option (List T)
pages page zero cursor dest = none
pages page (suc fuel) cursor dest = continue (pages page fuel) (page cursor dest)

-- A query's pages of `suc m` rows: the rows of its table with the value of each column and their
-- cursors, the database and how it compares, what it counts, and whether the total is asked for.
pub record Paging {ℓ} (T : Type ℓ) : Type ℓ where
  pub table : List T
  pub view : T → Bytes → Value
  pub cursor_of : T → Bytes
  pub sem : Database
  pub db : Db T
  pub codec : Codec
  pub mapper : Mapper T
  pub q : Query
  pub m : ℕ
  pub count : ℕ
  pub total : Bool

module _ {ℓ} {T : Type ℓ} (w : Paging T) where
  -- A page of `suc m` rows behind a cursor.
  abbrev pub forward : Bytes → SeekState
  forward cursor = record { cursor = cursor; before = false; size = pos (suc w.m); total = w.total }

  abbrev pub query_at : Bytes → Query
  query_at cursor = record w.q { seek = some (forward cursor) }

  abbrev pub page_at : Bytes → List T → Listed T
  page_at cursor dest =
      list w.db w.codec w.mapper
        (seek
          (record { after = cursor; before = []; size = pos (suc w.m); include_total = w.total })
          w.q)
        dest

  abbrev pub cursor_at : Option T → Bytes
  cursor_at none = []
  cursor_at (some r) = w.cursor_of r

  abbrev pub boundary : Option T → Option Cond
  boundary none = effective_cond w.q
  boundary (some r) = behind w.sem w.view w.q.order (effective_cond w.q) r

  -- The rows that the query is about.
  abbrev pub matching : List T
  matching = kept w.sem w.view (effective_cond w.q) w.table

  -- The database answers the SELECT of the page behind a boundary by its filter, order and limit.
  abbrev pub Served : Option T → Type ℓ
  Served b =
      w.db.query (
        build_keyset_select (query_at (cursor_at b)) (build (boundary b) w.q.dialect).0
          (build (boundary b) w.q.dialect).1 w.q.order (pos (suc w.m + 1)))
      ≡ fetched
          (answer false (pos 0) (take (suc (suc w.m)) (kept w.sem w.view (boundary b) w.table)))

  -- It answers the COUNT of the page as well.
  abbrev pub Counted : Option T → Type 0
  Counted b =
      w.db.count (
        count_statement (query_at (cursor_at b)) (build (effective_cond w.q) w.q.dialect).0
          (build (effective_cond w.q) w.q.dialect).1)
      ≡ some (pos w.count)

  -- A row's key is encoded as a cursor and decoded.
  abbrev pub Encoded : T → Type 0
  Encoded r =
      (w.codec.encode (columns w.sem w.view w.q.order r) ≡ some (w.cursor_of r))
      × (w.codec.decode (w.cursor_of r) ≡ some (columns w.sem w.view w.q.order r))
      × (is_empty (w.cursor_of r) ≡ false)

  abbrev pub Good : T → Type ℓ
  Good r = Encoded r × Served (some r) × Counted (some r)

  abbrev pub AllGood : List T → Type ℓ
  AllGood [] = Unit
  AllGood (r ∷ rs) = Good r × AllGood rs

  pub Good-at : (r : T) (init rest : List T) → AllGood (init ++ r ∷ rest) → Good r
  Good-at r [] rest h = h.0
  Good-at r (x ∷ init) rest (h, hs) = Good-at r init rest hs

  pub Good-part : (pre mid rest : List T) → AllGood (pre ++ (mid ++ rest)) → AllGood mid
  Good-part [] [] rest h = tt
  Good-part [] (x ∷ mid) rest (h, hs) = (h, Good-part [] mid rest hs)
  Good-part (x ∷ pre) mid rest (h, hs) = Good-part pre mid rest hs

  encode_all-Good :
      (fs : List (T → Value)) (rows : List T)
      → ((r : T) → key fs r ≡ columns w.sem w.view w.q.order r)
      → AllGood rows
      → encode_all w.codec (map (key fs) rows) ≡ some (map w.cursor_of rows)
  unfolding encode_all add_cursor
  encode_all-Good fs [] agree h = refl
  encode_all-Good fs (r ∷ rs) agree ((encoded, served, counted), hs) =
      rw (agree r, encoded.0, encode_all-Good fs rs agree hs) refl

  no_error :
      (err : Option CompileError) (seen : CompileError → Listed T) (rest : Listed T)
      → err ≡ none
      → let out : Listed T = elim err [ some e ↦ seen e | none ↦ rest ] in out ≡ rest
  no_error none seen rest h = refl
  no_error (some e) seen rest h = absurd (cc)

  pub seek-forward :
      (cursor : Bytes)
      → seek
          (record { after = cursor; before = []; size = pos (suc w.m); include_total = w.total })
          w.q
        ≡ query_at cursor
  unfolding seek is_empty
  seek-forward cursor = elim (Bool-cases (is_empty cursor)) [
    | inl start ↦ rw start refl
    | inr later ↦ rw later refl
  ]

  page_at-list :
      (cursor : Bytes) (dest : List T)
      → w.q.err ≡ none
      → page_at cursor dest
        ≡ list_keyset w.db w.codec w.mapper (query_at cursor) (forward cursor) dest
  unfolding list
  page_at-list cursor dest fine =
      ap (λ p. list w.db w.codec w.mapper p dest) (seek-forward cursor) ∙ no_error w.q.err _ _ fine

  same_length :
      (order : List OrderTerm) (r : T)
      → (length (columns w.sem w.view order r) == length order) ≡ true
  same_length [] r = refl
  same_length (o ∷ os) r = let h = same_length os r in ground arith

  -- The filter of a page is that of its boundary.
  seek_filter-boundary :
      (b : Option T)
      → ((r : T) → b ≡ some r → Encoded r)
      → seek_filter w.codec (query_at (cursor_at b)) (forward (cursor_at b)) ≡ usable (boundary b)
  unfolding seek_filter with_boundary effective_cond scope_cond is_empty
  seek_filter-boundary none h = refl
  seek_filter-boundary (some r) h =
      let (enc, dec, full) = h r refl in rw (full, dec, same_length w.q.order r) refl

  -- The run behind a boundary, where the rows left are `ys`.
  pub run_keyset-rows :
      (fs : List (T → Value)) (b : Option T) (dest ys : List T)
      → seek_error w.q (forward []) ≡ none
      → suc w.m + 1 < half_range
      → key_fields w.mapper w.q.order ≡ some fs
      → ((r : T) → key fs r ≡ columns w.sem w.view w.q.order r)
      → ((r : T) → b ≡ some r → Encoded r)
      → Served b
      → Counted b
      → kept w.sem w.view (boundary b) w.table ≡ ys
      → AllGood (take (suc w.m) ys)
      → (issued : List Statement) × (run_keyset w.db w.codec w.mapper
            (query_at (cursor_at b))
            (forward (cursor_at b))
            dest
          ≡ record {
            result = ok (
                page_result w.total w.count
                  (ltb (suc w.m) (length ys))
                  (map w.cursor_of (take (suc w.m) ys)));
            dest = dest ++ take (suc w.m) ys;
            issued = issued;
          })
        × (encode_all w.codec (map (key fs) (take (suc w.m) ys))
            ≡ some (map w.cursor_of (take (suc w.m) ys)))
  unfolding seek_error has_relevance_order effective_cond scope_cond fetch_order in_order
  run_keyset-rows fs b dest ys checks small fields agree decodes served counted left good =
      let cur = cursor_at b in
      let encoded = encode_all-Good fs (take (suc w.m) ys) agree good in
      (
        _,
        run_keyset-page w.db w.codec w.mapper (query_at cur) cur false w.total (suc w.m) w.count fs
            (boundary b) (map w.cursor_of (take (suc w.m) ys)) dest ys checks small fields
            (seek_filter-boundary b decodes) (rw left at served) encoded counted,
        encoded,
      )

  -- The page behind a boundary, where the rows left are `ys`.
  pub page_at-rows :
      (fs : List (T → Value)) (b : Option T) (dest ys : List T)
      → w.q.err ≡ none
      → seek_error w.q (forward []) ≡ none
      → suc w.m + 1 < half_range
      → key_fields w.mapper w.q.order ≡ some fs
      → ((r : T) → key fs r ≡ columns w.sem w.view w.q.order r)
      → ((r : T) → b ≡ some r → Encoded r)
      → Served b
      → Counted b
      → kept w.sem w.view (boundary b) w.table ≡ ys
      → AllGood (take (suc w.m) ys)
      → let p = page_at (cursor_at b) dest in
        (p.result
          ≡ ok (
              keyset_info (
                page_result w.total w.count
                  (ltb (suc w.m) (length ys))
                  (map w.cursor_of (take (suc w.m) ys)))))
        × (p.dest ≡ dest ++ take (suc w.m) ys)
  unfolding list_keyset keyset_listed
  page_at-rows fs b dest ys fine checks small fields agree decodes served counted left good =
      let (issued, ran, encoded) =
        run_keyset-rows fs b dest ys checks small fields agree decodes served counted left good in
      rw (page_at-list (cursor_at b) dest fine, ran) (refl, refl)

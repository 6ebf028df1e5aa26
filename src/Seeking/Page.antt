-- ===== src/Seeking/Page.antt =====
-- A keyset page, against a database that gives the rows behind the boundary.
use filtrx.Base.{
  ℕ, suc, ◌+◌, ◌<◌, ◌≡◌, refl, sym, ◌∙◌, ap, length-append, Bool, false, Option, none, some, List,
  [], ◌∷◌, ◌++◌, ltb, map, length, take, Bytes, if◌then◌else◌, Bool-cases, inl, inr, append-nil,
}
use filtrx.Base.Int.{pos, half_range, +ℤ-pos}
use filtrx.Value.{Value}
use filtrx.Cond.{Cond, build}
use filtrx.Query.{Query, SeekState, effective_cond}
use filtrx.Query.Statement.{Statement, build_keyset_select, count_statement}
use filtrx.Listing.{Db, ok, fetched}
use filtrx.Listing.Scan.{answer}
use filtrx.Seeking.{
  Codec, Mapper, KeysetResult, key, key_fields, seek_filter, usable, seek_error, unless_error,
  fetch_order, run_keyset, fetch_fields, fetch_keyset, finish_keyset, finish_cursors, encode_all,
  keyset_counted, scan_reply,
}
use filtrx.Seeking.Slices.{finish_keyset-in_range}
use filtrx.Seeking.Rows.{
  length-map, in_order, scan_reply-answer, first_rows-append, in_turn-append, count-keys, keys_left,
  more_left,
}

-- What a page reports: its cursors, whether rows are left in the paging direction, and the total of
-- the query's filter where it was asked for.
abbrev pub page_result : Bool → ℕ → Bool → List Bytes → KeysetResult
page_result asked count more cs = record {
  cursors = cs;
  truncated = more;
  total = (if asked then pos count else pos 0);
  total_set = asked;
}

module _ {ℓ} {T : Type ℓ} (db : Db T) (codec : Codec) (q : Query) where
  finish_keyset-page :
      (fs : List (T → Value)) (cursor : Bytes) (before total : Bool) (n : ℕ) (dest ys : List T)
      (issued : List Statement)
      → let s : SeekState = record {
        cursor = cursor;
        before = before;
        size = pos n;
        total = total;
      } in
        finish_keyset db codec q s
          (scan_reply fs (fetched (answer false (pos 0) (take (suc n) ys))) dest)
          (length dest)
          issued
        ≡ finish_cursors db codec q s
            (encode_all codec (map (key fs) (in_order before (take n ys))))
            (ltb n (length ys))
            (dest ++ in_order before (take n ys))
            issued
  finish_keyset-page fs cursor before total n dest ys issued =
      rw (scan_reply-answer fs (take (suc n) ys) dest) (
        finish_keyset-in_range db codec q _ (dest ++ take (suc n) ys)
          (map (key fs) (take (suc n) ys)) (length dest) issued refl
          (length-append dest (take (suc n) ys)
            ∙ ap (λ k. length dest + k) (sym (length-map (key fs) (take (suc n) ys))))
        ∙ rw
            (
              count-keys (key fs) n (take (suc n) ys),
              keys_left (key fs) before n ys,
              first_rows-append dest ys n,
              in_turn-append before dest (take n ys),
              more_left n ys,
            )
            refl)

  finish_cursors-page :
      (s : SeekState) (cs : List Bytes) (more : Bool) (count : ℕ) (dest : List T)
      (issued : List Statement)
      → let (where_text, where_args) = build (effective_cond q) q.dialect in
        let counting = count_statement q where_text where_args in
        db.count counting ≡ some (pos count)
        → finish_cursors db codec q s (some cs) more dest issued ≡ record {
          result = ok (page_result s.total count more cs);
          dest = dest;
          issued = issued ++ (if s.total then counting ∷ [] else []);
        }
  unfolding finish_cursors keyset_counted
  finish_cursors-page s cs more count dest issued h = elim (Bool-cases s.total) [
    | inl asked ↦ rw (asked, h) refl
    | inr unasked ↦ rw (unasked, append-nil issued) refl
  ]

module _ {ℓ} {T : Type ℓ} where
  -- A keyset page that passes the checks, from a cursor that decodes (or none), whose size plus one
  -- fits Go's int, whose order columns have fields and whose keys encode:
  -- if the database answers the page's SELECT with the first rows of `ys`, one more than the size,
  -- then the page's rows, in the declared order, stand behind what the destination held, with one
  -- cursor per row, that of the row's own key; the flag says whether `ys` has more rows than the
  -- page, and the total, where it was asked for, is that of the filter without the cursor. One
  -- SELECT is run, with the reversed order for a backward page, and a COUNT only for the total.
  pub run_keyset-page :
      (db : Db T) (codec : Codec) (mapper : Mapper T) (q : Query) (cursor : Bytes)
      (before total : Bool) (n count : ℕ) (fs : List (T → Value)) (c : Option Cond)
      (cs : List Bytes) (dest ys : List T)
      → let s : SeekState = record {
        cursor = cursor;
        before = before;
        size = pos n;
        total = total;
      } in
        seek_error q s ≡ none
        → n + 1 < half_range
        → key_fields mapper q.order ≡ some fs
        → seek_filter codec q s ≡ usable c
        → let selecting =
            build_keyset_select q
              (build c q.dialect).0
              (build c q.dialect).1
              (fetch_order q s)
              (pos (n + 1)) in
          let counting =
            count_statement q
              (build (effective_cond q) q.dialect).0
              (build (effective_cond q) q.dialect).1 in
          db.query selecting ≡ fetched (answer false (pos 0) (take (suc n) ys))
          → encode_all codec (map (key fs) (in_order before (take n ys))) ≡ some cs
          → db.count counting ≡ some (pos count)
          → run_keyset db codec mapper q s dest ≡ record {
            result = ok (page_result total count (ltb n (length ys)) cs);
            dest = dest ++ in_order before (take n ys);
            issued = selecting ∷ (if total then counting ∷ [] else []);
          }
  unfolding run_keyset unless_error fetch_fields fetch_keyset
  run_keyset-page db codec mapper q cursor before total n count fs c cs dest ys fine small
        has_fields boundary answered encoded counts =
      rw
        (
          fine,
          has_fields,
          unless_error,
          fetch_fields,
          boundary,
          fetch_keyset,
          +ℤ-pos n 1 small,
          answered,
          finish_keyset-page db codec q fs cursor before total n dest ys,
          encoded,
        )
        (finish_cursors-page db codec q _ cs _ count _ _ counts)

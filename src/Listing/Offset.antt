-- ===== src/Listing/Offset.antt =====
-- `List` on an offset page, against a database that answers its statements rightly.
use filtrx.Base.{
  ℕ, zero, suc, ◌≡◌, refl, sym, ◌∙◌, ap, Bool, true, false, ◌&&◌, ◌||◌, not, Option, none, some,
  List, [], append-nil, ◌∷◌, ◌++◌, Bytes, arith, ltb, length, drop, if◌then◌else◌, Bool-cases, inl,
  inr,
}
use filtrx.Base.Int.{ℤ, pos, pos_part, ltb_ℤ}
use filtrx.Value.{Value}
use filtrx.Cond.{build}
use filtrx.Paginate.{window, paginate, needs_total, resolve}
use filtrx.Paginate.Window.{page_of, selected}
use filtrx.Query.{Query, CompileError, effective_cond}
use filtrx.Query.Statement.{Statement, build_select, count_statement}
use filtrx.Listing.{
  Db, Listed, PageInfo, empty_info, ok, fetched, list_offset, unless_refused, cannot_rank,
  list_page, pre_count, fetch_page, finish_page, with_total, select_rows, count_result,
  is_truncated, cut,
}
use filtrx.Listing.Scan.{
  answer, rows_asked, sink_after, cut-asked, is_truncated-asked, some_rows-asked,
  select_rows-answer,
}

-- The rest of the rows behind the offset is longer than the limit.
abbrev pub more_rows {ℓ} : {T : Type ℓ} → ℤ → ℤ → List T → Bool
more_rows limit offset xs =
    ltb_ℤ (pos 0) limit && ltb (pos_part limit) (length (drop (pos_part offset) xs))

-- What `List` reports of a page; `counted` says that the COUNT came first.
abbrev pub info_of {ℓ} : {T : Type ℓ} → Bool → Bool → ℤ → ℤ → List T → PageInfo
info_of counted wanted limit offset xs = record empty_info {
  total = (if counted || wanted then pos (length xs) else pos 0);
  offset = offset;
  truncated = more_rows limit offset xs;
}

-- A COUNT behind the SELECT is for a page without rows.
abbrev pub recount : Bool → Bool → Bool → Statement → List Statement
recount counted wanted some_rows s = if not counted && (wanted && not some_rows) then s ∷ [] else []

totalled {ℓ} :
    {T : Type ℓ} {info : PageInfo} {dest : List T} {issued issued' : List Statement} {t : ℤ}
    → info.total ≡ t
    → issued' ≡ issued
    → ◌≡◌ {A = Listed T}
        (record { result = ok info; dest = dest; issued = issued })
        (record { result = ok (record info { total = t }); dest = dest; issued = issued' })
totalled e f = cc

ltb_positive : (n : ℕ) → ltb 0 (suc n) ≡ true
ltb_positive n = ground arith

resolve-forward :
    (limit offset a b : ℤ)
    → needs_total limit ≡ false
    → resolve limit offset a ≡ resolve limit offset b
unfolding resolve needs_total
resolve-forward limit offset a b h = rw h refl

module _ {ℓ} {T : Type ℓ} (db : Db T) (q : Query) (wt : Bytes) (wa : List Value) where
  -- The database's answer to COUNT.
  abbrev pub Counts : List T → Type 0
  Counts xs = db.count (count_statement q wt wa) ≡ some (pos (length xs))

  with_total-rows :
      (counted w : Bool) (n : ℕ) (info : PageInfo) (dest xs : List T) (issued : List Statement)
      → info.total ≡ (if counted then pos (length xs) else pos 0)
      → Counts xs
      → with_total db q wt wa counted w n
          (sink_after (w && not counted) (pos (length xs)) n (pos 0))
          info
          dest
          issued
        ≡ record {
          result = ok (record info { total = (if counted || w then pos (length xs) else pos 0) });
          dest = dest;
          issued = issued ++ recount counted w (ltb 0 n) (count_statement q wt wa);
        }
  unfolding with_total
  with_total-rows true w n info dest xs issued e h = totalled e (append-nil issued)
  with_total-rows false false n info dest xs issued e h = totalled e (append-nil issued)
  with_total-rows false true zero info dest xs issued e h = rw h (unfold count_result in refl)
  with_total-rows false true (suc n) info dest xs issued e h = rw (ltb_positive n) (
      ap
        (λ i. record {
          result = ok (record info { total = pos (length xs) });
          dest = dest;
          issued = i;
        })
        (sym (append-nil issued)))

  finish_page-asked :
      (counted : Bool) (limit offset : ℤ) (xs : List T) (issued : List Statement)
      → Counts xs
      → let w = q.paging.include_total in
        finish_page db q wt wa
          (select_rows
            (fetched (answer (w && not counted) (pos (length xs)) (rows_asked limit offset xs)))
            [])
          counted
          limit
          (record empty_info {
            total = (if counted then pos (length xs) else pos 0);
            offset = offset;
          })
          issued
        ≡ record {
          result = ok (info_of counted w limit offset xs);
          dest = page_of limit offset xs;
          issued =
              issued
              ++ recount counted w (ltb (pos_part offset) (length xs)) (count_statement q wt wa);
        }
  unfolding finish_page
  finish_page-asked counted limit offset xs issued h =
      rw
        (
          select_rows-answer (q.paging.include_total && not counted) (pos (length xs))
              (rows_asked limit offset xs),
          with_total-rows counted q.paging.include_total (length (rows_asked limit offset xs))
              (record empty_info {
                total = (if counted then pos (length xs) else pos 0);
                offset = offset;
                truncated = is_truncated limit (length (rows_asked limit offset xs));
              })
              (cut limit (length (rows_asked limit offset xs)) (rows_asked limit offset xs)) xs
              issued refl h,
          some_rows-asked limit offset xs,
          is_truncated-asked limit offset xs,
          cut-asked limit offset xs,
        )
        refl

  -- From the resolved window on, whether or not the COUNT came first.
  fetch_page-asked :
      (counted : Bool) (limit offset : ℤ) (xs : List T) (issued : List Statement)
      → let s = build_select q wt wa limit offset (q.paging.include_total && not counted) in
        db.query s
          ≡ fetched (
              answer
                (q.paging.include_total && not counted)
                (pos (length xs))
                (rows_asked limit offset xs))
        → Counts xs
        → fetch_page db q wt wa counted
            (if counted then pos (length xs) else pos 0)
            (limit, offset)
            []
            issued
          ≡ record {
            result = ok (info_of counted q.paging.include_total limit offset xs);
            dest = page_of limit offset xs;
            issued =
                (issued ++ s ∷ [])
                ++ recount counted q.paging.include_total
                    (ltb (pos_part offset) (length xs))
                    (count_statement q wt wa);
          }
  unfolding fetch_page
  fetch_page-asked counted limit offset xs issued e h =
      rw e (finish_page-asked counted limit offset xs _ h)

  list_page-window :
      (limit offset : ℤ) (xs : List T)
      → let counted = needs_total limit in
        let (l, o) = resolve limit offset (pos (length xs)) in
        let wanted = q.paging.include_total in
        let s = build_select q wt wa l o (wanted && not counted) in
        db.query s ≡ fetched (answer (wanted && not counted) (pos (length xs)) (rows_asked l o xs))
        → Counts xs
        → list_page db q wt wa (window limit offset) [] ≡ record {
          result = ok (info_of counted wanted l o xs);
          dest = selected (window limit offset) xs;
          issued =
              ((if counted then count_statement q wt wa ∷ [] else []) ++ s ∷ [])
              ++ recount counted wanted (ltb (pos_part o) (length xs)) (count_statement q wt wa);
        }
  unfolding list_page selected
  list_page-window limit offset xs e h = elim (Bool-cases (needs_total limit)) [
    | inl counted ↦
        rw (counted, h)
          (unfold pre_count in
            fetch_page-asked true _ _ xs (count_statement q wt wa ∷ []) (rw counted at e) h)
    | inr forward ↦
        rw (forward, resolve-forward limit offset (pos 0) (pos (length xs)) forward)
          (fetch_page-asked false _ _ xs [] (rw forward at e) h)
  ]

module _ {ℓ} {T : Type ℓ} where
  unless_refused_pass :
      {err : Option CompileError} {unranked : Bool} (dest : List T) (rest : Listed T)
      → err ≡ none
      → unranked ≡ false
      → unless_refused err unranked dest rest ≡ rest
  unless_refused_pass dest rest e f = rw (e, f) (unfold unless_refused in refl)

  -- A page of a query without an error, for any paging arguments that give a window: if the database
  -- answers the page's SELECT with the rows behind the offset, one more than the limit, and COUNT
  -- with the number of rows, `List` returns, into an empty destination, exactly the rows of the page,
  -- the offset, whether rows are left behind the page, and the total when it was asked for or Last was used. It runs the
  -- SELECT, and a COUNT only in front of it for Last, or behind it for a total that no row brought.
  pub list_offset-selected :
      (db : Db T) (q : Query) (limit offset : ℤ) (xs : List T)
      → q.err ≡ none
      → cannot_rank q ≡ false
      → paginate q.paging ≡ window limit offset
      → let (where_text, where_args) = build (effective_cond q) q.dialect in
        let counted = needs_total limit in
        let wanted = q.paging.include_total in
        let (l, o) = resolve limit offset (pos (length xs)) in
        let selecting = build_select q where_text where_args l o (wanted && not counted) in
        let counting = count_statement q where_text where_args in
        db.query selecting
          ≡ fetched (answer (wanted && not counted) (pos (length xs)) (rows_asked l o xs))
        → db.count counting ≡ some (pos (length xs))
        → list_offset db q [] ≡ record {
          result = ok (info_of counted wanted l o xs);
          dest = selected (paginate q.paging) xs;
          issued =
              ((if counted then counting ∷ [] else []) ++ selecting ∷ [])
              ++ recount counted wanted (ltb (pos_part o) (length xs)) counting;
        }
  unfolding list_offset
  list_offset-selected db q limit offset xs no_err rankable e asked h =
      unless_refused_pass [] _ no_err rankable
      ∙ rw e (list_page-window db q _ _ limit offset xs asked h)

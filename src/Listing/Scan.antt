-- ===== src/Listing/Scan.antt =====
-- The scan loop of `selectRows` on the rows that a database gives, and the cut of the extra row.
use filtrx.Base.{
  ℕ, zero, suc, ◌+◌, ◌≡◌, refl, sym, ◌∙◌, Bool, true, false, ◌&&◌, none, some, List, [], ◌∷◌, ◌++◌,
  arith, ltb, length, take, drop, take-take, take-of_le, length-take, length-drop, if◌then◌else◌,
  append_assoc, append-nil, Bool-cases, inl, inr,
}
use Prim.Native.Nat.{min}
use filtrx.Base.Int.{ℤ, pos, negsuc, pos_part, ltb_ℤ}
use filtrx.Paginate.Window.{page_of}
use filtrx.Listing.{Fetch, row, done, scanned, fetched, select_rows, scan_rows, is_truncated, cut}

-- A database's rows, each with the total where the statement has the window column.
abbrev pub answer {ℓ} : {T : Type ℓ} → Bool → ℤ → List T → Fetch T
answer window total [] = done
answer window total (y ∷ ys) = row y (if window then some total else none) (answer window total ys)

-- The rows of the LIMIT and OFFSET that a page is asked for with: one more than the page.
abbrev pub rows_asked {ℓ} : {T : Type ℓ} → ℤ → ℤ → List T → List T
rows_asked (pos (suc l)) offset xs = take (suc (suc l)) (drop (pos_part offset) xs)
rows_asked (pos zero) offset xs = drop (pos_part offset) xs
rows_asked (negsuc l) offset xs = drop (pos_part offset) xs

-- The sink of the total behind the loop.
abbrev pub sink_after : Bool → ℤ → ℕ → ℤ → ℤ
sink_after true total (suc n) sink = total
sink_after true total zero sink = sink
sink_after false total n sink = sink

sink_after_total : (total : ℤ) (n : ℕ) → sink_after true total n total ≡ total
sink_after_total total zero = refl
sink_after_total total (suc n) = refl

truncated_suc : (l n : ℕ) → is_truncated (pos (suc l)) n ≡ ltb (suc l) n
unfolding is_truncated
truncated_suc l n = ground arith

ltb_capped : (l n : ℕ) → ltb (suc l) (min (suc (suc l)) n) ≡ ltb (suc l) n
ltb_capped l n = ground arith

module _ {ℓ} {T : Type ℓ} where
  scanned_same :
      {d e : List T} {m n : ℕ} {s t : ℤ} → d ≡ e → m ≡ n → s ≡ t → scanned d m s ≡ scanned e n t
  scanned_same p q r = cc

  pub scan_rows-answer :
      (window : Bool) (total : ℤ) (ys dest : List T) (n : ℕ) (sink : ℤ)
      → scan_rows (answer window total ys) dest n sink
        ≡ scanned (dest ++ ys) (n + length ys) (sink_after window total (length ys) sink)
  unfolding scan_rows
  scan_rows-answer true total [] dest n sink =
      scanned_same (sym (append-nil dest)) (omega arith) refl
  scan_rows-answer false total [] dest n sink =
      scanned_same (sym (append-nil dest)) (omega arith) refl
  scan_rows-answer true total (y ∷ ys) dest n sink =
      scan_rows-answer true total ys (dest ++ y ∷ []) (suc n) total
      ∙ scanned_same (append_assoc dest (y ∷ []) ys) (omega arith)
          (sink_after_total total (length ys))
  scan_rows-answer false total (y ∷ ys) dest n sink =
      scan_rows-answer false total ys (dest ++ y ∷ []) (suc n) sink
      ∙ scanned_same (append_assoc dest (y ∷ []) ys) (omega arith) refl

  cut_extra :
      (l : ℕ) (ys : List T)
      → cut (pos (suc l)) (length (take (suc (suc l)) ys)) (take (suc (suc l)) ys) ≡ take (suc l) ys
  unfolding cut
  cut_extra l ys =
      rw
        (
          truncated_suc l (length (take (suc (suc l)) ys)),
          length-take (suc (suc l)) ys,
          ltb_capped l (length ys),
        )
        (elim (Bool-cases (ltb (suc l) (length ys))) [
          | inl more ↦ rw more (take-take (suc l) (suc (suc l)) ys (omega arith))
          | inr fits ↦ rw fits (
              take-of_le (suc (suc l)) ys (ground arith)
              ∙ sym (take-of_le (suc l) ys (ground arith)))
        ])

  page_of-pos :
      (l : ℕ) (offset : ℤ) (xs : List T)
      → page_of (pos (suc l)) offset xs ≡ take (suc l) (drop (pos_part offset) xs)
  unfolding page_of
  page_of-pos l offset xs = ground arith

  pub cut-asked :
      (limit offset : ℤ) (xs : List T)
      → cut limit (length (rows_asked limit offset xs)) (rows_asked limit offset xs)
        ≡ page_of limit offset xs
  unfolding cut is_truncated
  cut-asked (pos zero) offset xs = unfold page_of in refl
  cut-asked (negsuc l) offset xs = unfold page_of in ground arith
  cut-asked (pos (suc l)) offset xs =
      cut_extra l (drop (pos_part offset) xs) ∙ sym (page_of-pos l offset xs)

  pub is_truncated-asked :
      (limit offset : ℤ) (xs : List T)
      → is_truncated limit (length (rows_asked limit offset xs))
        ≡ (ltb_ℤ (pos 0) limit && ltb (pos_part limit) (length (drop (pos_part offset) xs)))
  unfolding is_truncated
  is_truncated-asked (pos zero) offset xs = refl
  is_truncated-asked (negsuc l) offset xs = ground arith
  is_truncated-asked (pos (suc l)) offset xs =
      rw (length-take (suc (suc l)) (drop (pos_part offset) xs)) (ground arith)

  -- A page has rows if its offset is in front of the end.
  pub some_rows-asked :
      (limit offset : ℤ) (xs : List T)
      → ltb 0 (length (rows_asked limit offset xs)) ≡ ltb (pos_part offset) (length xs)
  some_rows-asked (pos zero) offset xs = rw (length-drop (pos_part offset) xs) (ground arith)
  some_rows-asked (negsuc l) offset xs = rw (length-drop (pos_part offset) xs) (ground arith)
  some_rows-asked (pos (suc l)) offset xs =
      rw (length-take (suc (suc l)) (drop (pos_part offset) xs), length-drop (pos_part offset) xs)
        (ground arith)

  pub select_rows-answer :
      (window : Bool) (total : ℤ) (ys : List T)
      → select_rows (fetched (answer window total ys)) []
        ≡ scanned ys (length ys) (sink_after window total (length ys) (pos 0))
  unfolding select_rows
  select_rows-answer window total ys =
      scan_rows-answer window total ys [] 0 (pos 0) ∙ scanned_same refl (omega arith) refl

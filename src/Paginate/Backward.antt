-- ===== src/Paginate/Backward.antt =====
-- Backward paging (Last): where the page is the Relay window, and where it is not.
use filtrx.Base.{
  ℕ, zero, suc, ◌+◌, ◌-◌, ◌≤◌, ◌<◌, ◌≡◌, refl, sym, ◌∙◌, ap, Bool, Option, none, some, List, arith,
  ltb, ◌==◌, length, take, drop, take-of_le, drop-take, drop-drop, drop-nil, take_count, drop_count,
  length-drop, length-take, Bool-cases, inl, inr,
}
use filtrx.Base.Int.{ℤ, pos, negsuc, half_range, neg-pos}
use filtrx.Paginate.{
  PagingParams, window, choose_limit, limited, apply_before, paginate, start_offset,
}
use filtrx.Paginate.Window.{selected, page_of-suc, from, between, first_or_last, relay}
use filtrx.Paginate.Resolve.{start_offset-from, apply_before-backward, resolve-last}
use filtrx.Paginate.Forward.{bounded, selected-window, take-min-length}

pub choose_limit-last :
    (l : ℕ) → suc l < half_range → choose_limit none (some (pos (suc l))) ≡ limited (negsuc l)
unfolding choose_limit
choose_limit-last l h = ground (arith, neg-pos l)

module _ {ℓ} {A : Type ℓ} where
  bounded-pos : (b : ℕ) (ys : List A) → 0 < b → bounded b ys ≡ take b ys
  bounded-pos zero ys h = absurd (omega arith)
  bounded-pos (suc b) ys h = refl

  -- The last rows of a list.
  abbrev pub last_rows : ℕ → List A → List A
  last_rows l r = drop (length r - l) r

  selected-end :
      (l o : ℕ) (xs : List A)
      → suc l < half_range
      → length xs < half_range
      → selected (window (negsuc l) (pos o)) xs ≡ last_rows (suc l) (drop o xs)
  selected-end l o xs hl hn = elim (Bool-cases (ltb (o + suc l) (length xs))) [
    | inl inside ↦
        unfold selected in
        rw (resolve-last l o (length xs) hl hn, inside, page_of-suc l (length xs - suc l) xs)
          (take-of_le (suc l) (drop (length xs - suc l) xs)
              (rw (length-drop (length xs - suc l) xs) (omega arith))
            ∙ drop_count xs (rw (length-drop o xs) (ground arith))
            ∙ sym (drop-drop (length (drop o xs) - suc l) o xs))
    | inr outside ↦
        unfold selected in
        rw (resolve-last l o (length xs) hl hn, outside, page_of-suc l o xs)
          (take-of_le (suc l) (drop o xs) (rw (length-drop o xs) (ground arith))
            ∙ sym (drop_count (drop o xs) {n = 0} (rw (length-drop o xs) (ground arith))))
  ]

  length-take_le : (b : ℕ) (xs : List A) → b ≤ length xs → length (take b xs) ≡ b
  length-take_le b xs h = rw (length-take b xs) (omega arith)

  selected-before :
      (b l : ℕ) (t : Bool) (xs : List A)
      → b < half_range
      → suc l < half_range
      → b ≤ length xs
      → selected (apply_before (some (pos b)) (negsuc l) (pos 0) t) xs
        ≡ last_rows (suc l) (take b xs)
  selected-before b l t xs hb hl hx =
      rw (apply_before-backward b l t hb hl, length-take_le b xs hx)
        (elim (Bool-cases (b == 0)) [
          | inl none_left ↦ rw none_left (
              unfold selected in
              sym (
                ap (λ (ys : List A). drop (b - suc l) ys) (take_count xs {n = 0} (ground arith))
                ∙ drop-nil (b - suc l)))
          | inr some_left ↦ rw some_left (elim (Bool-cases (ltb (suc l) b)) [
            | inl more ↦ rw more (
                selected-window (suc l) (b - suc l) xs
                ∙ take_count (drop (b - suc l) xs) {m = suc l} (ground arith)
                ∙ sym (drop-take (b - suc l) b xs))
            | inr fewer ↦ rw fewer (
                selected-window b 0 xs
                ∙ bounded-pos b xs (ground arith)
                ∙ drop_count (take b xs) {m = 0} (ground arith))
          ])
        ])

  -- Last alone or with After: the page is the Relay window, the last rows behind After, for every
  -- positive Last and every After and number of rows that fit Go's int.
  pub selected-last :
      (after : Option ℤ) (l : ℕ) (t : Bool) (xs : List A)
      → from after < half_range
      → suc l < half_range
      → length xs < half_range
      → let p : PagingParams = record {
        before = none;
        after = after;
        first = none;
        last = some (pos (suc l));
        include_total = t;
      } in
        selected (paginate p) xs ≡ relay p xs
  unfolding paginate relay between first_or_last
  selected-last after l t xs ha hl hx =
      rw
        (
          choose_limit-last l hl,
          paginate,
          start_offset-from after ha,
          take-of_le (length xs) xs (omega arith),
        )
        (unfold apply_before in selected-end l (from after) xs hl hx)

  -- Last with Before and no After: the page is the Relay window, the last rows in front of Before,
  -- if Before is not past the end of the rows and the numbers fit Go's int.
  pub selected-last_before :
      (b l : ℕ) (t : Bool) (xs : List A)
      → b < half_range
      → suc l < half_range
      → b ≤ length xs
      → let p : PagingParams = record {
        before = some (pos b);
        after = none;
        first = none;
        last = some (pos (suc l));
        include_total = t;
      } in
        selected (paginate p) xs ≡ relay p xs
  unfolding paginate relay between first_or_last start_offset
  selected-last_before b l t xs hb hl hx =
      rw (choose_limit-last l hl, paginate, take-min-length b xs)
        (selected-before b l t xs hb hl hx)

-- ===== src/Connection/Complete.antt =====
-- Paging forward from the start gives every row of the query once, in order.
use mathlib.Core.Option.{some-injective}
use filtrx.Connection.Walk.{
  Paging, continue, pages, forward, page_at, page_at-rows, cursor_at, boundary, matching, Served,
  Counted, Encoded, Good, AllGood, Good-at, Good-part,
}
use filtrx.Connection.Relay.{connection_page, Gives, connection_page-rows}
use filtrx.Base.{
  ℕ, zero, suc, ◌+◌, ◌≤◌, ◌<◌, ◌≡◌, refl, sym, ◌∙◌, ap, false, Option, none, some, List, [], ◌∷◌,
  ◌++◌, map, length, take, drop, Bytes, ltb, if◌then◌else◌, arith, Bool-cases, inl, inr,
  append_assoc, length-drop, take-of_le,
}
use filtrx.Base.Int.{half_range}
use filtrx.Value.{Value}
use filtrx.Query.{effective_cond}
use filtrx.Keyset.Semantics.{NeverHolds}
use filtrx.Keyset.Kept.{
  kept, columns, AllNoNulls, Ordered, kept-behind, AllNoNulls-kept, all_after-Ordered, NoNulls-at,
  all_after,
}
use filtrx.Listing.{ok, Listed, PageInfo}
use filtrx.Seeking.{key, key_fields, seek_error}
use filtrx.Connection.{keyset_info, last_cursor}

module _ {ℓ} {A : Type ℓ} where
  take-drop : (n : ℕ) (xs : List A) → take n xs ++ drop n xs ≡ xs
  take-drop zero xs = refl
  take-drop (suc n) [] = refl
  take-drop (suc n) (x ∷ xs) = ap (λ (r : List A). x ∷ r) (take-drop n xs)

  -- A full page has a last row.
  last_of_page :
      (m : ℕ) (xs : List A)
      → suc m ≤ length xs
      → (init : List A) × (r : A) × (take (suc m) xs ≡ init ++ r ∷ [])
  last_of_page m [] h = absurd (omega arith)
  last_of_page zero (x ∷ xs) h = ([], x, refl)
  last_of_page (suc m) (x ∷ xs) h =
      let (init, r, e) = last_of_page m xs (omega arith) in
      (x ∷ init, r, ap (λ (l : List A). x ∷ l) e)

  last_cursor-snoc :
      (f : A → Bytes) (c : Bytes) (init : List A) (r : A)
      → last_cursor c (map f (init ++ r ∷ [])) ≡ f r
  unfolding last_cursor
  last_cursor-snoc f c [] r = refl
  last_cursor-snoc f c (x ∷ init) r = last_cursor-snoc f (f x) init r

  -- The boundary before the rows that are left: none at the start, else the last row before them.
  abbrev Ends : Option A → List A → Type ℓ
  Ends none pre = pre ≡ []
  Ends (some r) pre = (init : List A) × (pre ≡ init ++ r ∷ [])

module _ {ℓ} {T : Type ℓ} (w : Paging T) where
  -- What is left behind a boundary of the matching rows.
  kept-boundary :
      (b : Option T) (pre ys : List T)
      → NeverHolds w.sem
      → AllNoNulls w.sem w.view w.q.order w.table
      → Ordered w.sem w.view w.q.order (matching w)
      → matching w ≡ pre ++ ys
      → Ends b pre
      → kept w.sem w.view (boundary w b) w.table ≡ ys
  kept-boundary none pre ys never placed ordered split ends =
      split ∙ ap (λ (p : List T). p ++ ys) ends
  kept-boundary (some r) pre ys never placed ordered split (init, ends) =
      let here = split ∙ ap (λ (p : List T). p ++ ys) ends ∙ append_assoc init (r ∷ []) ys in
      let rows =
        rw here at (AllNoNulls-kept w.sem w.view w.q.order (effective_cond w.q) w.table placed) in
      kept-behind w.sem w.view w.q.order (effective_cond w.q) r w.table never
        (NoNulls-at w.sem w.view w.q.order r init ys rows) placed
      ∙ ap (λ xs. all_after w.sem w.view w.q.order r xs) here
      ∙ all_after-Ordered w.sem w.view w.q.order r init ys (rw here at ordered)

  continued :
      (again : Bytes → List T → Option (List T)) (p : Listed T) (info : PageInfo) (d : List T)
      → p.result ≡ ok info
      → p.dest ≡ d
      → continue again p ≡ (if info.truncated then again info.end_cursor d else some d)
  continued again p info d h k = rw (h, k) refl

  split_page :
      (pre ys : List T)
      → matching w ≡ pre ++ ys
      → matching w ≡ pre ++ (take (suc w.m) ys ++ drop (suc w.m) ys)
  split_page pre ys split = split ∙ ap (λ (l : List T). pre ++ l) (sym (take-drop (suc w.m) ys))

  split_row :
      (pre ys init : List T) (r : T)
      → matching w ≡ pre ++ ys
      → take (suc w.m) ys ≡ init ++ r ∷ []
      → matching w ≡ (pre ++ init) ++ (r ∷ drop (suc w.m) ys)
  split_row pre ys init r split e =
      split_page pre ys split
      ∙ ap (λ (l : List T). pre ++ (l ++ drop (suc w.m) ys)) e
      ∙ ap (λ (l : List T). pre ++ l) (append_assoc init (r ∷ []) (drop (suc w.m) ys))
      ∙ sym (append_assoc pre init (r ∷ drop (suc w.m) ys))

  -- The boundary is one that the database serves.
  abbrev Ready : Option T → Type ℓ
  Ready b = Served w b × Counted w b × ((r : T) → b ≡ some r → Encoded w r)

  Good-Ready : (r : T) → Good w r → Ready (some r)
  Good-Ready r (encoded, served, counted) = (served, counted, λ x e. same_row x e)
    where
      same_row : (x : T) → some r ≡ some x → Encoded w x
      same_row x e = rw (some-injective r x e) at encoded

  -- Every page behind a boundary holds the next of the rows that are left.
  abbrev GivesAll : (Bytes → List T → Listed T) → Type ℓ
  GivesAll page =
      (b : Option T) (dest ys : List T)
      → Ready b
      → kept w.sem w.view (boundary w b) w.table ≡ ys
      → AllGood w (take (suc w.m) ys)
      → Gives w (page (cursor_at w b) dest) dest ys

  module _ (never : NeverHolds w.sem) (placed : AllNoNulls w.sem w.view w.q.order w.table)
      (ordered : Ordered w.sem w.view w.q.order (matching w)) (good : AllGood w (matching w))
      (page : Bytes → List T → Listed T) (gives : GivesAll page) where
    one_page :
        (again : Bytes → List T → Option (List T)) (b : Option T) (pre ys dest : List T)
        → Ready b
        → matching w ≡ pre ++ ys
        → Ends b pre
        → continue again (page (cursor_at w b) dest) ≡ (
            if ltb (suc w.m) (length ys)
            then again
                (last_cursor [] (map w.cursor_of (take (suc w.m) ys)))
                (dest ++ take (suc w.m) ys)
            else some (dest ++ take (suc w.m) ys))
    one_page again b pre ys dest ready split ends =
        let (info, result, more, last, rows) =
          gives b dest ys ready (kept-boundary b pre ys never placed ordered split ends) (
            Good-part w pre (take (suc w.m) ys) (drop (suc w.m) ys)
              (rw (split_page pre ys split) at good)) in
        continued again (page (cursor_at w b) dest) info _ result rows ∙ rw (more, last) refl

    pages-rest :
        (fuel : ℕ) (b : Option T) (pre ys dest : List T)
        → Ready b
        → matching w ≡ pre ++ ys
        → Ends b pre
        → length ys ≤ fuel
        → pages page (suc fuel) (cursor_at w b) dest ≡ some (dest ++ ys)
    pages-rest zero b pre ys dest ready split ends bound =
        let short : ltb (suc w.m) (length ys) ≡ false = ground arith in
        one_page (pages page zero) b pre ys dest ready split ends
        ∙ rw (short, take-of_le (suc w.m) ys (omega arith)) refl
    pages-rest (suc fuel) b pre ys dest ready split ends bound =
        elim (Bool-cases (ltb (suc w.m) (length ys))) [
          | inr short ↦
              one_page (pages page (suc fuel)) b pre ys dest ready split ends
              ∙ rw (short, take-of_le (suc w.m) ys (ground arith)) refl
          | inl more ↦
              let (init, r, e) = last_of_page w.m ys (ground arith) in
              one_page (pages page (suc fuel)) b pre ys dest ready split ends
              ∙ rw more (
                  ap (λ c. pages page (suc fuel) c (dest ++ take (suc w.m) ys))
                    (ap (λ l. last_cursor [] (map w.cursor_of l)) e
                      ∙ last_cursor-snoc w.cursor_of [] init r)
                  ∙ pages-rest fuel (some r) (pre ++ take (suc w.m) ys) (drop (suc w.m) ys)
                      (dest ++ take (suc w.m) ys)
                      (Good-Ready r (
                        Good-at w r (pre ++ init) (drop (suc w.m) ys)
                          (rw (split_row pre ys init r split e) at good)))
                      (split_page pre ys split
                        ∙ sym (append_assoc pre (take (suc w.m) ys) (drop (suc w.m) ys)))
                      (
                        pre ++ init,
                        ap (λ (l : List T). pre ++ l) e ∙ sym (append_assoc pre init (r ∷ [])),
                      )
                      (rw (length-drop (suc w.m) ys) (omega arith))
                  ∙ ap some (
                      append_assoc dest (take (suc w.m) ys) (drop (suc w.m) ys)
                      ∙ ap (λ (l : List T). dest ++ l) (take-drop (suc w.m) ys)))
        ]

  module _ (fs : List (T → Value)) (fine : w.q.err ≡ none)
      (checks : seek_error w.q (forward w []) ≡ none) (small : suc w.m + 1 < half_range)
      (fields : key_fields w.mapper w.q.order ≡ some fs)
      (agree : (r : T) → key fs r ≡ columns w.sem w.view w.q.order r) (never : NeverHolds w.sem)
      (placed : AllNoNulls w.sem w.view w.q.order w.table)
      (ordered : Ordered w.sem w.view w.q.order (matching w)) (good : AllGood w (matching w)) where
    page_at-GivesAll : GivesAll (page_at w)
    unfolding keyset_info
    page_at-GivesAll b dest ys (served, counted, decodes) left here =
        let (result, rows) =
          page_at-rows w fs b dest ys fine checks small fields agree decodes served counted left
            here in
        (_, result, refl, refl, rows)

    connection_page-GivesAll : GivesAll (connection_page w)
    connection_page-GivesAll b dest ys (served, counted, decodes) left here =
        connection_page-rows w fs b dest ys fine checks small fields agree decodes served counted
          left here

    -- Let a keyset query have no error and pass its checks, let its order columns be fields without
    -- NULLs where no place for them is declared, let the matching rows of the table be in the declared
    -- order with distinct keys that the cursor encoding keeps, and let the database answer the SELECT
    -- and COUNT of each page by its filter, order and limit. Then a client that asks List or
    -- ListConnection for pages of any size from 1 on, each at the end cursor of the one before until none is left, stops within one
    -- page more than there are matching rows, and has got every matching row exactly once, in order.
    pub pages_complete :
        (fuel : ℕ)
        → Served w none
        → Counted w none
        → length (matching w) ≤ fuel
        → (pages (page_at w) (suc fuel) [] [] ≡ some (matching w))
          × (pages (connection_page w) (suc fuel) [] [] ≡ some (matching w))
    pages_complete fuel served counted bound = (
      pages-rest never placed ordered good (page_at w) page_at-GivesAll fuel none [] (matching w) []
          (served, counted, λ r e. absurd (cc)) refl refl bound,
      pages-rest never placed ordered good (connection_page w) connection_page-GivesAll fuel none []
          (matching w) [] (served, counted, λ r e. absurd (cc)) refl refl bound,
    )

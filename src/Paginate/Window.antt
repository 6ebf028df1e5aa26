-- ===== src/Paginate/Window.antt =====
-- The rows of a page, and the Relay window that First, Last, Before and After describe.
use filtrx.Base.{
  ℕ, suc, ◌-◌, ◌≡◌, Option, none, some, List, [], length, take, drop, arith, if◌then◌else◌,
}
use filtrx.Base.Int.{ℤ, pos, negsuc, pos_part, ltb_ℤ}
use filtrx.Paginate.{PagingParams, Paginated, panic, no_rows, window, resolve}
use Prim.Native.Nat.{min}

module _ {ℓ} {A : Type ℓ} where
  -- The rows that LIMIT and OFFSET give, where a limit of zero or less means no bound.
  unfoldable pub page_of : ℤ → ℤ → List A → List A
  page_of limit offset xs =
      if ltb_ℤ (pos 0) limit
      then take (pos_part limit) (drop (pos_part offset) xs)
      else drop (pos_part offset) xs

  pub page_of-suc :
      (l o : ℕ) (xs : List A) → page_of (pos (suc l)) (pos o) xs ≡ take (suc l) (drop o xs)
  unfolding page_of
  page_of-suc l o xs = ground arith

  -- The page that `Paginate` selects from all the matching rows in order.
  unfoldable pub selected : Paginated → List A → List A
  selected (panic r) xs = []
  selected (no_rows t) xs = []
  selected (window limit offset) xs =
      let r = resolve limit offset (pos (length xs)) in page_of r.0 r.1 xs

-- The index behind After; a negative After is no bound.
abbrev pub from : Option ℤ → ℕ
from none = 0
from (some (pos a)) = suc a
from (some (negsuc a)) = 0

-- The index at Before, at most the number of rows.
abbrev pub upto : Option ℤ → ℕ → ℕ
upto none n = n
upto (some (pos b)) n = min b n
upto (some (negsuc b)) n = 0

module _ {ℓ} {A : Type ℓ} where
  -- The rows strictly between After and Before.
  unfoldable pub between : PagingParams → List A → List A
  between p xs = drop (from p.after) (take (upto p.before (length xs)) xs)

  unfoldable pub first_or_last : Option ℤ → Option ℤ → List A → List A
  first_or_last none none r = r
  first_or_last (some f) none r = take (pos_part f) r
  first_or_last none (some l) r = drop (length r - pos_part l) r
  first_or_last (some f) (some l) r = []

  -- The Relay window: the range between After and Before, then its first or last rows.
  unfoldable pub relay : PagingParams → List A → List A
  relay p xs = first_or_last p.first p.last (between p xs)

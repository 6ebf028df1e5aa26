-- ===== src/Paginate/Between.antt =====
-- Last together with After and Before: the code keeps the first rows of the range.
use filtrx.Base.{ℕ, suc, ◌<◌, ◌≡◌, Bool, none, some, List, take}
use filtrx.Base.Int.{pos, half_range}
use filtrx.Paginate.{PagingParams, paginate}
use filtrx.Paginate.Window.{selected, between}
use filtrx.Paginate.Resolve.{start_offset-from, apply_before-forward, apply_before-between}
use filtrx.Paginate.Forward.{selected-apply_before}
use filtrx.Paginate.Backward.{choose_limit-last}

module _ {ℓ} {A : Type ℓ} where
  -- With Last, After and Before together the page is the first rows of the range strictly between
  -- After and Before, as many as Last says, and not the last ones.
  pub selected-last_between :
      (a b l : ℕ) (t : Bool) (xs : List A)
      → suc a < half_range
      → b < half_range
      → suc l < half_range
      → let p : PagingParams = record {
        before = some (pos b);
        after = some (pos a);
        first = none;
        last = some (pos (suc l));
        include_total = t;
      } in
        selected (paginate p) xs ≡ take (suc l) (between p xs)
  unfolding paginate between
  selected-last_between a b l t xs ha hb hl =
      rw
        (
          choose_limit-last l hl,
          paginate,
          start_offset-from (some (pos a)) ha,
          apply_before-between b l a t hb hl,
          ← apply_before-forward b (suc l) (suc a) t hb,
        )
        (selected-apply_before (some (pos b)) (suc l) (suc a) t xs hb)

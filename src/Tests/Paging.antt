-- ===== src/Tests/Paging.antt =====
-- paginate.go on concrete inputs.
use filtrx.Base.{ℕ, ◌≡◌, refl, true, false, none, some, List, [], ◌∷◌, arith, take}
use filtrx.Base.Int.{pos, ◌+ℤ◌, ◌-ℤ◌, wrap, neg}
use filtrx.Paginate.{
  PagingParams, no_paging, paginate, no_rows, window, choose_limit, start_offset, apply_before,
  clip, truncate_at, resolve, panic, both_first_and_last,
}
use filtrx.Paginate.Window.{selected, relay, between}
use filtrx.Paginate.Forward.{selected-forward}
use filtrx.Paginate.Backward.{selected-last}
use filtrx.Paginate.Between.{selected-last_between}

abbrev rows : List ℕ
rows = 0 ∷ 1 ∷ 2 ∷ 3 ∷ 4 ∷ 5 ∷ 6 ∷ 7 ∷ []

first_behind_after :
    paginate (record no_paging { first = some (pos 5); after = some (pos 20) })
    ≡ window (pos 5) (pos 21)
unfolding paginate choose_limit start_offset apply_before ◌+ℤ◌ wrap
first_behind_after = refl

last_in_front_of_before :
    paginate (record no_paging { last = some (pos 3); before = some (pos 10) })
    ≡ window (pos 3) (pos 7)
unfolding paginate choose_limit start_offset apply_before clip ◌+ℤ◌ ◌-ℤ◌ neg wrap
last_in_front_of_before = refl

contradictory :
    paginate (record no_paging { first = some (pos 1); last = some (pos 1) })
    ≡ panic both_first_and_last
unfolding paginate choose_limit
contradictory = refl

truncated : truncate_at (pos 25) ≡ record no_paging { first = some (pos 25) }
unfolding truncate_at
truncated = refl

-- After 0, Before 6 and Last 2 give the rows 1 and 2, not 4 and 5.
first_in_place_of_last :
    selected
      (paginate (record {
        before = some (pos 6);
        after = some (pos 0);
        first = none;
        last = some (pos 2);
        include_total = false;
      }))
      rows
    ≡ 1 ∷ 2 ∷ []
unfolding paginate choose_limit start_offset apply_before clip ◌+ℤ◌ ◌-ℤ◌ neg wrap selected resolve
    filtrx.Paginate.Window.page_of
first_in_place_of_last = refl

abbrev forward_page : PagingParams
forward_page = record {
  before = some (pos 6);
  after = some (pos 1);
  first = some (pos 2);
  last = none;
  include_total = true;
}

selected-forward_example : selected (paginate forward_page) rows ≡ relay forward_page rows
selected-forward_example =
    selected-forward (some (pos 6)) (some (pos 1)) (some 2) true rows (omega arith) (omega arith)

abbrev last_page : PagingParams
last_page = record {
  before = none;
  after = some (pos 3);
  first = none;
  last = some (pos 2);
  include_total = false;
}

selected-last_example : selected (paginate last_page) rows ≡ relay last_page rows
selected-last_example =
    selected-last (some (pos 3)) 1 false rows (omega arith) (omega arith) (omega arith)

abbrev last_between_page : PagingParams
last_between_page = record {
  before = some (pos 6);
  after = some (pos 0);
  first = none;
  last = some (pos 2);
  include_total = false;
}

selected-last_between_example :
    selected (paginate last_between_page) rows ≡ take 2 (between last_between_page rows)
selected-last_between_example =
    selected-last_between 0 6 1 false rows (omega arith) (omega arith) (omega arith)

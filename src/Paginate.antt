-- ===== src/Paginate.antt =====
-- paginate.go: paging arguments, and the limit and offset that they resolve to.
pub mod Resolve
pub mod Panics
pub mod Window
pub mod Forward
pub mod Backward
pub mod Between
use filtrx.Base.{ℕ, ◌≡◌, Bool, true, false, ◌&&◌, ◌||◌, Option, none, some, if◌then◌else◌}
use filtrx.Base.Int.{ℤ, pos, negsuc, ◌+ℤ◌, ◌-ℤ◌, neg, ltb_ℤ, leb_ℤ, eqb_ℤ}

pub record PagingParams : Type 0 where
  pub before : Option ℤ
  pub after : Option ℤ
  pub first : Option ℤ
  pub last : Option ℤ
  pub include_total : Bool

abbrev pub no_paging : PagingParams
no_paging = record { before = none; after = none; first = none; last = none; include_total = false }

unfoldable pub truncate_at : ℤ → PagingParams
truncate_at limit =
    if ltb_ℤ (pos 0) limit then record no_paging { first = some limit } else no_paging

pub data Panic : Type 0 where
  both_first_and_last negative_first negative_last index_out_of_range : Panic

-- What `Paginate` gives: a panic, a nil paginator with the flag, or the closure's variables.
pub data Paginated : Type 0 where
  panic : Panic → Paginated
  no_rows : Bool → Paginated
  window : ℤ → ℤ → Paginated

-- The first part of `Paginate`: a panic, an early return, or a limit (negative for Last).
pub data Limit : Type 0 where
  refused : Panic → Limit
  none_wanted : Limit
  limited : ℤ → Limit

unfoldable pub choose_limit : Option ℤ → Option ℤ → Limit
choose_limit none none = limited (pos 0)
choose_limit (some f) none =
    if ltb_ℤ f (pos 0)
    then refused negative_first
    else if eqb_ℤ f (pos 0)
    then none_wanted
    else limited f
choose_limit none (some l) =
    if ltb_ℤ l (pos 0)
    then refused negative_last
    else if eqb_ℤ l (pos 0)
    then none_wanted
    else limited (neg l)
choose_limit (some f) (some l) = refused both_first_and_last

unfoldable pub start_offset : Option ℤ → ℤ
start_offset none = pos 0
start_offset (some a) = if leb_ℤ (pos 0) a then a +ℤ pos 1 else pos 0

-- The last assignment under `if p.Before != nil`.
unfoldable pub clip : ℤ → ℤ → ℤ → Paginated
clip b limit offset =
    if eqb_ℤ limit (pos 0) || ltb_ℤ (b -ℤ offset) limit
    then window (b -ℤ offset) offset
    else window limit offset

unfoldable pub apply_before : Option ℤ → ℤ → ℤ → Bool → Paginated
apply_before none limit offset include_total = window limit offset
apply_before (some b) limit offset include_total =
    if leb_ℤ b offset
    then no_rows include_total
    else if ltb_ℤ limit (pos 0)
    then (if eqb_ℤ offset (pos 0) && ltb_ℤ (neg limit) b
        then clip b (neg limit) (b -ℤ neg limit)
        else clip b (neg limit) offset)
    else clip b limit offset

unfoldable pub paginate : PagingParams → Paginated
paginate p = elim (choose_limit p.first p.last) [
  | refused r ↦ panic r
  | none_wanted ↦ no_rows p.include_total
  | limited limit ↦ apply_before p.before limit (start_offset p.after) p.include_total
]

-- The flag that comes with a paginator that is not nil.
unfoldable pub needs_total : ℤ → Bool
needs_total limit = ltb_ℤ limit (pos 0)

-- The closure that `Paginate` returns.
unfoldable pub resolve : ℤ → ℤ → ℤ → ℤ × ℤ
resolve limit offset total =
    if ltb_ℤ limit (pos 0)
    then (if ltb_ℤ offset (total +ℤ limit)
        then (neg limit, total +ℤ limit)
        else (neg limit, offset))
    else (limit, offset)

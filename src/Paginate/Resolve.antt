-- ===== src/Paginate/Resolve.antt =====
-- The limit and offset of `Paginate` in plain numbers, where nothing overflows.
use filtrx.Base.{
  ℕ, suc, ◌+◌, ◌-◌, ◌<◌, ◌≡◌, refl, Bool, Option, none, some, arith, ltb, leb, ◌==◌, ◌||◌,
  if◌then◌else◌,
}
use filtrx.Base.Int.{ℤ, pos, negsuc, half_range, +ℤ-pos, +ℤ-negsuc, -ℤ-pos, neg-negsuc}
use filtrx.Paginate.{no_rows, window, start_offset, clip, apply_before, resolve}
use filtrx.Paginate.Window.{from}

pub start_offset-from : (a : Option ℤ) → from a < half_range → start_offset a ≡ pos (from a)
unfolding start_offset
start_offset-from none h = refl
start_offset-from (some (pos a)) h = ground (arith, +ℤ-pos a 1)
start_offset-from (some (negsuc a)) h = ground arith

-- A limit and a room before Before: the smaller, where a limit of zero is none.
abbrev pub clipped : ℕ → ℕ → ℕ
clipped f room = if (f == 0) || ltb room f then room else f

pub apply_before-forward :
    (b f o : ℕ) (t : Bool)
    → b < half_range
    → apply_before (some (pos b)) (pos f) (pos o) t
      ≡ (if leb b o then no_rows t else window (pos (clipped f (b - o))) (pos o))
unfolding apply_before clip
apply_before-forward b f o t hb = ground (arith, -ℤ-pos b o)

-- Last with Before, from the start: the rows just before Before.
pub apply_before-backward :
    (b l : ℕ) (t : Bool)
    → b < half_range
    → suc l < half_range
    → apply_before (some (pos b)) (negsuc l) (pos 0) t ≡ (
        if b == 0
        then no_rows t
        else if ltb (suc l) b
        then window (pos (suc l)) (pos (b - suc l))
        else window (pos b) (pos 0))
unfolding apply_before clip
apply_before-backward b l t hb hl =
    ground (arith, neg-negsuc l, -ℤ-pos b (suc l), -ℤ-pos b (b - suc l), -ℤ-pos b 0)

-- Last with Before and After: After's offset stays.
pub apply_before-between :
    (b l o : ℕ) (t : Bool)
    → b < half_range
    → suc l < half_range
    → apply_before (some (pos b)) (negsuc l) (pos (suc o)) t ≡ (
        if leb b (suc o)
        then no_rows t
        else window (pos (clipped (suc l) (b - suc o))) (pos (suc o)))
unfolding apply_before clip
apply_before-between b l o t hb hl = ground (arith, neg-negsuc l, -ℤ-pos b (suc o))

-- Last without Before: the window at the end, but not before After.
pub resolve-last :
    (l o n : ℕ)
    → suc l < half_range
    → n < half_range
    → resolve (negsuc l) (pos o) (pos n)
      ≡ (if ltb (o + suc l) n then (pos (suc l), pos (n - suc l)) else (pos (suc l), pos o))
unfolding resolve
resolve-last l o n hl hn = ground (arith, neg-negsuc l, +ℤ-negsuc n l)

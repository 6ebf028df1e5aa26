-- ===== src/Paginate/Panics.antt =====
-- The arguments on which `Paginate` panics.
use filtrx.Base.{◌≡◌, refl, Bool, true, false, ◌||◌, ◌∙◌, Option, none, some, arith}
use filtrx.Base.Int.{ℤ, pos, negsuc, neg, ◌-ℤ◌}
use filtrx.Paginate.{
  PagingParams, Paginated, Limit, refused, none_wanted, limited, panic, no_rows, window,
  choose_limit, apply_before, clip, paginate, start_offset,
}

abbrev pub panics : Paginated → Bool
panics (panic p) = true
panics (no_rows wanted) = false
panics (window limit offset) = false

abbrev pub is_negative : Option ℤ → Bool
is_negative none = false
is_negative (some (pos n)) = false
is_negative (some (negsuc n)) = true

abbrev pub both_given : Option ℤ → Option ℤ → Bool
both_given (some f) (some l) = true
both_given _ _ = false

clip-total : (b limit offset : ℤ) → panics (clip b limit offset) ≡ false
unfolding clip
clip-total b limit offset = ground arith

apply_before-total :
    (before : Option ℤ) (limit offset : ℤ) (wanted : Bool)
    → panics (apply_before before limit offset wanted) ≡ false
unfolding apply_before
apply_before-total none limit offset wanted = refl
apply_before-total (some b) limit offset wanted = ground (
  arith,
  clip-total b limit offset,
  clip-total b (neg limit) offset,
  clip-total b (neg limit) (b -ℤ neg limit),
)

abbrev is_refused : Limit → Bool
is_refused (refused r) = true
is_refused none_wanted = false
is_refused (limited l) = false

settled :
    (before after : Option ℤ) (wanted : Bool) (c : Limit)
    → panics (elim c [
      | refused r ↦ panic r
      | none_wanted ↦ no_rows wanted
      | limited limit ↦ apply_before before limit (start_offset after) wanted
    ])
      ≡ is_refused c
settled before after wanted (refused r) = refl
settled before after wanted none_wanted = refl
settled before after wanted (limited l) = apply_before-total before l (start_offset after) wanted

choose_limit-refused :
    (first last : Option ℤ)
    → is_refused (choose_limit first last)
      ≡ (both_given first last || (is_negative first || is_negative last))
unfolding choose_limit
choose_limit-refused none none = refl
choose_limit-refused none (some (pos n)) = ground arith
choose_limit-refused none (some (negsuc n)) = ground arith
choose_limit-refused (some (pos n)) none = ground arith
choose_limit-refused (some (negsuc n)) none = ground arith
choose_limit-refused (some f) (some l) = refl

-- Paginate panics exactly on contradictory arguments: First with Last, a negative First, or a negative
-- Last, whatever Before, After and the total flag are; no other arguments, in or out of range, panic.
pub paginate-panics :
    (p : PagingParams)
    → panics (paginate p)
      ≡ (both_given p.first p.last || (is_negative p.first || is_negative p.last))
unfolding paginate
paginate-panics p =
    settled p.before p.after p.include_total (choose_limit p.first p.last)
    ∙ choose_limit-refused p.first p.last

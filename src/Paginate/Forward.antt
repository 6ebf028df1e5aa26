-- ===== src/Paginate/Forward.antt =====
-- Forward paging (no Last): the page is the Relay window.
use filtrx.Base.{
  ℕ, zero, suc, ◌-◌, ◌<◌, ◌≡◌, refl, sym, ◌∙◌, ap, Bool, Option, none, some, List, [], arith, leb,
  length, take, drop, take-of_le, drop-take, drop-nil, take-take-min, take_count, Bool-cases, inl,
  inr,
}
use mathlib.Core.Option
use Prim.Native.Nat.{min}
use filtrx.Base.Int.{ℤ, pos, negsuc, half_range, InRange}
use filtrx.Paginate.{PagingParams, window, choose_limit, apply_before, paginate, resolve, limited}
use filtrx.Paginate.Window.{selected, page_of, from, upto, between, first_or_last, relay}
use filtrx.Paginate.Resolve.{clipped, start_offset-from, apply_before-forward}

-- A bound that Go's int can hold.
abbrev pub Fits : Option ℤ → Type 0
Fits none = Unit
Fits (some i) = InRange i

choose_limit-first : (f : ℕ) → choose_limit (some (pos (suc f))) none ≡ limited (pos (suc f))
unfolding choose_limit
choose_limit-first f = ground arith

clipped-suc : (f room : ℕ) → clipped (suc f) (suc room) ≡ suc (min f room)
clipped-suc f room = ground arith

module _ {ℓ} {A : Type ℓ} where
  -- A limit of zero is no limit.
  abbrev pub bounded : ℕ → List A → List A
  bounded zero r = r
  bounded (suc f) r = take (suc f) r

  pub selected-window :
      (f o : ℕ) (xs : List A) → selected (window (pos f) (pos o)) xs ≡ bounded f (drop o xs)
  unfolding selected resolve page_of
  selected-window zero o xs = ground arith
  selected-window (suc f) o xs = ground arith

  bounded-clipped :
      (f room : ℕ) (ys : List A) → 0 < room → bounded (clipped f room) ys ≡ bounded f (take room ys)
  bounded-clipped zero (suc room) ys h = refl
  bounded-clipped zero zero ys h = absurd (omega arith)
  bounded-clipped (suc f) zero ys h = absurd (omega arith)
  bounded-clipped (suc f) (suc room) ys h =
      ap (λ k. bounded k ys) (clipped-suc f room)
      ∙ take_count ys {m = suc (min f room)} (omega arith)
      ∙ sym (take-take-min (suc f) (suc room) ys)

  pub take-min-length : (b : ℕ) (xs : List A) → take (min b (length xs)) xs ≡ take b xs
  take-min-length b xs =
      sym (take-take-min b (length xs) xs) ∙ ap (take b) (take-of_le (length xs) xs (omega arith))

  bounded-nil : (f : ℕ) → bounded f [] ≡ []
  bounded-nil zero = refl
  bounded-nil (suc f) = refl

  pub selected-apply_before :
      (before : Option ℤ) (f o : ℕ) (t : Bool) (xs : List A)
      → Fits before
      → selected (apply_before before (pos f) (pos o) t) xs
        ≡ bounded f (drop o (take (upto before (length xs)) xs))
  selected-apply_before none f o t xs h =
      unfold apply_before in
      selected-window f o xs
      ∙ ap (λ ys. bounded f (drop o ys)) (sym (take-of_le (length xs) xs (omega arith)))
  selected-apply_before (some (pos b)) f o t xs h =
      rw (apply_before-forward b f o t h, take-min-length b xs, drop-take o b xs)
        (elim (Bool-cases (leb b o)) [
          | inl out ↦ rw out (
              unfold selected in
              sym (ap (bounded f) (take_count (drop o xs) {n = 0} (ground arith)) ∙ bounded-nil f))
          | inr room ↦ rw room (
              selected-window (clipped f (b - o)) o xs
              ∙ bounded-clipped f (b - o) (drop o xs) (ground arith))
        ])
  selected-apply_before (some (negsuc b)) f o t xs h =
      unfold selected apply_before in ground (arith, drop-nil {ℓ} {A = A} o, bounded-nil f)

module _ {ℓ} {A : Type ℓ} where
  -- Without Last, for every First (not negative), After and Before that fit Go's int, the page is
  -- the Relay window: the first rows strictly between After and Before, and all without a First.
  pub selected-forward :
      (before after : Option ℤ) (first : Option ℕ) (t : Bool) (xs : List A)
      → Fits before
      → from after < half_range
      → let p : PagingParams = record {
        before = before;
        after = after;
        first = Option.map pos first;
        last = none;
        include_total = t;
      } in
        selected (paginate p) xs ≡ relay p xs
  unfolding paginate relay between first_or_last
  selected-forward before after none t xs h k =
      unfold choose_limit in
      rw (start_offset-from after k) (selected-apply_before before 0 (from after) t xs h)
  selected-forward before after (some zero) t xs h k = unfold choose_limit selected in refl
  selected-forward before after (some (suc f)) t xs h k =
      rw (choose_limit-first f, paginate, start_offset-from after k)
        (selected-apply_before before (suc f) (from after) t xs h)

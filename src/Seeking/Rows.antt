-- ===== src/Seeking/Rows.antt =====
-- The scan of a keyset page on the rows that a database gives, and what is left of them.
use filtrx.Base.{
  Option, none, some, Bytes, ℕ, zero, suc, ◌+◌, ◌≡◌, refl, sym, ◌∙◌, ap, Bool, true, false, List,
  [], ◌∷◌, ◌++◌, arith, ltb, map, length, take, drop, append_assoc, append-nil, take-take,
  take_count, take-of_le, length-take, if◌then◌else◌, Bool-cases, inl, inr,
}
use Prim.Native.Nat.{min}
use filtrx.Base.Int.{pos, ltb_ℤ}
use filtrx.Value.{Value}
use filtrx.Listing.{fetched}
use filtrx.Listing.Scan.{answer}
use filtrx.Seeking.Slices.{first_rows, in_turn}
use filtrx.Seeking.{add_cursor, keyed, scan_keys, scan_reply, key, reverse}

-- The rows of a page in the order in which they are returned.
unfoldable pub in_order {ℓ} : {A : Type ℓ} → Bool → List A → List A
in_order before xs = if before then reverse xs else xs

module _ {ℓ} {T : Type ℓ} (fs : List (T → Value)) where
  keyed_same : {d e : List T} {k l : List (List Value)} → d ≡ e → k ≡ l → keyed d k ≡ keyed e l
  keyed_same p q = cc

  scan_keys-answer :
      (ys dest : List T) (keys : List (List Value))
      → scan_keys fs (answer false (pos 0) ys) dest keys
        ≡ keyed (dest ++ ys) (keys ++ map (key fs) ys)
  unfolding scan_keys
  scan_keys-answer [] dest keys = keyed_same (sym (append-nil dest)) (sym (append-nil keys))
  scan_keys-answer (y ∷ ys) dest keys =
      scan_keys-answer ys (dest ++ y ∷ []) (keys ++ key fs y ∷ [])
      ∙ keyed_same (append_assoc dest (y ∷ []) ys)
          (append_assoc keys (key fs y ∷ []) (map (key fs) ys))

  pub scan_reply-answer :
      (ys dest : List T)
      → scan_reply fs (fetched (answer false (pos 0) ys)) dest
        ≡ keyed (dest ++ ys) (map (key fs) ys)
  unfolding scan_reply
  scan_reply-answer ys dest = scan_keys-answer ys dest []

pub add_cursor-some :
    (a : Option Bytes) (b : Option (List Bytes)) (cs : List Bytes)
    → add_cursor a b ≡ some cs
    → (c : Bytes) × (ds : List Bytes) × (a ≡ some c) × (b ≡ some ds) × (cs ≡ c ∷ ds)
unfolding add_cursor
add_cursor-some (some c) (some ds) cs h = (c, ds, refl, refl, cc)
add_cursor-some (some c) none cs h = absurd cc
add_cursor-some none b cs h = absurd cc

plus_zero : (n : ℕ) → n ≡ 0 + n
plus_zero n = omega arith

pub ltb_next : (n m : ℕ) → ltb n (min (suc n) m) ≡ ltb n m
ltb_next n m = ground arith

module _ {ℓ} {A : Type ℓ} where
  take-append : (dest ys : List A) (n : ℕ) → take (length dest + n) (dest ++ ys) ≡ dest ++ take n ys
  take-append [] ys n = take_count ys (omega arith)
  take-append (x ∷ dest) ys n =
      take_count (x ∷ (dest ++ ys)) {n = suc (length dest + n)} (omega arith)
      ∙ ap (λ (r : List A). x ∷ r) (take-append dest ys n)

  take-append_self : (dest ys : List A) → take (length dest) (dest ++ ys) ≡ dest
  take-append_self [] ys = refl
  take-append_self (x ∷ dest) ys = ap (λ (r : List A). x ∷ r) (take-append_self dest ys)

  drop-append_self : (dest ys : List A) → drop (length dest) (dest ++ ys) ≡ ys
  drop-append_self [] ys = refl
  drop-append_self (x ∷ dest) ys = drop-append_self dest ys

  -- Of one row more than the page, the page is left; what was there before stays in front.
  pub first_rows-append :
      (dest ys : List A) (n : ℕ)
      → first_rows (ltb n (length (take (suc n) ys))) (length dest + n) (dest ++ take (suc n) ys)
        ≡ dest ++ take n ys
  unfolding first_rows
  first_rows-append dest ys n =
      rw (length-take (suc n) ys, ltb_next n (length ys))
        (elim (Bool-cases (ltb n (length ys))) [
          | inl more ↦ rw more (
              take-append dest (take (suc n) ys) n
              ∙ ap (λ r. dest ++ r) (take-take n (suc n) ys (omega arith)))
          | inr fits ↦ rw fits (
              ap (λ r. dest ++ r)
                (take-of_le (suc n) ys (ground arith) ∙ sym (take-of_le n ys (ground arith))))
        ])

  first_rows-first :
      (ys : List A) (n : ℕ)
      → first_rows (ltb n (length (take (suc n) ys))) n (take (suc n) ys) ≡ take n ys
  first_rows-first ys n =
      ap (λ m. first_rows (ltb n (length (take (suc n) ys))) m (take (suc n) ys)) (plus_zero n)
      ∙ first_rows-append [] ys n

  pub in_turn-append :
      (before : Bool) (dest ys : List A)
      → in_turn before (length dest) (dest ++ ys) ≡ dest ++ in_order before ys
  unfolding in_turn in_order
  in_turn-append false dest ys = refl
  in_turn-append true dest ys = rw (take-append_self dest ys, drop-append_self dest ys) refl

  pub more_left : (n : ℕ) (ys : List A) → ltb n (length (take (suc n) ys)) ≡ ltb n (length ys)
  more_left n ys = rw (length-take (suc n) ys) (ltb_next n (length ys))

module _ {ℓ k} {A : Type ℓ} {B : Type k} (f : A → B) where
  pub length-map : (xs : List A) → length (map f xs) ≡ length xs
  length-map [] = refl
  length-map (x ∷ xs) = ap suc (length-map xs)

  map-append : (xs ys : List A) → map f (xs ++ ys) ≡ map f xs ++ map f ys
  map-append [] ys = refl
  map-append (x ∷ xs) ys = ap (λ (r : List B). f x ∷ r) (map-append xs ys)

  take-map : (n : ℕ) (xs : List A) → take n (map f xs) ≡ map f (take n xs)
  take-map zero xs = refl
  take-map (suc n) [] = refl
  take-map (suc n) (x ∷ xs) = ap (λ (r : List B). f x ∷ r) (take-map n xs)

  reverse-map : (xs : List A) → reverse (map f xs) ≡ map f (reverse xs)
  unfolding reverse
  reverse-map [] = refl
  reverse-map (x ∷ xs) = rw (reverse-map xs) (sym (map-append (reverse xs) (x ∷ [])))

  first_rows-map :
      (more : Bool) (n : ℕ) (xs : List A)
      → first_rows more n (map f xs) ≡ map f (first_rows more n xs)
  unfolding first_rows
  first_rows-map true n xs = take-map n xs
  first_rows-map false n xs = refl

  in_turn-map :
      (before : Bool) (xs : List A) → in_turn before 0 (map f xs) ≡ map f (in_order before xs)
  unfolding in_turn in_order
  in_turn-map true xs = reverse-map xs
  in_turn-map false xs = refl

  pub count-keys :
      (n : ℕ) (xs : List A) → ltb_ℤ (pos n) (pos (length (map f xs))) ≡ ltb n (length xs)
  count-keys n xs = rw (length-map xs) (ground arith)

  -- The keys that are left are those of the rows that are left, in the same order.
  pub keys_left :
      (before : Bool) (n : ℕ) (ys : List A)
      → in_turn before 0 (first_rows (ltb n (length (take (suc n) ys))) n (map f (take (suc n) ys)))
        ≡ map f (in_order before (take n ys))
  keys_left before n ys =
      rw (first_rows-map (ltb n (length (take (suc n) ys))) n (take (suc n) ys)) (
        ap (λ (r : List A). in_turn before 0 (map f r)) (first_rows-first ys n)
        ∙ in_turn-map before (take n ys))

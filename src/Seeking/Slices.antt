-- ===== src/Seeking/Slices.antt =====
-- The slices of a keyset page stay in range: as many rows were appended as there are keys.
use filtrx.Base.{
  ℕ, ◌+◌, ◌≤◌, ◌≡◌, refl, ◌∙◌, ap, Bool, true, false, Option, some, List, ◌++◌, length, take, drop,
  leb, arith, if◌then◌else◌, length-take,
}
use filtrx.Base.Int.{ℤ, pos, negsuc, pos_part, ltb_ℤ, leb_ℤ}
use filtrx.Value.{Value}
use filtrx.Query.{Query, SeekState}
use filtrx.Query.Statement.{Statement}
use filtrx.Listing.{Db}
use filtrx.Seeking.{
  Codec, KeysetResult, Ran, keyed, slice_to, drop_extra, reverse_from, natural_order, reverse,
  sliced, encode_all, finish_cursors, finish_keyset,
}

-- A size that is not negative.
abbrev pub IsNatural : ℤ → Type 0
IsNatural z = z ≡ pos (pos_part z)

module _ {ℓ} {A : Type ℓ} where
  -- The cut and the order where nothing is out of range.
  unfoldable pub first_rows : Bool → ℕ → List A → List A
  first_rows more n xs = if more then take n xs else xs

  unfoldable pub in_turn : Bool → ℕ → List A → List A
  in_turn before start xs = if before then take start xs ++ reverse (drop start xs) else xs

  drop_extra-in_range :
      (more : Bool) (start : ℕ) (size : ℤ) (xs : List A)
      → IsNatural size
      → (more ≡ true → start + pos_part size ≤ length xs)
      → drop_extra more start size xs ≡ some (first_rows more (start + pos_part size) xs)
  unfolding drop_extra slice_to first_rows
  drop_extra-in_range false start size xs natural h = refl
  drop_extra-in_range true start (pos n) xs natural h =
      let small = h refl in
      let fits : leb (start + n) (length xs) ≡ true = ground arith in rw fits refl
  drop_extra-in_range true start (negsuc n) xs natural h = absurd (cc)

  natural_order-in_range :
      (before : Bool) (start : ℕ) (xs : List A)
      → start ≤ length xs
      → natural_order before start xs ≡ some (in_turn before start xs)
  unfolding natural_order reverse_from in_turn
  natural_order-in_range false start xs h = refl
  natural_order-in_range true start xs h =
      let fits : leb start (length xs) ≡ true = ground arith in rw fits refl

  start-first_rows :
      (more : Bool) (start n : ℕ) (xs : List A)
      → start ≤ length xs
      → start ≤ length (first_rows more (start + n) xs)
  unfolding first_rows
  start-first_rows false start n xs h = h
  start-first_rows true start n xs h = rw (length-take (start + n) xs) (ground arith)

from_zero : (n : ℕ) → 0 + n ≡ n
from_zero n = omega arith

-- The size of a page that passes the checks.
pub checked_size : (z : ℤ) → leb_ℤ z (pos 0) ≡ false → IsNatural z
checked_size (pos n) h = refl
checked_size (negsuc n) h = absurd (ground arith)

more_rows : (size : ℤ) (k : ℕ) → IsNatural size → ltb_ℤ size (pos k) ≡ true → pos_part size ≤ k
more_rows (pos n) k natural h = ground arith
more_rows (negsuc n) k natural h = absurd (cc)

module _ {ℓ} {T : Type ℓ} where
  sliced-some :
      (rows : Option (List T)) (keys : Option (List (List Value))) (dest d : List T)
      (ks : List (List Value)) (issued : List Statement)
      (rest : List T → List (List Value) → Ran T KeysetResult)
      → rows ≡ some d
      → keys ≡ some ks
      → sliced rows keys dest issued rest ≡ rest d ks
  unfolding sliced
  sliced-some rows keys dest d ks issued rest h k = rw (h, k) refl

  -- Where as many rows stand behind `start` as there are keys, no slice panics.
  pub finish_keyset-in_range :
      (db : Db T) (codec : Codec) (q : Query) (s : SeekState) (dest : List T)
      (keys : List (List Value)) (start : ℕ) (issued : List Statement)
      → IsNatural s.size
      → length dest ≡ start + length keys
      → let more = ltb_ℤ s.size (pos (length keys)) in
        finish_keyset db codec q s (keyed dest keys) start issued
        ≡ finish_cursors db codec q s
            (encode_all codec (in_turn s.before 0 (first_rows more (pos_part s.size) keys)))
            more
            (in_turn s.before start (first_rows more (start + pos_part s.size) dest))
            issued
  unfolding finish_keyset
  finish_keyset-in_range db codec q s dest keys start issued natural h =
      let n = pos_part s.size in
      let more = ltb_ℤ s.size (pos (length keys)) in
      sliced-some _ _ dest (first_rows more (start + n) dest) (first_rows more n keys) issued _
        (drop_extra-in_range more start s.size dest natural
          (λ e. let small = more_rows s.size (length keys) natural e in omega (arith, small, h)))
        (drop_extra-in_range more 0 s.size keys natural
            (λ e. let small = more_rows s.size (length keys) natural e in omega (arith, small))
          ∙ ap (λ m. some (first_rows more m keys)) (from_zero n))
      ∙ sliced-some _ _ (first_rows more (start + n) dest)
          (in_turn s.before start (first_rows more (start + n) dest))
          (in_turn s.before 0 (first_rows more n keys)) issued _
          (natural_order-in_range s.before start (first_rows more (start + n) dest)
            (start-first_rows more start n dest (omega (arith, h))))
          (natural_order-in_range s.before 0 (first_rows more n keys) (omega arith))

-- ===== src/Base/Int.antt =====
-- Go's `int` (64 bits) as an integer in range, with two's complement wrap-around written out.
use Prim.Native.Nat.{ℕ, suc, ◌+◌, ◌-◌, ◌%◌, ◌^◌, ◌≤◌, ◌<◌}
use mathlib.Core.Path.{◌≡◌}
use mathlib.Core.Bool.{Bool}
use native.Mathlib.Omega.{arith}
use filtrx.Base.Bools.{ltb, leb, ◌==◌, if◌then◌else◌}

-- `negsuc n` is -(n + 1).
pub data ℤ : Type 0 where
  pos : ℕ → ℤ
  negsuc : ℕ → ℤ

abbrev pub half_range : ℕ
half_range = 2 ^ 63

-- The value of an integer in int64 after wrap-around.
unfoldable pub wrap : ℤ → ℤ
wrap (pos n) = let r = n % 2 ^ 64 in if ltb r half_range then pos r else negsuc (2 ^ 64 - 1 - r)
wrap (negsuc n) = let r = n % 2 ^ 64 in if ltb r half_range then negsuc r else pos (2 ^ 64 - 1 - r)

abbrev pub InRange : ℤ → Type 0
InRange (pos n) = n < half_range
InRange (negsuc n) = n < half_range

pub wrap-InRange : (a : ℤ) → InRange (wrap a)
unfolding wrap
wrap-InRange (pos n) = ground arith
wrap-InRange (negsuc n) = ground arith

pub wrap-of_InRange : (a : ℤ) → InRange a → wrap a ≡ a
unfolding wrap
wrap-of_InRange (pos n) h = ground arith
wrap-of_InRange (negsuc n) h = ground arith

abbrev pub pos_part : ℤ → ℕ
pos_part (pos n) = n
pos_part (negsuc n) = 0

abbrev pub neg_part : ℤ → ℕ
neg_part (pos n) = 0
neg_part (negsuc n) = suc n

-- a - b of two numbers, as an integer
abbrev pub sub_ℕ : ℕ → ℕ → ℤ
sub_ℕ a b = if leb b a then pos (a - b) else negsuc (b - a - 1)

abbrev pub ltb_ℤ : ℤ → ℤ → Bool
ltb_ℤ a b = ltb (pos_part a + neg_part b) (pos_part b + neg_part a)

abbrev pub leb_ℤ : ℤ → ℤ → Bool
leb_ℤ a b = leb (pos_part a + neg_part b) (pos_part b + neg_part a)

infixl 65 ◌+ℤ◌ ◌-ℤ◌
unfoldable pub ◌+ℤ◌ : ℤ → ℤ → ℤ
a +ℤ b = wrap (sub_ℕ (pos_part a + pos_part b) (neg_part a + neg_part b))

unfoldable pub ◌-ℤ◌ : ℤ → ℤ → ℤ
a -ℤ b = wrap (sub_ℕ (pos_part a + neg_part b) (neg_part a + pos_part b))

unfoldable pub neg : ℤ → ℤ
neg a = wrap (sub_ℕ (neg_part a) (pos_part a))

abbrev pub eqb_ℤ : ℤ → ℤ → Bool
eqb_ℤ a b = pos_part a + neg_part b == pos_part b + neg_part a

pub +ℤ-pos : (a b : ℕ) → a + b < half_range → pos a +ℤ pos b ≡ pos (a + b)
unfolding ◌+ℤ◌ wrap
+ℤ-pos a b h = ground arith

pub +ℤ-negsuc : (a b : ℕ) → a < half_range → b < half_range → pos a +ℤ negsuc b ≡ sub_ℕ a (suc b)
unfolding ◌+ℤ◌ wrap
+ℤ-negsuc a b h k = ground arith

pub -ℤ-pos : (a b : ℕ) → b ≤ a → a < half_range → pos a -ℤ pos b ≡ pos (a - b)
unfolding ◌-ℤ◌ wrap
-ℤ-pos a b h k = ground arith

pub neg-pos : (n : ℕ) → n < half_range → neg (pos (suc n)) ≡ negsuc n
unfolding neg wrap
neg-pos n h = ground arith

pub neg-negsuc : (n : ℕ) → suc n < half_range → neg (negsuc n) ≡ pos (suc n)
unfolding neg wrap
neg-negsuc n h = ground arith

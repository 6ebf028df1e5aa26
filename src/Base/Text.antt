-- ===== src/Base/Text.antt =====
-- Go strings as lists of bytes, and what the code uses of `strings` and `strconv`.
use Prim.Native.Nat.{ℕ, zero, suc, ◌+◌, ◌/◌, ◌%◌}
use Prim.Native.Char.{code}
use Prim.Native.String.{String}
use mathlib.Core.Path.{◌≡◌, refl}
use mathlib.Core.Logic.{◌≢◌}
use mathlib.Core.Bool.{Bool, true, false, ◌||◌}
use mathlib.Core.List.{List, [], ◌∷◌, ◌++◌, cons-ne-nil}
use native.Mathlib.Omega.{arith}
use filtrx.Base.Bools.{◌==◌, ltb, if◌then◌else◌}

abbrev pub Bytes : Type 0
Bytes = List ℕ

-- The bytes of an ASCII literal; shut, so that literals stay small in proofs.
unfoldable pub codes : String → Bytes
codes String.[] = []
codes (String.◌∷◌ c s) = code c ∷ codes s

unfoldable pub is_empty : Bytes → Bool
is_empty [] = true
is_empty (c ∷ s) = false

unfoldable pub drop_first : Bytes → Bytes
drop_first [] = []
drop_first (c ∷ s) = s

-- strings.Contains of a one-byte text
unfoldable pub contains : ℕ → Bytes → Bool
contains c [] = false
contains c (x ∷ s) = (x == c) || contains c s

-- Puts a byte at the front of the first part.
abbrev push_first : ℕ → List Bytes → List Bytes
push_first c [] = (c ∷ []) ∷ []
push_first c (p ∷ ps) = (c ∷ p) ∷ ps

-- strings.Split by a one-byte separator; there is always at least one part.
unfoldable pub split : ℕ → Bytes → List Bytes
split sep [] = [] ∷ []
split sep (c ∷ s) = let rest = split sep s in if c == sep then [] ∷ rest else push_first c rest

-- strings.Join by a separator text
unfoldable pub join : Bytes → List Bytes → Bytes
join sep [] = []
join sep (p ∷ []) = p
join sep (p ∷ q ∷ ps) = p ++ sep ++ join sep (q ∷ ps)

-- The decimal digits of `n` before `out`; a fuel above `n` is enough.
digits : ℕ → ℕ → Bytes → Bytes
digits zero n out = out
digits (suc fuel) n out =
    let more = digits fuel (n / 10) ((b'0' + n % 10) ∷ out) in
    if ltb n 10 then (b'0' + n) ∷ out else more

-- strconv.Itoa of a number that is not negative
unfoldable pub itoa : ℕ → Bytes
unfolding digits
itoa n = digits (suc n) n []

pub split-ne-nil : (sep : ℕ) (s : Bytes) → split sep s ≢ []
unfolding split
split-ne-nil sep [] = cons-ne-nil _ _
split-ne-nil sep (c ∷ s) = ground arith

join-push_first :
    (sep : Bytes) (c : ℕ) (ps : List Bytes) → join sep (push_first c ps) ≡ c ∷ join sep ps
unfolding join
join-push_first sep c [] = refl
join-push_first sep c (p ∷ []) = refl
join-push_first sep c (p ∷ q ∷ ps) = refl

join-nil_first : (sep : Bytes) (ps : List Bytes) → ps ≢ [] → join sep ([] ∷ ps) ≡ sep ++ join sep ps
unfolding join
join-nil_first sep [] h = absurd (h refl)
join-nil_first sep (p ∷ ps) h = refl

-- Joining the parts of a split gives the text back.
pub join-split : (sep : ℕ) (s : Bytes) → join (sep ∷ []) (split sep s) ≡ s
unfolding split
join-split sep [] = unfold join in refl
join-split sep (c ∷ s) = ground (
  arith,
  join-split sep s,
  join-push_first (sep ∷ []) c (split sep s),
  join-nil_first (sep ∷ []) (split sep s) (split-ne-nil sep s),
)

itoa_digits : itoa 4096 ≡ codes "4096"
unfolding itoa codes
itoa_digits = refl

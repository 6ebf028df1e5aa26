-- ===== src/Cond/Tokens.antt =====
-- The abstract view of a rendered statement: a list of fixed texts and of holes for bound values.
-- It is what the builder of cond.go stands for; `emit` runs it on a builder.
use filtrx.Base.{ℕ, suc, ◌+◌, ◌≡◌, refl, List, [], ◌∷◌, ◌++◌, append_assoc, arith, length, Bytes}
use filtrx.Value.{Value}
use filtrx.Dialect.{Dialect, placeholder}

pub data Token : Type 0 where
  lit : Bytes → Token
  hole : Value → Token

-- The values of the holes, in order.
unfoldable pub holes : List Token → List Value
holes [] = []
holes (lit s ∷ ts) = holes ts
holes (hole v ∷ ts) = v ∷ holes ts

-- The text, where the i-th hole behind `n` earlier ones is the placeholder of position n + i.
unfoldable pub render : Dialect → ℕ → List Token → Bytes
render d n [] = []
render d n (lit s ∷ ts) = s ++ render d n ts
render d n (hole v ∷ ts) = placeholder d (suc n) ++ render d (suc n) ts

pub holes-append : (ts us : List Token) → holes (ts ++ us) ≡ holes ts ++ holes us
unfolding holes
holes-append [] us = refl
holes-append (lit s ∷ ts) us = holes-append ts us
holes-append (hole v ∷ ts) us = rw (holes-append ts us)

add_shift : (n k : ℕ) → n + suc k ≡ suc n + k
add_shift n k = omega arith

add_none : (n : ℕ) → n + 0 ≡ n
add_none n = omega arith

-- The text of a sequence: the second part is numbered behind the holes of the first.
pub render-append :
    (d : Dialect) (n : ℕ) (ts us : List Token)
    → render d n (ts ++ us) ≡ render d n ts ++ render d (n + length (holes ts)) us
unfolding holes render
render-append d n [] us = rw add_none
render-append d n (lit s ∷ ts) us = simp (render-append d n ts us, append_assoc)
render-append d n (hole v ∷ ts) us = simp (render-append d (suc n) ts us, append_assoc, add_shift)

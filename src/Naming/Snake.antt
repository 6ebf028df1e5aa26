-- ===== src/Naming/Snake.antt =====
-- What `snake` makes of a name.
use filtrx.Base.{
  ℕ, ◌+◌, ◌≡◌, refl, sym, ◌∙◌, ap, true, false, ◌&&◌, ◌||◌, Option, none, some, [], ◌∷◌, Bytes,
  if◌then◌else◌, Bool-cases, inl, inr, ◌==◌, arith,
}
use filtrx.Base.Compare.{to_lower}
use filtrx.Naming.{is_upper, is_some, ends_word, starts_lower, snake_letter, snake_from, snake}

-- No letter of the text is an upper-case one.
abbrev pub NoUpper : Bytes → Type 0
NoUpper [] = Unit
NoUpper (c ∷ cs) = (is_upper c ≡ false) × NoUpper cs

-- The text without its underscores.
abbrev pub letters : Bytes → Bytes
letters [] = []
letters (c ∷ cs) = if c == b'_' then letters cs else c ∷ letters cs

is_upper-lowered : (c : ℕ) → is_upper c ≡ true → is_upper (c + 32) ≡ false
unfolding is_upper
is_upper-lowered c h = ground arith

is_upper-not_underscore :
    (c : ℕ) → is_upper c ≡ true → ((c == b'_') ≡ false) × ((c + 32 == b'_') ≡ false)
unfolding is_upper
is_upper-not_underscore c h = (ground arith, ground arith)

snake_letter-NoUpper :
    (before : Option ℕ) (c : ℕ) (behind out : Bytes)
    → NoUpper out
    → NoUpper (snake_letter before c behind out)
unfolding snake_letter is_upper
snake_letter-NoUpper before c behind out h = elim (Bool-cases (is_upper c)) [
  | inl up ↦
      rw up (elim (Bool-cases (is_some before && (ends_word before || starts_lower behind))) [
        | inl word ↦ rw word (refl, (is_upper-lowered c up, h))
        | inr inside ↦ rw inside (is_upper-lowered c up, h)
      ])
  | inr low ↦ rw low (low, h)
]

snake_from-NoUpper : (before : Option ℕ) (cs : Bytes) → NoUpper (snake_from before cs)
unfolding snake_from to_lower
snake_from-NoUpper before [] = tt
snake_from-NoUpper before (c ∷ cs) =
    snake_letter-NoUpper before c cs _ (snake_from-NoUpper (some c) cs)

snake_from-fixed : (before : Option ℕ) (cs : Bytes) → NoUpper cs → snake_from before cs ≡ cs
unfolding snake_from snake_letter
snake_from-fixed before [] h = refl
snake_from-fixed before (c ∷ cs) (low, h) = rw (low, snake_from-fixed (some c) cs h) refl

lower_letter :
    (c : ℕ) (cs : Bytes) → to_lower (c ∷ cs) ≡ (if is_upper c then c + 32 else c) ∷ to_lower cs
unfolding to_lower is_upper
lower_letter c cs = refl

letters-snake_letter :
    (before : Option ℕ) (c : ℕ) (behind out low : Bytes)
    → letters out ≡ letters low
    → letters (snake_letter before c behind out)
      ≡ letters ((if is_upper c then c + 32 else c) ∷ low)
unfolding snake_letter
letters-snake_letter before c behind out low h = elim (Bool-cases (is_upper c)) [
  | inl up ↦
      rw up (elim (Bool-cases (is_some before && (ends_word before || starts_lower behind))) [
        | inl word ↦ rw (word, (is_upper-not_underscore c up).1) (ap (λ t. (c + 32) ∷ t) h)
        | inr inside ↦ rw (inside, (is_upper-not_underscore c up).1) (ap (λ t. (c + 32) ∷ t) h)
      ])
  | inr small ↦ rw (small, h) refl
]

letters-snake_from :
    (before : Option ℕ) (cs : Bytes) → letters (snake_from before cs) ≡ letters (to_lower cs)
unfolding snake_from to_lower
letters-snake_from before [] = refl
letters-snake_from before (c ∷ cs) =
    letters-snake_letter before c cs _ (to_lower cs) (letters-snake_from (some c) cs)
    ∙ ap letters (sym (lower_letter c cs))

-- A default column has no upper-case letter, is the lower-case name but for underscores, and stays
-- the same when it is made into a column once more.
pub snake-NoUpper :
    (name : Bytes)
    → NoUpper (snake name)
      × (letters (snake name) ≡ letters (to_lower name))
      × (snake (snake name) ≡ snake name)
unfolding snake
snake-NoUpper name = (
  snake_from-NoUpper none name,
  letters-snake_from none name,
  snake_from-fixed none _ (snake_from-NoUpper none name),
)

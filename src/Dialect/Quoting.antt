-- ===== src/Dialect/Quoting.antt =====
-- Quoted identifiers read back by the SQL rule: a doubled quote stands for one, a single one ends.
use filtrx.Base.{
  ℕ, ◌≡◌, ◌≢◌, Option, none, some, [], ◌∷◌, ◌++◌, append-nil, append_assoc, arith, Bytes, ◌==◌,
  if◌then◌else◌,
}
use filtrx.Dialect.{quote, double}

-- The rest of an identifier behind its opening quote: its bytes, and the text behind it.
read_rest : ℕ → Bytes → Bytes → Option (Bytes × Bytes)
read_rest q [] acc = none
read_rest q (c ∷ []) acc = if c == q then some (acc, []) else none
read_rest q (c ∷ d ∷ s) acc =
    let ended = some (acc, d ∷ s) in
    let doubled = read_rest q s (acc ++ c ∷ []) in
    let plain = read_rest q (d ∷ s) (acc ++ c ∷ []) in
    if c == q then (if d == q then doubled else ended) else plain

-- How a database reads a quoted identifier at the front of a statement's text.
unfoldable pub read_identifier : ℕ → Bytes → Option (Bytes × Bytes)
unfolding read_rest
read_identifier q [] = none
read_identifier q (c ∷ s) = if c == q then read_rest q s [] else none

abbrev pub NotAtFront : ℕ → Bytes → Type 0
NotAtFront q [] = Unit
NotAtFront q (c ∷ s) = c ≢ q

read_rest-plain :
    (q c : ℕ) (s acc : Bytes) → c ≢ q → read_rest q (c ∷ s) acc ≡ read_rest q s (acc ++ c ∷ [])
unfolding read_rest
read_rest-plain q c [] acc h = ground arith
read_rest-plain q c (d ∷ s) acc h = ground arith

read_rest-double_quote :
    (q : ℕ) (s acc : Bytes) → read_rest q (q ∷ q ∷ s) acc ≡ read_rest q s (acc ++ q ∷ [])
unfolding read_rest
read_rest-double_quote q s acc = ground arith

read_rest-closing :
    (q : ℕ) (rest acc : Bytes) → NotAtFront q rest → read_rest q (q ∷ rest) acc ≡ some (acc, rest)
unfolding read_rest
read_rest-closing q [] acc h = ground arith
read_rest-closing q (d ∷ rest) acc h = ground arith

read_rest-double :
    (q : ℕ) (s rest acc : Bytes)
    → NotAtFront q rest
    → read_rest q (double s q ++ q ∷ rest) acc ≡ some (acc ++ s, rest)
unfolding double
read_rest-double q [] rest acc h = simp (read_rest-closing q rest acc h, append-nil)
read_rest-double q (c ∷ s) rest acc h = ground (
  arith,
  read_rest-double_quote q (double s q ++ q ∷ rest) acc,
  read_rest-plain q c (double s q ++ q ∷ rest) acc,
  read_rest-double q s rest (acc ++ c ∷ []) h,
  append_assoc acc (c ∷ []) s,
)

-- A database that reads a quoted identifier, with whatever text follows it (not starting with the
-- quote), gets back exactly the identifier's bytes and that text: no byte of an identifier can end
-- its quoting.
pub read_identifier-quote :
    (q : ℕ) (s rest : Bytes)
    → NotAtFront q rest
    → read_identifier q (quote s q ++ rest) ≡ some (s, rest)
unfolding read_identifier quote
read_identifier-quote q s rest h =
    rw (append_assoc (double s q) (q ∷ []) rest) (ground (arith, read_rest-double q s rest [] h))

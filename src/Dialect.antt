-- ===== src/Dialect.antt =====
-- dialect.go: the three SQL dialects, their placeholders, identifier quoting and ordering terms.
pub mod Quoting
use filtrx.Base.{
  ℕ, ◌+◌, ◌≡◌, refl, Bool, true, false, ◌||◌, List, [], ◌∷◌, ◌++◌, map, Bytes, codes, split, join,
  itoa, contains, is_empty, not, ◌==◌, if◌then◌else◌,
}

-- `Dialect` is an interface with unexported methods, so the built-in values are all there are.
pub data Dialect : Type 0 where
  postgres mysql sqlite : Dialect

-- The loop of `quote`: every quote byte of the identifier is doubled.
unfoldable pub double : Bytes → ℕ → Bytes
double [] q = []
double (c ∷ s) q = if c == q then q ∷ c ∷ double s q else c ∷ double s q

unfoldable pub quote : Bytes → ℕ → Bytes
quote s q = q ∷ (double s q ++ q ∷ [])

unfoldable pub is_star : Bytes → Bool
is_star [] = false
is_star (c ∷ s) = if is_empty s then c == b'*' else false

-- One segment of a dotted name; a wildcard or an empty one is left alone.
unfoldable pub quote_segment : ℕ → Bytes → Bytes
quote_segment q p = if is_empty p || is_star p then p else quote p q

unfoldable pub quote_name : Bytes → ℕ → Bytes
quote_name s q =
    if not (contains b'.' s)
    then quote s q
    else join (b'.' ∷ []) (map (quote_segment q) (split b'.' s))

abbrev pub quote_byte : Dialect → ℕ
quote_byte postgres = b'"'
quote_byte mysql = b'`'
quote_byte sqlite = b'"'

unfoldable pub quote_ident : Dialect → Bytes → Bytes
quote_ident d s = quote_name s (quote_byte d)

unfoldable pub placeholder : Dialect → ℕ → Bytes
placeholder postgres n = b'$' ∷ itoa n
placeholder mysql n = b'?' ∷ []
placeholder sqlite n = b'?' ∷ []

unfoldable pub all_rows_limit : Dialect → Bytes
all_rows_limit postgres = []
all_rows_limit mysql = codes "18446744073709551615"
all_rows_limit sqlite = codes "-1"

unfoldable pub supports_nulls_ordering : Dialect → Bool
supports_nulls_ordering postgres = true
supports_nulls_ordering mysql = false
supports_nulls_ordering sqlite = true

unfoldable pub supports_relevance : Dialect → Bool
supports_relevance postgres = true
supports_relevance mysql = true
supports_relevance sqlite = false

unfoldable pub full_text_match : Dialect → Bytes → Bytes → Bytes → Bytes
full_text_match postgres col config ph =
    col ++ codes " @@ websearch_to_tsquery('" ++ config ++ codes "', " ++ ph ++ codes ")"
full_text_match mysql col config ph =
    codes "MATCH(" ++ col ++ codes ") AGAINST(" ++ ph ++ codes " IN NATURAL LANGUAGE MODE)"
full_text_match sqlite col config ph = col ++ codes " MATCH " ++ ph

unfoldable pub rank_expr : Dialect → Bytes → Bytes → Bytes → Bytes
rank_expr postgres col config ph =
    codes "ts_rank("
    ++ col
    ++ codes ", websearch_to_tsquery('"
    ++ config
    ++ codes "', "
    ++ ph
    ++ codes "))"
rank_expr mysql col config ph =
    codes "MATCH(" ++ col ++ codes ") AGAINST(" ++ ph ++ codes " IN NATURAL LANGUAGE MODE)"
rank_expr sqlite col config ph = col

-- Where NULLs sort within an order term (`nullsPos` of query.go).
pub data NullsPos : Type 0 where
  nulls_default nulls_first nulls_last : NullsPos

abbrev direction : Bool → Bytes
direction desc = if desc then codes " DESC" else []

-- The explicit placement, where the dialect has the suffix and where it has not.
nulls_clause : Bool → Bytes → Bytes → NullsPos → Bytes
nulls_clause supported quoted dir nulls_default = quoted ++ dir
nulls_clause true quoted dir nulls_first = quoted ++ dir ++ codes " NULLS FIRST"
nulls_clause true quoted dir nulls_last = quoted ++ dir ++ codes " NULLS LAST"
nulls_clause false quoted dir nulls_first =
    (codes "ISNULL(" ++ quoted ++ codes ")") ++ codes " DESC, " ++ quoted ++ dir
nulls_clause false quoted dir nulls_last =
    (codes "ISNULL(" ++ quoted ++ codes ")") ++ codes ", " ++ quoted ++ dir

unfoldable pub order_clause : Dialect → Bytes → Bool → NullsPos → Bytes
unfolding nulls_clause
order_clause d quoted desc nulls =
    nulls_clause (supports_nulls_ordering d) quoted (direction desc) nulls

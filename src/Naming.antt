-- ===== src/Naming.antt =====
-- plan.go and bind.go: struct tags, and the names that are read from them.
pub mod Snake
use filtrx.Base.{
  ℕ, suc, ◌+◌, Bool, true, false, ◌&&◌, ◌||◌, Option, none, some, List, [], ◌∷◌, Bytes, codes,
  split, is_empty, leb, if◌then◌else◌,
}
use filtrx.Base.Compare.{lookup, bytes_eq, to_lower}
use filtrx.Cond.{
  Op, eq, ne, gt, lt, gte, lte, like, ilike, in_list, not_in, is_null, is_not_null, contains,
  contained_by, overlaps,
}

-- reflect.StructTag: the value of a key, if the key is there.
abbrev pub Tag : Type 0
Tag = Bytes → Option Bytes

unfoldable pub or_empty : Option Bytes → Bytes
or_empty none = []
or_empty (some v) = v

-- f.Tag.Get
unfoldable pub get_tag : Tag → Bytes → Bytes
get_tag tag key = or_empty (tag key)

unfoldable pub has_tag : Tag → Bytes → Bool
has_tag tag key = elim (tag key) [ none ↦ false | some v ↦ true ]

unfoldable pub is_lower : ℕ → Bool
is_lower c = leb b'a' c && leb c b'z'

unfoldable pub is_digit : ℕ → Bool
is_digit c = leb b'0' c && leb c b'9'

unfoldable pub is_upper : ℕ → Bool
is_upper c = leb b'A' c && leb c b'Z'

-- The letter before, where there is one, is lower case or a digit.
unfoldable pub ends_word : Option ℕ → Bool
ends_word none = false
ends_word (some c) = is_lower c || is_digit c

unfoldable pub starts_lower : Bytes → Bool
starts_lower [] = false
starts_lower (c ∷ cs) = is_lower c

unfoldable pub is_some : Option ℕ → Bool
is_some none = false
is_some (some c) = true

-- The round of the loop of `snake` for a letter, with the letter before and those behind.
unfoldable pub snake_letter : Option ℕ → ℕ → Bytes → Bytes → Bytes
snake_letter before c behind out =
    if is_upper c
    then (if is_some before && (ends_word before || starts_lower behind)
        then b'_' ∷ (c + 32) ∷ out
        else (c + 32) ∷ out)
    else c ∷ out

unfoldable pub snake_from : Option ℕ → Bytes → Bytes
snake_from before [] = []
snake_from before (c ∷ cs) = snake_letter before c cs (snake_from (some c) cs)

unfoldable pub snake : Bytes → Bytes
snake name = snake_from none name

-- The part before the first comma.
unfoldable pub first_part : List Bytes → Bytes
first_part [] = []
first_part (p ∷ ps) = p

unfoldable pub column_name : Tag → Bytes → Bytes
column_name tag name =
    let col = get_tag tag (codes "col") in
    let db = get_tag tag (codes "db") in
    if is_empty col then (if is_empty db then snake name else first_part (split b',' db)) else col

-- `wireName` of bind.go
unfoldable pub wire_name : Tag → Bytes → Bytes
wire_name tag name =
    let q = get_tag tag (codes "q") in if is_empty q then column_name tag name else q

-- The map opWords.
abbrev pub op_words : List (Bytes × Op)
op_words =
    (codes "eq", eq)
    ∷ (codes "ne", ne)
    ∷ (codes "gt", gt)
    ∷ (codes "lt", lt)
    ∷ (codes "gte", gte)
    ∷ (codes "lte", lte)
    ∷ (codes "like", like)
    ∷ (codes "ilike", ilike)
    ∷ (codes "in", in_list)
    ∷ (codes "nin", not_in)
    ∷ (codes "null", is_null)
    ∷ (codes "nnull", is_not_null)
    ∷ (codes "contains", contains)
    ∷ (codes "containedby", contained_by)
    ∷ (codes "overlaps", overlaps)
    ∷ []

unfoldable pub op_word : Bytes → Option Op
op_word w = lookup w op_words

-- `groupOr`: whether the connective is OR.
unfoldable pub group_or : Bytes → Option Bool
group_or tag =
    let lower = to_lower tag in
    if bytes_eq lower (codes "or")
    then some true
    else if bytes_eq lower (codes "and")
    then some false
    else none

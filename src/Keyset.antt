-- ===== src/Keyset.antt =====
-- keyset.go: the seek predicate of keyset pagination, and the reversed order of a backward page.
pub mod Semantics
pub mod Past
pub mod Kept
pub mod Reverse
use filtrx.Base.{
  ℕ, ◌+◌, ◌≡◌, refl, Bool, true, false, ◌&&◌, ◌||◌, not, Option, none, some, List, [], ◌∷◌, ◌++◌,
  map, Bytes, codes, if◌then◌else◌, ◌==◌,
}
use filtrx.Value.{Value, null}
use filtrx.Dialect.{NullsPos, nulls_default, nulls_first, nulls_last}
use filtrx.Cond.{Cond, leaf, raw, eq, gt, lt, is_null, is_not_null, and_of, or_of}
use filtrx.Query.{OrderTerm}

unfoldable pub flip_nulls : NullsPos → NullsPos
flip_nulls nulls_first = nulls_last
flip_nulls nulls_last = nulls_first
flip_nulls nulls_default = nulls_default

-- `v == nil` of an interface value
unfoldable pub is_nil : Value → Bool
is_nil null = true
is_nil _ = false

abbrev pub same : Bool → Bool → Bool
same true b = b
same false b = not b

unfoldable pub null_eq : Bytes → Value → Cond
null_eq col v = if is_nil v then leaf col is_null null else leaf col eq v

-- What follows a NULL boundary.
unfoldable pub after_null : NullsPos → Bytes → Option Cond
after_null nulls_first col = some (leaf col is_not_null null)
after_null nulls_last col = none
after_null nulls_default col = none

-- What follows a boundary that is not NULL, given the plain comparison.
unfoldable pub after_value : NullsPos → Bytes → Cond → Option Cond
after_value nulls_last col base = some (or_of (some base ∷ some (leaf col is_null null) ∷ []))
after_value nulls_first col base = some base
after_value nulls_default col base = some base

unfoldable pub after_compare : OrderTerm → Value → Bool → Option Cond
after_compare t v before =
    let ascending = same t.desc before in
    let nulls = if before then flip_nulls t.nulls else t.nulls in
    if is_nil v
    then after_null nulls t.col
    else after_value nulls t.col (if ascending then leaf t.col gt v else leaf t.col lt v)

-- The branch of a position, where something follows the boundary there.
abbrev pub add_branch : Option Cond → List (Option Cond) → List (Option Cond) → List (Option Cond)
add_branch none ands rest = rest
add_branch (some cmp) ands rest = some (and_of (ands ++ some cmp ∷ [])) ∷ rest

-- The loop of `keysetCond`; `ands` holds the equalities of the earlier positions.
unfoldable pub branches :
    List (Option Cond) → List OrderTerm → List Value → Bool → List (Option Cond)
branches ands [] vs before = []
branches ands (t ∷ ts) [] before = []
branches ands (t ∷ ts) (v ∷ vs) before =
    let rest = branches (ands ++ some (null_eq t.col v) ∷ []) ts vs before in
    add_branch (after_compare t v before) ands rest

unfoldable pub or_nothing : List (Option Cond) → Cond
or_nothing [] = raw (codes "1=0") []
or_nothing (b ∷ bs) = or_of (b ∷ bs)

unfoldable pub keyset_cond : List OrderTerm → List Value → Bool → Cond
keyset_cond order vals before = or_nothing (branches [] order vals before)

-- The order in which a backward page is fetched.
unfoldable pub reversed_order : List OrderTerm → List OrderTerm
reversed_order =
    map (λ o. record { col = o.col; desc = not o.desc; nulls = flip_nulls o.nulls; rank = none })

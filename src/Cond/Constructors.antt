-- ===== src/Cond/Constructors.antt =====
-- The constructors of cond.go, from Eq to Overlaps.
use filtrx.Base.{◌≡◌, refl, ◌++◌, List, [], ◌∷◌, some, Bytes, codes}
use filtrx.Value.{Value, null}
use filtrx.Dialect.{Dialect, quote_ident, placeholder}
use filtrx.Cond.{
  eq, ne, gt, lt, gte, lte, like, in_list, not_in, is_null, is_not_null, contains, contained_by,
  overlaps, Cond, leaf, raw, build, build_at, write, write_leaf, empty_list_sql, write_operand,
  op_class, write_bound, write_sql, bind, op_sql,
}

unfoldable pub eq_of : Bytes → Value → Cond
eq_of col v = leaf col eq v

unfoldable pub ne_of : Bytes → Value → Cond
ne_of col v = leaf col ne v

unfoldable pub gt_of : Bytes → Value → Cond
gt_of col v = leaf col gt v

unfoldable pub lt_of : Bytes → Value → Cond
lt_of col v = leaf col lt v

unfoldable pub gte_of : Bytes → Value → Cond
gte_of col v = leaf col gte v

unfoldable pub lte_of : Bytes → Value → Cond
lte_of col v = leaf col lte v

unfoldable pub like_of : Bytes → Value → Cond
like_of col v = leaf col like v

unfoldable pub in_of : Bytes → Value → Cond
in_of col vals = leaf col in_list vals

unfoldable pub not_in_of : Bytes → Value → Cond
not_in_of col vals = leaf col not_in vals

unfoldable pub is_null_of : Bytes → Cond
is_null_of col = leaf col is_null null

unfoldable pub is_not_null_of : Bytes → Cond
is_not_null_of col = leaf col is_not_null null

unfoldable pub raw_of : Bytes → List Value → Cond
raw_of sql args = raw sql args

unfoldable pub contains_of : Bytes → Value → Cond
contains_of col v = leaf col contains v

unfoldable pub contained_by_of : Bytes → Value → Cond
contained_by_of col v = leaf col contained_by v

unfoldable pub overlaps_of : Bytes → Value → Cond
overlaps_of col v = leaf col overlaps v

module _ (d : Dialect) (col : Bytes) (v : Value) where
  -- The column, an operator and the one placeholder, with the value bound to it.
  abbrev Compares : Cond → Bytes → Type 0
  Compares c op =
      build (some c) d
      ≡ (quote_ident d col ++ codes " " ++ op ++ codes " " ++ placeholder d 1, v ∷ [])

  abbrev Constructed : Type 0
  Constructed =
      Compares (eq_of col v) (codes "=")
      × Compares (ne_of col v) (codes "<>")
      × Compares (gt_of col v) (codes ">")
      × Compares (lt_of col v) (codes "<")
      × Compares (gte_of col v) (codes ">=")
      × Compares (lte_of col v) (codes "<=")
      × Compares (like_of col v) (codes "LIKE")
      × Compares (contains_of col v) (codes "@>")
      × Compares (contained_by_of col v) (codes "<@")
      × Compares (overlaps_of col v) (codes "&&")
      × (build (some (is_null_of col)) d ≡ (quote_ident d col ++ codes " " ++ codes "IS NULL", []))
      × (build (some (is_not_null_of col)) d
          ≡ (quote_ident d col ++ codes " " ++ codes "IS NOT NULL", []))

  -- Each constructor of a comparison renders, in every dialect, to the quoted column, its own operator
  -- and a placeholder, and binds its value alone; IsNull and IsNotNull bind nothing.
  build-Constructed : Constructed
  unfolding build build_at write write_leaf empty_list_sql write_operand op_class write_bound
      write_sql bind op_sql eq_of ne_of gt_of lt_of gte_of lte_of like_of contains_of
      contained_by_of overlaps_of is_null_of is_not_null_of codes
  build-Constructed = (refl, refl, refl, refl, refl, refl, refl, refl, refl, refl, refl, refl)

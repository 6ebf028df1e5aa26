-- ===== src/Query/Scope.antt =====
-- Which rows the condition of a query keeps: those of its filter that are in the soft-delete scope.
use filtrx.Base.{
  ◌≡◌, refl, arith, Bool, true, ◌&&◌, ◌||◌, not, Option, none, some, [], ◌∷◌, Bytes, is_empty,
  Bool-cases, inl, inr,
}
use filtrx.Keyset.{is_nil}
use filtrx.Meaning.{Database, Row, passes, eval, eval_leaf}
use filtrx.Keyset.Past.{holds-and_of}
use filtrx.Cond.{Cond}
use filtrx.Query.{
  Query, SoftScope, scope_active, scope_with_deleted, scope_only_deleted, scope_cond, both,
  effective_cond,
}

-- The rows of a scope: those with no deletion time, all of them, or those with one.
abbrev pub in_scope : SoftScope → Bytes → Row → Bool
in_scope scope_active col row = is_nil (row col)
in_scope scope_with_deleted col row = true
in_scope scope_only_deleted col row = not (is_nil (row col))

module _ (db : Database) (row : Row) where
  passes-both :
      (c s : Option Cond) → passes db row (both c s) ≡ (passes db row c && passes db row s)
  unfolding both
  passes-both c none = ground arith
  passes-both none (some s) = refl
  passes-both (some c) (some s) = rw (holds-and_of db row (some c ∷ some s ∷ [])) (ground arith)

  passes-scope :
      (s : SoftScope) (col : Bytes) → passes db row (scope_cond s col) ≡ in_scope s col row
  unfolding scope_cond eval eval_leaf
  passes-scope scope_active col = ground arith
  passes-scope scope_with_deleted col = refl
  passes-scope scope_only_deleted col = ground arith

  -- A query keeps a row exactly if its filter does and the row is in the declared soft-delete scope:
  -- the active rows have NULL in the column, the deleted ones have not; without a soft-delete column
  -- the filter alone decides, and without a filter the scope alone.
  pub effective_cond-in_scope :
      (q : Query)
      → passes db row (effective_cond q) ≡ (
          passes db row q.cond
          && (is_empty q.soft_delete_col || in_scope q.soft_scope q.soft_delete_col row))
  unfolding effective_cond
  effective_cond-in_scope q = elim (Bool-cases (is_empty q.soft_delete_col)) [
    | inl e ↦ rw e (ground arith)
    | inr e ↦
        rw
          (
            e,
            passes-both q.cond (scope_cond q.soft_scope q.soft_delete_col),
            passes-scope q.soft_scope q.soft_delete_col,
          )
          refl
  ]

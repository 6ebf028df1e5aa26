-- ===== src/Meaning.antt =====
-- What a WHERE condition of cond.go, or the sub-filter of an EXISTS of exists.go, says of a row, with
-- SQL's three truth values.
use Prim.Native.Nat.{Ordering}
use filtrx.Base.{
  ◌≡◌, refl, arith, Bool, true, false, ◌&&◌, ◌||◌, not, Option, none, some, List, [], ◌∷◌, Bytes,
  if◌then◌else◌,
}
use filtrx.Value.{Value, as_slice}
use filtrx.Cond.{
  Op, eq, ne, gt, lt, gte, lte, in_list, not_in, is_null, is_not_null, Cond, Conds, Inner, leaf,
  group, exists, nil, cons, absent, present,
}
use filtrx.Keyset.{is_nil}

pub data Truth : Type 0 where
  yes_true no_false unknown : Truth

abbrev pub and_truth : Truth → Truth → Truth
and_truth no_false t = no_false
and_truth yes_true t = t
and_truth unknown no_false = no_false
and_truth unknown _ = unknown

abbrev pub or_truth : Truth → Truth → Truth
or_truth yes_true t = yes_true
or_truth no_false t = t
or_truth unknown yes_true = yes_true
or_truth unknown _ = unknown

abbrev pub not_truth : Truth → Truth
not_truth yes_true = no_false
not_truth no_false = yes_true
not_truth unknown = unknown

-- WHERE keeps a row where its condition is true.
abbrev pub is_true : Truth → Bool
is_true yes_true = true
is_true _ = false

abbrev pub truth : Bool → Truth
truth b = if b then yes_true else no_false

pub is_true-and : (a b : Truth) → is_true (and_truth a b) ≡ (is_true a && is_true b)
is_true-and yes_true b = refl
is_true-and no_false b = refl
is_true-and unknown b = ground arith

pub is_true-or : (a b : Truth) → is_true (or_truth a b) ≡ (is_true a || is_true b)
is_true-or yes_true b = refl
is_true-or no_false b = refl
is_true-or unknown b = ground arith

-- A row by the names of its columns.
abbrev pub Row : Type 0
Row = Bytes → Value

-- What the database supplies: how it compares two values that are not NULL, the rows of the source of
-- an EXISTS that its correlation joins to a row, and the truth of the conditions that are not read
-- here: raw text, pattern matches, array operators and full-text search.
pub record Database : Type 0 where
  pub compare_values : Value → Value → Ordering
  pub related : Bytes → Bytes → Row → List Row
  pub other : Cond → Row → Truth

abbrev pub is_lt : Ordering → Bool
is_lt Ordering.lt = true
is_lt _ = false

abbrev pub is_eq : Ordering → Bool
is_eq Ordering.eq = true
is_eq _ = false

abbrev pub is_gt : Ordering → Bool
is_gt Ordering.gt = true
is_gt _ = false

unfoldable pub any_row : (Row → Bool) → List Row → Bool
any_row test [] = false
any_row test (r ∷ rs) = test r || any_row test rs

-- The value list of an IN: a value that is no slice stands for itself.
abbrev pub listed : Value → List Value
listed v = elim (as_slice v) [ none ↦ v ∷ [] | some vs ↦ vs ]

module _ (db : Database) where
  -- A comparison is unknown if a side is NULL.
  abbrev pub compared : (Ordering → Bool) → Value → Value → Truth
  compared test a v = if is_nil a || is_nil v then unknown else truth (test (db.compare_values a v))

  unfoldable pub is_in : Value → List Value → Truth
  is_in a [] = no_false
  is_in a (v ∷ vs) = or_truth (compared is_eq a v) (is_in a vs)

  unfoldable pub eval_leaf : Row → Op → Bytes → Value → Truth
  eval_leaf row eq col v = compared is_eq (row col) v
  eval_leaf row ne col v = compared (λ o. not (is_eq o)) (row col) v
  eval_leaf row gt col v = compared is_gt (row col) v
  eval_leaf row lt col v = compared is_lt (row col) v
  eval_leaf row gte col v = compared (λ o. not (is_lt o)) (row col) v
  eval_leaf row lte col v = compared (λ o. not (is_gt o)) (row col) v
  eval_leaf row in_list col v = is_in (row col) (listed v)
  eval_leaf row not_in col v = not_truth (is_in (row col) (listed v))
  eval_leaf row is_null col v = truth (is_nil (row col))
  eval_leaf row is_not_null col v = truth (not (is_nil (row col)))
  eval_leaf row op col v = db.other (leaf col op v) row

  unfoldable mutual
    pub eval : Row → Cond → Truth
    eval row (leaf col op v) = eval_leaf row op col v
    eval row (group or cs) = if or then eval_or row cs else eval_and row cs
    eval row (exists negate src on inner) =
        let found = any_row (λ r. is_true (eval_inner r inner)) (db.related src on row) in
        truth (if negate then not found else found)
    eval row c = db.other c row

    pub eval_inner : Row → Inner → Truth
    eval_inner row absent = yes_true
    eval_inner row (present c) = eval row c

    pub eval_and : Row → Conds → Truth
    eval_and row nil = yes_true
    eval_and row (cons c cs) = and_truth (eval row c) (eval_and row cs)

    pub eval_or : Row → Conds → Truth
    eval_or row nil = no_false
    eval_or row (cons c cs) = or_truth (eval row c) (eval_or row cs)

module _ (db : Database) (row : Row) where
  -- The row passes the filter.
  abbrev pub holds : Cond → Bool
  holds c = is_true (eval db row c)

  -- With no condition every row passes.
  abbrev pub passes : Option Cond → Bool
  passes none = true
  passes (some c) = holds c

  abbrev pub all_hold : List (Option Cond) → Bool
  all_hold [] = true
  all_hold (none ∷ cs) = all_hold cs
  all_hold (some c ∷ cs) = holds c && all_hold cs

  abbrev pub any_holds : List (Option Cond) → Bool
  any_holds [] = false
  any_holds (none ∷ cs) = any_holds cs
  any_holds (some c ∷ cs) = holds c || any_holds cs

-- ===== src/Keyset/Past.antt =====
-- The seek predicate selects exactly the rows past the boundary in the declared ordering.
use Prim.Native.Nat.{Ordering}
use filtrx.Base.{
  ◌≡◌, ◌≢◌, refl, ◌∙◌, ap, Bool, true, false, ◌&&◌, ◌||◌, not, Option, none, some, List, [], ◌∷◌,
  ◌++◌, arith, Bytes, Bool-cases, inl, inr, if◌then◌else◌,
}
use filtrx.Value.{Value, null}
use filtrx.Dialect.{NullsPos, nulls_default, nulls_first, nulls_last}
use filtrx.Cond.{gt, lt, is_null, is_not_null, Cond, leaf, compact, and_of, or_of}
use filtrx.Query.{OrderTerm}
use filtrx.Keyset.{
  is_nil, null_eq, flip_nulls, after_null, after_value, after_compare, branches, or_nothing,
  keyset_cond, add_branch, same,
}
use filtrx.Meaning.{
  Database, is_true-and, is_true-or, is_lt, is_eq, is_gt, eval_leaf, eval, holds, all_hold,
  any_holds,
}
use filtrx.Keyset.Semantics.{
  NeverHolds, position, then_by, key_position, Placed, past, swap, null_position,
}

lexicographic :
    (all : Bool) (before : Bool) (here rest : Ordering)
    → ((all && past before here) || ((all && is_eq here) && past before rest))
      ≡ (all && past before (then_by here rest))
lexicographic all before Ordering.lt rest = ground arith
lexicographic all before Ordering.eq rest = ground arith
lexicographic all before Ordering.gt rest = ground arith

module _ (db : Database) (row : Bytes → Value) where
  pub holds-and_of : (cs : List (Option Cond)) → holds db row (and_of cs) ≡ all_hold db row cs
  unfolding and_of compact eval
  holds-and_of [] = refl
  holds-and_of (none ∷ cs) = holds-and_of cs
  holds-and_of (some c ∷ cs) =
      is_true-and (eval db row c) _ ∙ ap (λ b. holds db row c && b) (holds-and_of cs)

  holds-or_of : (cs : List (Option Cond)) → holds db row (or_of cs) ≡ any_holds db row cs
  unfolding or_of compact eval
  holds-or_of [] = refl
  holds-or_of (none ∷ cs) = holds-or_of cs
  holds-or_of (some c ∷ cs) =
      is_true-or (eval db row c) _ ∙ ap (λ b. holds db row c || b) (holds-or_of cs)

  all_hold-snoc :
      (cs : List (Option Cond)) (c : Cond)
      → all_hold db row (cs ++ some c ∷ []) ≡ (all_hold db row cs && holds db row c)
  all_hold-snoc [] c = ground arith
  all_hold-snoc (none ∷ cs) c = all_hold-snoc cs c
  all_hold-snoc (some e ∷ cs) c = ground (arith, all_hold-snoc cs c)

  holds-null_eq :
      (t : OrderTerm) (v : Value)
      → holds db row (null_eq t.col v) ≡ is_eq (position db t (row t.col) v)
  unfolding null_eq eval eval_leaf position
  holds-null_eq t v = ground arith

  -- What a branch says of its own position; no branch says nothing.
  abbrev holds? : Option Cond → Bool
  holds? none = false
  holds? (some c) = holds db row c

  holds-add_branch :
      (o : Option Cond) (ands rest : List (Option Cond))
      → any_holds db row (add_branch o ands rest)
        ≡ ((all_hold db row ands && holds? o) || any_holds db row rest)
  holds-add_branch none ands rest = ground arith
  holds-add_branch (some c) ands rest =
      rw (holds-and_of (ands ++ some c ∷ []), all_hold-snoc ands c)

  holds-or_nothing :
      (bs : List (Option Cond)) → NeverHolds db → holds db row (or_nothing bs) ≡ any_holds db row bs
  unfolding or_nothing
  holds-or_nothing [] never = unfold eval in rw (never row)
  holds-or_nothing (b ∷ bs) never = holds-or_of (b ∷ bs)

  -- The two comparisons and the two tests, as the database sees them.
  holds-gt :
      (col : Bytes) (v : Value)
      → is_nil v ≡ false
      → holds db row (leaf col gt v)
        ≡ (not (is_nil (row col)) && is_gt (db.compare_values (row col) v))
  unfolding eval eval_leaf
  holds-gt col v h = ground arith

  holds-lt :
      (col : Bytes) (v : Value)
      → is_nil v ≡ false
      → holds db row (leaf col lt v)
        ≡ (not (is_nil (row col)) && is_lt (db.compare_values (row col) v))
  unfolding eval eval_leaf
  holds-lt col v h = ground arith

  holds-is_null : (col : Bytes) → holds db row (leaf col is_null null) ≡ is_nil (row col)
  unfolding eval eval_leaf
  holds-is_null col = ground arith

  holds-is_not_null :
      (col : Bytes) → holds db row (leaf col is_not_null null) ≡ not (is_nil (row col))
  unfolding eval eval_leaf
  holds-is_not_null col = ground arith

  holds-or_null :
      (col : Bytes) (c : Cond)
      → holds db row (or_of (some c ∷ some (leaf col is_null null) ∷ []))
        ≡ (holds db row c || is_nil (row col))
  holds-or_null col c = holds-or_of _ ∙ rw holds-is_null (ground arith)

  after_null-past :
      (col : Bytes) (nulls : NullsPos) (before : Bool)
      → nulls ≢ nulls_default
      → holds? (after_null (if before then flip_nulls nulls else nulls) col)
        ≡ past before (if is_nil (row col) then Ordering.eq else swap (null_position nulls))
  unfolding after_null flip_nulls
  after_null-past col nulls_default before h = absurd (h refl)
  after_null-past col nulls_first true h = ground arith
  after_null-past col nulls_first false h = ground (arith, holds-is_not_null col)
  after_null-past col nulls_last true h = ground (arith, holds-is_not_null col)
  after_null-past col nulls_last false h = ground arith

  -- The comparison that the direction and the side choose.
  abbrev chosen : Bytes → Value → Bool → Cond
  chosen col v ascending = if ascending then leaf col gt v else leaf col lt v

  after_value-past :
      (col : Bytes) (v : Value) (desc : Bool) (nulls : NullsPos) (before : Bool)
      → is_nil v ≡ false
      → (nulls ≡ nulls_default → is_nil (row col) ≡ false)
      → holds? (
          after_value
            (if before then flip_nulls nulls else nulls)
            col
            (chosen col v (same desc before)))
        ≡ past before (
            if is_nil (row col)
            then null_position nulls
            else if desc
            then swap (db.compare_values (row col) v)
            else db.compare_values (row col) v)
  unfolding after_value flip_nulls
  after_value-past col v true nulls_default before h n =
      ground (arith, n refl, holds-gt col v h, holds-lt col v h)
  after_value-past col v false nulls_default before h n =
      ground (arith, n refl, holds-gt col v h, holds-lt col v h)
  after_value-past col v true nulls_first true h n =
      ground (arith, holds-gt col v h, holds-or_null col (leaf col gt v))
  after_value-past col v true nulls_first false h n = ground (arith, holds-lt col v h)
  after_value-past col v false nulls_first true h n =
      ground (arith, holds-lt col v h, holds-or_null col (leaf col lt v))
  after_value-past col v false nulls_first false h n = ground (arith, holds-gt col v h)
  after_value-past col v true nulls_last true h n = ground (arith, holds-gt col v h)
  after_value-past col v true nulls_last false h n =
      ground (arith, holds-lt col v h, holds-or_null col (leaf col lt v))
  after_value-past col v false nulls_last true h n = ground (arith, holds-lt col v h)
  after_value-past col v false nulls_last false h n =
      ground (arith, holds-gt col v h, holds-or_null col (leaf col gt v))

  holds-after_compare :
      (t : OrderTerm) (v : Value) (before : Bool)
      → (t.nulls ≡ nulls_default → (is_nil (row t.col) ≡ false) × (is_nil v ≡ false))
      → holds? (after_compare t v before) ≡ past before (position db t (row t.col) v)
  unfolding after_compare position
  holds-after_compare t v before h = elim (Bool-cases (is_nil v)) [
    | inl absent ↦
        rw (absent, after_compare, position)
          (after_null-past t.col t.nulls before (λ e. cc (absent, (h e).1)))
    | inr present ↦
        rw (present, after_compare, position)
          (after_value-past t.col v t.desc t.nulls before present (λ e. (h e).0))
  ]

  holds-branches :
      (ands : List (Option Cond)) (ts : List OrderTerm) (vs : List Value) (before : Bool)
      → Placed ts vs row
      → any_holds db row (branches ands ts vs before)
        ≡ (all_hold db row ands && past before (key_position db ts vs row))
  unfolding branches key_position
  holds-branches ands [] vs before h = ground arith
  holds-branches ands (t ∷ ts) [] before h = ground arith
  holds-branches ands (t ∷ ts) (v ∷ vs) before (h, hs) =
      holds-add_branch (after_compare t v before) ands _
      ∙ rw
          (
            holds-branches (ands ++ some (null_eq t.col v) ∷ []) ts vs before hs,
            all_hold-snoc ands (null_eq t.col v),
            holds-null_eq t v,
            holds-after_compare t v before h,
          )
          (lexicographic (all_hold db row ands) before (position db t (row t.col) v)
            (key_position db ts vs row))

  -- For the ordering terms and as many boundary values, where a column without a declared NULL
  -- placement holds no NULL in the row and the boundary, the seek predicate is true of a row exactly
  -- if the row's key lies strictly past the boundary in the ordering: after it going forward, before
  -- it going backward, with NULLs where the terms place them.
  pub holds-keyset_cond :
      (order : List OrderTerm) (vals : List Value) (before : Bool)
      → NeverHolds db
      → Placed order vals row
      → holds db row (keyset_cond order vals before) ≡ past before (key_position db order vals row)
  unfolding keyset_cond
  holds-keyset_cond order vals before never h =
      holds-or_nothing (branches [] order vals before) never ∙ holds-branches [] order vals before h

-- ===== src/Holders/Meaning.antt =====
-- What the holders Range, Match and the comparisons of Text ask of a column's value.
use Prim.Native.Nat.{Ordering}
use filtrx.Base.{
  ◌≡◌, refl, ◌∙◌, ap, Bool, true, false, ◌&&◌, ◌||◌, not, List, [], ◌∷◌, ◌++◌, map, Bytes, arith,
  if◌then◌else◌,
}
use filtrx.Value.{Value, text, as_slice, null}
use filtrx.Cond.{Op, Cond, leaf, eq, ne, gt, lt, gte, lte, like, ilike, is_null, is_not_null}
use filtrx.Keyset.{is_nil}
use filtrx.Meaning.{
  Database, Row, is_true, is_lt, is_eq, is_gt, compared, is_in, eval_leaf, eval, holds,
}
use filtrx.Holders.{
  Opt, Range, Match, Text, append_opt, append_in, append_null, range_predicates, match_predicates,
  text_predicates,
}
use filtrx.Holders.Arguments.{elems-values}

-- Every condition of a holder holds, since the compiler ANDs them.
unfoldable pub each_holds : Database → Row → List Cond → Bool
each_holds db row [] = true
each_holds db row (c ∷ cs) = holds db row c && each_holds db row cs

pub each_holds-append :
    (db : Database) (row : Row) (cs es : List Cond)
    → each_holds db row (cs ++ es) ≡ (each_holds db row cs && each_holds db row es)
unfolding each_holds
each_holds-append db row [] es = refl
each_holds-append db row (c ∷ cs) es = ground (arith, each_holds-append db row cs es)

each_holds-snoc :
    (db : Database) (row : Row) (cs : List Cond) (c : Cond)
    → each_holds db row (cs ++ c ∷ []) ≡ (each_holds db row cs && holds db row c)
unfolding each_holds
each_holds-snoc db row [] c = ground arith
each_holds-snoc db row (e ∷ cs) c = ground (arith, each_holds-snoc db row cs c)

-- Two values that are not NULL compare as asked.
abbrev pub stands : Database → (Ordering → Bool) → Value → Value → Bool
stands db test a v = (not (is_nil a) && not (is_nil v)) && test (db.compare_values a v)

-- An Opt that is not set asks nothing.
abbrev pub asks {ℓ} : {T : Type ℓ} → Opt T → (T → Bool) → Bool
asks o test = if o.set then test o.val else true

abbrev pub one_of {ℓ} : {T : Type ℓ} → List T → (T → Bool) → Bool
one_of [] test = false
one_of (v ∷ vs) test = test v || one_of vs test

-- An empty list asks nothing.
abbrev pub asks_one_of {ℓ} : {T : Type ℓ} → List T → (T → Bool) → Bool
asks_one_of [] test = true
asks_one_of (v ∷ vs) test = one_of (v ∷ vs) test

abbrev pub asks_null : Opt Bool → Value → Bool
asks_null o a = asks o (λ b. if b then is_nil a else not (is_nil a))

module _ {ℓ} {T : Type ℓ} (db : Database) (box : T → Value) (a : Value) where
  abbrev pub meets_range : Range T → Bool
  meets_range r =
      asks r.eq_to (λ v. stands db is_eq a (box v))
      && asks r.ne_to (λ v. stands db (λ o. not (is_eq o)) a (box v))
      && asks r.gt_than (λ v. stands db is_gt a (box v))
      && asks r.gte_than (λ v. stands db (λ o. not (is_lt o)) a (box v))
      && asks r.lt_than (λ v. stands db is_lt a (box v))
      && asks r.lte_than (λ v. stands db (λ o. not (is_gt o)) a (box v))
      && asks_one_of r.in_set (λ v. stands db is_eq a (box v))
      && asks_null r.is_null_opt a

  abbrev pub meets_match : Match T → Bool
  meets_match m =
      asks m.eq_to (λ v. stands db is_eq a (box v))
      && asks m.ne_to (λ v. stands db (λ o. not (is_eq o)) a (box v))
      && asks_one_of m.in_set (λ v. stands db is_eq a (box v))
      && asks_null m.is_null_opt a

module _ (db : Database) (row : Row) (col : Bytes) where
  -- LIKE and ILIKE are the database's.
  abbrev pub meets_text : Text → Bool
  meets_text t =
      asks t.eq_to (λ v. stands db is_eq (row col) (text v))
      && asks t.ne_to (λ v. stands db (λ o. not (is_eq o)) (row col) (text v))
      && asks t.like_pattern (λ v. is_true (db.other (leaf col like (text v)) row))
      && asks t.ilike_pattern (λ v. is_true (db.other (leaf col ilike (text v)) row))
      && asks_one_of t.in_set (λ v. stands db is_eq (row col) (text v))
      && asks_null t.is_null_opt (row col)

  is_true-compared :
      (test : Ordering → Bool) (a v : Value) → is_true (compared db test a v) ≡ stands db test a v
  is_true-compared test a v = ground arith

  module _ {ℓ} {T : Type ℓ} (box : T → Value) where
    pub is_true-in :
        (a : Value) (vs : List T)
        → is_true (is_in db a (map box vs)) ≡ one_of vs (λ v. stands db is_eq a (box v))
    unfolding is_in
    is_true-in a [] = refl
    is_true-in a (v ∷ vs) = ground (arith, is_true-in a vs)

    append_opt-asks :
        (cs : List Cond) (op : Op) (o : Opt T) (test : Value → Bool)
        → is_true (eval_leaf db row op col (box o.val)) ≡ test (box o.val)
        → each_holds db row (append_opt box cs col op o)
          ≡ (each_holds db row cs && asks o (λ v. test (box v)))
    unfolding append_opt eval
    append_opt-asks cs op o test h =
        ground (arith, each_holds-snoc db row cs (leaf col op (box o.val)))

    append_in-asks :
        (cs : List Cond) (vs : List T)
        → each_holds db row (append_in box cs col vs)
          ≡ (each_holds db row cs && asks_one_of vs (λ v. stands db is_eq (row col) (box v)))
    unfolding append_in eval eval_leaf as_slice
    append_in-asks cs [] = ground arith
    append_in-asks cs (v ∷ vs) =
        each_holds-snoc db row cs _
        ∙ ap (λ l. each_holds db row cs && is_true (is_in db (row col) l))
            (elems-values (map box (v ∷ vs)))
        ∙ ap (λ b. each_holds db row cs && b) (is_true-in (row col) (v ∷ vs))

  append_null-asks :
      (cs : List Cond) (o : Opt Bool)
      → each_holds db row (append_null cs col o) ≡ (each_holds db row cs && asks_null o (row col))
  unfolding append_null eval eval_leaf
  append_null-asks cs o = ground (
    arith,
    each_holds-snoc db row cs (leaf col is_null null),
    each_holds-snoc db row cs (leaf col is_not_null null),
  )

  module _ {ℓ} {T : Type ℓ} (box : T → Value) where
    compared_opt-asks :
        (cs : List Cond) (op : Op) (o : Opt T) (test : Ordering → Bool)
        → ((v : Value) → eval_leaf db row op col v ≡ compared db test (row col) v)
        → each_holds db row (append_opt box cs col op o)
          ≡ (each_holds db row cs && asks o (λ v. stands db test (row col) (box v)))
    compared_opt-asks cs op o test h =
        append_opt-asks box cs op o (stands db test (row col))
          (ap is_true (h (box o.val)) ∙ is_true-compared test (row col) (box o.val))

    -- Whatever fields of a Range are set, NULL columns and values included: the row passes the ANDed
    -- conditions of the Range on a column exactly if the row's value stands to each set value as its
    -- field asks, where NULL stands to nothing, is one of a non-empty In list, and is NULL or not as
    -- IsNull asks.
    pub range_predicates-meets :
        (r : Range T)
        → each_holds db row (range_predicates box r col) ≡ meets_range db box (row col) r
    unfolding range_predicates each_holds eval_leaf
    range_predicates-meets r =
        rw
          (
            append_null-asks _ r.is_null_opt,
            append_in-asks box _ r.in_set,
            compared_opt-asks _ lte r.lte_than (λ o. not (is_gt o)) (λ v. refl),
            compared_opt-asks _ lt r.lt_than is_lt (λ v. refl),
            compared_opt-asks _ gte r.gte_than (λ o. not (is_lt o)) (λ v. refl),
            compared_opt-asks _ gt r.gt_than is_gt (λ v. refl),
            compared_opt-asks _ ne r.ne_to (λ o. not (is_eq o)) (λ v. refl),
            compared_opt-asks [] eq r.eq_to is_eq (λ v. refl),
          )
          refl

    pub match_predicates-meets :
        (m : Match T)
        → each_holds db row (match_predicates box m col) ≡ meets_match db box (row col) m
    unfolding match_predicates each_holds eval_leaf
    match_predicates-meets m =
        rw
          (
            append_null-asks _ m.is_null_opt,
            append_in-asks box _ m.in_set,
            compared_opt-asks _ ne m.ne_to (λ o. not (is_eq o)) (λ v. refl),
            compared_opt-asks [] eq m.eq_to is_eq (λ v. refl),
          )
          refl

  pub text_predicates-meets : (t : Text) → each_holds db row (text_predicates t col) ≡ meets_text t
  unfolding text_predicates each_holds eval_leaf
  text_predicates-meets t =
      rw
        (
          append_null-asks _ t.is_null_opt,
          append_in-asks text _ t.in_set,
          append_opt-asks text _ ilike t.ilike_pattern
              (λ v. is_true (db.other (leaf col ilike v) row)) refl,
          append_opt-asks text _ like t.like_pattern (λ v. is_true (db.other (leaf col like v) row))
              refl,
          compared_opt-asks text _ ne t.ne_to (λ o. not (is_eq o)) (λ v. refl),
          compared_opt-asks text [] eq t.eq_to is_eq (λ v. refl),
        )
        refl

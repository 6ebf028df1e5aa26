-- ===== src/Holders/Open.antt =====
-- The holders Range, Match and Text give no condition exactly if no field of them is set.
use filtrx.Base.{◌≡◌, refl, arith, Bool, true, false, ◌&&◌, not, List, [], ◌∷◌, ◌++◌, Bytes}
use filtrx.Value.{Value, text}
use filtrx.Cond.{Cond, Op, eq, ne, gt, gte, lt, lte, like, ilike}
use filtrx.Holders.{
  Opt, Range, Match, Text, append_opt, append_in, append_null, range_predicates, match_predicates,
  text_predicates,
}

abbrev pub no_conds : List Cond → Bool
no_conds [] = true
no_conds (c ∷ cs) = false

abbrev pub none_of {ℓ} : {T : Type ℓ} → List T → Bool
none_of [] = true
none_of (v ∷ vs) = false

module _ {ℓ} {T : Type ℓ} where
  abbrev pub open_range : Range T → Bool
  open_range r =
      not r.eq_to.set
      && not r.ne_to.set
      && not r.gt_than.set
      && not r.gte_than.set
      && not r.lt_than.set
      && not r.lte_than.set
      && none_of r.in_set
      && not r.is_null_opt.set

  abbrev pub open_match : Match T → Bool
  open_match m = not m.eq_to.set && not m.ne_to.set && none_of m.in_set && not m.is_null_opt.set

abbrev pub open_text : Text → Bool
open_text t =
    not t.eq_to.set
    && not t.ne_to.set
    && not t.like_pattern.set
    && not t.ilike_pattern.set
    && none_of t.in_set
    && not t.is_null_opt.set

no_conds-snoc : (cs : List Cond) (c : Cond) → no_conds (cs ++ c ∷ []) ≡ false
no_conds-snoc [] c = refl
no_conds-snoc (d ∷ cs) c = refl

module _ (col : Bytes) where
  append_null-open :
      (cs : List Cond) (o : Opt Bool) → no_conds (append_null cs col o) ≡ (no_conds cs && not o.set)
  unfolding append_null
  append_null-open [] o = ground arith
  append_null-open (c ∷ cs) o = ground arith

  module _ {ℓ} {T : Type ℓ} (box : T → Value) where
    append_opt-open :
        (cs : List Cond) (op : Op) (o : Opt T)
        → no_conds (append_opt box cs col op o) ≡ (no_conds cs && not o.set)
    unfolding append_opt
    append_opt-open [] op o = ground arith
    append_opt-open (c ∷ cs) op o = ground arith

    append_in-open :
        (cs : List Cond) (vs : List T)
        → no_conds (append_in box cs col vs) ≡ (no_conds cs && none_of vs)
    unfolding append_in
    append_in-open cs [] = ground arith
    append_in-open [] (v ∷ vs) = refl
    append_in-open (c ∷ cs) (v ∷ vs) = refl

    pub range_predicates-open : (r : Range T) → no_conds (range_predicates box r col) ≡ open_range r
    unfolding range_predicates
    range_predicates-open r =
        rw
          (
            append_null-open _ r.is_null_opt,
            append_in-open _ r.in_set,
            append_opt-open _ lte r.lte_than,
            append_opt-open _ lt r.lt_than,
            append_opt-open _ gte r.gte_than,
            append_opt-open _ gt r.gt_than,
            append_opt-open _ ne r.ne_to,
            append_opt-open [] eq r.eq_to,
          )
          refl

    pub match_predicates-open : (m : Match T) → no_conds (match_predicates box m col) ≡ open_match m
    unfolding match_predicates
    match_predicates-open m =
        rw
          (
            append_null-open _ m.is_null_opt,
            append_in-open _ m.in_set,
            append_opt-open _ ne m.ne_to,
            append_opt-open [] eq m.eq_to,
          )
          refl

  pub text_predicates-open : (t : Text) → no_conds (text_predicates t col) ≡ open_text t
  unfolding text_predicates
  text_predicates-open t =
      rw
        (
          append_null-open _ t.is_null_opt,
          append_in-open text _ t.in_set,
          append_opt-open text _ ilike t.ilike_pattern,
          append_opt-open text _ like t.like_pattern,
          append_opt-open text _ ne t.ne_to,
          append_opt-open text [] eq t.eq_to,
        )
        refl

-- ===== src/Compile/Holding.antt =====
-- The filter holders of holders.go and fulltext.go keep to the column that they are given.
use filtrx.Base.{Bool, true, false, List, [], ◌∷◌, ◌++◌, Bytes, codes, is_empty, if◌then◌else◌}
use filtrx.Value.{Value, text}
use filtrx.Cond.{Cond, Op, eq, ne, gt, gte, lt, lte, like, ilike}
use filtrx.Holders.{
  Opt, Range, Match, Text, FullText, append_opt, append_in, append_null, range_predicates,
  match_predicates, text_predicates, full_text_predicates,
}
use filtrx.Compile.Columns.{AllUse, Uses, AllUse-append}

module _ (Column Verbatim : Bytes → Type 0) (col : Bytes) (h : Column col) where
  keep_or :
      (b : Bool) (cs ds : List Cond)
      → AllUse Column Verbatim cs
      → AllUse Column Verbatim ds
      → AllUse Column Verbatim (if b then cs else ds)
  keep_or true cs ds k l = k
  keep_or false cs ds k l = l

  more :
      (cs : List Cond) (c : Cond)
      → AllUse Column Verbatim cs
      → Uses Column Verbatim c
      → AllUse Column Verbatim (cs ++ c ∷ [])
  more cs c k u = AllUse-append Column Verbatim cs (c ∷ []) k (u, tt)

  append_null-AllUse :
      (cs : List Cond) (o : Opt Bool)
      → AllUse Column Verbatim cs
      → AllUse Column Verbatim (append_null cs col o)
  unfolding append_null
  append_null-AllUse cs o k =
      keep_or o.set _ cs (keep_or o.val _ _ (more cs _ k h) (more cs _ k h)) k

  module _ {ℓ} {T : Type ℓ} (box : T → Value) where
    append_opt-AllUse :
        (cs : List Cond) (o : Op) (v : Opt T)
        → AllUse Column Verbatim cs
        → AllUse Column Verbatim (append_opt box cs col o v)
    unfolding append_opt
    append_opt-AllUse cs o v k = keep_or v.set _ cs (more cs _ k h) k

    append_in-AllUse :
        (cs : List Cond) (vs : List T)
        → AllUse Column Verbatim cs
        → AllUse Column Verbatim (append_in box cs col vs)
    unfolding append_in
    append_in-AllUse cs [] k = k
    append_in-AllUse cs (v ∷ vs) k = more cs _ k h

    pub range_predicates-AllUse :
        (r : Range T) → AllUse Column Verbatim (range_predicates box r col)
    unfolding range_predicates
    range_predicates-AllUse r = append_null-AllUse _ r.is_null_opt (
        append_in-AllUse _ r.in_set (
          append_opt-AllUse _ lte r.lte_than (
            append_opt-AllUse _ lt r.lt_than (
              append_opt-AllUse _ gte r.gte_than (
                append_opt-AllUse _ gt r.gt_than
                  (append_opt-AllUse _ ne r.ne_to (append_opt-AllUse [] eq r.eq_to tt)))))))

    pub match_predicates-AllUse :
        (m : Match T) → AllUse Column Verbatim (match_predicates box m col)
    unfolding match_predicates
    match_predicates-AllUse m = append_null-AllUse _ m.is_null_opt (
        append_in-AllUse _ m.in_set
          (append_opt-AllUse _ ne m.ne_to (append_opt-AllUse [] eq m.eq_to tt)))

  pub text_predicates-AllUse : (t : Text) → AllUse Column Verbatim (text_predicates t col)
  unfolding text_predicates
  text_predicates-AllUse t = append_null-AllUse _ t.is_null_opt (
      append_in-AllUse text _ t.in_set (
        append_opt-AllUse text _ ilike t.ilike_pattern (
          append_opt-AllUse text _ like t.like_pattern
            (append_opt-AllUse text _ ne t.ne_to (append_opt-AllUse text [] eq t.eq_to tt)))))

  -- The search string of a FullText is no part of the text: what stands there as it is, is its
  -- configuration, "english" if there is none.
  pub full_text_predicates-AllUse :
      (f : FullText)
      → Verbatim (if is_empty f.config then codes "english" else f.config)
      → AllUse Column Verbatim (full_text_predicates f col)
  unfolding full_text_predicates
  full_text_predicates-AllUse f config = keep_or f.query.set _ [] ((h, config), tt) tt

-- ===== src/Example/Shown.antt =====
-- Which articles an ArticleFilter of examples/models.go asks for, and that its compiled condition keeps
-- exactly those.
use filtrx.Base.{
  ◌≡◌, refl, ◌∙◌, ap, arith, Bool, true, false, ◌&&◌, ◌||◌, not, List, [], ◌∷◌, Bytes, codes, map,
}
use filtrx.Base.Int.{ℤ}
use filtrx.Value.{Value, text, int, slice, as_slice}
use filtrx.Cond.{in_list}
use filtrx.Holders.{values}
use filtrx.Holders.Arguments.{elems-values}
use filtrx.Holders.Meaning.{
  stands, asks_one_of, meets_match, meets_text, meets_range, is_true-in, match_predicates-meets,
  text_predicates-meets, range_predicates-meets,
}
use filtrx.Holders.Open.{
  none_of, open_match, open_text, open_range, match_predicates-open, text_predicates-open,
  range_predicates-open,
}
use filtrx.Meaning.{Database, Row, is_true, is_eq, is_in, eval_leaf}
use filtrx.Compile.Direct.{fields_of}
use filtrx.Compile.Meaning.{is_blank, blank_children, meets, meets_some}
use filtrx.Example.Models.{
  ArticleFilter, article_filter, ArticleFilters, no_filters, one_filter, types, article_filter_type,
  article_value, article_values,
}
use filtrx.Example.Models.Plans.{planning, article_filter-plan}

-- A filter with no field set, nor a field of its elements.
unfoldable mutual
  pub asks_nothing : ArticleFilter → Bool
  asks_nothing (article_filter status title views ids any) =
      open_match status
      && (open_text title && (open_range views && (none_of ids && all_nothing any)))

  pub all_nothing : ArticleFilters → Bool
  all_nothing no_filters = true
  all_nothing (one_filter f fs) = asks_nothing f && all_nothing fs

module _ (db : Database) (row : Row) where
  -- The article is what the filter asks for: by its status, title, views and id, and by one of the
  -- alternatives that ask something, if there is one.
  unfoldable mutual
    pub asked_for : ArticleFilter → Bool
    asked_for (article_filter status title views ids any) =
        meets_match db text (row (codes "status")) status
        && (meets_text db row (codes "title") title
            && (meets_range db int (row (codes "views")) views
                && (asks_one_of ids (λ n. stands db is_eq (row (codes "id")) (int n))
                    && (all_nothing any || asked_by_one any))))

    pub asked_by_one : ArticleFilters → Bool
    asked_by_one no_filters = false
    asked_by_one (one_filter f fs) = (not (asks_nothing f) && asked_for f) || asked_by_one fs

none_of-map : {T : Type 0} (f : T → Value) (vs : List T) → none_of (map f vs) ≡ none_of vs
none_of-map f [] = refl
none_of-map f (v ∷ vs) = refl

and_same :
    (a b c d e : Bool) {a' b' c' d' e' : Bool}
    → a ≡ a'
    → b ≡ b'
    → c ≡ c'
    → d ≡ d'
    → e ≡ e'
    → (a && (b && (c && (d && (e && true))))) ≡ (a' && (b' && (c' && (d' && e'))))
and_same a b c d e p q r s t = ground arith

mutual
  unfolding planning is_blank asks_nothing article_value

  is_blank-article :
      (f : ArticleFilter)
      → is_blank types (article_value f) (fields_of article_filter_type) ≡ asks_nothing f
  is_blank-article (article_filter status title views ids any) =
      and_same _ _ _ _ _ (match_predicates-open (codes "status") text status)
        (text_predicates-open (codes "title") title)
        (range_predicates-open (codes "views") int views) (none_of-map int ids)
        (rw article_filter-plan (blank-articles any))

  blank-articles :
      (fs : ArticleFilters)
      → blank_children types (article_values fs) (fields_of article_filter_type) ≡ all_nothing fs
  blank-articles no_filters = refl
  blank-articles (one_filter f fs) = rw (is_blank-article f, blank-articles fs) refl

module _ (db : Database) (row : Row) where
  ids-asked :
      (col : Bytes) (ids : List ℤ)
      → (none_of (map int ids)
          || is_true (eval_leaf db row in_list col (slice (values (map int ids)))))
        ≡ asks_one_of ids (λ n. stands db is_eq (row col) (int n))
  unfolding eval_leaf as_slice
  ids-asked col [] = refl
  ids-asked col (n ∷ ns) =
      ap (λ vs. is_true (is_in db (row col) vs)) (elems-values (map int (n ∷ ns)))
      ∙ is_true-in db row col int (row col) (n ∷ ns)

  mutual
    unfolding planning meets asked_for article_value

    pub meets-article :
        (f : ArticleFilter)
        → meets types db row (article_value f) (fields_of article_filter_type) ≡ asked_for db row f
    meets-article (article_filter status title views ids any) =
        and_same _ _ _ _ _ (match_predicates-meets db row (codes "status") text status)
          (text_predicates-meets db row (codes "title") title)
          (range_predicates-meets db row (codes "views") int views) (ids-asked (codes "id") ids)
          (rw (article_filter-plan, blank-articles any, meets-articles any) refl)

    meets-articles :
        (fs : ArticleFilters)
        → meets_some types db row (article_values fs) (fields_of article_filter_type)
          ≡ asked_by_one db row fs
    meets-articles no_filters = refl
    meets-articles (one_filter f fs) =
        rw (is_blank-article f, meets-article f, meets-articles fs) refl

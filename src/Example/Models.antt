-- ===== src/Example/Models.antt =====
-- examples/models.go: the rows that the service scans, and its filter structs.
pub mod Plans
use filtrx.Base.{ℕ, zero, suc, Bool, true, false, List, [], ◌∷◌, Bytes, codes, map}
use filtrx.Base.Compare.{lookup}
use filtrx.Base.Int.{ℤ, pos}
use filtrx.Value.{int, text}
use filtrx.Holders.{
  Opt, Range, Match, Text, FullText, range_predicates, match_predicates, text_predicates,
  full_text_predicates,
}
use filtrx.Holders.Optional.{none_opt}
use filtrx.Reflect.{
  no_marker, table_marker, join_marker, slice_of_structs, slice_of_others, other_kind, FieldInfo,
  StructType, struct, end, field, no_sub, sub_struct,
}
use filtrx.Compile.{
  StructValue, struct_value, no_fields, field_value, holder, elems, structs, exists_value, unread,
  StructValues, no_structs, one_struct,
}

pub record Author : Type 0 where
  pub id : ℤ
  pub name : Bytes
  pub email : Bytes

pub record Article : Type 0 where
  pub id : ℤ
  pub author_id : ℤ
  pub title : Bytes
  pub body : Bytes
  pub status : Bytes
  pub tags : List Bytes
  pub views : ℤ
  pub created_at : ℕ

pub record AuthorArticleCount : Type 0 where
  pub author_id : ℤ
  pub count : ℤ

-- `articleCols`
abbrev pub article_cols : List Bytes
article_cols =
    map codes
      ("id" ∷ "author_id" ∷ "title" ∷ "body" ∷ "status" ∷ "tags" ∷ "views" ∷ "created_at" ∷ [])

mutual
  -- The fields Status, Title, Views, IDs and Any.
  pub data ArticleFilter : Type 0 where
    article_filter : Match Bytes → Text → Range ℤ → List ℤ → ArticleFilters → ArticleFilter

  pub data ArticleFilters : Type 0 where
    no_filters : ArticleFilters
    one_filter : ArticleFilter → ArticleFilters → ArticleFilters

pub record ArticleSearch : Type 0 where
  pub body : FullText

pub record ArticleByAuthor : Type 0 where
  pub status : Match Bytes
  pub name : Text

pub record ArticleSub : Type 0 where
  pub status : Match Bytes

-- Articles is an Exists, with the fields When and Sub.
pub record AuthorWithPublished : Type 0 where
  pub when : Opt Bool
  pub sub : ArticleSub

-- The zero values of Match[string], Text and Range[int].
abbrev pub no_match : Match Bytes
no_match = record {
  eq_to = none_opt [];
  ne_to = none_opt [];
  in_set = [];
  is_null_opt = none_opt false;
}

abbrev pub no_text : Text
no_text = record {
  eq_to = none_opt [];
  ne_to = none_opt [];
  like_pattern = none_opt [];
  ilike_pattern = none_opt [];
  in_set = [];
  is_null_opt = none_opt false;
}

abbrev pub no_range : Range ℤ
no_range = record {
  eq_to = none_opt (pos 0);
  ne_to = none_opt (pos 0);
  gt_than = none_opt (pos 0);
  lt_than = none_opt (pos 0);
  gte_than = none_opt (pos 0);
  lte_than = none_opt (pos 0);
  in_set = [];
  is_null_opt = none_opt false;
}

-- An exported field with its name and tags.
abbrev pub plain_field : Bytes → List (Bytes × Bytes) → FieldInfo
plain_field n tags = record {
  name = n;
  exported = true;
  tag = (λ key. lookup key tags);
  marker = no_marker;
  kind = other_kind;
  is_exists = false;
  is_predicate = false;
  is_setter = false;
}

-- A field of a type with the method Predicates, on the column of its tag.
abbrev pub holder_field : Bytes → Bytes → FieldInfo
holder_field n col = record (plain_field n ((codes "col", col) ∷ [])) { is_predicate = true }

abbrev pub article_filter_type : StructType
article_filter_type = struct 0 (
    field (holder_field (codes "Status") (codes "status")) no_sub (
      field (holder_field (codes "Title") (codes "title")) no_sub (
        field (holder_field (codes "Views") (codes "views")) no_sub (
          field
            (record (plain_field (codes "IDs")
              ((codes "col", codes "id") ∷ (codes "op", codes "in") ∷ [])) {
                kind = slice_of_others;
              })
            no_sub
            (field
              (record (plain_field (codes "Any") ((codes "group", codes "or") ∷ [])) {
                kind = slice_of_structs 0;
              })
              no_sub end)))))

abbrev pub article_search_type : StructType
article_search_type = struct 1 (field (holder_field (codes "Body") (codes "search_vec")) no_sub end)

abbrev pub article_by_author_type : StructType
article_by_author_type = struct 2 (
    field
      (record (plain_field (codes "Base")
        ((codes "table", codes "articles") ∷ (codes "as", codes "a") ∷ [])) {
          marker = table_marker;
        })
      no_sub
      (field
        (record (plain_field (codes "Author") (
          (codes "table", codes "authors")
          ∷ (codes "as", codes "au")
          ∷ (codes "on", codes "au.id = a.author_id")
          ∷ [])) { marker = join_marker })
        no_sub
        (field (holder_field (codes "Status") (codes "a.status")) no_sub
          (field (holder_field (codes "Name") (codes "au.name")) no_sub end))))

abbrev pub article_sub_type : StructType
article_sub_type = struct 4 (field (holder_field (codes "Status") (codes "a.status")) no_sub end)

abbrev pub author_with_published_type : StructType
author_with_published_type = struct 3 (
    field
      (record (plain_field (codes "Base")
        ((codes "table", codes "authors") ∷ (codes "as", codes "au") ∷ [])) {
          marker = table_marker;
        })
      no_sub
      (field
        (record (plain_field (codes "Articles")
          ((codes "exists", codes "articles a") ∷ (codes "on", codes "a.author_id = au.id") ∷ [])) {
            is_exists = true;
          })
        (sub_struct article_sub_type) end))

-- The filter types of the service by their identities.
abbrev pub types : ℕ → StructType
types zero = article_filter_type
types (suc zero) = article_search_type
types (suc (suc zero)) = article_by_author_type
types (suc (suc (suc zero))) = author_with_published_type
types (suc (suc (suc (suc zero)))) = article_sub_type
types (suc (suc (suc (suc (suc n))))) = struct (suc (suc (suc (suc (suc n))))) end

-- What reflection reads of the filter values.
unfoldable mutual
  pub article_value : ArticleFilter → StructValue
  article_value (article_filter status title views ids any) = struct_value (
      field_value (holder (match_predicates text status)) (
        field_value (holder (text_predicates title)) (
          field_value (holder (range_predicates int views)) (
            field_value (elems (map int ids))
              (field_value (structs [] (article_values any)) no_fields)))))

  pub article_values : ArticleFilters → StructValues
  article_values no_filters = no_structs
  article_values (one_filter f fs) = one_struct (article_value f) (article_values fs)

unfoldable pub search_value : ArticleSearch → StructValue
search_value f = struct_value (field_value (holder (full_text_predicates f.body)) no_fields)

unfoldable pub by_author_value : ArticleByAuthor → StructValue
by_author_value f = struct_value (
    field_value unread (
      field_value unread (
        field_value (holder (match_predicates text f.status))
          (field_value (holder (text_predicates f.name)) no_fields))))

unfoldable pub published_value : AuthorWithPublished → StructValue
published_value f = struct_value (
    field_value unread (
      field_value
        (exists_value f.when
          (struct_value (field_value (holder (match_predicates text f.sub.status)) no_fields)))
        no_fields))

-- ===== src/Example/Wire.antt =====
-- The ArticleFilter of examples/models.go as Bind sees it: `var f ArticleFilter`, and the filter that
-- stands in it after Bind.
use filtrx.Base.{Bool, false, List, [], ◌∷◌, ◌++◌, Bytes, codes, map}
use filtrx.Base.Int.{ℤ, pos}
use filtrx.Value.{Value, text, int, bool}
use filtrx.Holders.{Opt, Match, Text, Range}
use filtrx.Holders.Optional.{none_opt}
use filtrx.Reflect.{slice_of_structs, slice_of_others}
use filtrx.Bind.Fields.{
  ScalarType, string_type, bool_type, int_type, Cell, opt_cell, slice_cell, other_cell, SubField,
  Target, plain, holder_struct, Dest, pointer_to,
}
use filtrx.Example.Models.{
  ArticleFilter, article_filter, no_filters, plain_field, holder_field, no_match, no_text, no_range,
}

abbrev holder_part : Bytes → Bytes → Cell → SubField
holder_part n word c = record {
  info = plain_field n ((codes "json", word ++ codes ",omitempty") ∷ []);
  cell = c;
}

abbrev unset : ScalarType → Value → Cell
unset t v = opt_cell t (none_opt v)

-- A zero Match[string], Text and Range[int].
abbrev zero_match : List SubField
zero_match =
    holder_part (codes "Eq") (codes "eq") (unset string_type (text []))
    ∷ holder_part (codes "Ne") (codes "ne") (unset string_type (text []))
    ∷ holder_part (codes "In") (codes "in") (slice_cell string_type [])
    ∷ holder_part (codes "IsNull") (codes "null") (unset bool_type (bool false))
    ∷ []

abbrev zero_text : List SubField
zero_text =
    holder_part (codes "Eq") (codes "eq") (unset string_type (text []))
    ∷ holder_part (codes "Ne") (codes "ne") (unset string_type (text []))
    ∷ holder_part (codes "Like") (codes "like") (unset string_type (text []))
    ∷ holder_part (codes "ILike") (codes "ilike") (unset string_type (text []))
    ∷ holder_part (codes "In") (codes "in") (slice_cell string_type [])
    ∷ holder_part (codes "IsNull") (codes "null") (unset bool_type (bool false))
    ∷ []

abbrev zero_range : List SubField
zero_range =
    holder_part (codes "Eq") (codes "eq") (unset (int_type 64) (int (pos 0)))
    ∷ holder_part (codes "Ne") (codes "ne") (unset (int_type 64) (int (pos 0)))
    ∷ holder_part (codes "Gt") (codes "gt") (unset (int_type 64) (int (pos 0)))
    ∷ holder_part (codes "Lt") (codes "lt") (unset (int_type 64) (int (pos 0)))
    ∷ holder_part (codes "Gte") (codes "gte") (unset (int_type 64) (int (pos 0)))
    ∷ holder_part (codes "Lte") (codes "lte") (unset (int_type 64) (int (pos 0)))
    ∷ holder_part (codes "In") (codes "in") (slice_cell (int_type 64) [])
    ∷ holder_part (codes "IsNull") (codes "null") (unset bool_type (bool false))
    ∷ []

-- `var f ArticleFilter`, given to Bind by its address
abbrev pub zero_article_filter : Dest
zero_article_filter = pointer_to (
    record {
      info = holder_field (codes "Status") (codes "status");
      target = holder_struct zero_match;
    }
    ∷ record {
      info = holder_field (codes "Title") (codes "title");
      target = holder_struct zero_text;
    }
    ∷ record {
      info = holder_field (codes "Views") (codes "views");
      target = holder_struct zero_range;
    }
    ∷ record {
      info =
          record (plain_field (codes "IDs")
            ((codes "col", codes "id") ∷ (codes "op", codes "in") ∷ [])) { kind = slice_of_others };
      target = plain (slice_cell (int_type 64) []);
    }
    ∷ record {
      info = record (plain_field (codes "Any") ((codes "group", codes "or") ∷ [])) {
        kind = slice_of_structs 0;
      };
      target = plain other_cell;
    }
    ∷ [])

abbrev bytes_of : Value → Bytes
bytes_of (text s) = s
bytes_of v = []

abbrev int_of : Value → ℤ
int_of (int n) = n
int_of v = pos 0

abbrev bool_of : Value → Bool
bool_of (bool b) = b
bool_of v = false

-- The Opt of a cell, with its values read as a `T`.
abbrev opt_in : {T : Type 0} → (Value → T) → T → Cell → Opt T
opt_in read z (opt_cell t o) = record { val = read o.val; set = o.set }
opt_in read z c = none_opt z

abbrev slice_in : {T : Type 0} → (Value → T) → Cell → List T
slice_in read (slice_cell t vs) = map read vs
slice_in read c = []

abbrev match_in : Target → Match Bytes
match_in (holder_struct (e ∷ n ∷ i ∷ z ∷ [])) = record {
  eq_to = opt_in bytes_of [] e.cell;
  ne_to = opt_in bytes_of [] n.cell;
  in_set = slice_in bytes_of i.cell;
  is_null_opt = opt_in bool_of false z.cell;
}
match_in t = no_match

abbrev text_in : Target → Text
text_in (holder_struct (e ∷ n ∷ l ∷ f ∷ i ∷ z ∷ [])) = record {
  eq_to = opt_in bytes_of [] e.cell;
  ne_to = opt_in bytes_of [] n.cell;
  like_pattern = opt_in bytes_of [] l.cell;
  ilike_pattern = opt_in bytes_of [] f.cell;
  in_set = slice_in bytes_of i.cell;
  is_null_opt = opt_in bool_of false z.cell;
}
text_in t = no_text

abbrev range_in : Target → Range ℤ
range_in (holder_struct (e ∷ n ∷ g ∷ l ∷ ge ∷ le ∷ i ∷ z ∷ [])) = record {
  eq_to = opt_in int_of (pos 0) e.cell;
  ne_to = opt_in int_of (pos 0) n.cell;
  gt_than = opt_in int_of (pos 0) g.cell;
  lt_than = opt_in int_of (pos 0) l.cell;
  gte_than = opt_in int_of (pos 0) ge.cell;
  lte_than = opt_in int_of (pos 0) le.cell;
  in_set = slice_in int_of i.cell;
  is_null_opt = opt_in bool_of false z.cell;
}
range_in t = no_range

abbrev ids_in : Target → List ℤ
ids_in (plain c) = slice_in int_of c
ids_in t = []

-- The filter in the variable after Bind, which leaves a group as it is.
abbrev pub filter_in : Dest → ArticleFilter
filter_in (pointer_to (s ∷ t ∷ v ∷ i ∷ a ∷ [])) =
    article_filter (match_in s.target) (text_in t.target) (range_in v.target) (ids_in i.target)
      no_filters
filter_in d = article_filter no_match no_text no_range [] no_filters

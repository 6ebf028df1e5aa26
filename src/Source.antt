-- ===== src/Source.antt =====
-- source.go: the FROM clause and joins that a filter struct's marker fields declare.
use filtrx.Base.{List, [], ◌∷◌, ◌++◌, Bytes, codes, is_empty, if◌then◌else◌}
use filtrx.Base.Compare.{bytes_eq, to_lower}
use filtrx.Dialect.{Dialect, quote_ident}

pub record JoinSpec : Type 0 where
  pub kind : Bytes
  pub table : Bytes
  pub alias : Bytes
  pub on : Bytes

pub record SourceSpec : Type 0 where
  pub table : Bytes
  pub alias : Bytes
  pub joins : List JoinSpec

-- The tags of a marker field that the two parsers read; an absent tag reads as empty.
pub record MarkerTags : Type 0 where
  pub table : Bytes
  pub alias : Bytes
  pub on : Bytes
  pub kind : Bytes

pub data SourceError : Type 0 where
  table_needs_tag second_table join_needs_table join_needs_on unknown_join_type : SourceError

pub data Parsed {ℓ} (A : Type ℓ) : Type ℓ where
  parsed : A → Parsed A
  failed : SourceError → Parsed A

unfoldable pub parse_table : MarkerTags → SourceSpec → Parsed SourceSpec
parse_table f s =
    if is_empty f.table
    then failed table_needs_tag
    else if is_empty s.table
    then parsed (record s { table = f.table; alias = f.alias })
    else failed second_table

unfoldable pub join_kind : Bytes → Parsed Bytes
join_kind tag =
    let lower = to_lower tag in
    if is_empty lower
    then parsed []
    else if bytes_eq lower (codes "inner")
    then parsed []
    else if bytes_eq lower (codes "left")
    then parsed (codes "LEFT")
    else if bytes_eq lower (codes "right")
    then parsed (codes "RIGHT")
    else if bytes_eq lower (codes "full")
    then parsed (codes "FULL")
    else failed unknown_join_type

unfoldable pub parse_join : MarkerTags → Parsed JoinSpec
parse_join f =
    if is_empty f.table
    then failed join_needs_table
    else if is_empty f.on
    then failed join_needs_on
    else elim (join_kind f.kind) [
      | failed e ↦ failed e
      | parsed kind ↦ parsed (record { kind = kind; table = f.table; alias = f.alias; on = f.on })
    ]

-- A name with its alias, where there is one.
unfoldable pub aliased : Dialect → Bytes → Bytes → Bytes
aliased d table alias =
    quote_ident d table ++ (if is_empty alias then [] else codes " " ++ quote_ident d alias)

unfoldable pub render_join : Dialect → JoinSpec → Bytes
render_join d j =
    codes " "
    ++ (if is_empty j.kind then [] else j.kind ++ codes " ")
    ++ codes "JOIN "
    ++ aliased d j.table j.alias
    ++ codes " ON "
    ++ j.on

unfoldable pub render_joins : Dialect → List JoinSpec → Bytes
render_joins d [] = []
render_joins d (j ∷ js) = render_join d j ++ render_joins d js

unfoldable pub render : Dialect → SourceSpec → Bytes
render d s = aliased d s.table s.alias ++ render_joins d s.joins

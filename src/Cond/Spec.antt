-- ===== src/Cond/Spec.antt =====
-- The tokens of a condition: what it should render to, stated without a builder.
use filtrx.Base.{Bool, none, some, List, [], ◌∷◌, ◌++◌, Bytes, codes, split, if◌then◌else◌}
use filtrx.Value.{Value, as_slice, text}
use filtrx.Dialect.{Dialect, postgres, mysql, sqlite, quote_ident}
use filtrx.Cond.{
  Op, Cond, Conds, Inner, leaf, group, raw, exists, full_text, nil, cons, absent, present, OpClass,
  no_value, list_value, one_value, op_sql, op_class, empty_list_sql, joiner,
}
use filtrx.Cond.Tokens.{Token, lit, hole}

-- Values separated by commas.
unfoldable pub comma_list : List Value → List Token
comma_list [] = []
comma_list (v ∷ []) = hole v ∷ []
comma_list (v ∷ w ∷ vs) = hole v ∷ lit (codes ", ") ∷ comma_list (w ∷ vs)

-- The elements of a slice; any other value stands alone.
unfoldable pub list_tokens : Value → List Token
list_tokens v = elim (as_slice v) [ none ↦ hole v ∷ [] | some vs ↦ comma_list vs ]

unfoldable pub operand_tokens : OpClass → Op → Value → List Token
operand_tokens no_value op v = lit (codes " ") ∷ lit (op_sql op) ∷ []
operand_tokens list_value op v =
    lit (codes " ") ∷ lit (op_sql op) ∷ lit (codes " (") ∷ (list_tokens v ++ lit (codes ")") ∷ [])
operand_tokens one_value op v = lit (codes " ") ∷ lit (op_sql op) ∷ lit (codes " ") ∷ hole v ∷ []

unfoldable pub leaf_tokens : Dialect → Bytes → Op → Value → List Token
leaf_tokens d col op v = elim (empty_list_sql op v) [
  | some s ↦ lit s ∷ []
  | none ↦ lit (quote_ident d col) ∷ operand_tokens (op_class op) op v
]

unfoldable pub raw_tokens : List Bytes → List Value → List Token
raw_tokens [] args = []
raw_tokens (p ∷ []) args = lit p ∷ []
raw_tokens (p ∷ q ∷ ps) [] = lit p ∷ raw_tokens (q ∷ ps) []
raw_tokens (p ∷ q ∷ ps) (a ∷ args) = lit p ∷ hole a ∷ raw_tokens (q ∷ ps) args

-- A full-text match binds its search text inside the dialect's own operator or function.
unfoldable pub full_text_tokens : Dialect → Bytes → Bytes → Bytes → List Token
full_text_tokens postgres col config query =
    lit (quote_ident postgres col ++ codes " @@ websearch_to_tsquery('" ++ config ++ codes "', ")
    ∷ hole (text query)
    ∷ lit (codes ")")
    ∷ []
full_text_tokens mysql col config query =
    lit (codes "MATCH(" ++ quote_ident mysql col ++ codes ") AGAINST(")
    ∷ hole (text query)
    ∷ lit (codes " IN NATURAL LANGUAGE MODE)")
    ∷ []
full_text_tokens sqlite col config query =
    lit (quote_ident sqlite col ++ codes " MATCH ") ∷ hole (text query) ∷ []

unfoldable mutual
  pub tokens : Dialect → Cond → List Token
  tokens d (leaf col op v) = leaf_tokens d col op v
  tokens d (group or cs) = group_tokens d or cs
  tokens d (raw sql args) = raw_tokens (split b'?' sql) args
  tokens d (exists negate src on inner) =
      (if negate then lit (codes "NOT ") ∷ [] else [])
      ++ lit (codes "EXISTS (SELECT 1 FROM ")
        ∷ lit src
        ∷ lit (codes " WHERE ")
        ∷ lit on
        ∷ (inner_tokens d inner ++ lit (codes ")") ∷ [])
  tokens d (full_text col config query) = full_text_tokens d col config query

  pub inner_tokens : Dialect → Inner → List Token
  inner_tokens d absent = []
  inner_tokens d (present c) = lit (codes " AND ") ∷ tokens d c

  pub group_tokens : Dialect → Bool → Conds → List Token
  group_tokens d or nil = []
  group_tokens d or (cons c nil) = tokens d c
  group_tokens d or (cons c (cons e cs)) =
      lit (codes "(")
      ∷ (tokens d c
          ++ lit (joiner or) ∷ (tokens d e ++ (others_tokens d or cs ++ lit (codes ")") ∷ [])))

  pub others_tokens : Dialect → Bool → Conds → List Token
  others_tokens d or nil = []
  others_tokens d or (cons c cs) = lit (joiner or) ∷ (tokens d c ++ others_tokens d or cs)

-- ===== src/Cond/Shape.antt =====
-- Values never reach the SQL text: it depends on a condition with its values erased.
use filtrx.Base.{
  ℕ, ◌≡◌, refl, sym, ◌∙◌, ap, Bool, List, [], ◌∷◌, ◌++◌, map, Bytes, codes, split, Option, none,
  some,
}
use mathlib.Core.List.{map-append}
use filtrx.Value.{
  bytes, byte_values, Value, Values, null, slice, nil as no_values, cons as with_value, elems,
  as_slice,
}
use filtrx.Dialect.{Dialect, postgres, mysql, sqlite}
use filtrx.Cond.{
  Op, eq, in_list, not_in, Cond, Conds, Inner, leaf, group, raw, exists, full_text, nil, cons,
  absent, present, OpClass, no_value, list_value, one_value, op_class, empty_list_sql, empty_slice,
  build_at,
}
use filtrx.Cond.Tokens.{Token, lit, hole, render}
use filtrx.Cond.Spec.{
  comma_list, list_tokens, operand_tokens, leaf_tokens, raw_tokens, full_text_tokens, tokens,
  inner_tokens, group_tokens, others_tokens,
}
use filtrx.Cond.Render.{build_at-render}

unfoldable pub erase_values : Values → Values
erase_values no_values = no_values
erase_values (with_value v vs) = with_value null (erase_values vs)

-- Of a list operand the number of elements is kept, of any other nothing.
unfoldable pub erase_operand : OpClass → Value → Value
erase_operand list_value (slice vs) = slice (erase_values vs)
erase_operand list_value (bytes b) = slice (erase_values (byte_values b))
erase_operand _ _ = null

unfoldable mutual
  -- The condition that a filter's columns, operators and fixed texts alone determine.
  pub erase : Cond → Cond
  erase (leaf col op v) = leaf col op (erase_operand (op_class op) v)
  erase (group or cs) = group or (erase_all cs)
  erase (raw sql args) = raw sql (map (λ v. null) args)
  erase (exists negate src on inner) = exists negate src on (erase_inner inner)
  erase (full_text col config query) = full_text col config []

  pub erase_all : Conds → Conds
  erase_all nil = nil
  erase_all (cons c cs) = cons (erase c) (erase_all cs)

  pub erase_inner : Inner → Inner
  erase_inner absent = absent
  erase_inner (present c) = present (erase c)

blank : Token → Token
blank (lit s) = lit s
blank (hole v) = hole null

render-blank : (d : Dialect) (n : ℕ) (ts : List Token) → render d n (map blank ts) ≡ render d n ts
unfolding render blank
render-blank d n [] = refl
render-blank d n (lit s ∷ ts) = ap (λ t. s ++ t) (render-blank d n ts)
render-blank d n (hole v ∷ ts) = rw (render-blank d (ℕ.suc n) ts)

blank-comma_list :
    (vs : Values)
    → map blank (comma_list (elems (erase_values vs))) ≡ map blank (comma_list (elems vs))
unfolding blank comma_list elems erase_values
blank-comma_list no_values = refl
blank-comma_list (with_value v no_values) = refl
blank-comma_list (with_value v (with_value w vs)) =
    ap (λ (t : List Token). hole null ∷ lit (codes ", ") ∷ t) (blank-comma_list (with_value w vs))

blank-list_tokens :
    (v : Value) → map blank (list_tokens (erase_operand list_value v)) ≡ map blank (list_tokens v)
unfolding blank list_tokens as_slice erase_operand
blank-list_tokens (slice vs) = blank-comma_list vs
blank-list_tokens (bytes b) = blank-comma_list (byte_values b)
blank-list_tokens null = refl
blank-list_tokens _ = refl

blank-operand_tokens :
    (k : OpClass) (op : Op) (v : Value)
    → map blank (operand_tokens k op (erase_operand k v)) ≡ map blank (operand_tokens k op v)
unfolding operand_tokens blank
blank-operand_tokens no_value op v = refl
blank-operand_tokens list_value op v = simp (map-append, blank-list_tokens v)
blank-operand_tokens one_value op v = refl

empty_slice-erase : (v : Value) → empty_slice (erase_operand list_value v) ≡ empty_slice v
unfolding empty_slice erase_operand as_slice elems erase_values
empty_slice-erase (slice no_values) = refl
empty_slice-erase (slice (with_value v vs)) = refl
empty_slice-erase (bytes []) = refl
empty_slice-erase (bytes (c ∷ cs)) = refl
empty_slice-erase null = refl
empty_slice-erase _ = refl

empty_list_sql-erase :
    (op : Op) (v : Value) → empty_list_sql op (erase_operand (op_class op) v) ≡ empty_list_sql op v
unfolding empty_list_sql op_class
empty_list_sql-erase in_list v = rw (empty_slice-erase v)
empty_list_sql-erase not_in v = rw (empty_slice-erase v)
empty_list_sql-erase eq v = refl
empty_list_sql-erase _ v = refl

blank-leaf_tokens :
    (d : Dialect) (col : Bytes) (op : Op) (v : Value)
    → map blank (leaf_tokens d col op (erase_operand (op_class op) v))
      ≡ map blank (leaf_tokens d col op v)
unfolding leaf_tokens
blank-leaf_tokens d col op v =
    rw (leaf_tokens, empty_list_sql-erase op v) (by_guard (empty_list_sql op v))
  where
    by_guard :
        (o : Option Bytes)
        → map blank (elim o as (λ x. List Token) [
          | some s ↦ lit s ∷ []
          | none ↦
              lit (filtrx.Dialect.quote_ident d col)
              ∷ operand_tokens (op_class op) op (erase_operand (op_class op) v)
        ])
          ≡ map blank (elim o as (λ x. List Token) [
            | some s ↦ lit s ∷ []
            | none ↦ lit (filtrx.Dialect.quote_ident d col) ∷ operand_tokens (op_class op) op v
          ])
    by_guard (some s) = refl
    by_guard none =
        ap (λ (t : List Token). blank (lit (filtrx.Dialect.quote_ident d col)) ∷ t)
          (blank-operand_tokens (op_class op) op v)

blank-raw_tokens :
    (ps : List Bytes) (args : List Value)
    → map blank (raw_tokens ps (map (λ (v : Value). null) args)) ≡ map blank (raw_tokens ps args)
unfolding raw_tokens blank
blank-raw_tokens [] args = refl
blank-raw_tokens (p ∷ []) args = refl
blank-raw_tokens (p ∷ q ∷ ps) [] = ap (λ (t : List Token). lit p ∷ t) (blank-raw_tokens (q ∷ ps) [])
blank-raw_tokens (p ∷ q ∷ ps) (a ∷ args) =
    ap (λ (t : List Token). lit p ∷ hole null ∷ t) (blank-raw_tokens (q ∷ ps) args)

blank-full_text_tokens :
    (d : Dialect) (col config query : Bytes)
    → map blank (full_text_tokens d col config []) ≡ map blank (full_text_tokens d col config query)
unfolding full_text_tokens blank
blank-full_text_tokens postgres col config query = refl
blank-full_text_tokens mysql col config query = refl
blank-full_text_tokens sqlite col config query = refl

module _ (d : Dialect) where
  mutual
    unfolding tokens erase

    blank-tokens : (c : Cond) → map blank (tokens d (erase c)) ≡ map blank (tokens d c)
    blank-tokens (leaf col op v) = blank-leaf_tokens d col op v
    blank-tokens (group or cs) = blank-group_tokens cs or
    blank-tokens (raw sql args) = blank-raw_tokens (split b'?' sql) args
    blank-tokens (exists negate src on inner) = simp (map-append, blank-inner_tokens inner)
    blank-tokens (full_text col config query) = blank-full_text_tokens d col config query

    blank-inner_tokens :
        (i : Inner) → map blank (inner_tokens d (erase_inner i)) ≡ map blank (inner_tokens d i)
    blank-inner_tokens absent = refl
    blank-inner_tokens (present c) =
        ap (λ (t : List Token). blank (lit (codes " AND ")) ∷ t) (blank-tokens c)

    blank-group_tokens :
        (cs : Conds) (or : Bool)
        → map blank (group_tokens d or (erase_all cs)) ≡ map blank (group_tokens d or cs)
    blank-group_tokens nil or = refl
    blank-group_tokens (cons c nil) or = blank-tokens c
    blank-group_tokens (cons c (cons e cs)) or =
        simp (map-append, blank-tokens c, blank-tokens e, blank-others_tokens cs or)

    blank-others_tokens :
        (cs : Conds) (or : Bool)
        → map blank (others_tokens d or (erase_all cs)) ≡ map blank (others_tokens d or cs)
    blank-others_tokens nil or = refl
    blank-others_tokens (cons c cs) or =
        simp (map-append, blank-tokens c, blank-others_tokens cs or)

build_at-erase :
    (c : Cond) (d : Dialect) (start : ℕ)
    → (build_at (some (erase c)) d start).0 ≡ (build_at (some c) d start).0
build_at-erase c d start = simp build_at-render (
    sym (render-blank d start (tokens d (erase c)))
    ∙ ap (render d start) (blank-tokens d c)
    ∙ render-blank d start (tokens d c))

-- Two conditions that agree once their values are erased (same columns, operators, fixed texts and
-- list lengths) render to the same SQL text: values from a request cannot change it.
pub build_at-same_text :
    (c e : Cond) (d : Dialect) (start : ℕ)
    → erase c ≡ erase e
    → (build_at (some c) d start).0 ≡ (build_at (some e) d start).0
build_at-same_text c e d start h =
    sym (build_at-erase c d start)
    ∙ ap (λ (x : Cond). (build_at (some x) d start).0) h
    ∙ build_at-erase e d start

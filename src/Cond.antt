-- ===== src/Cond.antt =====
-- cond.go, with the `exists` leaf of exists.go and the `fullText` leaf of fulltext.go: condition
-- trees and the builder that renders them.
pub mod Tokens
pub mod Spec
mod Emit
pub mod Render
pub mod Shape
pub mod Constructors
use filtrx.Base.{
  ℕ, suc, ◌+◌, ◌≡◌, refl, Bool, true, false, ◌&&◌, ◌||◌, Option, none, some, List, [], ◌∷◌, ◌++◌,
  Bytes, codes, split, if◌then◌else◌,
}
use filtrx.Value.{Value, as_slice, text, slice, int, nil as no_values, cons as with_value}
use filtrx.Base.Int.{pos}
use filtrx.Dialect.{Dialect, postgres, placeholder, quote_ident, full_text_match}

pub data Op : Type 0 where
  eq ne gt lt gte lte like ilike in_list not_in is_null is_not_null contains contained_by overlaps :
      Op

-- The SQL text of an operator.
unfoldable pub op_sql : Op → Bytes
op_sql eq = codes "="
op_sql ne = codes "<>"
op_sql gt = codes ">"
op_sql lt = codes "<"
op_sql gte = codes ">="
op_sql lte = codes "<="
op_sql like = codes "LIKE"
op_sql ilike = codes "ILIKE"
op_sql in_list = codes "IN"
op_sql not_in = codes "NOT IN"
op_sql is_null = codes "IS NULL"
op_sql is_not_null = codes "IS NOT NULL"
op_sql contains = codes "@>"
op_sql contained_by = codes "<@"
op_sql overlaps = codes "&&"

mutual
  -- A non-nil `Cond`. The children of a group are never nil.
  pub data Cond : Type 0 where
    leaf : Bytes → Op → Value → Cond
    group : Bool → Conds → Cond
    raw : Bytes → List Value → Cond
    exists : Bool → Bytes → Bytes → Inner → Cond
    full_text : Bytes → Bytes → Bytes → Cond

  pub data Conds : Type 0 where
    nil : Conds
    cons : Cond → Conds → Conds

  -- The compiled sub-filter of an `exists`, which may be nil.
  pub data Inner : Type 0 where
    absent : Inner
    present : Cond → Inner

pub record Builder : Type 0 where
  pub sql : Bytes
  pub args : List Value
  pub d : Dialect
  pub n : ℕ

-- b.sql.WriteString
unfoldable pub write_sql : Bytes → Builder → Builder
write_sql s b = record b { sql = b.sql ++ s }

unfoldable pub bind : Value → Builder → Bytes × Builder
bind v b = (placeholder b.d (suc b.n), record b { n = suc b.n; args = b.args ++ v ∷ [] })

-- b.sql.WriteString(b.bind(v))
unfoldable pub write_bound : Value → Builder → Builder
write_bound v b = let (ph, b') = bind v b in write_sql ph b'

-- How the operator's right side is written: the `switch` of `leaf.write`.
pub data OpClass : Type 0 where
  no_value list_value one_value : OpClass

unfoldable pub op_class : Op → OpClass
op_class is_null = no_value
op_class is_not_null = no_value
op_class in_list = list_value
op_class not_in = list_value
op_class _ = one_value

unfoldable pub empty_slice : Value → Bool
empty_slice v = elim (as_slice v) [ some [] ↦ true | _ ↦ false ]

-- The loop of `writeList`; the flag says that this is not the first element.
unfoldable pub write_elems : Bool → List Value → Builder → Builder
write_elems later [] b = b
write_elems later (v ∷ vs) b =
    write_elems true vs (write_bound v (if later then write_sql (codes ", ") b else b))

unfoldable pub write_list : Value → Builder → Builder
write_list v b = elim (as_slice v) [ none ↦ write_bound v b | some vs ↦ write_elems false vs b ]

-- What `leaf.write` writes behind the column.
unfoldable pub write_operand : OpClass → Op → Value → Builder → Builder
write_operand no_value op v b = write_sql (op_sql op) (write_sql (codes " ") b)
write_operand list_value op v b =
    let opened = write_sql (codes " (") (write_sql (op_sql op) (write_sql (codes " ") b)) in
    write_sql (codes ")") (write_list v opened)
write_operand one_value op v b =
    write_bound v (write_sql (codes " ") (write_sql (op_sql op) (write_sql (codes " ") b)))

-- The guard of an empty IN or NOT IN list: the text that replaces the comparison.
unfoldable pub empty_list_sql : Op → Value → Option Bytes
empty_list_sql in_list v = if empty_slice v then some (codes "1=0") else none
empty_list_sql not_in v = if empty_slice v then some (codes "1=1") else none
empty_list_sql _ v = none

unfoldable pub write_leaf : Bytes → Op → Value → Builder → Builder
write_leaf col op v b = elim (empty_list_sql op v) [
  | some s ↦ write_sql s b
  | none ↦ write_operand (op_class op) op v (write_sql (quote_ident b.d col) b)
]

-- The loop of `raw.write` over the parts between the `?` markers.
unfoldable pub write_parts : List Bytes → List Value → Builder → Builder
write_parts [] args b = b
write_parts (p ∷ []) args b = write_sql p b
write_parts (p ∷ q ∷ ps) [] b = write_parts (q ∷ ps) [] (write_sql p b)
write_parts (p ∷ q ∷ ps) (a ∷ args) b = write_parts (q ∷ ps) args (write_bound a (write_sql p b))

unfoldable pub joiner : Bool → Bytes
joiner or = if or then codes " OR " else codes " AND "

unfoldable pub write_full_text : Bytes → Bytes → Bytes → Builder → Builder
write_full_text col config query b =
    let (ph, b') = bind (text query) b in
    write_sql (full_text_match b'.d (quote_ident b'.d col) config ph) b'

unfoldable mutual
  pub write : Cond → Builder → Builder
  write (leaf col op v) b = write_leaf col op v b
  write (group or cs) b = write_group or cs b
  write (raw sql args) b = write_parts (split b'?' sql) args b
  write (exists negate src on inner) b =
      let negated = if negate then write_sql (codes "NOT ") b else b in
      let opened = write_sql src (write_sql (codes "EXISTS (SELECT 1 FROM ") negated) in
      let correlated = write_sql on (write_sql (codes " WHERE ") opened) in
      write_sql (codes ")") (write_inner inner correlated)
  write (full_text col config query) b = write_full_text col config query b

  pub write_inner : Inner → Builder → Builder
  write_inner absent b = b
  write_inner (present c) b = write c (write_sql (codes " AND ") b)

  -- No child writes nothing, a single child has no parentheses.
  pub write_group : Bool → Conds → Builder → Builder
  write_group or nil b = b
  write_group or (cons c nil) b = write c b
  write_group or (cons c (cons e cs)) b =
      let first = write c (write_sql (codes "(") b) in
      let second = write e (write_sql (joiner or) first) in
      write_sql (codes ")") (write_others or cs second)

  -- The rounds of the loop in which the joiner is written first.
  pub write_others : Bool → Conds → Builder → Builder
  write_others or nil b = b
  write_others or (cons c cs) b = write_others or cs (write c (write_sql (joiner or) b))

-- `buildAt`: the text and the arguments, with placeholders numbered behind `start`.
unfoldable pub build_at : Option Cond → Dialect → ℕ → Bytes × List Value
build_at none d start = ([], [])
build_at (some c) d start =
    let b = write c (record { sql = []; args = []; d = d; n = start }) in (b.sql, b.args)

unfoldable pub build : Option Cond → Dialect → Bytes × List Value
build c d = build_at c d 0

-- `compact` drops the nil children.
unfoldable pub compact : List (Option Cond) → Conds
compact [] = nil
compact (none ∷ cs) = compact cs
compact (some c ∷ cs) = cons c (compact cs)

unfoldable pub and_of : List (Option Cond) → Cond
and_of cs = group false (compact cs)

unfoldable pub or_of : List (Option Cond) → Cond
or_of cs = group true (compact cs)

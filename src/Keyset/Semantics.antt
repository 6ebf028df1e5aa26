-- ===== src/Keyset/Semantics.antt =====
-- The position of a row's key against a boundary in the declared ordering.
use Prim.Native.Nat.{Ordering}
use filtrx.Base.{◌≡◌, Bool, false, List, [], ◌∷◌, Bytes, codes, if◌then◌else◌}
use filtrx.Value.{Value}
use filtrx.Dialect.{NullsPos, nulls_default, nulls_last}
use filtrx.Cond.{raw}
use filtrx.Query.{OrderTerm}
use filtrx.Keyset.{is_nil}
use filtrx.Meaning.{Database, Row, no_false, is_lt, is_gt}

-- `1=0` is false.
abbrev pub NeverHolds : Database → Type 0
NeverHolds db = (row : Row) → db.other (raw (codes "1=0") []) row ≡ no_false

-- Where a row's value `a` stands against the boundary value `v` at one ordering term.
abbrev pub swap : Ordering → Ordering
swap Ordering.lt = Ordering.gt
swap Ordering.eq = Ordering.eq
swap Ordering.gt = Ordering.lt

abbrev pub null_position : NullsPos → Ordering
null_position nulls_last = Ordering.gt
null_position _ = Ordering.lt

-- The first position that differs decides.
abbrev pub then_by : Ordering → Ordering → Ordering
then_by Ordering.eq o = o
then_by Ordering.lt o = Ordering.lt
then_by Ordering.gt o = Ordering.gt

module _ (db : Database) where
  unfoldable pub position : OrderTerm → Value → Value → Ordering
  position t a v =
      if is_nil a
      then (if is_nil v then Ordering.eq else null_position t.nulls)
      else if is_nil v
      then swap (null_position t.nulls)
      else if t.desc
      then swap (db.compare_values a v)
      else db.compare_values a v

  -- The lexicographic position of a row against the boundary: `gt` sorts strictly after it.
  unfoldable pub key_position : List OrderTerm → List Value → (Bytes → Value) → Ordering
  key_position [] vs row = Ordering.eq
  key_position (t ∷ ts) [] row = Ordering.eq
  key_position (t ∷ ts) (v ∷ vs) row = then_by (position t (row t.col) v) (key_position ts vs row)

-- A column with no declared NULL placement holds no NULL in the row and in the boundary.
abbrev pub Placed : List OrderTerm → List Value → (Bytes → Value) → Type 0
Placed [] vs row = Unit
Placed (t ∷ ts) [] row = Unit
Placed (t ∷ ts) (v ∷ vs) row =
    (t.nulls ≡ nulls_default → (is_nil (row t.col) ≡ false) × (is_nil v ≡ false)) × Placed ts vs row

-- The side of the boundary that a page lies on.
abbrev pub past : Bool → Ordering → Bool
past before o = if before then is_lt o else is_gt o

-- ===== src/Keyset/Reverse.antt =====
-- The two sides of a boundary, and the reversed ordering of a backward page.
use Prim.Native.Nat.{Ordering}
use filtrx.Base.{
  ◌≡◌, refl, sym, ◌∙◌, ap, Bool, true, false, ◌&&◌, ◌||◌, not, Option, none, List, [], ◌∷◌, arith,
  Bytes,
}
use filtrx.Value.{Value}
use filtrx.Dialect.{NullsPos, nulls_default, nulls_first, nulls_last}
use filtrx.Query.{OrderTerm, RankSpec}
use filtrx.Keyset.{is_nil, flip_nulls, keyset_cond, reversed_order}
use filtrx.Meaning.{Database, is_eq, holds}
use filtrx.Keyset.Semantics.{NeverHolds, swap, position, then_by, key_position, Placed, past}
use filtrx.Keyset.Past.{holds-keyset_cond}

sides :
    (o : Ordering)
    → ((past false o && past true o) ≡ false) × ((past false o || past true o) ≡ not (is_eq o))
sides Ordering.lt = (refl, refl)
sides Ordering.eq = (refl, refl)
sides Ordering.gt = (refl, refl)

abbrev flipped_term : OrderTerm → OrderTerm
flipped_term o = record { col = o.col; desc = not o.desc; nulls = flip_nulls o.nulls; rank = none }

module _ (db : Database) (row : Bytes → Value) where
  -- The forward and the backward predicate of one boundary never hold of the same row, and one of them
  -- holds of each row whose key differs from the boundary, if its columns without a placement of NULLs
  -- are not NULL, and neither are those of the boundary.
  pub holds-both_sides :
      (order : List OrderTerm) (vals : List Value)
      → NeverHolds db
      → Placed order vals row
      → let forward = holds db row (keyset_cond order vals false) in
        let backward = holds db row (keyset_cond order vals true) in
        ((forward && backward) ≡ false)
        × ((forward || backward) ≡ not (is_eq (key_position db order vals row)))
  holds-both_sides order vals never h =
      rw
        (
          holds-keyset_cond db row order vals false never h,
          holds-keyset_cond db row order vals true never h,
        )
        (sides (key_position db order vals row))

  swap-then_by : (a b : Ordering) → swap (then_by a b) ≡ then_by (swap a) (swap b)
  swap-then_by Ordering.lt b = refl
  swap-then_by Ordering.eq b = refl
  swap-then_by Ordering.gt b = refl

  position-flipped :
      (col : Bytes) (desc : Bool) (nulls : NullsPos) (rank : Option RankSpec) (a v : Value)
      → (nulls ≡ nulls_default → (is_nil a ≡ false) × (is_nil v ≡ false))
      → position db
          (flipped_term (record { col = col; desc = desc; nulls = nulls; rank = rank }))
          a
          v
        ≡ swap (position db (record { col = col; desc = desc; nulls = nulls; rank = rank }) a v)
  unfolding position flip_nulls
  position-flipped col desc nulls_default rank a v h = ground (arith, h refl)
  position-flipped col desc nulls_first rank a v h = ground arith
  position-flipped col desc nulls_last rank a v h = ground arith

  -- Fetching in the reversed ordering turns every comparison of a row with a boundary around, so a
  -- backward page comes in exactly the opposite of the declared order.
  pub key_position-reversed :
      (order : List OrderTerm) (vals : List Value)
      → Placed order vals row
      → key_position db (reversed_order order) vals row ≡ swap (key_position db order vals row)
  unfolding key_position reversed_order
  key_position-reversed [] vals h = refl
  key_position-reversed (t ∷ ts) [] h = refl
  key_position-reversed (t ∷ ts) (v ∷ vs) (h, hs) = rw (key_position-reversed ts vs hs) (
      ap (λ o. then_by o (swap (key_position db ts vs row)))
        (position-flipped t.col t.desc t.nulls t.rank (row t.col) v h)
      ∙ sym (swap-then_by (position db t (row t.col) v) (key_position db ts vs row)))

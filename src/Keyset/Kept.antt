-- ===== src/Keyset/Kept.antt =====
-- The rows of a table that a keyset page's filter keeps: those behind the boundary row.
use filtrx.Base.{
  ◌≡◌, refl, ◌∙◌, ap, Bool, true, false, ◌&&◌, Option, none, some, List, [], ◌∷◌, ◌++◌, map, Bytes,
  if◌then◌else◌, arith,
}
use filtrx.Value.{Value}
use filtrx.Dialect.{nulls_default}
use filtrx.Cond.{Cond, and_of}
use filtrx.Query.{OrderTerm}
use filtrx.Keyset.{is_nil, keyset_cond}
use filtrx.Meaning.{Database, holds, passes as row_passes, all_hold}
use filtrx.Keyset.Semantics.{NeverHolds, key_position, Placed, past}
use filtrx.Keyset.Past.{holds-and_of, holds-keyset_cond}

-- `view r` is the value of each column in the row `r`.
module _ {ℓ} {T : Type ℓ} (sem : Database) (view : T → Bytes → Value) where
  abbrev pub passes : Option Cond → T → Bool
  passes c r = row_passes sem (view r) c

  -- The rows of a table for which WHERE is true.
  abbrev pub kept : Option Cond → List T → List T
  kept c [] = []
  kept c (r ∷ rs) = if passes c r then r ∷ kept c rs else kept c rs

  abbrev pub columns : List OrderTerm → T → List Value
  columns order r = map (λ o. view r o.col) order

  -- A column without a declared place for NULL holds none.
  abbrev pub NoNulls : List OrderTerm → T → Type 0
  NoNulls [] r = Unit
  NoNulls (o ∷ os) r = (o.nulls ≡ nulls_default → is_nil (view r o.col) ≡ false) × NoNulls os r

  abbrev pub AllNoNulls : List OrderTerm → List T → Type 0
  AllNoNulls order [] = Unit
  AllNoNulls order (r ∷ rs) = NoNulls order r × AllNoNulls order rs

  -- The row `x` sorts strictly after `r`.
  abbrev pub comes_after : List OrderTerm → T → T → Bool
  comes_after order r x = past false (key_position sem order (columns order r) (view x))

  abbrev pub AllAfter : List OrderTerm → T → List T → Type 0
  AllAfter order r [] = Unit
  AllAfter order r (x ∷ xs) =
      ((comes_after order r x ≡ true) × (comes_after order x r ≡ false)) × AllAfter order r xs

  -- The rows stand in the declared order, and no two have the same key.
  abbrev pub Ordered : List OrderTerm → List T → Type 0
  Ordered order [] = Unit
  Ordered order (r ∷ rs) = (comes_after order r r ≡ false) × AllAfter order r rs × Ordered order rs

  abbrev pub all_after : List OrderTerm → T → List T → List T
  all_after order r [] = []
  all_after order r (x ∷ xs) =
      if comes_after order r x then x ∷ all_after order r xs else all_after order r xs

  Placed-columns :
      (order : List OrderTerm) (r x : T)
      → NoNulls order r
      → NoNulls order x
      → Placed order (columns order r) (view x)
  Placed-columns [] r x h k = tt
  Placed-columns (o ∷ os) r x (h, hs) (k, ks) = ((λ e. (k e, h e)), Placed-columns os r x hs ks)

  -- The filter of a page behind the row `r`, for the filter `e` of the query.
  abbrev pub behind : List OrderTerm → Option Cond → T → Option Cond
  behind order e r = some (and_of (e ∷ some (keyset_cond order (columns order r) false) ∷ []))

  all_hold-behind :
      (e : Option Cond) (c : Cond) (x : T)
      → all_hold sem (view x) (e ∷ some c ∷ []) ≡ (passes e x && holds sem (view x) c)
  all_hold-behind none c x = ground arith
  all_hold-behind (some d) c x = ground arith

  passes-behind :
      (order : List OrderTerm) (e : Option Cond) (r x : T)
      → NeverHolds sem
      → NoNulls order r
      → NoNulls order x
      → passes (behind order e r) x ≡ (passes e x && comes_after order r x)
  passes-behind order e r x never h k =
      holds-and_of sem (view x) (e ∷ some (keyset_cond order (columns order r) false) ∷ [])
      ∙ all_hold-behind e (keyset_cond order (columns order r) false) x
      ∙ ap (λ b. passes e x && b)
          (holds-keyset_cond sem (view x) order (columns order r) false never
            (Placed-columns order r x h k))

  keep_both :
      (a b : Bool) (x : T) (xs ys : List T)
      → xs ≡ ys
      → (if a && b then x ∷ xs else xs) ≡ (if a && b then x ∷ ys else ys)
  keep_both a b x xs ys h = ap (λ zs. if a && b then x ∷ zs else zs) h

  all_after-if :
      (order : List OrderTerm) (r x : T) (a : Bool) (xs : List T)
      → (if a && comes_after order r x then x ∷ all_after order r xs else all_after order r xs)
        ≡ all_after order r (if a then x ∷ xs else xs)
  all_after-if order r x true xs = refl
  all_after-if order r x false xs = refl

  pub kept-behind :
      (order : List OrderTerm) (e : Option Cond) (r : T) (table : List T)
      → NeverHolds sem
      → NoNulls order r
      → AllNoNulls order table
      → kept (behind order e r) table ≡ all_after order r (kept e table)
  kept-behind order e r [] never h k = refl
  kept-behind order e r (x ∷ xs) never h (k, ks) =
      ap (λ (b : Bool). if b then x ∷ kept (behind order e r) xs else kept (behind order e r) xs)
        (passes-behind order e r x never h k)
      ∙ keep_both (passes e x) (comes_after order r x) x _ _ (kept-behind order e r xs never h ks)
      ∙ all_after-if order r x (passes e x) (kept e xs)

  -- Every row that is kept is one of the table.
  pub AllNoNulls-kept :
      (order : List OrderTerm) (e : Option Cond) (table : List T)
      → AllNoNulls order table
      → AllNoNulls order (kept e table)
  AllNoNulls-kept order e [] h = tt
  AllNoNulls-kept order e (x ∷ xs) (h, hs) =
      keep_NoNulls (passes e x) (AllNoNulls-kept order e xs hs)
    where
      keep_NoNulls :
          (b : Bool)
          → AllNoNulls order (kept e xs)
          → AllNoNulls order (if b then x ∷ kept e xs else kept e xs)
      keep_NoNulls true k = (h, k)
      keep_NoNulls false k = k

  all_after_self :
      (order : List OrderTerm) (r : T) (xs : List T)
      → AllAfter order r xs
      → all_after order r xs ≡ xs
  all_after_self order r [] h = refl
  all_after_self order r (x ∷ xs) ((follows, other), h) =
      rw (follows, all_after_self order r xs h) refl

  AllAfter-at :
      (order : List OrderTerm) (x r : T) (init rest : List T)
      → AllAfter order x (init ++ r ∷ rest)
      → comes_after order r x ≡ false
  AllAfter-at order x r [] rest h = h.0.1
  AllAfter-at order x r (y ∷ init) rest (h, hs) = AllAfter-at order x r init rest hs

  -- In ordered rows, those after a row are those behind it.
  pub all_after-Ordered :
      (order : List OrderTerm) (r : T) (init rest : List T)
      → Ordered order (init ++ r ∷ rest)
      → all_after order r (init ++ r ∷ rest) ≡ rest
  all_after-Ordered order r [] rest (self, h, hs) = rw self (all_after_self order r rest h)
  all_after-Ordered order r (x ∷ init) rest (self, h, hs) =
      rw (AllAfter-at order x r init rest h) (all_after-Ordered order r init rest hs)

  pub NoNulls-at :
      (order : List OrderTerm) (r : T) (init rest : List T)
      → AllNoNulls order (init ++ r ∷ rest)
      → NoNulls order r
  NoNulls-at order r [] rest h = h.0
  NoNulls-at order r (x ∷ init) rest (h, hs) = NoNulls-at order r init rest hs

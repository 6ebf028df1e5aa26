-- ===== src/Mutate/Refine.antt =====
-- An UPDATE is the text of its tokens: the assignments, then the filter.
use filtrx.Base.{
  ℕ, suc, ◌≡◌, refl, ◌∙◌, ap, Bool, true, false, List, [], ◌∷◌, ◌++◌, append_assoc, map, length,
  Bytes, codes, if◌then◌else◌,
}
use native.Mathlib.Nat.{zero-add}
use filtrx.Value.{Value}
use filtrx.Dialect.{Dialect, quote_ident}
use filtrx.Cond.Tokens.{Token, lit, hole, holes, render, holes-append, render-append}
use filtrx.Query.{Query, effective_cond}
use filtrx.Query.Statement.{Statement, from_clause}
use filtrx.Query.Statement.Clauses.{cond_tokens}
use filtrx.Query.Statement.Numbering.{statement, build_at-piece}
use filtrx.Mutate.{ready, update, Assignments, sort_strings, key_of, assigned, write_assignments}
use filtrx.Mutate.Guard.{update-ready}

-- The assignments to the columns, each with a hole for its value.
unfoldable pub set_tokens : Dialect → Assignments → Bool → List Bytes → List Token
set_tokens d set later [] = []
set_tokens d set later (c ∷ cs) =
    lit (if later then codes ", " else [])
    ∷ lit (quote_ident d c)
    ∷ lit (codes " = ")
    ∷ hole (assigned set c)
    ∷ set_tokens d set true cs

unfoldable pub update_tokens : Query → Assignments → List Token
update_tokens q set =
    lit (codes "UPDATE ")
    ∷ lit (from_clause q)
    ∷ lit (codes " SET ")
    ∷ (set_tokens q.dialect set false (sort_strings (map key_of set))
        ++ lit (codes " WHERE ") ∷ cond_tokens q.dialect (effective_cond q))

render-set_tokens :
    (d : Dialect) (set : Assignments) (later : Bool) (n : ℕ) (cs : List Bytes)
    → render d n (set_tokens d set later cs) ≡ write_assignments d later n cs
unfolding render set_tokens write_assignments
render-set_tokens d set later n [] = refl
render-set_tokens d set later n (c ∷ cs) =
    simp (render-set_tokens d set true (suc n) cs, append_assoc)

holes-set_tokens :
    (d : Dialect) (set : Assignments) (later : Bool) (cs : List Bytes)
    → holes (set_tokens d set later cs) ≡ map (assigned set) cs
unfolding holes set_tokens
holes-set_tokens d set later [] = refl
holes-set_tokens d set later (c ∷ cs) = rw (holes-set_tokens d set true cs)

length-map_bytes : (f : Bytes → Value) (cs : List Bytes) → length (map f cs) ≡ length cs
length-map_bytes f [] = refl
length-map_bytes f (c ∷ cs) = ap suc (length-map_bytes f cs)

-- An UPDATE that is run without Unfiltered is the text of its tokens: the placeholders of SET and of
-- WHERE are numbered one by one from the first, and each argument is the value of its placeholder,
-- the assigned values in the order of the sorted columns, then the filter's.
pub update-statement :
    (q : Query) (set : Assignments) {s : Statement}
    → update q set ≡ ready s
    → q.unfiltered ≡ false
    → s ≡ statement q.dialect (update_tokens q set)
update-statement q set h u =
    let (some_set, filtered, text) = update-ready q set h u in
    text
    ∙ rw build_at-piece (
        unfold update_tokens render holes in
        simp (
          render-append, holes-append, render-set_tokens, holes-set_tokens, length-map_bytes,
          append_assoc, zero-add,
        ))

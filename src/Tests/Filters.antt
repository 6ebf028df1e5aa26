-- ===== src/Tests/Filters.antt =====
-- holders.go on concrete inputs.
use filtrx.Base.{◌≡◌, refl, true, false, some, [], ◌∷◌, map, codes}
use filtrx.Base.Int.{ℤ, pos}
use filtrx.Value.{int}
use filtrx.Dialect.{postgres}
use filtrx.Cond.{and_of, build}
use filtrx.Holders.{Opt, Range, range_predicates, append_opt, append_in, append_null}
use filtrx.Running.{running}

abbrev unset : Opt ℤ
unset = record { val = pos 0; set = false }

abbrev ages : Range ℤ
ages = record {
  eq_to = unset;
  ne_to = unset;
  gt_than = unset;
  lt_than = record { val = pos 65; set = true };
  gte_than = record { val = pos 0; set = true };
  lte_than = unset;
  in_set = pos 18 ∷ pos 21 ∷ [];
  is_null_opt = record { val = false; set = true };
}

ages_rendered :
    build (some (and_of (map some (range_predicates int ages (codes "age"))))) postgres ≡ (
      codes "(\"age\" >= $1 AND \"age\" < $2 AND \"age\" IN ($3, $4) AND \"age\" IS NOT NULL)",
      int (pos 0) ∷ int (pos 65) ∷ int (pos 18) ∷ int (pos 21) ∷ [],
    )
unfolding running range_predicates append_opt append_in append_null
ages_rendered = refl

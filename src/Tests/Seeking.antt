-- ===== src/Tests/Seeking.antt =====
-- The seek predicate of keyset.go on concrete rows.
use Prim.Native.Nat.{Ordering, compare}
use filtrx.Base.{◌≡◌, refl, true, false, none, List, [], ◌∷◌, Bytes, codes, if◌then◌else◌}
use filtrx.Base.Compare.{bytes_eq}
use filtrx.Base.Int.{pos}
use filtrx.Value.{Value, null, int}
use filtrx.Dialect.{nulls_default, nulls_last}
use filtrx.Query.{OrderTerm}
use filtrx.Keyset.{keyset_cond, is_nil}
use filtrx.Meaning.{Database, no_false, holds}
use filtrx.Keyset.Semantics.{past, key_position}
use filtrx.Keyset.Past.{holds-keyset_cond}

-- Integers compare as numbers; nothing else holds.
abbrev compare_ints : Value → Value → Ordering
compare_ints (int (pos a)) (int (pos b)) = compare a b
compare_ints _ _ = Ordering.eq

abbrev int_database : Database
int_database = record {
  compare_values = compare_ints;
  related = λ s o r. [];
  other = λ c r. no_false;
}

-- ORDER BY score DESC NULLS LAST, id
abbrev by_score : List OrderTerm
by_score =
    record { col = codes "score"; desc = true; nulls = nulls_last; rank = none }
    ∷ record { col = codes "id"; desc = false; nulls = nulls_default; rank = none }
    ∷ []

abbrev boundary : List Value
boundary = int (pos 50) ∷ int (pos 7) ∷ []

-- A row without a score.
abbrev unscored : Bytes → Value
unscored col = if bytes_eq col (codes "id") then int (pos 3) else null

holds-keyset_cond_example :
    holds int_database unscored (keyset_cond by_score boundary false)
    ≡ past false (key_position int_database by_score boundary unscored)
unfolding codes bytes_eq is_nil
holds-keyset_cond_example =
    holds-keyset_cond int_database unscored by_score boundary false (λ r. refl)
      ((λ e. cc), ((λ e. (refl, refl)), tt))

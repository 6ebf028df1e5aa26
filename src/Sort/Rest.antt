-- ===== src/Sort/Rest.antt =====
-- An ordering from a request changes nothing of a query but its order and its deferred error.
use filtrx.Base.{◌≡◌, refl, none, some, List, [], ◌∷◌, Bytes, split, is_empty, Bool-cases, inl, inr}
use filtrx.Query.{Query, add_order, sort_key_not_allowed}
use filtrx.Sort.{SortKey, skipped, unknown_key, accepted, read_key, sort_keys, sort}

-- The query without its order and its error.
abbrev pub unordered : Query → Query
unordered q = record q { order = []; err = none }

module _ (trim : Bytes → Bytes) (allowed : List (Bytes × Bytes)) where
  sort_round-unordered :
      (s : SortKey) (ks : List Bytes) (q : Query)
      → ((r : Query) → unordered (sort_keys trim allowed ks r) ≡ unordered r)
      → let next : Query = elim s [
        | skipped ↦ sort_keys trim allowed ks q
        | unknown_key ↦ record q { err = some sort_key_not_allowed }
        | accepted o ↦ sort_keys trim allowed ks (add_order o q)
      ] in
        unordered next ≡ unordered q
  unfolding add_order
  sort_round-unordered skipped ks q ih = ih q
  sort_round-unordered unknown_key ks q ih = refl
  sort_round-unordered (accepted o) ks q ih = ih (add_order o q)

  sort_keys-unordered :
      (ks : List Bytes) (q : Query) → unordered (sort_keys trim allowed ks q) ≡ unordered q
  unfolding sort_keys
  sort_keys-unordered [] q = refl
  sort_keys-unordered (k ∷ ks) q =
      sort_round-unordered (read_key allowed (trim k)) ks q (sort_keys-unordered ks)

  pub sort-unordered :
      (spec : Bytes) (q : Query) → unordered (sort trim allowed spec q) ≡ unordered q
  unfolding sort
  sort-unordered spec q = elim (Bool-cases (is_empty spec)) [
    | inl empty ↦ rw empty refl
    | inr keys ↦ rw keys (sort_keys-unordered (split b',' spec) q)
  ]

-- ===== src/Sort/Unknown.antt =====
-- When `Sort` leaves an error: on a key that is not in the map.
use filtrx.Base.{
  ◌≡◌, ◌∙◌, arith, Bool, true, false, ◌&&◌, Option, none, some, List, [], ◌∷◌, ◌++◌, Bytes, ◌⊎◌,
  inl, inr,
}
use filtrx.Base.Compare.{lookup}
use filtrx.Query.{Query, OrderTerm, sort_key_not_allowed}
use filtrx.Sort.{signed_key, sort}
use filtrx.Sort.Allowed.{AllNamed, keys_of, Sorted, sort-Sorted}

module _ (allowed : List (Bytes × Bytes)) where
  -- The name of some key is not in the map.
  abbrev pub HasUnknown : List Bytes → Type 0
  HasUnknown keys =
      (before : List Bytes) × (key : Bytes) × (behind : List Bytes) × (keys
        ≡ before ++ key ∷ behind)
      × (lookup (signed_key key).1 allowed ≡ none)

  AllNamed-known :
      (before : List Bytes) (key : Bytes) (behind : List Bytes) (os : List OrderTerm)
      → AllNamed allowed (before ++ key ∷ behind) os
      → lookup (signed_key key).1 allowed ≡ none
      → ⊥
  AllNamed-known [] key behind (o ∷ os) h missing = cc
  AllNamed-known (k ∷ ks) key behind (o ∷ os) (h, hs) missing =
      AllNamed-known ks key behind os hs missing
  AllNamed-known [] key behind [] h missing = h
  AllNamed-known (k ∷ ks) key behind [] h missing = h

  module _ (trim : Bytes → Bytes) where
    err_cases :
        (keys : List Bytes) (q r : Query)
        → q.err ≡ none
        → Sorted allowed keys q r
        → ((r.err ≡ none) × (HasUnknown keys → ⊥))
          ⊎ ((r.err ≡ some sort_key_not_allowed) × HasUnknown keys)
    err_cases keys q r fine (inl (added, order, named, err)) = inl (
      err ∙ fine,
      λ (before, key, behind, parts, missing).
          AllNamed-known before key behind added (rw parts at named) missing,
    )
    err_cases keys q r fine (inr (before, key, behind, added, parts, order, named, missing, err)) =
        inr (err, (before, key, behind, parts, missing))

    -- On a query without an error `Sort` leaves the error exactly if a key is unknown.
    pub sort-err_cases :
        (spec : Bytes) (q : Query)
        → q.err ≡ none
        → (((sort trim allowed spec q).err ≡ none) × (HasUnknown (keys_of allowed trim spec) → ⊥))
          ⊎ (((sort trim allowed spec q).err ≡ some sort_key_not_allowed)
              × HasUnknown (keys_of allowed trim spec))
    sort-err_cases spec q fine =
        err_cases (keys_of allowed trim spec) q (sort trim allowed spec q) fine
          (sort-Sorted allowed trim spec q)

  abbrev is_known : Option Bytes → Bool
  is_known none = false
  is_known (some col) = true

  -- The test that every name is in the map.
  abbrev pub all_known : List Bytes → Bool
  all_known [] = true
  all_known (k ∷ ks) = is_known (lookup (signed_key k).1 allowed) && all_known ks

  all_known-parts :
      (before : List Bytes) (key : Bytes) (behind : List Bytes)
      → all_known (before ++ key ∷ behind) ≡ true
      → lookup (signed_key key).1 allowed ≡ none
      → ⊥
  all_known-parts [] key behind h missing =
      let k : (false && all_known behind) ≡ true = rw missing at h in absurd (cc)
  all_known-parts (k ∷ ks) key behind h missing =
      all_known-parts ks key behind (ground arith) missing

  pub all_known-known : (keys : List Bytes) → all_known keys ≡ true → HasUnknown keys → ⊥
  all_known-known keys h (before, key, behind, parts, missing) =
      all_known-parts before key behind (rw parts at h) missing

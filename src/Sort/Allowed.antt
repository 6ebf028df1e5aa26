-- ===== src/Sort/Allowed.antt =====
-- What an ordering from a request can add to a query.
use filtrx.Base.{
  ◌≡◌, refl, sym, ◌∙◌, ap, true, false, Option, none, some, List, [], ◌∷◌, ◌++◌, Bytes, split,
  is_empty, ◌⊎◌, inl, inr, append-nil, append_assoc, if◌then◌else◌, Bool-cases,
}
use filtrx.Base.Compare.{lookup}
use filtrx.Dialect.{nulls_default}
use filtrx.Query.{Query, OrderTerm, add_order, sort_key_not_allowed}
use filtrx.Sort.{
  SortKey, skipped, unknown_key, accepted, signed_key, allow, read_key, sort_keys, sort,
}

module _ (allowed : List (Bytes × Bytes)) where
  -- The plain term of a key: the column that its name stands for, in the direction of its sign, with
  -- the dialect's placement of NULLs and no relevance rank.
  abbrev pub Names : Bytes → OrderTerm → Type 0
  Names key o =
      (lookup (signed_key key).1 allowed ≡ some o.col)
      × (o.desc ≡ (signed_key key).0)
      × (o.nulls ≡ nulls_default)
      × (o.rank ≡ none)

  -- The terms are those of the keys, one for each, in order.
  abbrev pub AllNamed : List Bytes → List OrderTerm → Type 0
  AllNamed [] [] = Unit
  AllNamed (k ∷ ks) (o ∷ os) = Names k o × AllNamed ks os
  AllNamed [] (o ∷ os) = ⊥
  AllNamed (k ∷ ks) [] = ⊥

  -- The outcome of reading a key.
  abbrev Reading : Bytes → SortKey → Type 0
  Reading key skipped = is_empty key ≡ true
  Reading key unknown_key = (is_empty key ≡ false) × (lookup (signed_key key).1 allowed ≡ none)
  Reading key (accepted o) = (is_empty key ≡ false) × Names key o

  allow-Reading :
      (key : Bytes) (found : Option Bytes)
      → is_empty key ≡ false
      → lookup (signed_key key).1 allowed ≡ found
      → Reading key (allow found (signed_key key).0)
  unfolding allow
  allow-Reading key none e h = (e, h)
  allow-Reading key (some col) e h = (e, (h, refl, refl, refl))

  read_key-Reading : (key : Bytes) → Reading key (read_key allowed key)
  unfolding read_key
  read_key-Reading key = elim (Bool-cases (is_empty key)) [
    | inl empty ↦ rw (empty, read_key) empty
    | inr some_key ↦
        rw some_key (allow-Reading key (lookup (signed_key key).1 allowed) some_key refl)
  ]

  -- All keys are accepted: their terms stand behind the order, and the error is as it was.
  abbrev pub Accepted : List Bytes → Query → Query → Type 0
  Accepted keys q r =
      (added : List OrderTerm) × (r.order ≡ q.order ++ added)
      × AllNamed keys added
      × (r.err ≡ q.err)

  -- Some key is not in the map: the terms of the keys in front of it are added, and the error is set.
  abbrev pub Refused : List Bytes → Query → Query → Type 0
  Refused keys q r =
      (before : List Bytes) × (key : Bytes) × (behind : List Bytes) × (added : List OrderTerm)
      × (keys ≡ before ++ key ∷ behind)
      × (r.order ≡ q.order ++ added)
      × AllNamed before added
      × (lookup (signed_key key).1 allowed ≡ none)
      × (r.err ≡ some sort_key_not_allowed)

  abbrev pub Sorted : List Bytes → Query → Query → Type 0
  Sorted keys q r = Accepted keys q r ⊎ Refused keys q r

  Sorted-add_order :
      (key : Bytes) (o : OrderTerm) (keys : List Bytes) (q r : Query)
      → Names key o
      → Sorted keys (add_order o q) r
      → Sorted (key ∷ keys) q r
  unfolding add_order
  Sorted-add_order key o keys q r h (inl (added, order, named, err)) =
      inl (o ∷ added, order ∙ append_assoc q.order (o ∷ []) added, (h, named), err)
  Sorted-add_order key o keys q r h
        (inr (before, bad, behind, added, parts, order, named, missing, err)) =
      inr (
        key ∷ before,
        bad,
        behind,
        o ∷ added,
        ap (λ (ks : List Bytes). key ∷ ks) parts,
        order ∙ append_assoc q.order (o ∷ []) added,
        (h, named),
        missing,
        err,
      )

  module _ (trim : Bytes → Bytes) where
    -- The keys that are not blank, trimmed.
    abbrev pub given : List Bytes → List Bytes
    given [] = []
    given (k ∷ ks) = let rest = given ks in if is_empty (trim k) then rest else trim k ∷ rest

    abbrev pub keys_of : Bytes → List Bytes
    keys_of spec = if is_empty spec then [] else given (split b',' spec)

    step :
        (k : Bytes) (s : SortKey) (ks : List Bytes) (q : Query)
        → Reading (trim k) s
        → ((r : Query) → Sorted (given ks) r (sort_keys trim allowed ks r))
        → Sorted (given (k ∷ ks)) q (elim s [
          | skipped ↦ sort_keys trim allowed ks q
          | unknown_key ↦ record q { err = some sort_key_not_allowed }
          | accepted o ↦ sort_keys trim allowed ks (add_order o q)
        ])
    step k skipped ks q h rest = rw h (rest q)
    step k unknown_key ks q (e, h) rest =
        rw e (inr ([], trim k, given ks, [], refl, sym (append-nil q.order), tt, h, refl))
    step k (accepted o) ks q (e, h) rest = rw e (
        Sorted-add_order (trim k) o (given ks) q (sort_keys trim allowed ks (add_order o q)) h
          (rest (add_order o q)))

    sort_keys-Sorted :
        (ks : List Bytes) (q : Query) → Sorted (given ks) q (sort_keys trim allowed ks q)
    unfolding sort_keys
    sort_keys-Sorted [] q = inl ([], sym (append-nil q.order), tt, refl)
    sort_keys-Sorted (k ∷ ks) q =
        step k (read_key allowed (trim k)) ks q (read_key-Reading (trim k)) (sort_keys-Sorted ks)

    -- Whatever text a request gives, Sort keeps the order that was there and appends a plain term for
    -- each key that is not blank, in order, on the column that the map has for the key and in the
    -- direction of its sign, without a placement of NULLs or a rank; at the first key that is not in the map it stops and sets the error. No
    -- name from the request becomes a column.
    pub sort-Sorted :
        (spec : Bytes) (q : Query) → Sorted (keys_of spec) q (sort trim allowed spec q)
    unfolding sort
    sort-Sorted spec q = elim (Bool-cases (is_empty spec)) [
      | inl empty ↦ rw empty (inl ([], sym (append-nil q.order), tt, refl))
      | inr some_keys ↦ rw some_keys (sort_keys-Sorted (split b',' spec) q)
    ]

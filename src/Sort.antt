-- ===== src/Sort.antt =====
-- query.go: `Sort`, an ordering parsed from a request against a map of allowed keys.
pub mod Allowed
pub mod Rest
pub mod Unknown
use filtrx.Base.{
  ℕ, Bool, true, false, Option, none, some, List, [], ◌∷◌, Bytes, split, is_empty, ◌==◌,
  if◌then◌else◌,
}
use filtrx.Base.Compare.{lookup}
use filtrx.Query.{Query, OrderTerm, plain_term, add_order, sort_key_not_allowed}

-- The sign of a key: whether it is descending, and the key behind it.
unfoldable pub signed_key : Bytes → Bool × Bytes
signed_key [] = (false, [])
signed_key (c ∷ cs) =
    if c == b'-' then (true, cs) else if c == b'+' then (false, cs) else (false, c ∷ cs)

-- One round of the loop: nothing, an unknown key, or a term to append.
pub data SortKey : Type 0 where
  skipped : SortKey
  unknown_key : SortKey
  accepted : OrderTerm → SortKey

unfoldable pub allow : Option Bytes → Bool → SortKey
allow none desc = unknown_key
allow (some col) desc = accepted (plain_term col desc)

-- A trimmed key.
unfoldable pub read_key : List (Bytes × Bytes) → Bytes → SortKey
read_key allowed key =
    if is_empty key
    then skipped
    else (let (desc, name) = signed_key key in allow (lookup name allowed) desc)

-- `trim` is strings.TrimSpace.
module _ (trim : Bytes → Bytes) (allowed : List (Bytes × Bytes)) where
  unfoldable pub sort_keys : List Bytes → Query → Query
  sort_keys [] q = q
  sort_keys (k ∷ ks) q = elim (read_key allowed (trim k)) [
    | skipped ↦ sort_keys ks q
    | unknown_key ↦ record q { err = some sort_key_not_allowed }
    | accepted o ↦ sort_keys ks (add_order o q)
  ]

  -- `Sort`
  unfoldable pub sort : Bytes → Query → Query
  sort spec q = if is_empty spec then q else sort_keys (split b',' spec) q

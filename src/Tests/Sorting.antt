-- ===== src/Tests/Sorting.antt =====
-- `Sort` of query.go on concrete inputs; the texts have no spaces to trim.
use filtrx.Base.{◌≡◌, refl, true, false, some, List, [], ◌∷◌, Bytes, codes}
use filtrx.Query.{new_query, plain_term, sort_key_not_allowed}
use filtrx.Sort.{sort, sort_keys, read_key, signed_key, allow}
use filtrx.Sort.Allowed.{Sorted, sort-Sorted}
use filtrx.Running.{running}

abbrev keys : List (Bytes × Bytes)
keys = (codes "name", codes "name") ∷ (codes "created", codes "created_at") ∷ []

sorted_two : sort (λ s. s) keys (codes "name,-created") new_query ≡ record new_query {
  order = plain_term (codes "name") false ∷ plain_term (codes "created_at") true ∷ [];
}
unfolding running sort sort_keys read_key signed_key allow
sorted_two = refl

sort_injection : (sort (λ s. s) keys (codes "+name,id;--,created") new_query) ≡ record new_query {
  order = plain_term (codes "name") false ∷ [];
  err = some sort_key_not_allowed;
}
unfolding running sort sort_keys read_key signed_key allow
sort_injection = refl

sort-Sorted_example :
    Sorted keys
      (codes "name" ∷ codes "-created" ∷ [])
      new_query
      (sort (λ s. s) keys (codes "name,-created") new_query)
unfolding running
sort-Sorted_example = sort-Sorted keys (λ s. s) (codes "name,-created") new_query

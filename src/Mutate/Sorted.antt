-- ===== src/Mutate/Sorted.antt =====
-- The statement of an UPDATE does not depend on the order in which a Go map is iterated.
use mathlib.Core.List.{Permᴰ}
use mathlib.Core.Path.{fun_ext}
use filtrx.Base.{◌≡◌, refl, sym, ◌∙◌, ap, true, false, none, List, [], ◌∷◌, arith, map, Bytes}
use filtrx.Base.Compare.{bytes_le, bytes_eq_sound, bytes_eq_refl, lookup}
use filtrx.Value.{Value}
use filtrx.Query.{Query}
use filtrx.Mutate.{
  insert_sorted, sort_strings, Assignments, key_of, assigned, no_assignments, update,
  update_checked,
}

le_total : (s t : Bytes) → bytes_le s t ≡ false → bytes_le t s ≡ true
unfolding bytes_le
le_total [] t h = cc
le_total (c ∷ s) [] h = refl
le_total (c ∷ s) (d ∷ t) h = ground (arith, le_total s t)

le_antisymm : (s t : Bytes) → bytes_le s t ≡ true → bytes_le t s ≡ true → s ≡ t
unfolding bytes_le
le_antisymm [] [] h k = refl
le_antisymm [] (d ∷ t) h k = cc
le_antisymm (c ∷ s) [] h k = cc
le_antisymm (c ∷ s) (d ∷ t) h k = ground (arith, le_antisymm s t)

bytes_le_trans : (s t u : Bytes) → bytes_le s t ≡ true → bytes_le t u ≡ true → bytes_le s u ≡ true
unfolding bytes_le
bytes_le_trans [] t u h k = refl
bytes_le_trans (c ∷ s) [] u h k = cc
bytes_le_trans (c ∷ s) (d ∷ t) [] h k = cc
bytes_le_trans (c ∷ s) (d ∷ t) (e ∷ u) h k = ground (arith, bytes_le_trans s t u)

insert_comm :
    (a b : Bytes) (l : List Bytes)
    → insert_sorted a (insert_sorted b l) ≡ insert_sorted b (insert_sorted a l)
unfolding insert_sorted
insert_comm a b [] = ground (arith, le_total a b, le_total b a, le_antisymm a b)
insert_comm a b (x ∷ l) = ground (
  arith,
  le_total a b,
  le_total b a,
  le_antisymm a b,
  le_total a x,
  le_total b x,
  bytes_le_trans a b x,
  bytes_le_trans b a x,
  bytes_le_trans a x b,
  bytes_le_trans b x a,
  insert_comm a b l,
)

-- Two iterations of the same columns are sorted to the same list.
pub sort_strings-perm : {l m : List Bytes} → Permᴰ l m → sort_strings l ≡ sort_strings m
unfolding sort_strings
sort_strings-perm Permᴰ.nil = refl
sort_strings-perm (Permᴰ.cons e p) = cc (e, sort_strings-perm p)
sort_strings-perm (Permᴰ.swap {a} {b} {l} e f) = rw (← e, ← f) (insert_comm a b (sort_strings l))
sort_strings-perm (Permᴰ.trans p q) = sort_strings-perm p ∙ sort_strings-perm q

-- No key stands twice in the entries of a map.
abbrev pub HasDistinctKeys : Assignments → Type 0
HasDistinctKeys [] = Unit
HasDistinctKeys ((k, v) ∷ m) = (lookup k m ≡ none) × HasDistinctKeys m

lookup-swap :
    (a b : Bytes × Value) (l : Assignments)
    → HasDistinctKeys (a ∷ b ∷ l)
    → (c : Bytes) → lookup c (a ∷ b ∷ l) ≡ lookup c (b ∷ a ∷ l)
unfolding lookup
lookup-swap (j, v) (k, w) l (h, hs) c =
    ground (arith, bytes_eq_sound j c, bytes_eq_sound k c, bytes_eq_refl c, bytes_eq_refl k)

HasDistinctKeys-swap :
    (a b : Bytes × Value) (l : Assignments)
    → HasDistinctKeys (a ∷ b ∷ l)
    → HasDistinctKeys (b ∷ a ∷ l)
unfolding lookup
HasDistinctKeys-swap (j, v) (k, w) l (h, (g, hs)) =
    (ground (arith, bytes_eq_sound j k, bytes_eq_refl k), (ground arith, hs))

lookup-cons :
    (a : Bytes × Value) (l m : Assignments)
    → ((c : Bytes) → lookup c l ≡ lookup c m)
    → (c : Bytes) → lookup c (a ∷ l) ≡ lookup c (a ∷ m)
unfolding lookup
lookup-cons (k, v) l m same c = rw (same c)

-- Two iterations of one map look the same up.
lookup-perm :
    {l m : Assignments}
    → Permᴰ l m
    → HasDistinctKeys l
    → ((c : Bytes) → lookup c l ≡ lookup c m) × HasDistinctKeys m
lookup-perm Permᴰ.nil h = ((λ c. refl), h)
lookup-perm (Permᴰ.cons {a} {l₁} {l₂} e p) (h, hs) =
    let (same, distinct) = lookup-perm p hs in
    rw (← e) (lookup-cons a l₁ l₂ same, (sym (same a.0) ∙ h, distinct))
lookup-perm (Permᴰ.swap {a} {b} {l} e f) h =
    rw (← e, ← f) (lookup-swap a b l h, HasDistinctKeys-swap a b l h)
lookup-perm (Permᴰ.trans p q) h =
    let (same, distinct) = lookup-perm p h in
    let (same', distinct') = lookup-perm q distinct in ((λ c. same c ∙ same' c), distinct')

map-perm : {l m : Assignments} → Permᴰ l m → Permᴰ (map key_of l) (map key_of m)
map-perm Permᴰ.nil = Permᴰ.nil
map-perm (Permᴰ.cons e p) = Permᴰ.cons (ap key_of e) (map-perm p)
map-perm (Permᴰ.swap e f) = Permᴰ.swap (ap key_of e) (ap key_of f)
map-perm (Permᴰ.trans p q) = Permᴰ.trans (map-perm p) (map-perm q)

no_assignments-perm : {l m : Assignments} → Permᴰ l m → no_assignments l ≡ no_assignments m
unfolding no_assignments
no_assignments-perm Permᴰ.nil = refl
no_assignments-perm (Permᴰ.cons e p) = refl
no_assignments-perm (Permᴰ.swap e f) = refl
no_assignments-perm (Permᴰ.trans p q) = no_assignments-perm p ∙ no_assignments-perm q

assigned-perm :
    (l m : Assignments)
    → ((c : Bytes) → lookup c l ≡ lookup c m)
    → (c : Bytes) → assigned l c ≡ assigned m c
unfolding assigned
assigned-perm l m same c = rw (same c, assigned)

-- Two iterations of one map of assignments, in whatever orders, give the same UPDATE: the same
-- statement, arguments included, or the same refusal.
pub update-perm :
    (q : Query) (set set' : Assignments)
    → Permᴰ set set'
    → HasDistinctKeys set
    → update q set ≡ update q set'
unfolding update update_checked
update-perm q set set' p h = rw (
  no_assignments-perm p,
  sort_strings-perm (map-perm p),
  fun_ext (assigned-perm set set' (lookup-perm p h).0),
)

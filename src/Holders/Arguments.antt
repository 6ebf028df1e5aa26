-- ===== src/Holders/Arguments.antt =====
-- The arguments of the conditions that a holder contributes.
use filtrx.Base.{
  ◌≡◌, refl, sym, ◌∙◌, ap, Bool, false, some, List, [], ◌∷◌, ◌++◌, map, Bytes, append_assoc,
  append-nil, if◌then◌else◌, Bool-cases, inl, inr,
}
use filtrx.Value.{Value, text, slice, elems, as_slice}
use filtrx.Dialect.{Dialect}
use filtrx.Cond.{
  Cond, Op, leaf, group, eq, ne, gt, lt, gte, lte, in_list, is_null, is_not_null, op_class,
  empty_list_sql, empty_slice, compact, and_of, build,
}
use filtrx.Cond.Tokens.{holes, holes-append}
use filtrx.Cond.Spec.{
  tokens, group_tokens, others_tokens, leaf_tokens, operand_tokens, list_tokens, comma_list,
}
use filtrx.Cond.Render.{build_at-render}
use filtrx.Holders.{Opt, Range, values, append_opt, append_in, append_null, range_predicates}

module _ (d : Dialect) where
  -- The arguments of each condition, one after the other.
  unfoldable each : List Cond → List Value
  each [] = []
  each (c ∷ cs) = holes (tokens d c) ++ each cs

  each-append : (cs es : List Cond) → each (cs ++ es) ≡ each cs ++ each es
  unfolding each
  each-append [] es = refl
  each-append (c ∷ cs) es = simp (each-append cs es, append_assoc)

  others-each : (cs : List Cond) → holes (others_tokens d false (compact (map some cs))) ≡ each cs
  unfolding each holes others_tokens compact
  others-each [] = refl
  others-each (c ∷ cs) =
      rw (holes-append (tokens d c) (others_tokens d false (compact (map some cs))), others-each cs)
        refl

  group-each : (cs : List Cond) → holes (group_tokens d false (compact (map some cs))) ≡ each cs
  unfolding each holes group_tokens compact
  group-each [] = refl
  group-each (c ∷ []) = sym (append-nil (holes (tokens d c)))
  group-each (c ∷ e ∷ cs) = simp (holes-append, others-each cs, append-nil)

  holes-comma_list : (vs : List Value) → holes (comma_list vs) ≡ vs
  unfolding holes comma_list
  holes-comma_list [] = refl
  holes-comma_list (v ∷ []) = refl
  holes-comma_list (v ∷ w ∷ vs) = ap (λ (r : List Value). v ∷ r) (holes-comma_list (w ∷ vs))

-- The value of an Opt, if it is set.
abbrev pub set_value {ℓ} : {T : Type ℓ} → (T → Value) → Opt T → List Value
set_value box o = if o.set then box o.val ∷ [] else []

pub elems-values : (vs : List Value) → elems (values vs) ≡ vs
unfolding elems
elems-values [] = refl
elems-values (v ∷ vs) = ap (λ (r : List Value). v ∷ r) (elems-values vs)

in_list-each :
    (d : Dialect) (col : Bytes) (v : Value) (vs : List Value)
    → holes (tokens d (leaf col in_list (slice (values (v ∷ vs))))) ≡ v ∷ vs
unfolding holes tokens leaf_tokens operand_tokens list_tokens as_slice empty_list_sql op_class
    empty_slice elems
in_list-each d col v vs = simp (holes-append, elems-values, holes-comma_list d, append-nil)

module _ {ℓ} {T : Type ℓ} (d : Dialect) (box : T → Value) where
  each-append_opt :
      (c : List Cond) (col : Bytes) (op : Op) (o : Opt T)
      → ((v : Value) → holes (tokens d (leaf col op v)) ≡ v ∷ [])
      → each d (append_opt box c col op o) ≡ each d c ++ set_value box o
  unfolding append_opt each
  each-append_opt c col op o f = elim (Bool-cases o.set) [
    | inl set ↦ rw (set, each-append d c (leaf col op (box o.val) ∷ []), f (box o.val)) refl
    | inr unset ↦ rw unset (sym (append-nil (each d c)))
  ]

  each-append_in :
      (c : List Cond) (col : Bytes) (vs : List T)
      → each d (append_in box c col vs) ≡ each d c ++ map box vs
  unfolding append_in each
  each-append_in c col [] = sym (append-nil (each d c))
  each-append_in c col (v ∷ vs) =
      rw
        (
          each-append d c (leaf col in_list (slice (values (map box (v ∷ vs)))) ∷ []),
          in_list-each d col (box v) (map box vs),
          append-nil (box v ∷ map box vs),
        )
        refl

each-append_null :
    (d : Dialect) (c : List Cond) (col : Bytes) (o : Opt Bool)
    → each d (append_null c col o) ≡ each d c
unfolding append_null each
each-append_null d c col o = elim (Bool-cases o.set) [
  | inl set ↦ rw set (elim (Bool-cases o.val) [
    | inl null ↦
        rw (null, each-append d c (leaf col is_null filtrx.Value.null ∷ []))
          (unfold tokens leaf_tokens operand_tokens empty_list_sql op_class holes in
            append-nil (each d c))
    | inr some_value ↦
        rw (some_value, each-append d c (leaf col is_not_null filtrx.Value.null ∷ []))
          (unfold tokens leaf_tokens operand_tokens empty_list_sql op_class holes in
            append-nil (each d c))
  ])
  | inr unset ↦ rw unset refl
]

and_of-arguments :
    (d : Dialect) (cs : List Cond) → (build (some (and_of (map some cs))) d).1 ≡ each d cs
unfolding build and_of
and_of-arguments d cs =
    rw (build_at-render (group false (compact (map some cs))) d 0)
      (unfold tokens in group-each d cs)

module _ {ℓ} {T : Type ℓ} (box : T → Value) where
  -- The arguments of a Range's conditions, ANDed, are the values that are set, each once, in the order
  -- =, <>, >, >=, <, <= and then the elements of IN; a field that is not set, an empty IN, and the
  -- NULL test bind nothing.
  pub range_predicates-arguments :
      (d : Dialect) (r : Range T) (col : Bytes)
      → (build (some (and_of (map some (range_predicates box r col)))) d).1
        ≡ set_value box r.eq_to
          ++ set_value box r.ne_to
          ++ set_value box r.gt_than
          ++ set_value box r.gte_than
          ++ set_value box r.lt_than
          ++ set_value box r.lte_than
          ++ map box r.in_set
  unfolding range_predicates each holes tokens leaf_tokens operand_tokens empty_list_sql op_class
  range_predicates-arguments d r col =
      and_of-arguments d (range_predicates box r col)
      ∙ simp (
        each-append_null,
        each-append_in,
        λ (c : List Cond). each-append_opt d box c col eq r.eq_to (λ v. refl),
        λ (c : List Cond). each-append_opt d box c col ne r.ne_to (λ v. refl),
        λ (c : List Cond). each-append_opt d box c col gt r.gt_than (λ v. refl),
        λ (c : List Cond). each-append_opt d box c col gte r.gte_than (λ v. refl),
        λ (c : List Cond). each-append_opt d box c col lt r.lt_than (λ v. refl),
        λ (c : List Cond). each-append_opt d box c col lte r.lte_than (λ v. refl),
      )

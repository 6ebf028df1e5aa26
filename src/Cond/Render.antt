-- ===== src/Cond/Render.antt =====
-- The builder renders exactly the tokens of the condition.
use filtrx.Base.{
  ℕ, ◌≡◌, refl, sym, ◌∙◌, ap, Bool, true, false, some, Option-cases, List, [], ◌∷◌, ◌++◌, inl, inr,
  Bytes, codes, split, append_assoc,
}
use filtrx.Value.{Value, as_slice}
use filtrx.Dialect.{Dialect, postgres, mysql, sqlite, quote_ident, full_text_match}
use filtrx.Cond.{
  Op, Cond, Conds, Inner, leaf, group, raw, exists, full_text, nil, cons, absent, present, OpClass,
  no_value, list_value, one_value, op_class, empty_list_sql, joiner, Builder, write_sql,
  write_bound, bind, write_elems, write_list, write_operand, write_leaf, write_parts,
  write_full_text, write, write_inner, write_group, write_others, build_at,
}
use filtrx.Cond.Tokens.{Token, lit, holes, render}
use filtrx.Cond.Spec.{
  comma_list, list_tokens, operand_tokens, leaf_tokens, raw_tokens, full_text_tokens, tokens,
  inner_tokens, group_tokens, others_tokens,
}
use filtrx.Cond.Emit.{emit, emit-append, d-emit, d-write_sql, sql-emit, args-emit}

-- The rounds of the loop behind the first element.
write_elems-later :
    (v : Value) (vs : List Value) (b : Builder)
    → write_elems Bool.true vs (write_bound v b) ≡ emit (comma_list (v ∷ vs)) b
unfolding write_elems comma_list emit
write_elems-later v [] b = refl
write_elems-later v (w ∷ vs) b = write_elems-later w vs (write_sql (codes ", ") (write_bound v b))

write_elems-emit : (vs : List Value) (b : Builder) → write_elems false vs b ≡ emit (comma_list vs) b
write_elems-emit [] b = unfold write_elems comma_list emit in refl
write_elems-emit (v ∷ vs) b = unfold write_elems in write_elems-later v vs b

write_list-emit : (v : Value) (b : Builder) → write_list v b ≡ emit (list_tokens v) b
unfolding write_list list_tokens emit
write_list-emit v b = elim (Option-cases (as_slice v)) [
  | inl e ↦ rw (e, write_list, list_tokens)
  | inr (vs, e) ↦ rw (e, write_list, list_tokens) (write_elems-emit vs b)
]

write_operand-emit :
    (k : OpClass) (op : Op) (v : Value) (b : Builder)
    → write_operand k op v b ≡ emit (operand_tokens k op v) b
unfolding write_operand operand_tokens
write_operand-emit no_value op v b = unfold emit in refl
write_operand-emit list_value op v b = unfold emit in simp (emit-append, write_list-emit)
write_operand-emit one_value op v b = unfold emit in refl

write_leaf-emit :
    (col : Bytes) (op : Op) (v : Value) (b : Builder)
    → write_leaf col op v b ≡ emit (leaf_tokens b.d col op v) b
unfolding write_leaf leaf_tokens emit
write_leaf-emit col op v b = elim (Option-cases (empty_list_sql op v)) [
  | inl e ↦
      rw (e, write_leaf, leaf_tokens)
        (write_operand-emit (op_class op) op v (write_sql (quote_ident b.d col) b))
  | inr (s, e) ↦ rw (e, write_leaf, leaf_tokens)
]

write_parts-emit :
    (ps : List Bytes) (args : List Value) (b : Builder)
    → write_parts ps args b ≡ emit (raw_tokens ps args) b
unfolding write_parts raw_tokens emit
write_parts-emit [] args b = refl
write_parts-emit (p ∷ []) args b = refl
write_parts-emit (p ∷ q ∷ ps) [] b = write_parts-emit (q ∷ ps) [] (write_sql p b)
write_parts-emit (p ∷ q ∷ ps) (a ∷ args) b =
    write_parts-emit (q ∷ ps) args (write_bound a (write_sql p b))

write_full_text-emit :
    (col config query : Bytes) (b : Builder)
    → write_full_text col config query b ≡ emit (full_text_tokens b.d col config query) b
unfolding write_full_text full_text_tokens full_text_match emit write_sql write_bound bind
write_full_text-emit col config query b = by_dialect b.d b.n b.sql b.args
  where
    by_dialect :
        (d : Dialect) (n : ℕ) (sql : Bytes) (args : List Value)
        → write_full_text col config query (record { sql = sql; args = args; d = d; n = n })
          ≡ emit
              (full_text_tokens d col config query)
              (record { sql = sql; args = args; d = d; n = n })
    by_dialect postgres n sql args = simp append_assoc
    by_dialect mysql n sql args = simp append_assoc
    by_dialect sqlite n sql args = simp append_assoc

module _ (d : Dialect) where
  -- Two writers in turn emit their tokens in turn.
  emit_seq :
      (f g : Builder → Builder) (ts us : List Token)
      → ((b : Builder) → b.d ≡ d → f b ≡ emit ts b)
      → ((b : Builder) → b.d ≡ d → g b ≡ emit us b)
      → (b : Builder) → b.d ≡ d
      → g (f b) ≡ emit (ts ++ us) b
  emit_seq f g ts us hf hg b h =
      ap g (hf b h) ∙ hg (emit ts b) (d-emit ts b ∙ h) ∙ sym (emit-append ts us b)

  mutual
    unfolding write tokens emit

    write-emit_at : (c : Cond) (b : Builder) → b.d ≡ d → write c b ≡ emit (tokens d c) b
    write-emit_at (leaf col op v) b h = rw (← h) (write_leaf-emit col op v b)
    write-emit_at (group or cs) b h = write_group-emit_at cs or b h
    write-emit_at (raw sql args) b h = write_parts-emit (split b'?' sql) args b
    write-emit_at (exists true src on inner) b h =
        emit_seq (write_inner inner) (write_sql (codes ")")) (inner_tokens d inner)
          (lit (codes ")") ∷ []) (write_inner-emit_at inner) (λ b' h'. refl)
          (write_sql on (
            write_sql (codes " WHERE ") (
              write_sql src
                (write_sql (codes "EXISTS (SELECT 1 FROM ") (write_sql (codes "NOT ") b)))))
          (simp d-write_sql h)
    write-emit_at (exists false src on inner) b h =
        emit_seq (write_inner inner) (write_sql (codes ")")) (inner_tokens d inner)
          (lit (codes ")") ∷ []) (write_inner-emit_at inner) (λ b' h'. refl)
          (write_sql on (
            write_sql (codes " WHERE ")
              (write_sql src (write_sql (codes "EXISTS (SELECT 1 FROM ") b))))
          (simp d-write_sql h)
    write-emit_at (full_text col config query) b h =
        rw (← h) (write_full_text-emit col config query b)

    write_inner-emit_at :
        (i : Inner) (b : Builder) → b.d ≡ d → write_inner i b ≡ emit (inner_tokens d i) b
    write_inner-emit_at absent b h = refl
    write_inner-emit_at (present c) b h =
        write-emit_at c (write_sql (codes " AND ") b) (d-write_sql (codes " AND ") b ∙ h)

    write_group-emit_at :
        (cs : Conds) (or : Bool) (b : Builder)
        → b.d ≡ d
        → write_group or cs b ≡ emit (group_tokens d or cs) b
    write_group-emit_at nil or b h = refl
    write_group-emit_at (cons c nil) or b h = write-emit_at c b h
    write_group-emit_at (cons c (cons e cs)) or b h =
        emit_seq (write c)
          (λ b'. write_sql (codes ")") (write_others or cs (write e (write_sql (joiner or) b'))))
          (tokens d c)
          (lit (joiner or) ∷ (tokens d e ++ (others_tokens d or cs ++ lit (codes ")") ∷ [])))
          (write-emit_at c)
          (λ b' h'.
            emit_seq (write e) (λ a. write_sql (codes ")") (write_others or cs a)) (tokens d e)
              (others_tokens d or cs ++ lit (codes ")") ∷ []) (write-emit_at e)
              (emit_seq (write_others or cs) (write_sql (codes ")")) (others_tokens d or cs)
                (lit (codes ")") ∷ []) (write_others-emit_at cs or) (λ a k. refl))
              (write_sql (joiner or) b') (d-write_sql (joiner or) b' ∙ h'))
          (write_sql (codes "(") b) (d-write_sql (codes "(") b ∙ h)

    write_others-emit_at :
        (cs : Conds) (or : Bool) (b : Builder)
        → b.d ≡ d
        → write_others or cs b ≡ emit (others_tokens d or cs) b
    write_others-emit_at nil or b h = refl
    write_others-emit_at (cons c cs) or b h =
        emit_seq (write c) (write_others or cs) (tokens d c) (others_tokens d or cs)
          (write-emit_at c) (write_others-emit_at cs or) (write_sql (joiner or) b)
          (d-write_sql (joiner or) b ∙ h)

-- For every dialect, condition and starting position, `buildAt` gives the text of the condition's
-- tokens, with the placeholders numbered one by one behind the start, and as arguments exactly the
-- values of the holes in the order of their placeholders.
pub build_at-render :
    (c : Cond) (d : Dialect) (start : ℕ)
    → build_at (some c) d start ≡ (render d start (tokens d c), holes (tokens d c))
unfolding build_at
build_at-render c d start =
    let b : Builder = record { sql = []; args = []; d = d; n = start } in
    rw (write-emit_at d c b refl) (λ i. (sql-emit (tokens d c) b i, args-emit (tokens d c) b i))

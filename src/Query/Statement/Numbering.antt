-- ===== src/Query/Statement/Numbering.antt =====
-- The clauses of a SELECT number their placeholders on from one another.
use filtrx.Base.{
  ℕ, ◌+◌, ◌≡◌, ◌≢◌, refl, ◌∙◌, Option-cases, Bool, true, false, Option, none, some, List, [], ◌∷◌,
  ◌++◌, append_assoc, append-nil, length, arith, Bytes, codes, is_empty, Bool-cases, inl, inr,
  if◌then◌else◌,
}
use filtrx.Base.Int.{ℤ, pos, ltb_ℤ}
use filtrx.Value.{Value}
use filtrx.Dialect.{Dialect, postgres, mysql, sqlite, placeholder, rank_expr, supports_relevance}
use filtrx.Cond.{Cond, build_at}
use filtrx.Cond.Tokens.{Token, lit, hole, holes, render, holes-append, render-append}
use filtrx.Cond.Render.{build_at-render}
use filtrx.Query.{Query, OrderTerm, RankSpec, any_rank}
use filtrx.Query.Statement.{
  Statement, where_sql, write_having, write_group_having, write_term, write_terms, write_order,
  limit_offset, keyset_limit,
}
use filtrx.Query.Statement.Clauses.{
  is_blank, cond_tokens, clause, grouping_tokens, rank_tokens, term_tokens, terms_tokens,
  order_tokens, page_tokens, keyset_tokens,
}

-- A part of a statement behind `n` arguments: its text and its arguments.
abbrev pub piece : Dialect → ℕ → List Token → Bytes × List Value
piece d n ts = (render d n ts, holes ts)

abbrev pub statement : Dialect → List Token → Statement
statement d ts = record { sql = render d 0 ts; args = holes ts }

pub build_at-piece :
    (c : Option Cond) (d : Dialect) (n : ℕ) → build_at c d n ≡ piece d n (cond_tokens d c)
build_at-piece none d n = unfold build_at cond_tokens render holes in refl
build_at-piece (some c) d n = unfold cond_tokens in build_at-render c d n

is_empty-append : (s t : Bytes) → is_empty (s ++ t) ≡ (if is_empty s then is_empty t else false)
unfolding is_empty
is_empty-append [] t = refl
is_empty-append (c ∷ s) t = refl

is_empty-placeholder : (d : Dialect) (n : ℕ) → is_empty (placeholder d n) ≡ false
unfolding placeholder is_empty
is_empty-placeholder postgres n = refl
is_empty-placeholder mysql n = refl
is_empty-placeholder sqlite n = refl

is_empty-render : (d : Dialect) (n : ℕ) (ts : List Token) → is_empty (render d n ts) ≡ is_blank ts
unfolding render is_blank
is_empty-render d n [] = unfold is_empty in refl
is_empty-render d n (lit s ∷ ts) = rw (is_empty-append, is_empty-render d n ts)
is_empty-render d n (hole v ∷ ts) = rw (is_empty-append, is_empty-placeholder)

holes-blank : (ts : List Token) → is_blank ts ≡ true → holes ts ≡ []
unfolding holes is_blank
holes-blank [] h = refl
holes-blank (lit s ∷ ts) h = holes-blank ts (ground arith)
holes-blank (hole v ∷ ts) h = cc

write_having-piece :
    (d : Dialect) (grouped : Bytes) (args : List Value) (ts : List Token)
    → write_having grouped args (piece d (length args) ts) ≡ (
      grouped ++ render d (length args) (clause (codes " HAVING ") ts),
      args ++ holes (clause (codes " HAVING ") ts),
    )
unfolding write_having clause
write_having-piece d grouped args ts = elim (Bool-cases (is_blank ts)) [
  | inl e ↦ rw (is_empty-render, e) (unfold render holes in simp append-nil)
  | inr e ↦ rw (is_empty-render, e) (unfold render holes in simp append_assoc)
]

pub write_group_having-piece :
    (q : Query) (args : List Value)
    → write_group_having q args
      ≡ (render q.dialect (length args) (grouping_tokens q), args ++ holes (grouping_tokens q))
unfolding write_group_having grouping_tokens
write_group_having-piece q args = elim (Option-cases q.having) [
  | inl e ↦
      rw (e, write_group_having, grouping_tokens)
        (unfold render holes clause cond_tokens is_blank in simp append-nil)
  | inr (c, e) ↦
      rw (e, write_group_having, grouping_tokens, build_at-piece (some c) q.dialect (length args))
        (write_having-piece q.dialect _ args (cond_tokens q.dialect (some c))
          ∙ unfold render holes in refl)
]

-- Relevance terms stand only where the dialect has them: the check of `List`.
abbrev pub CanRank : Dialect → List OrderTerm → Type 0
CanRank d os = any_rank os ≡ true → supports_relevance d ≡ true

write_term-piece :
    (d : Dialect) (o : OrderTerm) (r : Option RankSpec) (n : ℕ)
    → (r ≢ none → supports_relevance d ≡ true)
    → write_term d o r n ≡ piece d n (term_tokens d o r)
unfolding write_term term_tokens render holes
write_term-piece d o none n h = simp append-nil
write_term-piece postgres o (some r) n h =
    unfold rank_expr rank_tokens render holes in simp (append_assoc, append-nil)
write_term-piece mysql o (some r) n h =
    unfold rank_expr rank_tokens render holes in simp (append_assoc, append-nil)
write_term-piece sqlite o (some r) n h =
    unfold supports_relevance in absurd (ground (arith, h (λ e. cc)))

CanRank-here :
    (d : Dialect) (o : OrderTerm) (os : List OrderTerm)
    → CanRank d (o ∷ os)
    → o.rank ≢ none
    → supports_relevance d ≡ true
unfolding any_rank
CanRank-here d o os h e = elim (Option-cases o.rank) [
  | inl absent ↦ absurd (e absent)
  | inr (r, present) ↦ h (rw (present, any_rank))
]

any_rank-later :
    (o : OrderTerm) (os : List OrderTerm) → any_rank os ≡ true → any_rank (o ∷ os) ≡ true
unfolding any_rank
any_rank-later o os e = elim (Option-cases o.rank) [
  | inl absent ↦ rw (absent, any_rank) e
  | inr (r, present) ↦ rw (present, any_rank)
]

write_terms-piece :
    (d : Dialect) (later : Bool) (os : List OrderTerm) (n : ℕ)
    → CanRank d os
    → write_terms d later os n ≡ piece d n (terms_tokens d later os)
unfolding write_terms terms_tokens
write_terms-piece d later [] n h = unfold render holes in refl
write_terms-piece d later (o ∷ os) n h =
    rw
      (
        write_term-piece d o o.rank n (CanRank-here d o os h),
        write_terms-piece d true os (n + length (holes (term_tokens d o o.rank)))
            (λ e. h (any_rank-later o os e)),
      )
      (unfold render holes in simp (render-append, holes-append, append_assoc))

pub write_order-piece :
    (d : Dialect) (os : List OrderTerm) (n : ℕ)
    → CanRank d os
    → write_order d os n ≡ piece d n (order_tokens d os)
unfolding write_order order_tokens
write_order-piece d [] n h = unfold render holes in refl
write_order-piece d (o ∷ os) n h =
    rw (write_terms-piece d false (o ∷ os) n h) (unfold render holes in refl)

pub limit_offset-piece :
    (d : Dialect) (limit offset : ℤ) (n : ℕ)
    → limit_offset d limit offset n ≡ piece d n (page_tokens d limit offset)
unfolding limit_offset page_tokens
limit_offset-piece d limit offset n = elim (Bool-cases (ltb_ℤ (pos 0) limit)) [
  | inl e ↦
      rw (e, limit_offset, page_tokens) (unfold render holes in simp (append_assoc, append-nil))
  | inr e ↦ elim (Bool-cases (ltb_ℤ (pos 0) offset)) [
    | inl f ↦
        rw (e, f, limit_offset, page_tokens)
          (unfold render holes in simp (append_assoc, append-nil))
    | inr f ↦ rw (e, f, limit_offset, page_tokens) (unfold render holes in refl)
  ]
]

pub keyset_limit-piece :
    (d : Dialect) (limit : ℤ) (n : ℕ) → keyset_limit d limit n ≡ piece d n (keyset_tokens limit)
unfolding keyset_limit keyset_tokens render holes
keyset_limit-piece d limit n = simp append-nil

pub where_sql-clause :
    (d : Dialect) (ts : List Token)
    → where_sql (render d 0 ts) ≡ render d 0 (clause (codes " WHERE ") ts)
unfolding where_sql clause
where_sql-clause d ts = elim (Bool-cases (is_blank ts)) [
  | inl e ↦ rw (is_empty-render, e) (unfold render in refl)
  | inr e ↦ rw (is_empty-render, e) (unfold render in refl)
]

-- The arguments of a condition whose WHERE is left out are none.
pub holes-clause : (keyword : Bytes) (ts : List Token) → holes (clause keyword ts) ≡ holes ts
unfolding clause
holes-clause keyword ts = elim (Bool-cases (is_blank ts)) [
  | inl e ↦ rw (e, holes-blank ts e) (unfold holes in refl)
  | inr e ↦ rw e (unfold holes in refl)
]

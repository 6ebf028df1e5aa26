-- ===== src/Cond/Emit.antt =====
-- Running tokens on the builder, and what the builder holds then.
use filtrx.Base.{◌≡◌, refl, List, [], ◌∷◌, ◌++◌, append_assoc, append-nil, Bytes}
use filtrx.Cond.{Builder, write_sql, write_bound, bind}
use filtrx.Cond.Tokens.{Token, lit, hole, holes, render}

unfoldable pub emit : List Token → Builder → Builder
emit [] b = b
emit (lit s ∷ ts) b = emit ts (write_sql s b)
emit (hole v ∷ ts) b = emit ts (write_bound v b)

pub emit-append : (ts us : List Token) (b : Builder) → emit (ts ++ us) b ≡ emit us (emit ts b)
unfolding emit
emit-append [] us b = refl
emit-append (lit s ∷ ts) us b = emit-append ts us (write_sql s b)
emit-append (hole v ∷ ts) us b = emit-append ts us (write_bound v b)

pub d-emit : (ts : List Token) (b : Builder) → (emit ts b).d ≡ b.d
unfolding emit write_sql write_bound bind
d-emit [] b = refl
d-emit (lit s ∷ ts) b = d-emit ts (write_sql s b)
d-emit (hole v ∷ ts) b = d-emit ts (write_bound v b)

pub d-write_sql : (s : Bytes) (b : Builder) → (write_sql s b).d ≡ b.d
unfolding write_sql
d-write_sql s b = refl

pub sql-emit : (ts : List Token) (b : Builder) → (emit ts b).sql ≡ b.sql ++ render b.d b.n ts
unfolding emit render write_sql write_bound bind
sql-emit [] b = simp append-nil
sql-emit (lit s ∷ ts) b = simp (sql-emit ts (write_sql s b), append_assoc)
sql-emit (hole v ∷ ts) b = simp (sql-emit ts (write_bound v b), append_assoc)

pub args-emit : (ts : List Token) (b : Builder) → (emit ts b).args ≡ b.args ++ holes ts
unfolding emit holes write_sql write_bound bind
args-emit [] b = simp append-nil
args-emit (lit s ∷ ts) b = simp (args-emit ts (write_sql s b))
args-emit (hole v ∷ ts) b = simp (args-emit ts (write_bound v b), append_assoc)

-- ===== src/Plan/Cache.antt =====
-- The cache of plans changes no result: what `planFor` gives is the plan that is built afresh.
use filtrx.Base.{ℕ, suc, ◌≡◌, refl, sym, ◌∙◌, ap, Option, none, some, [], ◌∷◌, Bytes, arith}
use filtrx.Reflect.{StructType, struct, FieldList, end, field, SubType, no_sub, sub_struct}
use filtrx.Plan.{
  StepKind, step_exists, Plan, empty_plan, Result, ok, error, exists_bad_sub, Action, skip, fail,
  add, set_source, plan_sub, field_action, add_step, check_source, PlanCache, load, store, plan_for,
  plan_fields, plan_exists,
}

-- `buildPlan` without a cache, the reference.
unfoldable mutual
  pub plan_of : StructType → Result Plan
  plan_of (struct n fs) = plan_of_fields fs 0 empty_plan

  pub plan_of_fields : FieldList → ℕ → Plan → Result Plan
  plan_of_fields end i p = check_source p
  plan_of_fields (field f sub fs) i p = elim (field_action f p) [
    | skip ↦ plan_of_fields fs (suc i) p
    | fail e ↦ error e
    | add k ↦ plan_of_fields fs (suc i) (add_step i k p)
    | set_source (error e) ↦ error e
    | set_source (ok s) ↦ plan_of_fields fs (suc i) (record p { source = some s })
    | plan_sub src on ↦ plan_of_sub src on sub (plan_of_fields fs (suc i)) i p
  ]

  pub plan_of_sub : Bytes → Bytes → SubType → (Plan → Result Plan) → ℕ → Plan → Result Plan
  plan_of_sub src on no_sub rest i p = error exists_bad_sub
  plan_of_sub src on (sub_struct t) rest i p = elim (plan_of t) [
    | error e ↦ error e
    | ok q ↦ rest (add_step i (step_exists src on t) p)
  ]

module _ (types : ℕ → StructType) where
  -- The identities in a type are those of the program's types.
  abbrev mutual
    pub Known : StructType → Type 0
    Known (struct n fs) = (types n ≡ struct n fs) × KnownFields fs

    pub KnownFields : FieldList → Type 0
    KnownFields end = Unit
    KnownFields (field f sub fs) = KnownSub sub × KnownFields fs

    pub KnownSub : SubType → Type 0
    KnownSub no_sub = Unit
    KnownSub (sub_struct t) = Known t

  -- Every entry is the plan, or the error, of its type.
  abbrev pub IsValid : PlanCache → Type 0
  IsValid [] = Unit
  IsValid ((n, r) ∷ c) = (r ≡ plan_of (types n)) × IsValid c

  pub load-IsValid :
      (n : ℕ) (c : PlanCache) (r : Result Plan)
      → IsValid c
      → load n c ≡ some r
      → r ≡ plan_of (types n)
  unfolding load
  load-IsValid n [] r v h = absurd (cc)
  load-IsValid n ((m, s) ∷ c) r (e, v) h = ground (arith, load-IsValid n c r v)

  -- A run keeps the cache valid and gives the result of the run without a cache.
  abbrev pub Transparent : Result Plan × PlanCache → Result Plan → Type 0
  Transparent run r = (run.0 ≡ r) × IsValid run.1

  store-Transparent :
      (n : ℕ) (run : Result Plan × PlanCache) (r : Result Plan)
      → r ≡ plan_of (types n)
      → Transparent run r
      → Transparent (store n run) r
  unfolding store
  store-Transparent n run r e (same, v) = (same, (same ∙ e, v))

  loaded :
      (n : ℕ) (c : PlanCache) (run : Result Plan × PlanCache) (r : Result Plan)
      (entry : Option (Result Plan))
      → load n c ≡ entry
      → r ≡ plan_of (types n)
      → IsValid c
      → Transparent run r
      → Transparent (elim entry [ some s ↦ (s, c) | none ↦ store n run ]) r
  loaded n c run r none h e v t = store-Transparent n run r e t
  loaded n c run r (some s) h e v t = (load-IsValid n c s v h ∙ sym e, v)

  -- One round of the loop, for what its action leads to.
  round :
      (a : Action) (sub : SubType) (i : ℕ) (p : Plan) (c : PlanCache)
      (rest : Plan → PlanCache → Result Plan × PlanCache) (rest' : Plan → Result Plan)
      → IsValid c
      → ((p' : Plan) (c' : PlanCache) → IsValid c' → Transparent (rest p' c') (rest' p'))
      → ((src on : Bytes)
          → Transparent (plan_exists src on sub rest i p c) (plan_of_sub src on sub rest' i p))
      → Transparent
          (elim a [
            | skip ↦ rest p c
            | fail e ↦ (error e, c)
            | add k ↦ rest (add_step i k p) c
            | set_source (error e) ↦ (error e, c)
            | set_source (ok s) ↦ rest (record p { source = some s }) c
            | plan_sub src on ↦ plan_exists src on sub rest i p c
          ])
          (elim a [
            | skip ↦ rest' p
            | fail e ↦ error e
            | add k ↦ rest' (add_step i k p)
            | set_source (error e) ↦ error e
            | set_source (ok s) ↦ rest' (record p { source = some s })
            | plan_sub src on ↦ plan_of_sub src on sub rest' i p
          ])
  round skip sub i p c rest rest' v ih sub_ih = ih p c v
  round (fail e) sub i p c rest rest' v ih sub_ih = (refl, v)
  round (add k) sub i p c rest rest' v ih sub_ih = ih (add_step i k p) c v
  round (set_source (error e)) sub i p c rest rest' v ih sub_ih = (refl, v)
  round (set_source (ok s)) sub i p c rest rest' v ih sub_ih = ih (record p { source = some s }) c v
  round (plan_sub src on) sub i p c rest rest' v ih sub_ih = sub_ih src on

  -- The plan of an Exists field's filter is there or has failed.
  sub_round :
      (run : Result Plan × PlanCache) (r : Result Plan) (i : ℕ) (k : StepKind) (p : Plan)
      (rest : Plan → PlanCache → Result Plan × PlanCache) (rest' : Plan → Result Plan)
      → Transparent run r
      → ((p' : Plan) (c' : PlanCache) → IsValid c' → Transparent (rest p' c') (rest' p'))
      → Transparent
          (elim run.0 [ error e ↦ (error e, run.1) | ok q ↦ rest (add_step i k p) run.1 ])
          (elim r [ error e ↦ error e | ok q ↦ rest' (add_step i k p) ])
  sub_round run (error e) i k p rest rest' (same, v) ih = rw same (refl, v)
  sub_round run (ok q) i k p rest rest' (same, v) ih = rw same (ih (add_step i k p) run.1 v)

  mutual
    unfolding plan_for plan_of

    plan_for-same :
        (t : StructType) (c : PlanCache)
        → Known t
        → IsValid c
        → Transparent (plan_for t c) (plan_of t)
    plan_for-same (struct n fs) c (e, k) v =
        loaded n c (plan_fields fs 0 empty_plan c) (plan_of_fields fs 0 empty_plan) (load n c) refl
          (ap plan_of (sym e)) v (plan_fields-same fs 0 empty_plan c k v)

    plan_fields-same :
        (fs : FieldList) (i : ℕ) (p : Plan) (c : PlanCache)
        → KnownFields fs
        → IsValid c
        → Transparent (plan_fields fs i p c) (plan_of_fields fs i p)
    plan_fields-same end i p c k v = (refl, v)
    plan_fields-same (field f sub fs) i p c (s, k) v =
        round (field_action f p) sub i p c (plan_fields fs (suc i)) (plan_of_fields fs (suc i)) v
          (λ p' c' v'. plan_fields-same fs (suc i) p' c' k v')
          (λ src on.
            plan_exists-same sub src on (plan_fields fs (suc i)) (plan_of_fields fs (suc i)) i p c s
              v (λ p' c' v'. plan_fields-same fs (suc i) p' c' k v'))

    plan_exists-same :
        (sub : SubType) (src on : Bytes) (rest : Plan → PlanCache → Result Plan × PlanCache)
        (rest' : Plan → Result Plan) (i : ℕ) (p : Plan) (c : PlanCache)
        → KnownSub sub
        → IsValid c
        → ((p' : Plan) (c' : PlanCache) → IsValid c' → Transparent (rest p' c') (rest' p'))
        → Transparent (plan_exists src on sub rest i p c) (plan_of_sub src on sub rest' i p)
    plan_exists-same no_sub src on rest rest' i p c s v ih = (refl, v)
    plan_exists-same (sub_struct t) src on rest rest' i p c s v ih =
        sub_round (plan_for t c) (plan_of t) i (step_exists src on t) p rest rest'
          (plan_for-same t c s v) ih

  -- From any valid cache, the plan or the error of a known type is that of a build without a
  -- cache, and the cache stays valid, so a stored result never goes stale.
  pub plan_for-IsValid :
      (t : StructType) (c : PlanCache)
      → Known t
      → IsValid c
      → ((plan_for t c).0 ≡ plan_of t) × IsValid (plan_for t c).1
  plan_for-IsValid t c k v = plan_for-same t c k v

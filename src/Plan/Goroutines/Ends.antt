-- ===== src/Plan/Goroutines/Ends.antt =====
-- A goroutine that plans a type returns, whatever the other goroutines store meanwhile.
use filtrx.Base.{ℕ, zero, suc, ◌≡◌, sym, ◌∙◌, ap, Option, none, some, Bytes}
use filtrx.Reflect.{StructType, struct, FieldList, end, field, SubType, no_sub, sub_struct}
use filtrx.Plan.{
  step_exists, Plan, empty_plan, Result, ok, error, exists_bad_sub, Action, skip, fail, add,
  set_source, plan_sub, field_action, add_step, PlanCache, load,
}
use filtrx.Plan.Cache.{
  plan_of, plan_of_fields, plan_of_sub, Known, KnownFields, KnownSub, IsValid, load-IsValid,
}
use filtrx.Plan.Goroutines.{
  Goroutine, finished, loading, storing, plan_for_then, plan_fields_then, plan_exists_then,
}

-- At most two steps for a type, and for each type of an Exists field in it, before `j` more.
abbrev mutual
  pub steps_for : StructType → ℕ → ℕ
  steps_for (struct n fs) j = suc (steps_for_fields fs (suc j))

  pub steps_for_fields : FieldList → ℕ → ℕ
  steps_for_fields end j = j
  steps_for_fields (field f sub fs) j = steps_for_sub sub (steps_for_fields fs j)

  pub steps_for_sub : SubType → ℕ → ℕ
  steps_for_sub no_sub j = j
  steps_for_sub (sub_struct t) j = steps_for t j

module _ (types : ℕ → StructType) where
  -- What a Load can give.
  abbrev pub Answers : ℕ → Option (Result Plan) → Type 0
  Answers n none = Unit
  Answers n (some r) = r ≡ plan_of (types n)

  pub load-Answers :
      (n : ℕ) (c : PlanCache) (entry : Option (Result Plan))
      → IsValid types c
      → load n c ≡ entry
      → Answers n entry
  load-Answers n c none v e = tt
  load-Answers n c (some r) v e = load-IsValid types n c r v e

  -- The goroutine returns `r` within `k` steps, whatever the others store, and stores only plans of
  -- their types.
  abbrev pub Ends : Result Plan → ℕ → Goroutine → Type 0
  Ends r k (finished s) = s ≡ r
  Ends r zero (loading n go) = ⊥
  Ends r (suc k) (loading n go) =
      (entry : Option (Result Plan)) → Answers n entry → Ends r k (go entry)
  Ends r zero (storing n s g) = ⊥
  Ends r (suc k) (storing n s g) = (s ≡ plan_of (types n)) × Ends r k g

  Ends-suc : (r : Result Plan) (k : ℕ) (g : Goroutine) → Ends r k g → Ends r (suc k) g
  Ends-suc r k (finished s) e = e
  Ends-suc r zero (loading n go) e = absurd e
  Ends-suc r (suc k) (loading n go) e = λ entry a. Ends-suc r k (go entry) (e entry a)
  Ends-suc r zero (storing n s g) e = absurd e
  Ends-suc r (suc k) (storing n s g) (e, h) = (e, Ends-suc r k g h)

  mutual
    Ends-steps_for :
        (r : Result Plan) (t : StructType) (j : ℕ) (g : Goroutine)
        → Ends r j g
        → Ends r (steps_for t j) g
    Ends-steps_for r (struct n fs) j g e =
        Ends-suc r (steps_for_fields fs (suc j)) g
          (Ends-steps_for_fields r fs (suc j) g (Ends-suc r j g e))

    Ends-steps_for_fields :
        (r : Result Plan) (fs : FieldList) (j : ℕ) (g : Goroutine)
        → Ends r j g
        → Ends r (steps_for_fields fs j) g
    Ends-steps_for_fields r end j g e = e
    Ends-steps_for_fields r (field f sub fs) j g e =
        Ends-steps_for_sub r sub (steps_for_fields fs j) g (Ends-steps_for_fields r fs j g e)

    Ends-steps_for_sub :
        (r : Result Plan) (sub : SubType) (j : ℕ) (g : Goroutine)
        → Ends r j g
        → Ends r (steps_for_sub sub j) g
    Ends-steps_for_sub r no_sub j g e = e
    Ends-steps_for_sub r (sub_struct t) j g e = Ends-steps_for r t j g e

  -- One round of the loop of `buildPlan`, for what its action leads to.
  round :
      (r : Result Plan) (a : Action) (sub : SubType) (i : ℕ) (p : Plan) (fs : FieldList) (j : ℕ)
      (go : Result Plan → Goroutine)
      → ((q : Plan)
          → Ends r j (go (plan_of_fields fs (suc i) q))
          → Ends r (steps_for_fields fs j) (plan_fields_then fs (suc i) q go))
      → ((src on : Bytes)
          → Ends r j (go (plan_of_sub src on sub (plan_of_fields fs (suc i)) i p))
          → Ends r
              (steps_for_sub sub (steps_for_fields fs j))
              (plan_exists_then src on sub (λ q. plan_fields_then fs (suc i) q go) i p go))
      → Ends r j (
          go (elim a [
            | skip ↦ plan_of_fields fs (suc i) p
            | fail e ↦ error e
            | add k ↦ plan_of_fields fs (suc i) (add_step i k p)
            | set_source (error e) ↦ error e
            | set_source (ok s) ↦ plan_of_fields fs (suc i) (record p { source = some s })
            | plan_sub src on ↦ plan_of_sub src on sub (plan_of_fields fs (suc i)) i p
          ]))
      → Ends r (steps_for_sub sub (steps_for_fields fs j)) (elim a [
        | skip ↦ plan_fields_then fs (suc i) p go
        | fail e ↦ go (error e)
        | add k ↦ plan_fields_then fs (suc i) (add_step i k p) go
        | set_source (error e) ↦ go (error e)
        | set_source (ok s) ↦ plan_fields_then fs (suc i) (record p { source = some s }) go
        | plan_sub src on ↦
            plan_exists_then src on sub (λ q. plan_fields_then fs (suc i) q go) i p go
      ])
  round r skip sub i p fs j go rest sub_rest h =
      Ends-steps_for_sub r sub (steps_for_fields fs j) (plan_fields_then fs (suc i) p go) (rest p h)
  round r (fail e) sub i p fs j go rest sub_rest h =
      Ends-steps_for_sub r sub (steps_for_fields fs j) (go (error e))
        (Ends-steps_for_fields r fs j (go (error e)) h)
  round r (add k) sub i p fs j go rest sub_rest h =
      Ends-steps_for_sub r sub (steps_for_fields fs j)
        (plan_fields_then fs (suc i) (add_step i k p) go) (rest (add_step i k p) h)
  round r (set_source (error e)) sub i p fs j go rest sub_rest h =
      Ends-steps_for_sub r sub (steps_for_fields fs j) (go (error e))
        (Ends-steps_for_fields r fs j (go (error e)) h)
  round r (set_source (ok s)) sub i p fs j go rest sub_rest h =
      Ends-steps_for_sub r sub (steps_for_fields fs j)
        (plan_fields_then fs (suc i) (record p { source = some s }) go)
        (rest (record p { source = some s }) h)
  round r (plan_sub src on) sub i p fs j go rest sub_rest h = sub_rest src on h

  -- What the entry in the cache leads to.
  entered :
      (r : Result Plan) (n : ℕ) (fs : FieldList) (j : ℕ) (go : Result Plan → Goroutine)
      (entry : Option (Result Plan))
      → types n ≡ struct n fs
      → Answers n entry
      → Ends r j (go (plan_of (struct n fs)))
      → Ends r
          (steps_for_fields fs (suc j))
          (plan_fields_then fs 0 empty_plan (λ s. storing n s (go s)))
      → Ends r (steps_for_fields fs (suc j)) (elim entry [
        | some s ↦ go s
        | none ↦ plan_fields_then fs 0 empty_plan (λ s. storing n s (go s))
      ])
  entered r n fs j go none known a h built = built
  entered r n fs j go (some s) known a h built =
      let same : s ≡ plan_of (struct n fs) = a ∙ ap plan_of known in
      rw same (
        Ends-steps_for_fields r fs (suc j) (go (plan_of (struct n fs)))
          (Ends-suc r j (go (plan_of (struct n fs))) h))

  -- The plan of an Exists field's filter is there or has failed.
  planned :
      (r s : Result Plan) (src on : Bytes) (t : StructType) (i : ℕ) (p : Plan) (fs : FieldList)
      (j : ℕ) (go : Result Plan → Goroutine)
      → ((q : Plan)
          → Ends r j (go (plan_of_fields fs (suc i) q))
          → Ends r (steps_for_fields fs j) (plan_fields_then fs (suc i) q go))
      → Ends r j (
          go (elim s [
            | error e ↦ error e
            | ok q ↦ plan_of_fields fs (suc i) (add_step i (step_exists src on t) p)
          ]))
      → Ends r (steps_for_fields fs j) (elim s [
        | error e ↦ go (error e)
        | ok q ↦ plan_fields_then fs (suc i) (add_step i (step_exists src on t) p) go
      ])
  planned r (error e) src on t i p fs j go rest h = Ends-steps_for_fields r fs j (go (error e)) h
  planned r (ok q) src on t i p fs j go rest h = rest (add_step i (step_exists src on t) p) h

  mutual
    unfolding plan_for_then plan_of

    pub plan_for_then-Ends :
        (r : Result Plan) (t : StructType) (j : ℕ) (go : Result Plan → Goroutine)
        → Known types t
        → Ends r j (go (plan_of t))
        → Ends r (steps_for t j) (plan_for_then t go)
    plan_for_then-Ends r (struct n fs) j go (known, k) h = λ entry a.
        entered r n fs j go entry known a h (
          plan_fields_then-Ends r fs 0 empty_plan (suc j) (λ s. storing n s (go s)) k
            (sym (ap plan_of known), h))

    plan_fields_then-Ends :
        (r : Result Plan) (fs : FieldList) (i : ℕ) (p : Plan) (j : ℕ) (go : Result Plan → Goroutine)
        → KnownFields types fs
        → Ends r j (go (plan_of_fields fs i p))
        → Ends r (steps_for_fields fs j) (plan_fields_then fs i p go)
    plan_fields_then-Ends r end i p j go k h = h
    plan_fields_then-Ends r (field f sub fs) i p j go (s, k) h =
        round r (field_action f p) sub i p fs j go
          (λ q. plan_fields_then-Ends r fs (suc i) q j go k)
          (λ src on.
            plan_exists_then-Ends r sub src on i p fs j go s
              (λ q. plan_fields_then-Ends r fs (suc i) q j go k))
          h

    plan_exists_then-Ends :
        (r : Result Plan) (sub : SubType) (src on : Bytes) (i : ℕ) (p : Plan) (fs : FieldList)
        (j : ℕ) (go : Result Plan → Goroutine)
        → KnownSub types sub
        → ((q : Plan)
            → Ends r j (go (plan_of_fields fs (suc i) q))
            → Ends r (steps_for_fields fs j) (plan_fields_then fs (suc i) q go))
        → Ends r j (go (plan_of_sub src on sub (plan_of_fields fs (suc i)) i p))
        → Ends r
            (steps_for_sub sub (steps_for_fields fs j))
            (plan_exists_then src on sub (λ q. plan_fields_then fs (suc i) q go) i p go)
    plan_exists_then-Ends r no_sub src on i p fs j go k rest h =
        Ends-steps_for_fields r fs j (go (error exists_bad_sub)) h
    plan_exists_then-Ends r (sub_struct t) src on i p fs j go k rest h =
        plan_for_then-Ends r t (steps_for_fields fs j) _ k
          (planned r (plan_of t) src on t i p fs j go rest h)

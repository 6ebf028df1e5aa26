-- ===== src/Plan/Goroutines/Alone.antt =====
-- A goroutine on its own runs `planFor` as the sequential model does.
use filtrx.Base.{ℕ, suc, ◌≡◌, refl, ◌∙◌, Option, none, some, Bytes}
use filtrx.Reflect.{StructType, struct, FieldList, end, field, SubType, no_sub, sub_struct}
use filtrx.Plan.{
  step_exists, Plan, empty_plan, Result, ok, error, Action, skip, fail, add, set_source, plan_sub,
  field_action, add_step, PlanCache, load, store, plan_for, plan_fields, plan_exists,
}
use filtrx.Plan.Goroutines.{
  Goroutine, finished, storing, plan_for_then, plan_fields_then, plan_exists_then, alone,
}

-- The goroutine on its own does as the run, and then what follows.
abbrev Follows :
    (Result Plan → Goroutine) → Goroutine → PlanCache → Result Plan × PlanCache → Type 0
Follows go g c run = alone g c ≡ alone (go run.0) run.1

entered :
    (n : ℕ) (fs : FieldList) (go : Result Plan → Goroutine) (c : PlanCache)
    (entry : Option (Result Plan)) (run : Result Plan × PlanCache)
    → Follows
        (λ r. storing n r (go r))
        (plan_fields_then fs 0 empty_plan (λ r. storing n r (go r)))
        c
        run
    → Follows go
        (elim entry [
          | some r ↦ go r
          | none ↦ plan_fields_then fs 0 empty_plan (λ r. storing n r (go r))
        ])
        c
        (elim entry [ some r ↦ (r, c) | none ↦ store n run ])
unfolding alone store
entered n fs go c none run h = h
entered n fs go c (some r) run h = refl

round :
    (a : Action) (sub : SubType) (i : ℕ) (p : Plan) (fs : FieldList) (go : Result Plan → Goroutine)
    (c : PlanCache)
    → ((q : Plan) → Follows go (plan_fields_then fs (suc i) q go) c (plan_fields fs (suc i) q c))
    → ((src on : Bytes)
        → Follows go
            (plan_exists_then src on sub (λ q. plan_fields_then fs (suc i) q go) i p go)
            c
            (plan_exists src on sub (plan_fields fs (suc i)) i p c))
    → Follows go
        (elim a [
          | skip ↦ plan_fields_then fs (suc i) p go
          | fail e ↦ go (error e)
          | add k ↦ plan_fields_then fs (suc i) (add_step i k p) go
          | set_source (error e) ↦ go (error e)
          | set_source (ok s) ↦ plan_fields_then fs (suc i) (record p { source = some s }) go
          | plan_sub src on ↦
              plan_exists_then src on sub (λ q. plan_fields_then fs (suc i) q go) i p go
        ])
        c
        (elim a [
          | skip ↦ plan_fields fs (suc i) p c
          | fail e ↦ (error e, c)
          | add k ↦ plan_fields fs (suc i) (add_step i k p) c
          | set_source (error e) ↦ (error e, c)
          | set_source (ok s) ↦ plan_fields fs (suc i) (record p { source = some s }) c
          | plan_sub src on ↦ plan_exists src on sub (plan_fields fs (suc i)) i p c
        ])
round skip sub i p fs go c rest sub_rest = rest p
round (fail e) sub i p fs go c rest sub_rest = refl
round (add k) sub i p fs go c rest sub_rest = rest (add_step i k p)
round (set_source (error e)) sub i p fs go c rest sub_rest = refl
round (set_source (ok s)) sub i p fs go c rest sub_rest = rest (record p { source = some s })
round (plan_sub src on) sub i p fs go c rest sub_rest = sub_rest src on

planned :
    (run : Result Plan × PlanCache) (src on : Bytes) (t : StructType) (i : ℕ) (p : Plan)
    (fs : FieldList) (go : Result Plan → Goroutine)
    → ((q : Plan) (c : PlanCache)
        → Follows go (plan_fields_then fs (suc i) q go) c (plan_fields fs (suc i) q c))
    → Follows go
        (elim run.0 [
          | error e ↦ go (error e)
          | ok q ↦ plan_fields_then fs (suc i) (add_step i (step_exists src on t) p) go
        ])
        run.1
        (elim run.0 [
          | error e ↦ (error e, run.1)
          | ok q ↦ plan_fields fs (suc i) (add_step i (step_exists src on t) p) run.1
        ])
planned (error e, c) src on t i p fs go rest = refl
planned (ok q, c) src on t i p fs go rest = rest (add_step i (step_exists src on t) p) c

mutual
  unfolding plan_for_then plan_for alone

  plan_for_then-Follows :
      (t : StructType) (go : Result Plan → Goroutine) (c : PlanCache)
      → Follows go (plan_for_then t go) c (plan_for t c)
  plan_for_then-Follows (struct n fs) go c =
      entered n fs go c (load n c) (plan_fields fs 0 empty_plan c)
        (plan_fields_then-Follows fs 0 empty_plan (λ r. storing n r (go r)) c)

  plan_fields_then-Follows :
      (fs : FieldList) (i : ℕ) (p : Plan) (go : Result Plan → Goroutine) (c : PlanCache)
      → Follows go (plan_fields_then fs i p go) c (plan_fields fs i p c)
  plan_fields_then-Follows end i p go c = refl
  plan_fields_then-Follows (field f sub fs) i p go c =
      round (field_action f p) sub i p fs go c (λ q. plan_fields_then-Follows fs (suc i) q go c)
        (λ src on.
          plan_exists_then-Follows sub src on i p fs go c
            (λ q c'. plan_fields_then-Follows fs (suc i) q go c'))

  plan_exists_then-Follows :
      (sub : SubType) (src on : Bytes) (i : ℕ) (p : Plan) (fs : FieldList)
      (go : Result Plan → Goroutine) (c : PlanCache)
      → ((q : Plan) (c' : PlanCache)
          → Follows go (plan_fields_then fs (suc i) q go) c' (plan_fields fs (suc i) q c'))
      → Follows go
          (plan_exists_then src on sub (λ q. plan_fields_then fs (suc i) q go) i p go)
          c
          (plan_exists src on sub (plan_fields fs (suc i)) i p c)
  plan_exists_then-Follows no_sub src on i p fs go c rest = refl
  plan_exists_then-Follows (sub_struct t) src on i p fs go c rest =
      plan_for_then-Follows t _ c ∙ planned (plan_for t c) src on t i p fs go rest

-- A goroutine that plans a type with no others beside it does exactly what `plan_for` does: the same
-- result and the same cache.
alone-plan_for :
    (t : StructType) (c : PlanCache) → alone (plan_for_then t finished) c ≡ plan_for t c
unfolding alone
alone-plan_for t c = plan_for_then-Follows t finished c

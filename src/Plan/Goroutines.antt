-- ===== src/Plan/Goroutines.antt =====
-- plan.go: `planFor` run by several goroutines at once, on the one `planCache`. A Load and a Store of
-- the sync.Map are each one step, and all between them is local to its goroutine.
pub mod Alone
pub mod Ends
pub mod Orders
use filtrx.Base.{ℕ, zero, suc, Option, none, some, List, [], ◌∷◌, Bytes, map}
use filtrx.Reflect.{StructType, struct, FieldList, end, field, SubType, no_sub, sub_struct}
use filtrx.Plan.{
  step_exists, Plan, empty_plan, Result, ok, error, exists_bad_sub, skip, fail, add, set_source,
  plan_sub, field_action, add_step, check_source, PlanCache, load, store,
}

-- What a goroutine has left to do: it is done, is about to Load the entry of a type, or is about
-- to Store one.
pub data Goroutine : Type 0 where
  finished : Result Plan → Goroutine
  loading : ℕ → (Option (Result Plan) → Goroutine) → Goroutine
  storing : ℕ → Result Plan → Goroutine → Goroutine

unfoldable mutual
  -- `planFor`, and what its caller does with the result.
  pub plan_for_then : StructType → (Result Plan → Goroutine) → Goroutine
  plan_for_then (struct n fs) go = loading n (λ entry. elim entry [
    | some r ↦ go r
    | none ↦ plan_fields_then fs 0 empty_plan (λ r. storing n r (go r))
  ])

  -- The loop of `buildPlan` from field `i` on.
  pub plan_fields_then : FieldList → ℕ → Plan → (Result Plan → Goroutine) → Goroutine
  plan_fields_then end i p go = go (check_source p)
  plan_fields_then (field f sub fs) i p go = elim (field_action f p) [
    | skip ↦ plan_fields_then fs (suc i) p go
    | fail e ↦ go (error e)
    | add k ↦ plan_fields_then fs (suc i) (add_step i k p) go
    | set_source (error e) ↦ go (error e)
    | set_source (ok s) ↦ plan_fields_then fs (suc i) (record p { source = some s }) go
    | plan_sub src on ↦ plan_exists_then src on sub (λ q. plan_fields_then fs (suc i) q go) i p go
  ]

  -- `existsStep` behind its tags, then the rest of the loop.
  pub plan_exists_then :
      Bytes
      → Bytes
      → SubType
      → (Plan → Goroutine)
      → ℕ
      → Plan
      → (Result Plan → Goroutine)
      → Goroutine
  plan_exists_then src on no_sub rest i p go = go (error exists_bad_sub)
  plan_exists_then src on (sub_struct t) rest i p go =
      plan_for_then t
        (λ r. elim r [ error e ↦ go (error e) | ok q ↦ rest (add_step i (step_exists src on t) p) ])

-- Goroutines that each plan one type.
abbrev pub planning : List StructType → List Goroutine
planning ts = map (λ t. plan_for_then t finished) ts

-- A step of one goroutine on the cache.
pub data Move (c : PlanCache) : Goroutine → PlanCache → Goroutine → Type 0 where
  load_entry :
      {n : ℕ} {go : Option (Result Plan) → Goroutine} → Move c (loading n go) c (go (load n c))
  store_entry :
      {n : ℕ} {r : Result Plan} {g : Goroutine} → Move c (storing n r g) (store n (r, c)).1 g

-- A step of any one of them.
pub data Step (c : PlanCache) : List Goroutine → PlanCache → List Goroutine → Type 0 where
  this_one :
      {g g' : Goroutine} {c' : PlanCache} {gs : List Goroutine}
      → Move c g c' g'
      → Step c (g ∷ gs) c' (g' ∷ gs)
  another :
      {g : Goroutine} {c' : PlanCache} {gs gs' : List Goroutine}
      → Step c gs c' gs'
      → Step c (g ∷ gs) c' (g ∷ gs')

-- An order of `n` steps.
pub data Steps (c : PlanCache) (gs : List Goroutine) : ℕ → PlanCache → List Goroutine → Type 0 where
  no_step : Steps c gs zero c gs
  one_more :
      {n : ℕ} {c' c'' : PlanCache} {gs' gs'' : List Goroutine}
      → Steps c gs n c' gs'
      → Step c' gs' c'' gs''
      → Steps c gs (suc n) c'' gs''

-- A goroutine on its own.
unfoldable pub alone : Goroutine → PlanCache → Result Plan × PlanCache
alone (finished r) c = (r, c)
alone (loading n go) c = alone (go (load n c)) c
alone (storing n r g) c = alone g (store n (r, c)).1

-- ===== src/Plan/Goroutines/Orders.antt =====
-- Every order of the steps of goroutines that plan types, on one cache.
use filtrx.Base.{ℕ, zero, suc, ◌+◌, ◌≤◌, ◌≡◌, refl, arith, List, [], ◌∷◌, map}
use filtrx.Reflect.{StructType}
use filtrx.Plan.{Plan, Result, PlanCache, load, store}
use filtrx.Plan.Cache.{plan_of, Known, IsValid}
use filtrx.Plan.Goroutines.{
  Goroutine, finished, loading, storing, planning, Move, load_entry, store_entry, Step, this_one,
  another, Steps, no_step, one_more,
}
use filtrx.Plan.Goroutines.Ends.{steps_for, load-Answers, Ends, plan_for_then-Ends}

abbrev total : List ℕ → ℕ
total [] = 0
total (k ∷ ks) = k + total ks

-- At most so many steps for planning all of some types.
abbrev pub steps_for_all : List StructType → ℕ
steps_for_all ts = total (map (λ t. steps_for t 0) ts)

-- No goroutine has a step left.
abbrev pub Stuck : PlanCache → List Goroutine → Type 0
Stuck c gs = (c' : PlanCache) (gs' : List Goroutine) → ¬ Step c gs c' gs'

module _ (types : ℕ → StructType) where
  abbrev pub AllKnown : List StructType → Type 0
  AllKnown [] = Unit
  AllKnown (t ∷ ts) = Known types t × AllKnown ts

  -- Each goroutine returns the plan of its type within its number of steps.
  abbrev AllEnd : List ℕ → List StructType → List Goroutine → Type 0
  AllEnd (k ∷ ks) (t ∷ ts) (g ∷ gs) = Ends types (plan_of t) k g × AllEnd ks ts gs
  AllEnd [] [] [] = Unit
  AllEnd _ _ _ = ⊥

  planning-AllEnd :
      (ts : List StructType) → AllKnown ts → AllEnd (map (λ t. steps_for t 0) ts) ts (planning ts)
  planning-AllEnd [] k = tt
  planning-AllEnd (t ∷ ts) (k, ks) =
      (plan_for_then-Ends types (plan_of t) t 0 finished k refl, planning-AllEnd ts ks)

  -- A step of one goroutine takes one of its steps away.
  abbrev Advanced : Result Plan → ℕ → PlanCache → Goroutine → Type 0
  Advanced r k c g = (j : ℕ) × (suc j ≡ k) × Ends types r j g × IsValid types c

  Move-Advanced :
      (r : Result Plan) (k : ℕ) (c c' : PlanCache) (g g' : Goroutine)
      → IsValid types c
      → Ends types r k g
      → Move c g c' g'
      → Advanced r k c' g'
  unfolding store
  Move-Advanced r k c c' (finished s) g' v e m = elim m [ ]
  Move-Advanced r zero c c' (loading n go) g' v e m = absurd e
  Move-Advanced r (suc k) c c' (loading n go) g' v e load_entry =
      (k, refl, e (load n c) (load-Answers types n c (load n c) v refl), v)
  Move-Advanced r zero c c' (storing n s g) g' v e m = absurd e
  Move-Advanced r (suc k) c c' (storing n s g) g' v (e, h) store_entry = (k, refl, h, (e, v))

  abbrev AllAdvanced : List ℕ → List StructType → PlanCache → List Goroutine → Type 0
  AllAdvanced ks ts c gs =
      (js : List ℕ) × (suc (total js) ≡ total ks) × AllEnd js ts gs × IsValid types c

  Step-AllAdvanced :
      (ks : List ℕ) (ts : List StructType) (c c' : PlanCache) (gs gs' : List Goroutine)
      → IsValid types c
      → AllEnd ks ts gs
      → Step c gs c' gs'
      → AllAdvanced ks ts c' gs'
  Step-AllAdvanced [] ts c c' [] gs' v es s = elim s [ ]
  Step-AllAdvanced [] [] c c' (g ∷ gs) gs' v es s = absurd es
  Step-AllAdvanced [] (t ∷ ts) c c' (g ∷ gs) gs' v es s = absurd es
  Step-AllAdvanced (k ∷ ks) [] c c' gs gs' v es s = absurd es
  Step-AllAdvanced (k ∷ ks) (t ∷ ts) c c' [] gs' v es s = absurd es
  Step-AllAdvanced (k ∷ ks) (t ∷ ts) c c' (g ∷ gs) _ v (e, es) (this_one {g' = g'} m) =
      let (j, one, h, v') = Move-Advanced (plan_of t) k c c' g g' v e m in
      (j ∷ ks, omega (arith, one), (h, es), v')
  Step-AllAdvanced (k ∷ ks) (t ∷ ts) c c' (g ∷ gs) _ v (e, es) (another {gs' = gs'} s) =
      let (js, one, hs, v') = Step-AllAdvanced ks ts c c' gs gs' v es s in
      (k ∷ js, omega (arith, one), (e, hs), v')

  abbrev AllLeft : ℕ → List ℕ → List StructType → PlanCache → List Goroutine → Type 0
  AllLeft n ks ts c gs =
      (js : List ℕ) × (n + total js ≡ total ks) × AllEnd js ts gs × IsValid types c

  Steps-AllLeft :
      (ks : List ℕ) (ts : List StructType) (c : PlanCache) (gs : List Goroutine) (n : ℕ)
      (c' : PlanCache) (gs' : List Goroutine)
      → IsValid types c
      → AllEnd ks ts gs
      → Steps c gs n c' gs'
      → AllLeft n ks ts c' gs'
  Steps-AllLeft ks ts c gs n c' gs' v es no_step = (ks, omega arith, es, v)
  Steps-AllLeft ks ts c gs (suc n) c'' gs'' v es (one_more {c' = c'} {gs' = gs'} before s) =
      let (js, left, hs, v') = Steps-AllLeft ks ts c gs n c' gs' v es before in
      let (is, one, is_end, v'') = Step-AllAdvanced js ts c' c'' gs' gs'' v' hs s in
      (is, omega (arith, left, one), is_end, v'')

  -- If none of the goroutines can step, each has returned the plan of its type.
  Stuck-finished :
      (ks : List ℕ) (ts : List StructType) (c : PlanCache) (gs : List Goroutine)
      → AllEnd ks ts gs
      → Stuck c gs
      → gs ≡ map (λ t. finished (plan_of t)) ts
  Stuck-finished [] [] c [] es halt = refl
  Stuck-finished [] [] c (g ∷ gs) es halt = absurd es
  Stuck-finished [] (t ∷ ts) c gs es halt = absurd es
  Stuck-finished (k ∷ ks) [] c gs es halt = absurd es
  Stuck-finished (k ∷ ks) (t ∷ ts) c [] es halt = absurd es
  Stuck-finished (k ∷ ks) (t ∷ ts) c (finished s ∷ gs) (e, es) halt =
      let rest : gs ≡ map (λ t'. finished (plan_of t')) ts =
        Stuck-finished ks ts c gs es (λ c' gs' s'. halt c' (finished s ∷ gs') (another s')) in
      rw (e, rest) refl
  Stuck-finished (k ∷ ks) (t ∷ ts) c (loading n go ∷ gs) es halt =
      absurd (halt c (go (load n c) ∷ gs) (this_one load_entry))
  Stuck-finished (k ∷ ks) (t ∷ ts) c (storing n r g ∷ gs) es halt =
      absurd (halt (store n (r, c)).1 (g ∷ gs) (this_one store_entry))

  -- Let goroutines plan known types at once from a valid cache, their Loads and Stores in any order.
  -- At all times the cache is valid, and no more steps than two for each type and each Exists filter
  -- in it have been made; when no step is left, each goroutine has returned the plan, or the error,
  -- of a build of its type without a cache.
  pub planning-IsValid :
      (ts : List StructType) (c : PlanCache) (n : ℕ) (c' : PlanCache) (gs : List Goroutine)
      → AllKnown ts
      → IsValid types c
      → Steps c (planning ts) n c' gs
      → IsValid types c'
        × (n ≤ steps_for_all ts)
        × (Stuck c' gs → gs ≡ map (λ t. finished (plan_of t)) ts)
  planning-IsValid ts c n c' gs known v steps =
      let ks = map (λ t. steps_for t 0) ts in
      let (js, left, es, v') =
        Steps-AllLeft ks ts c (planning ts) n c' gs v (planning-AllEnd ts known) steps in
      (v', omega (arith, left), Stuck-finished js ts c' gs es)

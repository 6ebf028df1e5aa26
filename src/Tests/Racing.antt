-- ===== src/Tests/Racing.antt =====
-- Two goroutines that plan one filter type at once.
use filtrx.Base.{◌≡◌, ◌≤◌, List, [], ◌∷◌, map}
use filtrx.Reflect.{StructType}
use filtrx.Plan.{PlanCache}
use filtrx.Plan.Cache.{IsValid, plan_of}
use filtrx.Plan.Goroutines.{
  Goroutine, finished, plan_for_then, planning, load_entry, store_entry, Steps, this_one, another,
  no_step, one_more,
}
use filtrx.Plan.Goroutines.Orders.{Stuck, planning-IsValid}
use filtrx.Tests.Compiling.{types, all_Known, compiling}

abbrev two_filters : List StructType
two_filters = types 1 ∷ types 1 ∷ []

abbrev after_both : PlanCache
after_both = (1, plan_of (types 1)) ∷ (1, plan_of (types 1)) ∷ []

abbrev finished_pair : List Goroutine
finished_pair = finished (plan_of (types 1)) ∷ finished (plan_of (types 1)) ∷ []

-- Each finds the cache empty, so each builds the plan and stores it.
both_miss : Steps [] (planning two_filters) 4 after_both finished_pair
unfolding compiling plan_for_then plan_of
both_miss =
    one_more
      (one_more (one_more (one_more no_step (this_one load_entry)) (another (this_one load_entry)))
        (this_one store_entry))
      (another (this_one store_entry))

planning-IsValid_example :
    IsValid types after_both
    × (4 ≤ 4)
    × (Stuck after_both finished_pair → finished_pair ≡ map (λ t. finished (plan_of t)) two_filters)
planning-IsValid_example =
    planning-IsValid types two_filters [] 4 after_both finished_pair
      (all_Known 1, (all_Known 1, tt)) tt both_miss

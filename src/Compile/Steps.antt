-- ===== src/Compile/Steps.antt =====
-- The steps of a plan are those of the fields, in order, and a run over them is one over the fields.
use filtrx.Base.{
  ℕ, zero, suc, ◌≤◌, ◌≡◌, refl, sym, ◌∙◌, ap, Option, none, some, List, [], ◌∷◌, ◌++◌, arith,
  length, append-nil, append_assoc,
}
use filtrx.Cond.{Cond}
use filtrx.Source.{SourceSpec}
use filtrx.Reflect.{
  FieldInfo, StructType, struct, FieldList, end, field, SubType, no_sub, sub_struct, Marker,
  no_marker, table_marker, join_marker,
}
use filtrx.Plan.{
  StepKind, step_exists, FieldStep, Plan, empty_plan, Result, ok, error, PlanCache, Action, skip,
  fail, add, set_source, plan_sub, field_action, marker_action, add_step, check_source,
}
use filtrx.Plan.Cache.{plan_of, plan_of_fields, plan_of_sub, IsValid}
use filtrx.Compile.{Contribution, contribution_at, run_steps}
use filtrx.Compile.Direct.{kind_of, step_of}

-- The steps of the fields from index `i` on.
abbrev pub steps_at : ℕ → Option StepKind → List FieldStep
steps_at i none = []
steps_at i (some k) = record { idx = i; kind = k } ∷ []

pub steps_from : ℕ → FieldList → List FieldStep
steps_from i end = []
steps_from i (field f sub fs) = steps_at i (step_of f sub) ++ steps_from (suc i) fs

-- A field's step does not depend on the source so far.
marker-source :
    (m : Marker) (f : FieldInfo) (sub : SubType) (s : Option SourceSpec)
    → kind_of (marker_action m f s) sub ≡ kind_of (marker_action m f none) sub
unfolding marker_action
marker-source no_marker f sub s = refl
marker-source table_marker f sub s = ground arith
marker-source join_marker f sub s = ground arith

kind_of-source :
    (f : FieldInfo) (sub : SubType) (p : Plan) → kind_of (field_action f p) sub ≡ step_of f sub
unfolding field_action
kind_of-source f sub p = marker-source f.marker f sub p.source

-- What a run of the loop appends.
abbrev Appends : (Plan → Result Plan) → List FieldStep → Type 0
Appends run tail = (p q : Plan) → run p ≡ ok q → q.steps ≡ p.steps ++ tail

sub-steps :
    (r : Result Plan) (i : ℕ) (k : StepKind) (p q : Plan) (rest : Plan → Result Plan)
    (tail : List FieldStep)
    → Appends rest tail
    → ◌≡◌ {A = Result Plan} (elim r [ error e ↦ error e | ok q' ↦ rest (add_step i k p) ]) (ok q)
    → q.steps ≡ p.steps ++ (record { idx = i; kind = k } ∷ tail)
unfolding add_step
sub-steps (error e) i k p q rest tail ih h = absurd (cc)
sub-steps (ok q') i k p q rest tail ih h =
    ih (add_step i k p) q h ∙ append_assoc p.steps (record { idx = i; kind = k } ∷ []) tail

round-steps :
    (a : Action) (sub : SubType) (i : ℕ) (p q : Plan) (rest : Plan → Result Plan)
    (tail : List FieldStep)
    → Appends rest tail
    → ◌≡◌ {A = Result Plan}
        (elim a [
          | skip ↦ rest p
          | fail e ↦ error e
          | add k ↦ rest (add_step i k p)
          | set_source (error e) ↦ error e
          | set_source (ok s) ↦ rest (record p { source = some s })
          | plan_sub src on ↦ plan_of_sub src on sub rest i p
        ])
        (ok q)
    → q.steps ≡ p.steps ++ (steps_at i (kind_of a sub) ++ tail)
unfolding add_step plan_of
round-steps skip sub i p q rest tail ih h = ih p q h
round-steps (fail e) sub i p q rest tail ih h = absurd (cc)
round-steps (add k) sub i p q rest tail ih h =
    ih (add_step i k p) q h ∙ append_assoc p.steps (record { idx = i; kind = k } ∷ []) tail
round-steps (set_source (error e)) sub i p q rest tail ih h = absurd (cc)
round-steps (set_source (ok s)) sub i p q rest tail ih h = ih (record p { source = some s }) q h
round-steps (plan_sub src on) no_sub i p q rest tail ih h = absurd (cc)
round-steps (plan_sub src on) (sub_struct t) i p q rest tail ih h =
    sub-steps (plan_of t) i (step_exists src on t) p q rest tail ih h

check_source-steps : (p q : Plan) → check_source p ≡ ok q → q.steps ≡ p.steps
unfolding check_source
check_source-steps p q h = ground arith

plan_of_fields-steps : (fs : FieldList) (i : ℕ) → Appends (plan_of_fields fs i) (steps_from i fs)
unfolding plan_of steps_from
plan_of_fields-steps end i p q h = check_source-steps p q h ∙ sym (append-nil p.steps)
plan_of_fields-steps (field f sub fs) i p q h = rw (← kind_of-source f sub p) (
    round-steps (field_action f p) sub i p q (plan_of_fields fs (suc i)) (steps_from (suc i) fs)
      (plan_of_fields-steps fs (suc i)) h)

pub plan_of-steps :
    (n : ℕ) (fs : FieldList) (p : Plan) → plan_of (struct n fs) ≡ ok p → p.steps ≡ steps_from 0 fs
unfolding plan_of
plan_of-steps n fs p e = plan_of_fields-steps fs 0 empty_plan p e

pub length-snoc :
    (pre : List Contribution) (g : Contribution) → length (pre ++ g ∷ []) ≡ suc (length pre)
length-snoc [] g = refl
length-snoc (f ∷ pre) g = ap suc (length-snoc pre g)

module _ (types : ℕ → StructType) where
  abbrev pub Same : {A : Type 0} → A × PlanCache → A → Type 0
  Same run r = (run.0 ≡ r) × IsValid types run.1

  contribution_at-front :
      (pre : List Contribution) (g : Contribution) (gs : List Contribution) (k : StepKind)
      (c : PlanCache)
      → contribution_at (length pre) (pre ++ g ∷ gs) k c ≡ g k c
  unfolding contribution_at
  contribution_at-front [] g gs k c = refl
  contribution_at-front (f ∷ pre) g gs k c = contribution_at-front pre g gs k c

  contribution_at-beyond :
      (i : ℕ) (pre : List Contribution) (k : StepKind) (c : PlanCache)
      → length pre ≤ i
      → contribution_at i pre k c ≡ ([], c)
  unfolding contribution_at
  contribution_at-beyond i [] k c h = refl
  contribution_at-beyond zero (f ∷ pre) k c h = absurd (omega arith)
  contribution_at-beyond (suc i) (f ∷ pre) k c h = contribution_at-beyond i pre k c (omega arith)

  run_steps-one :
      (pre : List Contribution) (o : Option StepKind) (i : ℕ) (ss : List FieldStep) (c : PlanCache)
      → length pre ≤ i
      → run_steps pre ss c ≡ ([], c)
      → run_steps pre (steps_at i o ++ ss) c ≡ ([], c)
  unfolding run_steps
  run_steps-one pre none i ss c h ih = ih
  run_steps-one pre (some k) i ss c h ih = rw (contribution_at-beyond i pre k c h, ih) refl

  pub run_steps-beyond :
      (pre : List Contribution) (fs : FieldList) (i : ℕ) (c : PlanCache)
      → length pre ≤ i
      → run_steps pre (steps_from i fs) c ≡ ([], c)
  unfolding steps_from
  run_steps-beyond pre end i c h = unfold run_steps in refl
  run_steps-beyond pre (field f sub fs) i c h =
      run_steps-one pre (step_of f sub) i (steps_from (suc i) fs) c h
        (run_steps-beyond pre fs (suc i) c (omega arith))

  -- One field's step, then those behind it.
  run_steps-field :
      (pre : List Contribution) (g : Contribution) (gs : List Contribution) (o : Option StepKind)
      (ss : List FieldStep) (c : PlanCache) (here rest : List Cond)
      → IsValid types c
      → ((k : StepKind) → o ≡ some k → Same (g k c) here)
      → (o ≡ none → here ≡ [])
      → ((c' : PlanCache) → IsValid types c' → Same (run_steps (pre ++ g ∷ gs) ss c') rest)
      → Same (run_steps (pre ++ g ∷ gs) (steps_at (length pre) o ++ ss) c) (here ++ rest)
  unfolding run_steps
  run_steps-field pre g gs none ss c here rest v one empty more = rw (empty refl) (more c v)
  run_steps-field pre g gs (some k) ss c here rest v one empty more =
      let (same, valid) = one k refl in
      let (same', valid') = more (g k c).1 valid in
      rw (contribution_at-front pre g gs k c) (rw (same, same') refl, valid')

  pub run_steps-end :
      (gs : List Contribution) (i : ℕ) (c : PlanCache) → run_steps gs (steps_from i end) c ≡ ([], c)
  unfolding run_steps steps_from
  run_steps-end gs i c = refl

  pub run_steps-fields :
      (pre : List Contribution) (g : Contribution) (gs : List Contribution) (f : FieldInfo)
      (sub : SubType) (fs : FieldList) (c : PlanCache) (here rest : List Cond)
      → IsValid types c
      → ((k : StepKind) → step_of f sub ≡ some k → Same (g k c) here)
      → (step_of f sub ≡ none → here ≡ [])
      → ((c' : PlanCache)
          → IsValid types c'
          → Same (run_steps (pre ++ g ∷ gs) (steps_from (suc (length pre)) fs) c') rest)
      → Same (run_steps (pre ++ g ∷ gs) (steps_from (length pre) (field f sub fs)) c) (here ++ rest)
  unfolding steps_from
  run_steps-fields pre g gs f sub fs c here rest v one empty more =
      run_steps-field pre g gs (step_of f sub) (steps_from (suc (length pre)) fs) c here rest v one
        empty more

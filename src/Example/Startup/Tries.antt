-- ===== src/Example/Startup/Tries.antt =====
-- The tries of `mustConnect` of examples/main.go.
use filtrx.Base.{
  ℕ, zero, suc, ◌+◌, ◌<◌, ◌≡◌, refl, ap, ◌∙◌, ◌⊎◌, inl, inr, Option, none, some, arith,
}
use filtrx.Example.Startup.{Connected, reached, gave_up, connect_from, must_connect}

before_or_now : (j i : ℕ) → j < suc i → (j < i) ⊎ (j ≡ i)
before_or_now j i h = omega arith

module _ {ℓ} {C : Type ℓ} (attempt : ℕ → Option C) where
  -- The first try that succeeds, if one of the first thirty does.
  abbrev pub FirstTry : Connected C → Type ℓ
  FirstTry (reached i c) = (i < 30) × (attempt i ≡ some c) × ((j : ℕ) → j < i → attempt j ≡ none)
  FirstTry (gave_up n) = (n ≡ 30) × ((j : ℕ) → j < 30 → attempt j ≡ none)

  still_failed :
      (i : ℕ)
      → attempt i ≡ none
      → ((j : ℕ) → j < i → attempt j ≡ none)
      → (j : ℕ) → j < suc i
      → attempt j ≡ none
  still_failed i here before j h = elim (before_or_now j i h) [
    | inl earlier ↦ before j earlier
    | inr now ↦ ap attempt now ∙ here
  ]

  round :
      (o : Option C) (left i : ℕ)
      → attempt i ≡ o
      → i < 30
      → ((j : ℕ) → j < i → attempt j ≡ none)
      → (attempt i ≡ none → FirstTry (connect_from attempt left (suc i)))
      → let next : Connected C = elim o [
        | none ↦ connect_from attempt left (suc i)
        | some c ↦ reached i c
      ] in
        FirstTry next
  round none left i e h failed rest = rest e
  round (some c) left i e h failed rest = (h, e, failed)

  connect_from-FirstTry :
      (left i : ℕ)
      → i + left ≡ 30
      → ((j : ℕ) → j < i → attempt j ≡ none)
      → FirstTry (connect_from attempt left i)
  unfolding connect_from
  connect_from-FirstTry zero i e failed =
      let all : i ≡ 30 = omega arith in (all, λ j h. failed j (omega arith))
  connect_from-FirstTry (suc left) i e failed =
      round (attempt i) left i refl (omega arith) failed
        (λ here. connect_from-FirstTry left (suc i) (omega arith) (still_failed i here failed))

  -- The loop of mustConnect ends with at most thirty tries: with the first of them that succeeds, or
  -- by giving up when all thirty have failed.
  pub must_connect-FirstTry : FirstTry (must_connect attempt)
  unfolding must_connect
  must_connect-FirstTry = connect_from-FirstTry 30 0 refl (λ j h. absurd (omega arith))

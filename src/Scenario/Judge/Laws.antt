-- ===== src/Scenario/Judge/Laws.antt =====
-- The failures that an aggregate lists.
use mathlib.Core.Path.{subst}
use octopusgarden.Prelude.{
  [], All, Any, any, AreDistinct, Bool-cases, eq_of_text_eq, false, Float, In, In-sort_texts, inl,
  inr, IsIncreasing, List, sort_texts-IsIncreasing, Text, text_eq, text_eq_refl, true, ◌↔◌, ◌∷◌,
  ◌≡◌, ◌≢◌, ◌⊎◌,
}
use octopusgarden.Scenario.Judge.{
  add_failure, add_failures, aggregate, failure_set, ScoredScenario, ScoredStep, step_failures,
}

fresh : (f : Text) (set : List Text) → any (λ g. text_eq g f) set ≡ false → All (λ t. f ≢ t) set
fresh f [] e = tt
fresh f (g ∷ set) e = elim (Bool-cases (text_eq g f)) [
  | inl same ↦ let both : true ≡ false = rw same at e in cc
  | inr other ↦ (λ k. cc (other, k, text_eq_refl f), fresh f set (rw other at e))
]

AreDistinct-add_failure :
    (f : Text) (set : List Text) → AreDistinct set → AreDistinct (add_failure f set)
unfolding add_failure
AreDistinct-add_failure f set h = elim (Bool-cases (any (λ g. text_eq g f) set)) [
  | inl e ↦ rw e h
  | inr e ↦ rw e (fresh f set e, h)
]

present : (f : Text) (set : List Text) → any (λ g. text_eq g f) set ≡ true → In f set
present f [] e = cc
present f (g ∷ set) e = elim (Bool-cases (text_eq g f)) [
  | inl same ↦ inl (eq_of_text_eq g f same)
  | inr other ↦ inr (present f set (rw other at e))
]

In-add_failure : (g f : Text) (set : List Text) → In g (add_failure f set) ↔ (In g set ⊎ (f ≡ g))
unfolding add_failure
In-add_failure g f set = elim (Bool-cases (any (λ h. text_eq h f) set)) [
  | inl e ↦ rw e (
    λ h. inl h,
    λ h. elim h [ inl k ↦ k | inr same ↦ subst (λ x. In x set) same (present f set e) ],
  )
  | inr e ↦ rw e (
    λ h. elim h [ inl same ↦ inr same | inr k ↦ inl k ],
    λ h. elim h [ inl k ↦ inr k | inr same ↦ inl same ],
  )
]

AreDistinct-add_failures :
    (fs set : List Text) → AreDistinct set → AreDistinct (add_failures set fs)
unfolding add_failures
AreDistinct-add_failures [] set h = h
AreDistinct-add_failures (f ∷ fs) set h =
    AreDistinct-add_failures fs (add_failure f set) (AreDistinct-add_failure f set h)

-- Two equivalences one after the other, on a set that grows.
grow : {A B C D E : Type 0} → A ↔ (B ⊎ C) → B ↔ (D ⊎ E) → A ↔ (D ⊎ (E ⊎ C))
grow (f, f') (g, g') = (
  λ a. elim (f a) [
    | inl b ↦ elim (g b) [ inl d ↦ inl d | inr e ↦ inr (inl e) ]
    | inr c ↦ inr (inr c)
  ],
  λ h. elim h [
    | inl d ↦ f' (inl (g' (inl d)))
    | inr k ↦ elim k [ inl e ↦ f' (inl (g' (inr e))) | inr c ↦ f' (inr c) ]
  ],
)

none_more : {A : Type 0} → A ↔ (A ⊎ ⊥)
none_more = (λ a. inl a, λ h. elim h [ inl a ↦ a | inr e ↦ absurd e ])

In-add_failures :
    (g : Text) (fs set : List Text) → In g (add_failures set fs) ↔ (In g set ⊎ In g fs)
unfolding add_failures
In-add_failures g [] set = none_more
In-add_failures g (f ∷ fs) set =
    grow (In-add_failures g fs (add_failure f set)) (In-add_failure g f set)

module _ {R Failure : Type 0} ⦃F : Float R⦄ where
  AreDistinct-step_failures :
      (steps : List (ScoredStep R Failure)) (set : List Text)
      → AreDistinct set
      → AreDistinct (step_failures set steps)
  unfolding step_failures
  AreDistinct-step_failures [] set h = h
  AreDistinct-step_failures (s ∷ steps) set h =
      AreDistinct-step_failures steps (add_failures set s.step_score.failures)
        (AreDistinct-add_failures s.step_score.failures set h)

  AreDistinct-failure_set :
      (scs : List (ScoredScenario R Failure)) (set : List Text)
      → AreDistinct set
      → AreDistinct (failure_set set scs)
  unfolding failure_set
  AreDistinct-failure_set [] set h = h
  AreDistinct-failure_set (sc ∷ scs) set h =
      AreDistinct-failure_set scs (step_failures set sc.steps)
        (AreDistinct-step_failures sc.steps set h)

  -- `f` is a failure of one of the steps.
  abbrev pub IsStepFailure : Text → List (ScoredStep R Failure) → Type 0
  IsStepFailure f steps = Any (λ s. In f s.step_score.failures) steps

  abbrev pub IsFailureOf : Text → List (ScoredScenario R Failure) → Type 0
  IsFailureOf f scs = Any (λ sc. IsStepFailure f sc.steps) scs

  In-step_failures :
      (g : Text) (steps : List (ScoredStep R Failure)) (set : List Text)
      → In g (step_failures set steps) ↔ (In g set ⊎ IsStepFailure g steps)
  unfolding step_failures
  In-step_failures g [] set = none_more
  In-step_failures g (s ∷ steps) set =
      grow (In-step_failures g steps (add_failures set s.step_score.failures))
        (In-add_failures g s.step_score.failures set)

  In-failure_set :
      (g : Text) (scs : List (ScoredScenario R Failure)) (set : List Text)
      → In g (failure_set set scs) ↔ (In g set ⊎ IsFailureOf g scs)
  unfolding failure_set
  In-failure_set g [] set = none_more
  In-failure_set g (sc ∷ scs) set =
      grow (In-failure_set g scs (step_failures set sc.steps)) (In-step_failures g sc.steps set)

  -- An aggregate lists exactly the failures of the scored steps, each once and in increasing order.
  pub aggregate-IsIncreasing :
      (scs : List (ScoredScenario R Failure))
      → IsIncreasing (aggregate scs).failures
        × ((f : Text) → In f (aggregate scs).failures ↔ IsFailureOf f scs)
  unfolding aggregate
  aggregate-IsIncreasing [] = (tt, λ f. (λ h. h, λ h. h))
  aggregate-IsIncreasing (sc ∷ scs) = (
    sort_texts-IsIncreasing (failure_set [] (sc ∷ scs)) (AreDistinct-failure_set (sc ∷ scs) [] tt),
    λ f.
        let (sorted, unsorted) = In-sort_texts f (failure_set [] (sc ∷ scs)) in
        let (found, there) = In-failure_set f (sc ∷ scs) [] in
        (
          λ h. elim (found (sorted h)) [ inl e ↦ absurd e | inr k ↦ k ],
          λ h. unsorted (there (inr h)),
        ),
  )

-- ===== src/Scenario/Tiers/Laws.antt =====
-- The tier of a scenario: its range, and that it does not fall when the scenario grows.
use octopusgarden.Prelude.{
  ◌++◌, [], arith, Bool-cases, false, Float, inl, inr, is_empty, length, List, none, Option, refl,
  some, Text, true, ◌∷◌, ◌≡◌, ◌≢◌, ◌≤◌, ◌⊎◌,
}
use octopusgarden.Scenario.Types.{Scenario, Step, step_type}
use octopusgarden.Scenario.Tiers.{
  add_type, check_id, Complexity, complexity, count_step, default_weight, empty_scenario,
  infer_tier, LoadError, missing_id, no_steps, parse_failed, parse_scenario, tier_of,
  apply_defaults,
}

module _ {R : Type 0} where
  complexity-append :
      (c : Complexity) (steps : List (Step R)) (s : Step R)
      → complexity c (steps ++ s ∷ []) ≡ count_step (complexity c steps) s
  unfolding complexity
  complexity-append c [] s = refl
  complexity-append c (t ∷ steps) s = complexity-append (count_step c t) steps s

length-add_type : (t : Text) (types : List Text) → length types ≤ length (add_type t types)
unfolding add_type
length-add_type t types = ground arith

tier_of-range : (c : Complexity) → (1 ≤ tier_of c) × (tier_of c ≤ 3)
unfolding tier_of
tier_of-range c = ground arith

-- A complexity that counts no less has no lower tier.
tier_of_mono :
    (c d : Complexity)
    → c.steps_with_captures ≤ d.steps_with_captures
    → c.score ≤ d.score
    → length c.types ≤ length d.types
    → tier_of c ≤ tier_of d
unfolding tier_of
tier_of_mono c d captures scores kinds = ground arith

module _ {R : Type 0} where
  -- A tier is 1, 2 or 3, and one more step at the end never lowers it.
  pub infer_tier_mono :
      (steps : List (Step R)) (s : Step R)
      → (1 ≤ infer_tier steps)
        × (infer_tier steps ≤ infer_tier (steps ++ s ∷ []))
        × (infer_tier (steps ++ s ∷ []) ≤ 3)
  unfolding infer_tier
  infer_tier_mono steps s = (
    (tier_of-range (complexity no_steps steps)).0,
    rw complexity-append (
        tier_of_mono (complexity no_steps steps) (count_step (complexity no_steps steps) s)
          (omega arith) (omega arith)
          (length-add_type (step_type s) (complexity no_steps steps).types)),
    (tier_of-range (complexity no_steps (steps ++ s ∷ []))).1,
  )

is_empty-false : (s : Text) → is_empty s ≡ false → s ≢ []
is_empty-false [] h k = cc
is_empty-false (c ∷ s) h k = cc

is_empty-true : (s : Text) → is_empty s ≡ true → s ≡ []
is_empty-true [] h = refl
is_empty-true (c ∷ s) h = cc

module _ {R : Type 0} ⦃F : Float R⦄ where
  -- Which content gives which error, and what a scenario has that is loaded.
  abbrev pub IsLoadOf : (Text → Option (Scenario R)) → Text → LoadError ⊎ Scenario R → Type 0
  IsLoadOf unmarshal content (inl empty_scenario) = content ≡ []
  IsLoadOf unmarshal content (inl parse_failed) = unmarshal content ≡ none
  IsLoadOf unmarshal content (inl missing_id) =
      (s : Scenario R) × (unmarshal content ≡ some s) × (s.id ≡ [])
  IsLoadOf unmarshal content (inr s) = (s.id ≢ []) × (s.weight ≢ none) × (1 ≤ s.tier)

  weight-default_weight : (w : Option R) → default_weight w ≢ none
  weight-default_weight none h = cc
  weight-default_weight (some w) h = cc

  tier-apply_defaults : (s : Scenario R) → 1 ≤ (apply_defaults s).tier
  unfolding apply_defaults infer_tier
  tier-apply_defaults s = ground (arith, (tier_of-range (complexity no_steps s.steps)).0)

  check_id-IsLoadOf :
      (unmarshal : Text → Option (Scenario R)) (content : Text) (o : Option (Scenario R))
      → unmarshal content ≡ o
      → IsLoadOf unmarshal content (check_id o)
  unfolding check_id
  check_id-IsLoadOf unmarshal content none h = h
  check_id-IsLoadOf unmarshal content (some s) h = elim (Bool-cases (is_empty s.id)) [
    | inl e ↦ rw e (s, h, is_empty-true s.id e)
    | inr e ↦ rw e (apply_defaults-IsLoadOf s (is_empty-false s.id e))
  ]
    where
      apply_defaults-IsLoadOf :
          (t : Scenario R) → t.id ≢ [] → IsLoadOf unmarshal content (inr (apply_defaults t))
      apply_defaults-IsLoadOf t k = (k, weight-default_weight t.weight, tier-apply_defaults t)

  -- Loading fails on a file without content, one that is no YAML of a scenario, and one without an
  -- id; a scenario that is loaded has an id, a weight and a tier above 0.
  pub parse_scenario-IsLoadOf :
      (unmarshal : Text → Option (Scenario R)) (content : Text)
      → IsLoadOf unmarshal content (parse_scenario unmarshal content)
  unfolding parse_scenario
  parse_scenario-IsLoadOf unmarshal [] = refl
  parse_scenario-IsLoadOf unmarshal (c ∷ content) =
      check_id-IsLoadOf unmarshal (c ∷ content) (unmarshal (c ∷ content)) refl

-- ===== src/Scenario/Tiers/Tests.antt =====
-- The tiers of the small steps.
use octopusgarden.Prelude.{[], Option, refl, some, Text, ℕ, ◌∷◌, ◌≡◌}
use octopusgarden.Scenario.Types.{Scenario, step_type}
use octopusgarden.Scenario.Tiers.{add_type, complexity, count_step, infer_tier, tier_of}
use octopusgarden.Scenario.Runner.Samples.{retried_step, small_scenario, typeless_step}

abbrev as_small : Text → Option (Scenario ℕ)
as_small content = some small_scenario

mixed_steps : infer_tier (retried_step ∷ typeless_step ∷ []) ≡ 2
unfolding infer_tier complexity tier_of count_step add_type step_type
mixed_steps = refl

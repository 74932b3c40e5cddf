-- ===== src/Scenario/Judge/Tests.antt =====
-- The scores of a small run.
use octopusgarden.Scenario.Variables.{apply_captures, resolve_capture}
use octopusgarden.Prelude.{
  [], codes, In, inl, inr, IsIncreasing, lookup, none, refl, some, suc, Text, whole, ℕ, ◌↔◌, ◌∷◌,
  ◌≡◌, ◌≢◌,
}
use octopusgarden.Scenario.Types.{step_type}
use octopusgarden.Scenario.Execution.{execute_step, unknown_step_type}
use octopusgarden.Scenario.Runner.{Result, run_scenario, StepResult}
use octopusgarden.Scenario.Runner.Samples.{small_env, small_scenario}
use octopusgarden.Scenario.Judge.{
  aggregate, JudgeEnv, score_scenario, ScoredScenario, step_count_mismatch, StepScore,
}
use octopusgarden.Scenario.Judge.Laws.{aggregate-IsIncreasing, IsFailureOf}
use octopusgarden.Scenario.Judge.Scored.{
  IsScoringOf, score_scenario-IsScoringOf, score_scenario-run_scenario,
}

abbrev half : StepScore ℕ
half = record {
  score = 50;
  reasoning = [];
  failures = codes "slow" ∷ codes "late" ∷ codes "slow" ∷ [];
  diagnostics = [];
  cost_usd = 2;
}

abbrev judge : JudgeEnv ℕ ℕ ℕ
judge = record { llm_judge = λ prompt w. (some half, suc w); error_text = λ e. [] }

abbrev said : StepResult ℕ
said = record {
  description = codes "say hello";
  type_name = codes "exec";
  observed = codes "hello";
  capture_body = codes "hello";
  err = none;
}

abbrev not_said : StepResult ℕ
not_said = record {
  description = codes "nothing";
  type_name = [];
  observed = [];
  capture_body = [];
  err = some unknown_step_type;
}

abbrev small_result : Result ℕ
small_result = record { scenario_id = codes "small"; steps = said ∷ not_said ∷ [] }

abbrev scored_small : ScoredScenario ℕ ℕ
scored_small = record {
  scenario_id = codes "small";
  weight = 1;
  steps = record { step_result = said; step_score = half } ∷ [];
  score = 50;
}

runs_small : (run_scenario small_env 0 small_scenario 0).0 ≡ inr small_result
unfolding run_scenario step_type lookup execute_step apply_captures resolve_capture
runs_small = refl

score_scenario-IsScoringOf_example :
    IsScoringOf ⦃F = whole⦄ judge small_scenario small_result
      (score_scenario judge small_scenario small_result 0).0
score_scenario-IsScoringOf_example = score_scenario-IsScoringOf judge small_scenario small_result 0

score_scenario-run_scenario_example :
    (score_scenario judge small_scenario small_result 0).0 ≢ inl (step_count_mismatch 2 1)
score_scenario-run_scenario_example =
    score_scenario-run_scenario judge small_env 0 small_scenario 0 small_result 0 2 1 runs_small

aggregate-IsIncreasing_example :
    IsIncreasing (aggregate (scored_small ∷ [])).failures
    × ((f : Text)
        → In f (aggregate (scored_small ∷ [])).failures ↔ IsFailureOf f (scored_small ∷ []))
aggregate-IsIncreasing_example = aggregate-IsIncreasing (scored_small ∷ [])

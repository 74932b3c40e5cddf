-- ===== src/Scenario/Judge.antt =====
-- internal/scenario/judge.go and result.go: the scores of a scenario's steps and their averages.
-- `W` is the state of the outside world. A score, which is an int, is held as the float64 that it is
-- summed as. Logging and the texts of errors are left out.
pub mod Laws
pub mod Scored
mod Tests
use octopusgarden.Prelude.{
  ◌*ᶠ◌, ◌++◌, ◌+ᶠ◌, ◌/ᶠ◌, ◌==◌, [], any, codes, Float, flt, if◌then◌else◌, inl, inr, length, List,
  none, of_nat, Option, replace_all, some, sort_texts, suc, Text, text_eq, ℕ, ◌∷◌, ◌⊎◌,
}
use octopusgarden.Scenario.Types.{Scenario, Step}
use octopusgarden.Scenario.Execution.{StepError}
use octopusgarden.Scenario.Runner.{Result, StepResult}

-- llm.Diagnostic
pub record Diagnostic : Type 0 where
  pub category : Text
  pub detail : Text

pub record StepScore (R : Type 0) : Type 0 where
  pub score : R
  pub reasoning : Text
  pub failures : List Text
  pub diagnostics : List Diagnostic
  pub cost_usd : R

pub record ScoredStep (R Failure : Type 0) : Type 0 where
  pub step_result : StepResult Failure
  pub step_score : StepScore R

pub record ScoredScenario (R Failure : Type 0) : Type 0 where
  pub scenario_id : Text
  pub weight : R
  pub steps : List (ScoredStep R Failure)
  pub score : R

pub record AggregateResult (R Failure : Type 0) : Type 0 where
  pub scenarios : List (ScoredScenario R Failure)
  pub satisfaction : R
  pub total_cost_usd : R
  pub failures : List Text

pub data JudgeError : Type 0 where
  step_count_mismatch : (scenario result : ℕ) → JudgeError
  score_failed : (step : ℕ) → JudgeError

-- What the judge calls: j.LLM.Judge on a user prompt, with `none` for its error, and the text of an
-- error of a step.
pub record JudgeEnv (W R Failure : Type 0) : Type 0 where
  pub llm_judge : Text → W → Option (StepScore R) × W
  pub error_text : StepError Failure → Text

-- llm.SatisfactionJudgeUser
abbrev pub satisfaction_judge_user : Text
satisfaction_judge_user =
    codes
      "Scenario: {scenario_description}\nStep: {step_description}\n\nExpected behavior: {expected}\n\nActual observed behavior:\n{observed}"

module _ {R : Type 0} ⦃F : Float R⦄ where
  abbrev pub weight_or_one : Option R → R
  weight_or_one none = of_nat 1
  weight_or_one (some weight) = weight

module _ {R Failure : Type 0} ⦃F : Float R⦄ where
  abbrev pub sum_from : R → List (ScoredStep R Failure) → R
  sum_from total [] = total
  sum_from total (s ∷ scored) = sum_from (total +ᶠ s.step_score.score) scored

  unfoldable pub average : List (ScoredStep R Failure) → R
  average [] = of_nat 0
  average (s ∷ scored) = sum_from (of_nat 0) (s ∷ scored) /ᶠ of_nat (length (s ∷ scored))

-- failureSet[f] = struct{}{}
unfoldable pub add_failure : Text → List Text → List Text
add_failure f set = if any (λ g. text_eq g f) set then set else f ∷ set

unfoldable pub add_failures : List Text → List Text → List Text
unfolding add_failure
add_failures set [] = set
add_failures set (f ∷ fs) = add_failures (add_failure f set) fs

module _ {W R Failure : Type 0} ⦃F : Float R⦄ (env : JudgeEnv W R Failure) where
  unfoldable pub judge_prompt : Scenario R → Step R → (observed : Text) → Text
  judge_prompt sc step observed =
      let described =
        replace_all (codes "{scenario_description}") sc.description satisfaction_judge_user in
      let with_step = replace_all (codes "{step_description}") step.description described in
      let expecting = replace_all (codes "{expected}") step.expect with_step in
      replace_all (codes "{observed}") observed expecting

  unfoldable pub judge_step : Scenario R → Step R → (observed : Text) → W → Option (StepScore R) × W
  unfolding judge_prompt
  judge_step sc step observed w = env.llm_judge (judge_prompt sc step observed) w

  -- An execution that failed scores 0 without a call of the LLM.
  unfoldable pub score_step :
      Scenario R → Step R → Text → Option (StepError Failure) → W → Option (StepScore R) × W
  unfolding judge_step
  score_step sc step observed (some e) w = (
    some (record {
      score = of_nat 0;
      reasoning = codes "step execution failed: " ++ env.error_text e;
      failures = [];
      diagnostics = [];
      cost_usd = of_nat 0;
    }),
    w,
  )
  score_step sc step observed none w = judge_step sc step observed w

  unfoldable pub scored_before :
      StepResult Failure
      → StepScore R
      → (JudgeError ⊎ List (ScoredStep R Failure)) × W
      → (JudgeError ⊎ List (ScoredStep R Failure)) × W
  scored_before result s (inl e, w) = (inl e, w)
  scored_before result s (inr scored, w) =
      (inr (record { step_result = result; step_score = s } ∷ scored), w)

  unfoldable pub and_score :
      (i : ℕ)
      → StepResult Failure
      → (W → (JudgeError ⊎ List (ScoredStep R Failure)) × W)
      → Option (StepScore R) × W
      → (JudgeError ⊎ List (ScoredStep R Failure)) × W
  unfolding scored_before
  and_score i result next (none, w) = (inl (score_failed i), w)
  and_score i result next (some s, w) = scored_before result s (next w)

  -- The loop over the results, from the index i.
  unfoldable pub score_steps :
      Scenario R
      → (i : ℕ) → List (Step R)
      → List (StepResult Failure)
      → W
      → (JudgeError ⊎ List (ScoredStep R Failure)) × W
  unfolding and_score score_step
  score_steps sc i steps [] w = (inr [], w)
  score_steps sc i [] (r ∷ results) w = (inr [], w)  -- not reached: the numbers of both agree
  score_steps sc i (step ∷ steps) (r ∷ results) w =
      and_score i r (score_steps sc (suc i) steps results) (score_step sc step r.observed r.err w)

  unfoldable pub scored_scenario :
      Scenario R
      → (JudgeError ⊎ List (ScoredStep R Failure)) × W
      → (JudgeError ⊎ ScoredScenario R Failure) × W
  unfolding average
  scored_scenario sc (inl e, w) = (inl e, w)
  scored_scenario sc (inr scored, w) = (
    inr (record {
      scenario_id = sc.id;
      weight = weight_or_one sc.weight;
      steps = scored;
      score = average scored;
    }),
    w,
  )

  unfoldable pub score_scenario :
      Scenario R → Result Failure → W → (JudgeError ⊎ ScoredScenario R Failure) × W
  unfolding score_steps scored_scenario
  score_scenario sc result w =
      if length result.steps == length sc.steps
      then scored_scenario sc (score_steps sc 0 sc.steps result.steps w)
      else (inl (step_count_mismatch (length sc.steps) (length result.steps)), w)

module _ {R Failure : Type 0} ⦃F : Float R⦄ where
  abbrev pub step_costs : R → List (ScoredStep R Failure) → R
  step_costs total [] = total
  step_costs total (s ∷ steps) = step_costs (total +ᶠ s.step_score.cost_usd) steps

  abbrev pub total_weight : R → List (ScoredScenario R Failure) → R
  total_weight total [] = total
  total_weight total (sc ∷ scs) = total_weight (total +ᶠ sc.weight) scs

  abbrev pub weighted_sum : R → List (ScoredScenario R Failure) → R
  weighted_sum total [] = total
  weighted_sum total (sc ∷ scs) = weighted_sum (total +ᶠ sc.score *ᶠ sc.weight) scs

  abbrev pub total_cost : R → List (ScoredScenario R Failure) → R
  total_cost total [] = total
  total_cost total (sc ∷ scs) = total_cost (step_costs total sc.steps) scs

  unfoldable pub step_failures : List Text → List (ScoredStep R Failure) → List Text
  unfolding add_failures
  step_failures set [] = set
  step_failures set (s ∷ steps) = step_failures (add_failures set s.step_score.failures) steps

  unfoldable pub failure_set : List Text → List (ScoredScenario R Failure) → List Text
  unfolding step_failures
  failure_set set [] = set
  failure_set set (sc ∷ scs) = failure_set (step_failures set sc.steps) scs

  unfoldable pub aggregate : List (ScoredScenario R Failure) → AggregateResult R Failure
  unfolding failure_set
  aggregate [] = record {
    scenarios = [];
    satisfaction = of_nat 0;
    total_cost_usd = of_nat 0;
    failures = [];
  }
  aggregate (sc ∷ scs) =
      let weight = total_weight (of_nat 0) (sc ∷ scs) in
      record {
        scenarios = sc ∷ scs;
        satisfaction =
            if flt (of_nat 0) weight
            then weighted_sum (of_nat 0) (sc ∷ scs) /ᶠ weight
            else of_nat 0;
        total_cost_usd = total_cost (of_nat 0) (sc ∷ scs);
        failures = sort_texts (failure_set [] (sc ∷ scs));
      }

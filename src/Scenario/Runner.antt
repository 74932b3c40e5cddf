-- ===== src/Scenario/Runner.antt =====
-- internal/scenario/runner.go: the steps of a scenario, run one after the other. Logging and the
-- durations of the results are left out.
pub mod Laws
pub mod Samples
mod Tests
use octopusgarden.Prelude.{[], Dict, inl, inr, List, none, Option, some, suc, Text, ℕ, ◌∷◌, ◌⊎◌}
use octopusgarden.Scenario.Types.{Scenario, Step, step_type, StepOutput}
use octopusgarden.Scenario.Variables.{apply_captures, CaptureError}
use octopusgarden.Scenario.Execution.{
  apply_delay, Env, execute_step, Executor, no_output, Outcome, resolve_executor, StepError,
}

-- The setup step that failed, and why.
pub data ScenarioError (Failure : Type 0) : Type 0 where
  setup_failed : (step : ℕ) (description : Text) → StepError Failure → ScenarioError Failure
  setup_capture_failed : (step : ℕ) → CaptureError → ScenarioError Failure

pub record StepResult (Failure : Type 0) : Type 0 where
  pub description : Text
  pub type_name : Text
  pub observed : Text
  pub capture_body : Text
  pub err : Option (StepError Failure)

pub record Result (Failure : Type 0) : Type 0 where
  pub scenario_id : Text
  pub steps : List (StepResult Failure)

module _ {W C D R Failure : Type 0} (env : Env W C D R Failure) where
  -- The delay of a step, its executor and its execution, up to the first error.
  unfoldable pub perform_with :
      C → Step R → Dict Text → StepError Failure ⊎ Executor W C R Failure → W → Outcome W Failure
  perform_with ctx step vars (inl e) w = ((no_output, some e), w)
  perform_with ctx step vars (inr executor) w = execute_step env ctx executor step vars w

  unfoldable pub perform_after :
      C → Step R → Dict Text → Option (StepError Failure) × W → Outcome W Failure
  unfolding perform_with resolve_executor
  perform_after ctx step vars (some e, w) = ((no_output, some e), w)
  perform_after ctx step vars (none, w) = perform_with ctx step vars (resolve_executor env step) w

  unfoldable pub perform : C → Step R → Dict Text → W → Outcome W Failure
  unfolding perform_after apply_delay
  perform ctx step vars w = perform_after ctx step vars (apply_delay env ctx step.delay w)

  -- The variables after a setup step, or the error that ends the run.
  unfoldable pub setup_captured :
      (i : ℕ) → Dict Text × Option CaptureError → ScenarioError Failure ⊎ Dict Text
  setup_captured i (vars, none) = inr vars
  setup_captured i (vars, some e) = inl (setup_capture_failed i e)

  unfoldable pub setup_done :
      (i : ℕ) → Step R → Dict Text → Outcome W Failure → (ScenarioError Failure ⊎ Dict Text) × W
  unfolding setup_captured
  setup_done i step vars ((output, some e), w) = (inl (setup_failed i step.description e), w)
  setup_done i step vars ((output, none), w) =
      (setup_captured i (apply_captures env.eval_path step.capture output vars), w)

  unfoldable pub after_setup :
      (Dict Text → W → (ScenarioError Failure ⊎ Dict Text) × W)
      → (ScenarioError Failure ⊎ Dict Text) × W
      → (ScenarioError Failure ⊎ Dict Text) × W
  after_setup next (inl e, w) = (inl e, w)
  after_setup next (inr vars, w) = next vars w

  unfoldable pub run_setup :
      C → (i : ℕ) → List (Step R) → Dict Text → W → (ScenarioError Failure ⊎ Dict Text) × W
  unfolding after_setup setup_done perform
  run_setup ctx i [] vars w = (inr vars, w)
  run_setup ctx i (step ∷ steps) vars w =
      after_setup (run_setup ctx (suc i) steps) (setup_done i step vars (perform ctx step vars w))

  abbrev pub step_result_of : Step R → StepOutput → Option (StepError Failure) → StepResult Failure
  step_result_of step output e = record {
    description = step.description;
    type_name = step_type step;
    observed = output.observed;
    capture_body = output.capture_body;
    err = e;
  }

  -- The captures of a judged step that was executed; an error of them is only logged.
  abbrev pub vars_after : Step R → Dict Text → StepOutput → Option (StepError Failure) → Dict Text
  vars_after step vars output none = (apply_captures env.eval_path step.capture output vars).0
  vars_after step vars output (some e) = vars

  unfoldable pub step_judged :
      Step R
      → Dict Text
      → (Dict Text → W → List (StepResult Failure) × W)
      → Outcome W Failure
      → List (StepResult Failure) × W
  step_judged step vars next ((output, e), w) =
      let (results, after) = next (vars_after step vars output e) w in
      (step_result_of step output e ∷ results, after)

  unfoldable pub run_steps : C → List (Step R) → Dict Text → W → List (StepResult Failure) × W
  unfolding step_judged perform
  run_steps ctx [] vars w = ([], w)
  run_steps ctx (step ∷ steps) vars w =
      step_judged step vars (run_steps ctx steps) (perform ctx step vars w)

  unfoldable pub run_judged :
      C
      → Scenario R
      → (ScenarioError Failure ⊎ Dict Text) × W
      → (ScenarioError Failure ⊎ Result Failure) × W
  unfolding run_steps
  run_judged ctx sc (inl e, w) = (inl e, w)
  run_judged ctx sc (inr vars, w) =
      let (results, after) = run_steps ctx sc.steps vars w in
      (inr (record { scenario_id = sc.id; steps = results }), after)

  unfoldable pub run_scenario : C → Scenario R → W → (ScenarioError Failure ⊎ Result Failure) × W
  unfolding run_judged run_setup
  run_scenario ctx sc w = run_judged ctx sc (run_setup ctx 0 sc.setup [] w)

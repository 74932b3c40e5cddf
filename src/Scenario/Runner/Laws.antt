-- ===== src/Scenario/Runner/Laws.antt =====
-- The results of a run, the errors of its setup, and the number of executions of a retry.
use octopusgarden.Prelude.{
  ◌+◌, [], ap, arith, Dict, get_elem?, inl, inr, List, map, none, Option, refl, some, suc, Text, ℕ,
  ◌∷◌, ◌≡◌, ◌⊎◌,
}
use octopusgarden.Scenario.Types.{Scenario, Step, step_type}
use octopusgarden.Scenario.Variables.{apply_captures, CaptureError}
use octopusgarden.Scenario.Execution.{Env, Outcome}
use octopusgarden.Scenario.Runner.{
  after_setup, perform, Result, run_judged, run_scenario, run_setup, run_steps, ScenarioError,
  setup_capture_failed, setup_captured, setup_done, setup_failed, step_judged, StepResult,
  vars_after,
}

-- What a result keeps of its step.
abbrev pub labels : {R : Type 0} → List (Step R) → List (Text × Text)
labels steps = map (λ s. (s.description, step_type s)) steps

abbrev pub labels_of : {Failure : Type 0} → List (StepResult Failure) → List (Text × Text)
labels_of results = map (λ r. (r.description, r.type_name)) results

-- An error of the setup names one of its steps.
abbrev pub IsSetupError :
    {R Failure : Type 0} → (from : ℕ) → List (Step R) → ScenarioError Failure → Type 0
IsSetupError {R = R} from steps (setup_failed i description e) =
    (k : ℕ) × (s : Step R) × (i ≡ from + k)
    × (get_elem? steps k ≡ some s)
    × (description ≡ s.description)
IsSetupError {R = R} from steps (setup_capture_failed i e) =
    (k : ℕ) × (s : Step R) × (i ≡ from + k) × (get_elem? steps k ≡ some s)

module _ {W C D R Failure : Type 0} (env : Env W C D R Failure) where
  step_judged-labels :
      (step : Step R) (steps : List (Step R)) (vars : Dict Text)
      (next : Dict Text → W → List (StepResult Failure) × W)
      → ((vs : Dict Text) (v : W) → labels_of (next vs v).0 ≡ labels steps)
      → (o : Outcome W Failure)
      → labels_of (step_judged env step vars next o).0 ≡ labels (step ∷ steps)
  unfolding step_judged
  step_judged-labels step steps vars next h ((output, e), v) =
      ap (λ x. (step.description, step_type step) ∷ x) (h (vars_after env step vars output e) v)

  run_steps-labels :
      (ctx : C) (steps : List (Step R)) (vars : Dict Text) (w : W)
      → labels_of (run_steps env ctx steps vars w).0 ≡ labels steps
  unfolding run_steps
  run_steps-labels ctx [] vars w = refl
  run_steps-labels ctx (step ∷ steps) vars w =
      step_judged-labels step steps vars (run_steps env ctx steps)
        (λ vs v. run_steps-labels ctx steps vs v) (perform env ctx step vars w)

  IsSetupError-shift :
      (i : ℕ) (step : Step R) (steps : List (Step R)) (e : ScenarioError Failure)
      → IsSetupError (suc i) steps e
      → IsSetupError i (step ∷ steps) e
  IsSetupError-shift i step steps (setup_failed n d e) (k, s, same, found, named) =
      (suc k, s, omega (arith, same), found, named)
  IsSetupError-shift i step steps (setup_capture_failed n e) (k, s, same, found) =
      (suc k, s, omega (arith, same), found)

  -- What the setup gives: the variables, or an error of one of the steps.
  abbrev IsSetupOf : (from : ℕ) → List (Step R) → ScenarioError Failure ⊎ Dict Text → Type 0
  IsSetupOf from steps (inl e) = IsSetupError from steps e
  IsSetupOf from steps (inr vars) = Unit

  IsSetupOf-shift :
      (i : ℕ) (step : Step R) (steps : List (Step R)) (r : ScenarioError Failure ⊎ Dict Text)
      → IsSetupOf (suc i) steps r
      → IsSetupOf i (step ∷ steps) r
  IsSetupOf-shift i step steps (inl e) h = IsSetupError-shift i step steps e h
  IsSetupOf-shift i step steps (inr vars) h = tt

  module _ (i : ℕ) (step : Step R) (steps : List (Step R))
      (next : Dict Text → W → (ScenarioError Failure ⊎ Dict Text) × W)
      (h : (vs : Dict Text) (v : W) → IsSetupOf (suc i) steps (next vs v).0) where
    setup_captured-IsSetupOf :
        (c : Dict Text × Option CaptureError) (v : W)
        → IsSetupOf i (step ∷ steps) (after_setup env next (setup_captured env i c, v)).0
    unfolding after_setup setup_captured
    setup_captured-IsSetupOf (vs, none) v = IsSetupOf-shift i step steps (next vs v).0 (h vs v)
    setup_captured-IsSetupOf (vs, some e) v = (0, step, omega arith, refl)

    setup_done-IsSetupOf :
        (vars : Dict Text) (o : Outcome W Failure)
        → IsSetupOf i (step ∷ steps) (after_setup env next (setup_done env i step vars o)).0
    unfolding after_setup setup_done
    setup_done-IsSetupOf vars ((output, some e), v) = (0, step, omega arith, refl, refl)
    setup_done-IsSetupOf vars ((output, none), v) =
        setup_captured-IsSetupOf (apply_captures env.eval_path step.capture output vars) v

  run_setup-IsSetupOf :
      (ctx : C) (i : ℕ) (steps : List (Step R)) (vars : Dict Text) (w : W)
      → IsSetupOf i steps (run_setup env ctx i steps vars w).0
  unfolding run_setup
  run_setup-IsSetupOf ctx i [] vars w = tt
  run_setup-IsSetupOf ctx i (step ∷ steps) vars w =
      setup_done-IsSetupOf i step steps (run_setup env ctx (suc i) steps)
        (λ vs v. run_setup-IsSetupOf ctx (suc i) steps vs v) vars (perform env ctx step vars w)

  -- A run gives the result of every judged step in the order of the steps, or the error of a step of
  -- the setup.
  abbrev pub IsRunOf : Scenario R → ScenarioError Failure ⊎ Result Failure → Type 0
  IsRunOf sc (inl e) = IsSetupError 0 sc.setup e
  IsRunOf sc (inr res) = (res.scenario_id ≡ sc.id) × (labels_of res.steps ≡ labels sc.steps)

  -- A run either fails with an error that names one of the setup steps, by its index and
  -- description, or gives one result for each judged step, with its description and type and in the
  -- order of the steps, whatever the steps did.
  pub run_scenario-IsRunOf :
      (ctx : C) (sc : Scenario R) (w : W) → IsRunOf sc (run_scenario env ctx sc w).0
  unfolding run_scenario run_judged
  run_scenario-IsRunOf ctx sc w =
      judged (run_setup env ctx 0 sc.setup [] w) (run_setup-IsSetupOf ctx 0 sc.setup [] w)
    where
      judged :
          (r : (ScenarioError Failure ⊎ Dict Text) × W)
          → IsSetupOf 0 sc.setup r.0
          → IsRunOf sc (run_judged env ctx sc r).0
      judged (inl e, v) h = h
      judged (inr vars, v) h = (refl, run_steps-labels ctx sc.steps vars v)

-- ===== src/Attractor/Composed/Component.antt =====
-- convergeComponent, componentIteration, evaluateComponent and buildAndValidateComponent of
-- attractor.go. The texts of the feedback go into prompts only and are left out.
use octopusgarden.Prelude.{
  ◌+◌, ◌++◌, [], Bool, Dict, false, fge, Float, flt, if◌then◌else◌, leb, List, none, of_nat, Option,
  some, suc, Text, true, zero, ℕ, ◌∷◌,
}
use octopusgarden.Attractor.FileParse.{merge_files, panics, parse_files, parsed, Parsed}
use octopusgarden.Attractor.Regression.{parse_failed_scenarios}
use octopusgarden.Attractor.Loop.State.{
  build_error, determine_fidelity, FeedbackKind, is_budget_exceeded, IterationFeedback, parse_error,
  unset, validation,
}
use octopusgarden.Attractor.Loop.World.{
  ◌>>◌, ◌>>=◌, Action, call, code, GenerateResponse, get, parser_panic, pure, throw, Validation,
  World,
}
use octopusgarden.Attractor.Loop.Generation.{charge}
use octopusgarden.Attractor.Composed.Serving.{ask_validator, built_and_served, Validator}

pub record ComponentLoopState (R : Type 0) : Type 0 where
  pub history : List (IterationFeedback R)
  pub stall_count : ℕ
  pub best_score : R
  pub best_files : Option (Dict Text)

pub data ComponentError : Type 0 where
  component_budget component_stalled component_generation component_writing : ComponentError

-- componentIteration returns files, nothing, or an error.
pub data Attempt (R : Type 0) : Type 0 where
  arrived : Dict Text → Attempt R
  goes_on : ComponentLoopState R → Attempt R
  gave_up : ComponentError → Attempt R

pub data ComponentResult : Type 0 where
  component_files : Dict Text → ComponentResult
  component_failed : ComponentError → ComponentResult

abbrev pub component_mini_loop_max_iter : ℕ
component_mini_loop_max_iter = 5

abbrev pub component_mini_loop_stall_limit : ℕ
component_mini_loop_stall_limit = 2

module _ {R : Type 0} ⦃F : Float R⦄ where
  abbrev pub new_component_loop_state : ComponentLoopState R
  new_component_loop_state = record {
    history = [];
    stall_count = 0;
    best_score = of_nat 0;
    best_files = none;
  }

  unfoldable pub record_component_stall :
      ℕ → FeedbackKind → ComponentLoopState R → ComponentLoopState R
  record_component_stall iter kind cs = record cs {
    stall_count = cs.stall_count + 1;
    history =
        cs.history
        ++ (record { iteration = iter; kind = kind; fidelity = unset; failed_scenarios = [] }) ∷ [];
  }

  unfoldable pub record_component_score :
      Dict Text → R → ComponentLoopState R → ComponentLoopState R
  record_component_score fs satisfaction cs =
      if flt cs.best_score satisfaction
      then record cs { best_score = satisfaction; best_files = some fs; stall_count = 0 }
      else record cs { stall_count = cs.stall_count + 1 }

  unfoldable pub record_component_feedback :
      ℕ → List Text → ComponentLoopState R → ComponentLoopState R
  record_component_feedback iter failures cs = record cs {
    history =
        cs.history
        ++ (record {
          iteration = iter;
          kind = validation;
          fidelity = determine_fidelity iter cs.stall_count;
          failed_scenarios = parse_failed_scenarios failures;
        })
          ∷ [];
  }

  -- evaluateComponent, given the answer of buildAndValidateComponent.
  unfoldable pub judge_component :
      (threshold : R) → ℕ → Dict Text → ComponentLoopState R → Option (Validation R) → Attempt R
  unfolding record_component_stall record_component_score record_component_feedback
  judge_component threshold iter fs cs none = goes_on (record_component_stall iter build_error cs)
  judge_component threshold iter fs cs (some v) =
      if fge v.satisfaction threshold
      then arrived fs
      else goes_on
          (record_component_feedback iter v.failures (record_component_score fs v.satisfaction cs))

module _ {W R : Type 0} ⦃F : Float R⦄ (world : World W R) where
  unfoldable pub build_and_validate_component : Validator W R → Action W R (Option (Validation R))
  build_and_validate_component validate = built_and_served world none (ask_validator validate)

  unfoldable pub evaluate_component :
      ℕ → Dict Text → Validator W R → ComponentLoopState R → Action W R (Attempt R)
  unfolding judge_component build_and_validate_component
  evaluate_component iter fs validate cs = do
    checked ← build_and_validate_component validate
    s ← get
    pure (judge_component s.opts.threshold iter fs cs checked)

module _ {W R : Type 0} ⦃F : Float R⦄ (world : World W R) (validator : Option (Validator W R))
    (base_files : Dict Text) where
  unfoldable pub component_written :
      ℕ → ComponentLoopState R → Dict Text → Option (Validator W R) → Bool → Action W R (Attempt R)
  unfolding evaluate_component
  component_written iter cs fs v false = pure (gave_up component_writing)
  component_written iter cs fs none true = pure (arrived fs)
  component_written iter cs fs (some v) true = evaluate_component world iter fs v cs

  unfoldable pub component_parsed :
      ℕ → ComponentLoopState R → Parsed (Dict Text) → Action W R (Attempt R)
  unfolding component_written record_component_stall
  component_parsed iter cs (parsed fs) = do
    written ← call (world.write_files (merge_files fs base_files))
    component_written iter cs fs validator written
  component_parsed iter cs panics = throw parser_panic
  component_parsed iter cs _ = pure (goes_on (record_component_stall iter parse_error cs))

  unfoldable pub component_answered :
      ℕ → ComponentLoopState R → Option (GenerateResponse R) → Action W R (Attempt R)
  unfolding component_parsed
  component_answered iter cs none = pure (gave_up component_generation)
  component_answered iter cs (some resp) = do
    charge world resp.cost_usd (resp.input_tokens + resp.output_tokens)
    component_parsed iter cs (parse_files resp.content)

  unfoldable pub component_iteration : ℕ → ComponentLoopState R → Action W R (Attempt R)
  unfolding component_answered
  component_iteration iter cs = do
    s ← get
    answer ← call (world.generate code s.opts.model)
    component_answered iter cs answer

  unfoldable pub after_attempt :
      (ComponentLoopState R → Action W R ComponentResult) → Attempt R → Action W R ComponentResult
  after_attempt next (arrived fs) = pure (component_files fs)
  after_attempt next (gave_up e) = pure (component_failed e)
  after_attempt next (goes_on cs) =
      if leb component_mini_loop_stall_limit cs.stall_count
      then pure (component_failed component_stalled)
      else next cs

  unfoldable pub best_or_stalled : Option (Dict Text) → ComponentResult
  best_or_stalled none = component_failed component_stalled
  best_or_stalled (some fs) = component_files fs

  -- `left` iterations are left, and `iter` is the number of the next one.
  unfoldable pub converge_from : (left iter : ℕ) → ComponentLoopState R → Action W R ComponentResult
  unfolding component_iteration after_attempt best_or_stalled
  converge_from zero iter cs = pure (best_or_stalled cs.best_files)
  converge_from (suc left) iter cs =
      let next = converge_from left (iter + 1) in
      do
        s ← get
        if is_budget_exceeded s
            then pure (component_failed component_budget)
            else (do tried ← component_iteration iter cs; after_attempt next tried)

  unfoldable pub converge_component : Action W R ComponentResult
  unfolding converge_from
  converge_component = converge_from component_mini_loop_max_iter 1 new_component_loop_state

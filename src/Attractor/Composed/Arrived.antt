-- ===== src/Attractor/Composed/Arrived.antt =====
-- A component's files were scored, in every world.
use mathlib.Core.Path.{subst}
use octopusgarden.Prelude.{
  ◌+◌, ap, arith, Bool, Bool-cases, Dict, false, Float, inl, inr, leb, none, of_nat, Option, refl,
  some, suc, sym, Text, true, zero, ℕ, ◌∙◌, ◌≡◌,
}
use octopusgarden.Attractor.FileParse.{
  merge_files, no_files, panics, parse_files, parsed, Parsed, path_traversal,
}
use octopusgarden.Attractor.Loop.State.{is_budget_exceeded, parse_error, RunOptions, RunState}
use octopusgarden.Attractor.Loop.World.{Action, code, GenerateResponse, Validation, World}
use octopusgarden.Attractor.Loop.Generation.{charge}
use octopusgarden.Attractor.Composed.Serving.{
  ask_validator, built_and_served, charge_validation, Validator,
}
use octopusgarden.Attractor.Composed.Component.{
  after_attempt, arrived, Attempt, best_or_stalled, build_and_validate_component,
  component_answered, component_budget, component_generation, component_iteration, component_parsed,
  component_stalled, component_writing, component_written, ComponentLoopState, ComponentResult,
  converge_component, converge_from, evaluate_component, gave_up, goes_on, judge_component,
  new_component_loop_state,
}
use octopusgarden.Attractor.Composed.Kept.{
  built_and_served-Under, Keeps-then, Under, Under-bind, Under-if,
}
use octopusgarden.Attractor.Composed.Judged.{
  IsAnswer, IsAttempt, IsBest, IsComponentResult, IsGenerated, IsProduct, IsReached, IsTried,
  IsValidated, judge_component-IsAttempt, stalled-IsTried,
}

charged-opts :
    {R : Type 0} ⦃F : Float R⦄ (o : Option (Validation R)) (s : RunState R)
    → RunState.opts (charge_validation o s) ≡ s.opts
unfolding charge_validation
charged-opts none s = refl
charged-opts (some a) s = refl

module _ {W R : Type 0} ⦃F : Float R⦄ where
  answered-IsAnswer :
      (v : Validator W R) (w : W) (o : Option (Validation R)) → (v 0 w).0 ≡ o → IsAnswer v o
  answered-IsAnswer v w none e = tt
  answered-IsAnswer v w (some a) e = (w, e, tt)

  pub ask_validator-Under :
      (opts : RunOptions R) (v : Validator W R) → Under opts (λ o _. IsAnswer v o) (ask_validator v)
  unfolding ask_validator
  ask_validator-Under opts v s e = (charged-opts _ s.state ∙ e, answered-IsAnswer v s.world _ refl)

module _ {W R : Type 0} ⦃F : Float R⦄ (world : World W R) (opts : RunOptions R)
    (validator : Option (Validator W R)) (base_files : Dict Text) where
  abbrev Attempts : ℕ → Action W R (Attempt R) → Type 0
  Attempts iter = Under opts (λ a _. IsAttempt world base_files opts.threshold validator iter a)

  evaluate_component-Attempts :
      (iter : ℕ) (fs : Dict Text) (v : Validator W R) (cs : ComponentLoopState R)
      → validator ≡ some v
      → IsProduct world base_files fs
      → IsTried world base_files validator iter cs
      → Attempts iter (evaluate_component world iter fs v cs)
  unfolding evaluate_component build_and_validate_component
  evaluate_component-Attempts iter fs v cs same product h =
      Under-bind opts (λ o _. IsAnswer v o)
        (λ a _. IsAttempt world base_files opts.threshold validator iter a)
        (built_and_served world none (ask_validator v)) _
        (built_and_served-Under world opts (λ o _. IsAnswer v o) none (ask_validator v) (λ t. tt)
          (ask_validator-Under opts v))
        (λ o t e a. (
          e,
          subst
              (λ x.
                IsAttempt world base_files opts.threshold x iter
                  (judge_component t.state.opts.threshold iter fs cs o))
              (sym same)
              (subst
                (λ x.
                  IsAttempt world base_files opts.threshold (some v) iter
                    (judge_component x iter fs cs o))
                (ap (λ p. RunOptions.threshold p) (sym e))
                (judge_component-IsAttempt world base_files opts.threshold v iter fs cs o product
                  (subst (λ x. IsTried world base_files x iter cs) same h) a)),
        ))

  component_written-Attempts :
      (iter : ℕ) (cs : ComponentLoopState R) (fs : Dict Text) (v : Option (Validator W R))
      (written : Bool) (w : W)
      → IsGenerated world base_files fs
      → (world.write_files (merge_files fs base_files) w).0 ≡ written
      → validator ≡ v
      → IsTried world base_files validator iter cs
      → Attempts iter (component_written world validator base_files iter cs fs v written)
  unfolding component_written
  component_written-Attempts iter cs fs v false w g wr same h s e = (e, (fs, w, g, wr))
  component_written-Attempts iter cs fs none true w g wr same h s e = (
    e,
    (
      record { is_generated = g; written_in = w; is_written = wr },
      subst (IsReached world base_files opts.threshold) (sym same) tt,
    ),
  )
  component_written-Attempts iter cs fs (some v) true w g wr same h s e =
      evaluate_component-Attempts iter fs v cs same
        (record { is_generated = g; written_in = w; is_written = wr }) h s e

  component_parsed-Attempts :
      (iter : ℕ) (cs : ComponentLoopState R) (p : Parsed (Dict Text))
      → ((fs : Dict Text) → p ≡ parsed fs → IsGenerated world base_files fs)
      → IsTried world base_files validator iter cs
      → Attempts iter (component_parsed world validator base_files iter cs p)
  unfolding component_parsed
  component_parsed-Attempts iter cs (parsed fs) g h s e =
      component_written-Attempts iter cs fs validator _ s.world (g fs refl) refl refl h _ e
  component_parsed-Attempts iter cs panics g h s e = tt
  component_parsed-Attempts iter cs no_files g h s e =
      (e, stalled-IsTried world base_files validator iter parse_error cs h)
  component_parsed-Attempts iter cs path_traversal g h s e =
      (e, stalled-IsTried world base_files validator iter parse_error cs h)

  component_answered-Attempts :
      (iter : ℕ) (cs : ComponentLoopState R) (o : Option (GenerateResponse R)) (model : Text)
      (w : W)
      → (world.generate code model w).0 ≡ o
      → IsTried world base_files validator iter cs
      → Attempts iter (component_answered world validator base_files iter cs o)
  unfolding component_answered
  component_answered-Attempts iter cs none model w answered h s e = (e, (model, w, answered))
  component_answered-Attempts iter cs (some resp) model w answered h s e =
      Keeps-then opts _ (charge world resp.cost_usd (resp.input_tokens + resp.output_tokens)) _
        (λ s e. (e, tt))
        (λ _.
          component_parsed-Attempts iter cs (parse_files resp.content)
            (λ fs parsed_as. record {
              model = model;
              asked_in = w;
              answer = resp;
              is_answer = answered;
              is_parsed = parsed_as;
            })
            h)
        s e

  -- One iteration of the loop of a component, from any state of it that earlier iterations can
  -- leave: what it leaves for the next one counts one entry of the history more, the stalls are not
  -- more than the entries, and the best files, if there are any, were parsed from an answer of the
  -- LLM and written over the files of earlier components, and have the best score, above 0, that the
  -- validator gave. Files that it returns were parsed from an answer and written so, and the
  -- component has no validator, or one that gave a score at the threshold or above. It gives up only
  -- if the LLM gave no answer, or the files of an answer were not written. The options of the run
  -- stay as they are.
  pub component_iteration-IsAttempt :
      (iter : ℕ) (cs : ComponentLoopState R)
      → IsTried world base_files validator iter cs
      → Attempts iter (component_iteration world validator base_files iter cs)
  unfolding component_iteration
  component_iteration-IsAttempt iter cs h s e =
      component_answered-Attempts iter cs _ s.state.opts.model s.world refl h _ e

  reached-IsValidated :
      (threshold : R) (v : Option (Validator W R))
      → IsReached world base_files threshold v
      → IsValidated world base_files threshold v
  reached-IsValidated threshold none h = tt
  reached-IsValidated threshold (some v) (x, scored, above) = (x, scored, inl above)

  best-IsValidated :
      (threshold score : R) (t : RunState R) (v : Option (Validator W R)) (fs : Option (Dict Text))
      → IsBest world base_files v score fs
      → IsComponentResult world base_files threshold v
          (best_or_stalled world validator base_files fs)
          t
  unfolding best_or_stalled
  best-IsValidated threshold score t v none h = tt
  best-IsValidated threshold score t none (some fs) h = absurd h
  best-IsValidated threshold score t (some v) (some fs) (scored, above, product) =
      (product, (score, scored, inr above))

  abbrev Results : Action W R ComponentResult → Type 0
  Results = Under opts (IsComponentResult world base_files opts.threshold validator)

  after_attempt-Results :
      (iter : ℕ) (next : ComponentLoopState R → Action W R ComponentResult) (a : Attempt R)
      → ((cs : ComponentLoopState R)
          → IsTried world base_files validator (iter + 1) cs
          → Results (next cs))
      → IsAttempt world base_files opts.threshold validator iter a
      → Results (after_attempt world validator base_files next a)
  unfolding after_attempt
  after_attempt-Results iter next (arrived fs) k h s e =
      (e, (h.0, reached-IsValidated opts.threshold validator h.1))
  after_attempt-Results iter next (gave_up component_generation) k h s e = (e, h)
  after_attempt-Results iter next (gave_up component_writing) k h s e = (e, h)
  after_attempt-Results iter next (gave_up component_budget) k h s e = absurd h
  after_attempt-Results iter next (gave_up component_stalled) k h s e = absurd h
  after_attempt-Results iter next (goes_on cs) k h s e =
      Under-if opts _ (leb 2 cs.stall_count) _ _ (λ s' e'. (e', tt)) (k cs h) s e

  converge_from-Results :
      (left iter : ℕ) (cs : ComponentLoopState R)
      → IsTried world base_files validator iter cs
      → Results (converge_from world validator base_files left iter cs)
  unfolding converge_from
  converge_from-Results zero iter cs h s e =
      (e, best-IsValidated opts.threshold cs.best_score s.state validator cs.best_files h.best)
  converge_from-Results (suc left) iter cs h s e = elim (Bool-cases (is_budget_exceeded s.state)) [
    | inl spent ↦ rw spent (e, spent)
    | inr within ↦ rw within (
        Under-bind opts (λ a _. IsAttempt world base_files opts.threshold validator iter a)
          (IsComponentResult world base_files opts.threshold validator)
          (component_iteration world validator base_files iter cs)
          (after_attempt world validator base_files
            (converge_from world validator base_files left (iter + 1)))
          (component_iteration-IsAttempt iter cs h)
          (λ a t e' a_is.
            after_attempt-Results iter _ a (converge_from-Results left (iter + 1)) a_is t e')
          s e)
  ]

  -- The files that a component converges to were parsed from an answer of the LLM and written over
  -- the files of earlier components; the component has no validator, or it scored, asked about all
  -- tiers, at the threshold or above, or above 0. The error for the budget means that it is spent,
  -- those for a generation and for the writing that one failed, and the options of the run stay as
  -- they are.
  pub converge_component-IsComponentResult :
      Under opts
        (IsComponentResult world base_files opts.threshold validator)
        (converge_component world validator base_files)
  unfolding converge_component
  converge_component-IsComponentResult =
      converge_from-Results 5 1 new_component_loop_state
        (record { counted = omega arith; stalls = omega arith; best = start validator })
    where
      start : (v : Option (Validator W R)) → IsBest world base_files v (of_nat 0) none
      start v = refl

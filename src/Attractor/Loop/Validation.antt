-- ===== src/Attractor/Loop/Validation.antt =====
-- processValidation, trackPatchRegression and advanceTierIfNeeded of attractor.go.
use octopusgarden.Prelude.{
  ◌&&◌, ◌+◌, ◌++◌, ◌==◌, [], Bool, Dict, false, fge, Float, flt, if◌then◌else◌, is_empty, leb, List,
  none, not, Option, some, Text, true, ◌||◌, ℕ, ◌∷◌,
}
use octopusgarden.Attractor.Regression.{
  detect_regressions, parse_all_scenarios, parse_failed_scenarios, Regression,
}
use octopusgarden.Attractor.Escalation.{new_escalation_state}
use octopusgarden.Attractor.Loop.State.{
  budget_exceeded, converged, determine_fidelity, is_budget_exceeded, max_iterations,
  max_stratified_tier, regression, reset_for_tier_advancement, result, RunResult, RunState, stalled,
  Status, unset, validated, validation,
}
use octopusgarden.Attractor.Loop.World.{
  ◌>>◌, ◌>>=◌, Action, call, get, modify, pure, throw, World, write_failed,
}

module _ {R : Type 0} ⦃F : Float R⦄ where
  unfoldable pub track_patch_regression : R → RunState R → RunState R
  track_patch_regression satisfaction s =
      if not s.patch_active || fge satisfaction s.best_satisfaction
      then s
      else let n = s.patch_regression_count + 1 in
        record s {
          patch_regression_count = n;
          patch_active = if leb 2 n then false else s.patch_active;
        }

  -- The first part: the score and the regressions are recorded.
  unfoldable pub record_scores : ℕ → R → Dict R → List (Regression R) → RunState R → RunState R
  record_scores iter satisfaction current_scores regressions s = record s {
    last_outcome = validated;
    last_satisfaction = satisfaction;
    score_history = s.score_history ++ satisfaction ∷ [];
    history =
        if is_empty regressions
        then s.history
        else s.history
          ++ (record {
            iteration = iter;
            kind = regression;
            fidelity = unset;
            failed_scenarios = [];
          })
            ∷ [];
    scenario_scores = current_scores;
    scenario_score_iteration = iter;
  }

  -- A score above the best one: all that changes but the files on disk.
  unfoldable pub record_improvement : R → Dict Text → RunState R → RunState R
  record_improvement satisfaction new_files s = record s {
    best_satisfaction = satisfaction;
    best_files = some new_files;
    stall_count = 0;
    patch_regression_count = 0;
    last_improved = true;
  }

  unfoldable pub record_no_improvement : R → RunState R → RunState R
  unfolding track_patch_regression
  record_no_improvement satisfaction s =
      track_patch_regression satisfaction (record s { stall_count = s.stall_count + 1 })

  unfoldable pub record_feedback : ℕ → List Text → RunState R → RunState R
  record_feedback iter failures s = record s {
    history =
        s.history
        ++ (record {
          iteration = iter;
          kind = validation;
          fidelity = determine_fidelity iter s.stall_count;
          failed_scenarios = parse_failed_scenarios failures;
        })
          ∷ [];
  }

  -- The tests at the end.
  unfoldable pub check_limits : ℕ → RunState R → Option (RunResult R)
  check_limits iter s =
      if leb s.opts.stall_limit s.stall_count
      then some (result s iter stalled)
      else if is_budget_exceeded s
      then some (result s iter budget_exceeded)
      else none

  abbrev pub regressions_of : ℕ → List Text → RunState R → List (Regression R)
  regressions_of iter failures s =
      detect_regressions s.scenario_scores s.scenario_score_iteration (parse_all_scenarios failures)
        iter s.opts.threshold

module _ {W R : Type 0} ⦃F : Float R⦄ (world : World W R) where
  unfoldable pub write_best : Dict Text → Action W R (Unit {0})
  write_best fs = do
    written ← call (world.write_files fs)
    if written then pure tt else throw write_failed

  unfoldable pub converge_with : ℕ → R → Dict Text → Action W R (Option (RunResult R))
  unfolding write_best
  converge_with iter satisfaction new_files = do
    write_best new_files
    modify (λ s. record s { best_satisfaction = satisfaction; best_files = some new_files })
    s ← get
    pure (some (result s iter converged))

  unfoldable pub keep_going : ℕ → R → List Text → Dict Text → Action W R (Option (RunResult R))
  unfolding write_best
  keep_going iter satisfaction failures new_files = do
    s ← get
    if flt s.best_satisfaction satisfaction
        then (do modify (record_improvement satisfaction new_files); write_best new_files)
        else modify (record_no_improvement satisfaction)
    modify (record_feedback iter failures)
    s' ← get
    pure (check_limits iter s')

  unfoldable pub process_validation :
      ℕ → R → List Text → Dict Text → Action W R (Option (RunResult R))
  unfolding record_scores record_improvement record_no_improvement record_feedback check_limits
      converge_with keep_going
  process_validation iter satisfaction failures new_files = do
    s ← get
    let regressions = regressions_of iter failures s
    modify (record_scores iter satisfaction (parse_all_scenarios failures) regressions)
    if fge satisfaction s.opts.threshold
          && not (s.opts.block_on_regression && not (is_empty regressions))
        then converge_with iter satisfaction new_files
        else keep_going iter satisfaction failures new_files

abbrev pub is_converged : Status → Bool
is_converged converged = true
is_converged stalled = false
is_converged budget_exceeded = false
is_converged max_iterations = false

-- advanceTierIfNeeded; `none` if the result is to be returned.
module _ {R : Type 0} ⦃F : Float R⦄ where
  unfoldable pub advance_tier : RunState R → RunState R
  unfolding reset_for_tier_advancement
  advance_tier s =
      let s' = reset_for_tier_advancement (record s { active_tier = s.active_tier + 1 }) in
      record s' {
        escalation = elim s.escalation [
          | none ↦ none
          | some e ↦ new_escalation_state s.opts.frugal_model s.opts.model
        ];
      }

  unfoldable pub advance_tier_if_needed : RunResult R → RunState R → Option (RunState R)
  unfolding advance_tier
  advance_tier_if_needed r s =
      if not (is_converged r.status)
        || (s.active_tier == 0)
        || leb max_stratified_tier s.active_tier
      then none
      else some (advance_tier s)

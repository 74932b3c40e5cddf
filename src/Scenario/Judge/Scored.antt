-- ===== src/Scenario/Judge/Scored.antt =====
-- Which error or which scores a scenario's results give, and that the results of a run can be scored.
use mathlib.Core.Path.{subst}
use octopusgarden.Prelude.{
  ◌+◌, ◌==◌, ==_iff, [], All, ap, arith, Bool-cases, Float, get_elem?, inl, inr, length, List, map,
  none, of_nat, Option, refl, some, suc, sym, ℕ, ◌∙◌, ◌∷◌, ◌≡◌, ◌≢◌, ◌⊎◌,
}
use octopusgarden.Scenario.Types.{Scenario, Step}
use octopusgarden.Scenario.Execution.{Env, StepError}
use octopusgarden.Scenario.Runner.{Result, run_scenario, StepResult}
use octopusgarden.Scenario.Runner.Laws.{IsRunOf, labels, labels_of, run_scenario-IsRunOf}
use octopusgarden.Scenario.Judge.{
  and_score, judge_step, JudgeEnv, JudgeError, score_failed, score_scenario, score_step,
  score_steps, scored_before, scored_scenario, ScoredScenario, ScoredStep, step_count_mismatch,
  StepScore,
}

module _ {W R Failure : Type 0} ⦃F : Float R⦄ (env : JudgeEnv W R Failure) where
  -- A step whose execution failed scores 0, with no failures and at no cost.
  abbrev pub IsFairlyScored : ScoredStep R Failure → Type 0
  IsFairlyScored s =
      s.step_result.err ≡ none
      ⊎ ((s.step_score.score ≡ of_nat 0)
          × (s.step_score.cost_usd ≡ of_nat 0)
          × (s.step_score.failures ≡ []))

  -- The error names a result whose execution did not fail; the scores stand in the order of the results.
  abbrev pub AreScoresOf :
      (from : ℕ) → List (StepResult Failure) → JudgeError ⊎ List (ScoredStep R Failure) → Type 0
  AreScoresOf from results (inl (step_count_mismatch n m)) = ⊥
  AreScoresOf from results (inl (score_failed i)) =
      (k : ℕ) × (r : StepResult Failure) × (i ≡ from + k)
      × (get_elem? results k ≡ some r)
      × (r.err ≡ none)
  AreScoresOf from results (inr scored) =
      (map (λ s. s.step_result) scored ≡ results) × All IsFairlyScored scored

  abbrev IsStepScoreOf : StepResult Failure → Option (StepScore R) → Type 0
  IsStepScoreOf r none = r.err ≡ none
  IsStepScoreOf r (some s) = IsFairlyScored (record { step_result = r; step_score = s })

  score_step-IsStepScoreOf :
      (r : StepResult Failure) (sc : Scenario R) (step : Step R) (e : Option (StepError Failure))
      (w : W)
      → r.err ≡ e
      → IsStepScoreOf r (score_step env sc step r.observed e w).0
  unfolding score_step
  score_step-IsStepScoreOf r sc step (some x) w h = inr (refl, refl, refl)
  score_step-IsStepScoreOf r sc step none w h = answered (judge_step env sc step r.observed w).0
    where
      answered : (o : Option (StepScore R)) → IsStepScoreOf r o
      answered none = h
      answered (some s) = inl h

  AreScoresOf-cons :
      (i : ℕ) (r : StepResult Failure) (results : List (StepResult Failure)) (s : StepScore R)
      (o : (JudgeError ⊎ List (ScoredStep R Failure)) × W)
      → IsFairlyScored (record { step_result = r; step_score = s })
      → AreScoresOf (suc i) results o.0
      → AreScoresOf i (r ∷ results) (scored_before env r s o).0
  unfolding scored_before
  AreScoresOf-cons i r results s (inl (step_count_mismatch n m), w) fair h = h
  AreScoresOf-cons i r results s (inl (score_failed j), w) fair (k, q, same, found, ok) =
      (suc k, q, omega (arith, same), found, ok)
  AreScoresOf-cons i r results s (inr scored, w) fair (same, all_fair) =
      (ap (λ x. r ∷ x) same, (fair, all_fair))

  AreScoresOf-and_score :
      (i : ℕ) (r : StepResult Failure) (results : List (StepResult Failure))
      (next : W → (JudgeError ⊎ List (ScoredStep R Failure)) × W) (o : Option (StepScore R) × W)
      → IsStepScoreOf r o.0
      → ((v : W) → AreScoresOf (suc i) results (next v).0)
      → AreScoresOf i (r ∷ results) (and_score env i r next o).0
  unfolding and_score
  AreScoresOf-and_score i r results next (none, w) fair h = (0, r, omega arith, refl, fair)
  AreScoresOf-and_score i r results next (some s, w) fair h =
      AreScoresOf-cons i r results s (next w) fair (h w)

  score_steps-AreScoresOf :
      (sc : Scenario R) (i : ℕ) (steps : List (Step R)) (results : List (StepResult Failure))
      (w : W)
      → length results ≡ length steps
      → AreScoresOf i results (score_steps env sc i steps results w).0
  unfolding score_steps
  score_steps-AreScoresOf sc i steps [] w h = (refl, tt)
  score_steps-AreScoresOf sc i [] (r ∷ results) w h = absurd (omega (arith, h))
  score_steps-AreScoresOf sc i (step ∷ steps) (r ∷ results) w h =
      AreScoresOf-and_score i r results (score_steps env sc (suc i) steps results)
        (score_step env sc step r.observed r.err w)
        (score_step-IsStepScoreOf r sc step r.err w refl)
        (λ v. score_steps-AreScoresOf sc (suc i) steps results v (omega (arith, h)))

  -- A scenario's scores: of as many steps as it has, or none.
  abbrev pub IsScoringOf :
      Scenario R → Result Failure → JudgeError ⊎ ScoredScenario R Failure → Type 0
  IsScoringOf sc result (inl (step_count_mismatch n m)) =
      (n ≡ length sc.steps) × (m ≡ length result.steps) × (n ≢ m)
  IsScoringOf sc result (inl (score_failed i)) =
      (length result.steps ≡ length sc.steps) × AreScoresOf 0 result.steps (inl (score_failed i))
  IsScoringOf sc result (inr scored) =
      (length result.steps ≡ length sc.steps)
      × (scored.scenario_id ≡ sc.id)
      × AreScoresOf 0 result.steps (inr scored.steps)

  IsScoringOf-scored_scenario :
      (sc : Scenario R) (result : Result Failure)
      → length result.steps ≡ length sc.steps
      → (o : (JudgeError ⊎ List (ScoredStep R Failure)) × W) → AreScoresOf 0 result.steps o.0
      → IsScoringOf sc result (scored_scenario env sc o).0
  unfolding scored_scenario
  IsScoringOf-scored_scenario sc result same (inl (step_count_mismatch n m), w) h = absurd h
  IsScoringOf-scored_scenario sc result same (inl (score_failed i), w) h = (same, h)
  IsScoringOf-scored_scenario sc result same (inr scored, w) h = (same, refl, h)

  -- Scoring a scenario's results fails with a mismatch exactly when their number is not that of the
  -- steps, and otherwise only with the index of a step whose execution did not fail; it succeeds with
  -- one score for each result in their order, where a failed execution scores 0 at no cost.
  pub score_scenario-IsScoringOf :
      (sc : Scenario R) (result : Result Failure) (w : W)
      → IsScoringOf sc result (score_scenario env sc result w).0
  unfolding score_scenario
  score_scenario-IsScoringOf sc result w =
      elim (Bool-cases (length result.steps == length sc.steps)) [
        | inl e ↦
            let same = (==_iff (length result.steps) (length sc.steps)).0 e in
            rw e (
              IsScoringOf-scored_scenario sc result same
                (score_steps env sc 0 sc.steps result.steps w)
                (score_steps-AreScoresOf sc 0 sc.steps result.steps w same))
        | inr e ↦ rw e (refl, refl, λ k. ground (arith, k))
      ]

  length-labels : (steps : List (Step R)) → length (labels steps) ≡ length steps
  length-labels [] = refl
  length-labels (s ∷ steps) = omega (arith, length-labels steps)

  length-labels_of :
      (results : List (StepResult Failure)) → length (labels_of results) ≡ length results
  length-labels_of [] = refl
  length-labels_of (r ∷ results) = omega (arith, length-labels_of results)

  module _ {V C D : Type 0} (runner : Env V C D R Failure) where
    -- The results of a run of a scenario are never refused for their number.
    pub score_scenario-run_scenario :
        (ctx : C) (sc : Scenario R) (v : V) (result : Result Failure) (w : W) (n m : ℕ)
        → (run_scenario runner ctx sc v).0 ≡ inr result
        → (score_scenario env sc result w).0 ≢ inl (step_count_mismatch n m)
    score_scenario-run_scenario ctx sc v result w n m done refused =
        let (named, labelled) =
          subst (IsRunOf runner sc) done (run_scenario-IsRunOf runner ctx sc v) in
        let (scenario, given, differ) =
          subst (IsScoringOf sc result) refused (score_scenario-IsScoringOf sc result w) in
        differ (
          scenario
          ∙ sym (length-labels sc.steps)
          ∙ ap length (sym labelled)
          ∙ length-labels_of result.steps
          ∙ sym given)

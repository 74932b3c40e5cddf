-- ===== src/Attractor/Regression.antt =====
-- internal/attractor/regression.go, and parseFailedScenarios of prompts.go: the scores of single
-- scenarios, read from the lines that ValidateFn returns, and their drops below the threshold.
pub mod Found
mod Tests
use mathlib.Core.Option
use octopusgarden.Prelude.{
  ◌&&◌, ◌++◌, [], before_first, before_sub, codes, cut_last, cut_prefix, Dict, fge, Float, flt,
  has_prefix, if◌then◌else◌, insert, is_empty, List, lookup, map, none, Option, some, Text, text_lt,
  trim_space, ℕ, ◌∷◌,
}

abbrev pub pass_scenario_prefix : Text
pass_scenario_prefix = codes "✓ "

abbrev pub fail_scenario_prefix : Text
fail_scenario_prefix = codes "✗ "

pub record Regression (R : Type 0) : Type 0 where
  pub scenario_id : Text
  pub prev_score : R
  pub curr_score : R
  pub prev_iteration : ℕ
  pub curr_iteration : ℕ

-- The text behind the prefix of a passing or failing line.
scenario_rest : Text → Option Text
scenario_rest line = elim (cut_prefix line fail_scenario_prefix) [
  | some rest ↦ some rest
  | none ↦ cut_prefix line pass_scenario_prefix
]

abbrev pub first_line : Text → Text
first_line entry = trim_space (before_first 10 entry)

module _ {R : Type 0} ⦃F : Float R⦄ where
  score_of : Text → Option R
  score_of score_str = elim (before_sub (codes "/100)") score_str) [
    | none ↦ none
    | some number ↦ F.parse number
  ]

  unfoldable pub parse_scenario_line : Text → Option (Text × R)
  unfolding score_of scenario_rest
  parse_scenario_line line = elim (scenario_rest line) [
    | none ↦ none
    | some rest ↦ elim (cut_last b'(' rest) [
      | none ↦ none
      | some (id, score_str) ↦ Option.map (λ (s : R). (trim_space id, s)) (score_of score_str)
    ]
  ]

  parse_all_from : Dict R → List Text → Dict R
  parse_all_from result [] = result
  parse_all_from result (entry ∷ failures) =
      parse_all_from
        (elim (parse_scenario_line (first_line entry)) [
          | none ↦ result
          | some (id, score) ↦ insert id score result
        ])
        failures

  unfoldable pub parse_all_scenarios : List Text → Dict R
  unfolding parse_all_from
  parse_all_scenarios failures = parse_all_from [] failures

  parse_failed_from : Dict R → List Text → Dict R
  parse_failed_from result [] = result
  parse_failed_from result (entry ∷ failures) =
      parse_failed_from
        (elim (parse_scenario_line (first_line entry)) [
          | none ↦ result
          | some (id, score) ↦
              if has_prefix (first_line entry) fail_scenario_prefix
              then insert id score result
              else result
        ])
        failures

  -- A nil map is the empty one.
  unfoldable pub parse_failed_scenarios : List Text → Dict R
  unfolding parse_failed_from
  parse_failed_scenarios failures = parse_failed_from [] failures

  module _ (prev_scores : Dict R) (prev_iteration curr_iteration : ℕ) (threshold : R) where
    -- What the loop over the current scores appends for one of them, given its previous score.
    unfoldable pub drop_of : Text → R → Option R → List (Regression R)
    drop_of id curr none = []
    drop_of id curr (some prev) =
        if fge prev threshold && flt curr threshold
        then (record {
          scenario_id = id;
          prev_score = prev;
          curr_score = curr;
          prev_iteration = prev_iteration;
          curr_iteration = curr_iteration;
        })
          ∷ []
        else []

    unfoldable pub regression_of : Text → R → List (Regression R)
    unfolding drop_of
    regression_of id curr = drop_of id curr (lookup id prev_scores)

    unfoldable pub collect_regressions : Dict R → List (Regression R)
    collect_regressions [] = []
    collect_regressions ((id, curr) ∷ curr_scores) =
        regression_of id curr ++ collect_regressions curr_scores

  unfoldable pub insert_regression : Regression R → List (Regression R) → List (Regression R)
  insert_regression r [] = r ∷ []
  insert_regression r (q ∷ qs) =
      if text_lt q.scenario_id r.scenario_id then q ∷ insert_regression r qs else r ∷ q ∷ qs

  unfoldable pub sort_regressions : List (Regression R) → List (Regression R)
  unfolding insert_regression
  sort_regressions [] = []
  sort_regressions (r ∷ rs) = insert_regression r (sort_regressions rs)

  unfoldable pub detect_regressions : Dict R → ℕ → Dict R → ℕ → R → List (Regression R)
  unfolding sort_regressions collect_regressions regression_of drop_of
  detect_regressions prev_scores prev_iteration curr_scores curr_iteration threshold =
      if is_empty prev_scores
      then []
      else sort_regressions
          (collect_regressions prev_scores prev_iteration curr_iteration threshold curr_scores)

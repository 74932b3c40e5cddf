-- ===== src/Attractor/Loop/Steering.antt =====
-- buildSteeringText of prompts.go: whether some scenario has failed in two or more validations in a
-- row. Its text is a prompt; the loop only asks whether it is empty.
use octopusgarden.Prelude.{
  ◌+◌, [], any, Bool, Dict, if◌then◌else◌, insert, is_member, leb, List, lookup, none, some, Text,
  ℕ, ◌∷◌,
}
use octopusgarden.Attractor.Loop.State.{IterationFeedback, validation}

module _ {R : Type 0} where
  -- `delete` for every scenario that did not fail in this entry.
  unfoldable pub keep_failed : Dict R → Dict ℕ → Dict ℕ
  keep_failed failed [] = []
  keep_failed failed ((id, n) ∷ streaks) =
      let rest = keep_failed failed streaks in if is_member id failed then (id, n) ∷ rest else rest

  -- `streaks[id]++` for every scenario that failed in it.
  unfoldable pub count_failed : Dict R → Dict ℕ → Dict ℕ
  count_failed [] streaks = streaks
  count_failed ((id, score) ∷ failed) streaks =
      count_failed failed
        (insert id (elim (lookup id streaks) [ none ↦ 1 | some n ↦ n + 1 ]) streaks)

  unfoldable pub streaks_step : IterationFeedback R → Dict ℕ → Dict ℕ
  unfolding keep_failed count_failed
  streaks_step fb streaks = elim fb.kind [
    | validation ↦ count_failed fb.failed_scenarios (keep_failed fb.failed_scenarios streaks)
    | _ ↦ streaks
  ]

  unfoldable pub streaks_from : Dict ℕ → List (IterationFeedback R) → Dict ℕ
  streaks_from streaks [] = streaks
  streaks_from streaks (fb ∷ history) = streaks_from (streaks_step fb streaks) history

  unfoldable pub is_stalling : List (IterationFeedback R) → Bool
  unfolding streaks_from streaks_step
  is_stalling history = any (λ (e : Text × ℕ). leb 2 e.1) (streaks_from [] history)

-- ===== src/Scenario/Runner/Tests.antt =====
-- Runs in the small world.
use octopusgarden.Prelude.{◌+◌, ◌<◌, [], arith, inl, refl, suc, zero, ℕ, ◌≡◌, ◌≤◌}
use octopusgarden.Scenario.Execution.{execute_with_retry, retry_loop}
use octopusgarden.Scenario.Runner.{run_scenario}
use octopusgarden.Scenario.Runner.Samples.{
  attempt_small, flaky, pause_small, retried_step, small_env, small_scenario, three_times,
}
use octopusgarden.Scenario.Runner.Laws.{IsRunOf, run_scenario-IsRunOf}
use octopusgarden.Scenario.Execution.Retries.{
  attempts_or_default, before, execute_with_retry-count, HasSucceeded, retry_loop-before,
}

run_scenario-IsRunOf_example :
    IsRunOf small_env small_scenario (run_scenario small_env 0 small_scenario 0).0
run_scenario-IsRunOf_example = run_scenario-IsRunOf small_env 0 small_scenario 0

fails_twice :
    (j : ℕ) → j < 2 → ¬ HasSucceeded (attempt_small (before attempt_small pause_small j 0))
fails_twice zero lt h = cc
fails_twice (suc zero) lt h = cc
fails_twice (suc (suc j)) lt h = absurd (omega arith)

retry_loop-before_example :
    retry_loop 4 attempt_small pause_small 0 ≡ attempt_small (before attempt_small pause_small 2 0)
retry_loop-before_example =
    retry_loop-before attempt_small pause_small 4 2 0 (omega arith) (λ v. refl) fails_twice
      (inl refl)

execute_with_retry-count_example :
    (execute_with_retry small_env 0 flaky retried_step [] three_times 0).1
    ≤ 0 + attempts_or_default three_times.attempts
execute_with_retry-count_example =
    execute_with_retry-count small_env (λ w. w) flaky retried_step [] (λ c v. omega arith)
      (λ c d v. refl) 0 three_times 0

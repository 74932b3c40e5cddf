-- ===== src/Attractor/Loop/Run.antt =====
-- buildRunValidate, iterate and the loop of Run of attractor.go. The spans, the logs, the progress
-- callback and the choice of the spec's view for a prompt are left out. The counter of the loop is
-- a recursion on the iterations that are left.
use octopusgarden.Prelude.{
  ◌+◌, ◌++◌, ◌+ᶠ◌, ◌-◌, [], Bool, Dict, false, Float, if◌then◌else◌, none, not, Option, some, suc,
  Text, zero, ◌||◌, ℕ, ◌∷◌,
}
use octopusgarden.Attractor.Oscillation.{hash_files}
use octopusgarden.Attractor.Escalation.{record_outcome}
use octopusgarden.Attractor.Loop.State.{
  budget_exceeded, build_error, build_fail, is_budget_exceeded, max_iterations, new_run_state,
  result, run_error, run_fail, RunOptions, RunResult, RunState,
}
use octopusgarden.Attractor.Loop.World.{
  ◌>>◌, ◌>>=◌, Action, call, deferring, Exit, get, modify, pure, throw, validate_failed, Validation,
  World,
}
use octopusgarden.Attractor.Loop.Generation.{
  files, generate_agentic, generate_standard, Generated, stall, stopped,
}
use octopusgarden.Attractor.Loop.Containers.{
  down, not_needed, run_test_command, Service, start_service_container, up,
}
use octopusgarden.Attractor.Loop.Validation.{advance_tier_if_needed, process_validation}

module _ {R : Type 0} where
  unfoldable pub record_escalation : RunState R → RunState R
  record_escalation s = record s {
    escalation = elim s.escalation [
      | none ↦ none
      | some e ↦ some (record_outcome e s.last_improved)
    ];
  }

module _ {W R : Type 0} ⦃F : Float R⦄ where
  unfoldable pub next_tier_or :
      Action W R (RunResult R) → RunResult R → Option (RunState R) → Action W R (RunResult R)
  next_tier_or next r none = pure r
  next_tier_or next r (some t) = do modify (λ _. t); next

  -- The end of a round: `next` is the rest of the loop.
  unfoldable pub end_round :
      Action W R (RunResult R) → Option (RunResult R) → Action W R (RunResult R)
  unfolding next_tier_or
  end_round next none = next
  end_round next (some r) = do t ← get; next_tier_or next r (advance_tier_if_needed r t)

module _ {W R : Type 0} ⦃F : Float R⦄ (world : World W R) where
  unfoldable pub validated_with :
      ℕ → Dict Text → Option (Validation R) → Action W R (Option (RunResult R))
  validated_with iter new_files none = throw validate_failed
  validated_with iter new_files (some v) = do
    modify (λ t. record t { total_cost = t.total_cost +ᶠ v.cost; last_failures = v.failures })
    process_validation world iter v.satisfaction v.failures new_files

  unfoldable pub after_test :
      ℕ → Dict Text → Option (Option (RunResult R)) → Action W R (Option (RunResult R))
  unfolding validated_with
  after_test iter new_files (some r) = pure r
  after_test iter new_files none = do
    s ← get
    answer ← call (world.validate s.active_tier)
    validated_with iter new_files answer

  -- From the test command on; the container's id is empty if there is no HTTP container.
  unfoldable pub test_and_validate : ℕ → Text → Dict Text → Action W R (Option (RunResult R))
  unfolding after_test
  test_and_validate iter container_id new_files = do
    skipped ← run_test_command world iter container_id
    after_test iter new_files skipped

  -- A start that failed below the stall limit leaves `down none`: the code goes on without a
  -- container.
  unfoldable pub served : ℕ → Dict Text → Service R → Action W R (Option (RunResult R))
  unfolding test_and_validate
  served iter new_files not_needed = test_and_validate iter [] new_files
  served iter new_files (up c) =
      deferring world.stop_container (test_and_validate iter c.container_id new_files)
  served iter new_files (down (some r)) = pure (some r)
  served iter new_files (down none) = test_and_validate iter [] new_files

  unfoldable pub serve_and_validate : ℕ → Dict Text → Action W R (Option (RunResult R))
  unfolding served
  serve_and_validate iter new_files = do
    svc ← start_service_container world iter
    served iter new_files svc

  unfoldable pub in_session : ℕ → Dict Text → Action W R (Option (RunResult R))
  unfolding serve_and_validate
  in_session iter new_files = do
    started ← call world.start_session
    if started
        then deferring world.stop_session (serve_and_validate iter new_files)
        else stall world iter run_fail run_error (λ r. r)

  unfoldable pub build_run_validate : ℕ → Dict Text → Action W R (Option (RunResult R))
  unfolding in_session
  build_run_validate iter new_files = do
    built ← call world.build
    s ← get
    if not built
        then stall world iter build_fail build_error (λ r. r)
        else if s.opts.capabilities.needs_exec || s.opts.capabilities.needs_tui
        then in_session iter new_files
        else serve_and_validate iter new_files

  unfoldable pub use_generated : ℕ → Generated R → Action W R (Option (RunResult R))
  unfolding build_run_validate
  use_generated iter (stopped r) = pure r
  use_generated iter (files fs) = do
    modify (λ t. record t {
      last_failures = [];
      code_hashes = t.code_hashes ++ hash_files world.sha256 fs ∷ [];
    })
    build_run_validate iter fs

  unfoldable pub iterate : ℕ → Action W R (Option (RunResult R))
  unfolding use_generated
  iterate iter = do
    modify (λ s. record s { last_improved = false; last_turns = 0 })
    s ← get
    generated ←
        (if s.opts.agentic then generate_agentic world iter else generate_standard world iter)
    use_generated iter generated

  -- `left` iterations are left, and `iter` is the number of the next one.
  unfoldable pub run_from : (left iter : ℕ) → Action W R (RunResult R)
  unfolding record_escalation end_round
  run_from zero iter = do s ← get; pure (result s s.opts.max_iterations max_iterations)
  run_from (suc left) iter =
      let next = run_from left (iter + 1) in
      do
        s ← get
        if is_budget_exceeded s
            then pure (result s (iter - 1) budget_exceeded)
            else (do ended ← iterate iter; modify record_escalation; end_round next ended)

  -- The monolithic loop of Run, on options that hold the defaults. `summarize_cost` is what the
  -- summary of a large spec has cost, if one was made.
  unfoldable pub run : RunOptions R → R → Bool → Option R → W → Exit W R (RunResult R)
  unfolding run_from
  run opts composed_cost composed_context summarize_cost w =
      let s = new_run_state opts composed_cost composed_context in
      let s' = record s {
        total_cost = elim summarize_cost [ none ↦ s.total_cost | some cost ↦ s.total_cost +ᶠ cost ];
      } in
      run_from opts.max_iterations 1 (record { state = s'; world = w })

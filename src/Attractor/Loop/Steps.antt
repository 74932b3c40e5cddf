-- ===== src/Attractor/Loop/Steps.antt =====
-- One iteration keeps the invariant of the run, or ends it with a cause.
use octopusgarden.Prelude.{
  [], Dict, Float, is_empty, none, not, Option, refl, some, sym, Text, ◌||◌, ℕ,
}
use octopusgarden.Attractor.Loop.World.{call, Sys, TestResult, Validation, World}
use octopusgarden.Attractor.Loop.State.{
  build_error, build_fail, run_error, run_fail, RunOptions, RunResult, test_error, test_fail,
}
use octopusgarden.Attractor.Loop.Generation.{files, Generated, stopped}
use octopusgarden.Attractor.Loop.Containers.{
  down, not_needed, run_test_command, Service, start_service_container, test_answered, up,
}
use octopusgarden.Attractor.Loop.Run.{
  after_test, build_run_validate, in_session, iterate, run, serve_and_validate, served,
  test_and_validate, use_generated, validated_with,
}
use octopusgarden.Attractor.Loop.Ensures.{chain, deferring-Ensures, Ensures, use_now}
use octopusgarden.Attractor.Loop.Frame.{
  after, after_if, Course, course, generate_agentic-course, generate_standard-course, GeneratedFrom,
  stall-Yields, Yields,
}
use octopusgarden.Attractor.Loop.Invariant.{IsAfter, IsRunning}
use octopusgarden.Attractor.Loop.Judged.{process_validation-IsAfter}
use mathlib.Core.Path.{subst}
use octopusgarden.Attractor.Loop.Serving.{
  Ends, follow, IsServed, IsTested, stall-Ends, stalled-IsAfter, start_service-Serves, Tests,
}

module _ {W R : Type 0} ⦃F : Float R⦄ (world : World W R) (opts : RunOptions R) (iter : ℕ) where
  test_answered-Tests :
      (answer : Option TestResult) → Yields (Tests opts iter) (test_answered world iter answer)
  unfolding test_answered
  test_answered-Tests none s = tt
  test_answered-Tests (some t) s =
      after_if (Tests opts iter) t.is_zero_exit _ _ (λ t run. run)
        (stall-Yields world (Tests opts iter) iter test_fail test_error some
          (λ c r t h run. stalled-IsAfter opts iter c r t h run.0))
        s

  run_test_command-Tests :
      (container_id : Text) → Yields (Tests opts iter) (run_test_command world iter container_id)
  unfolding run_test_command
  run_test_command-Tests container_id s =
      after_if (Tests opts iter) (is_empty s.state.opts.test_command || is_empty container_id) _ _
        (λ t run. run)
        (after (Tests opts iter) (call world.run_test) (test_answered world iter) (λ t. refl)
          test_answered-Tests)
        s

  validated_with-IsAfter :
      (fs : Dict Text) (answer : Option (Validation R)) (s : Sys W R)
      → IsRunning opts (course s.state)
      → Ensures (validated_with world iter fs answer s) (IsAfter opts iter)
  unfolding validated_with
  validated_with-IsAfter fs none s run = tt
  validated_with-IsAfter fs (some v) s run =
      process_validation-IsAfter world opts iter v.satisfaction v.failures fs _ run.0

  after_test-IsAfter :
      (fs : Dict Text) (skipped : Option (Option (RunResult R))) (s : Sys W R)
      → IsTested opts iter skipped s.state
      → Ensures (after_test world iter fs skipped s) (IsAfter opts iter)
  unfolding after_test
  after_test-IsAfter fs (some r) s h = h
  after_test-IsAfter fs none s run =
      validated_with-IsAfter fs (world.validate s.state.active_tier s.world).0 _ run

  test_and_validate-Ends :
      (container_id : Text) (fs : Dict Text)
      → Yields (Ends opts iter) (test_and_validate world iter container_id fs)
  unfolding test_and_validate
  test_and_validate-Ends container_id fs =
      follow world opts iter (IsTested opts iter) (IsAfter opts iter)
        (run_test_command world iter container_id) (after_test world iter fs)
        (run_test_command-Tests container_id) (after_test-IsAfter fs)

  test_and_validate-IsAfter :
      (container_id : Text) (fs : Dict Text) (s : Sys W R)
      → IsRunning opts (course s.state)
      → Ensures (test_and_validate world iter container_id fs s) (IsAfter opts iter)
  test_and_validate-IsAfter container_id fs s run =
      use_now (IsRunning opts (course s.state)) (IsAfter opts iter) _ run
        (test_and_validate-Ends container_id fs s)

  served-IsAfter :
      (fs : Dict Text) (svc : Service R) (s : Sys W R)
      → IsServed opts iter svc s.state
      → Ensures (served world iter fs svc s) (IsAfter opts iter)
  unfolding served
  served-IsAfter fs not_needed s run = test_and_validate-IsAfter [] fs s run
  served-IsAfter fs (up c) s run =
      deferring-Ensures (IsAfter opts iter) world.stop_container
        (test_and_validate world iter c.container_id fs) s
        (test_and_validate-IsAfter c.container_id fs s run)
  served-IsAfter fs (down (some r)) s h = h
  served-IsAfter fs (down none) s run = test_and_validate-IsAfter [] fs s run

  serve_and_validate-Ends :
      (fs : Dict Text) → Yields (Ends opts iter) (serve_and_validate world iter fs)
  unfolding serve_and_validate
  serve_and_validate-Ends fs =
      follow world opts iter (IsServed opts iter) (IsAfter opts iter)
        (start_service_container world iter) (served world iter fs)
        (start_service-Serves world opts iter) (served-IsAfter fs)

  in_session-Ends : (fs : Dict Text) → Yields (Ends opts iter) (in_session world iter fs)
  unfolding in_session
  in_session-Ends fs =
      after (Ends opts iter) (call world.start_session) _ (λ t. refl)
        (λ started.
          after_if (Ends opts iter) started _ _
            (λ s.
              deferring-Ensures (Ends opts iter (course s.state)) world.stop_session
                (serve_and_validate world iter fs) s (serve_and_validate-Ends fs s))
            (stall-Ends world opts iter run_fail run_error))

  build_run_validate-Ends :
      (fs : Dict Text) → Yields (Ends opts iter) (build_run_validate world iter fs)
  unfolding build_run_validate
  build_run_validate-Ends fs =
      after (Ends opts iter) (call world.build) _ (λ t. refl)
        λ built s.
          let caps = s.state.opts.capabilities in
          after_if (Ends opts iter) (not built) _ _
            (stall-Ends world opts iter build_fail build_error)
            (after_if (Ends opts iter) (caps.needs_exec || caps.needs_tui) _ _ (in_session-Ends fs)
              (serve_and_validate-Ends fs))
            s

  use_generated-IsAfter :
      (c : Course R) (g : Generated R) (s : Sys W R)
      → IsRunning opts c
      → GeneratedFrom iter c g s.state
      → Ensures (use_generated world iter g s) (IsAfter opts iter)
  unfolding use_generated
  use_generated-IsAfter c (stopped r) s run h = stalled-IsAfter opts iter c r s.state h run.0
  use_generated-IsAfter c (files fs) s run same =
      use_now (IsRunning opts (course s.state)) (IsAfter opts iter) _
        (subst (IsRunning opts) (sym same) run) (build_run_validate-Ends fs _)

  -- One iteration from a running state leaves a running state, or a result with its cause.
  pub iterate-IsAfter :
      (s : Sys W R)
      → IsRunning opts (course s.state)
      → Ensures (iterate world iter s) (IsAfter opts iter)
  unfolding iterate
  iterate-IsAfter s run =
      chain (GeneratedFrom iter (course s.state)) (IsAfter opts iter) _ (use_generated world iter)
        (after_if (GeneratedFrom iter) s.state.opts.agentic _ _ (generate_agentic-course world iter)
          (generate_standard-course world iter) _)
        (λ g t. use_generated-IsAfter (course s.state) g t run)

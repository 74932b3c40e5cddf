-- ===== src/Attractor/Loop/Completes.antt =====
-- In a world whose calls succeed a run returns a result.
use octopusgarden.Prelude.{
  ◌&&◌, ◌+◌, ◌++◌, [], arith, Bool, Bool-cases, Dict, fge, Float, flt, inl, inr, is_empty, List,
  none, not, Option, refl, some, suc, Text, zero, ◌||◌, ℕ, ◌∷◌, ◌≡◌,
}
use octopusgarden.Attractor.Loop.State.{
  build_error, build_fail, is_budget_exceeded, result, run_error, run_fail, RunOptions, RunResult,
  RunState,
}
use octopusgarden.Attractor.Loop.World.{
  Action, Container, deferring, done, Exit, fail, modify, Sys, TestResult, World,
}
use octopusgarden.Attractor.Loop.Generation.{
  files, generate_agentic, generate_standard, Generated, stall, stopped,
}
use octopusgarden.Attractor.Loop.Containers.{
  down, grpc_checked, grpc_started, http_started, not_needed, run_test_command, Service,
  start_grpc_container, start_http_container, start_service_container, test_answered, up,
  wait_grpc_health,
}
use octopusgarden.Attractor.Loop.Validation.{
  advance_tier_if_needed, converge_with, keep_going, process_validation, regressions_of, write_best,
}
use octopusgarden.Attractor.Oscillation.{hash_files}
use octopusgarden.Attractor.Loop.Run.{
  after_test, build_run_validate, end_round, in_session, iterate, next_tier_or, run, run_from,
  serve_and_validate, served, test_and_validate, use_generated, validated_with,
}
use octopusgarden.Attractor.Loop.Returns.{
  either_way, generate_agentic-Returns, generate_standard-Returns, Gives, IsObliging, Returns,
  stall-Returns, then-Always,
}

module _ {W R : Type 0} ⦃F : Float R⦄ (world : World W R) (obliging : IsObliging world) where
  abbrev Yes : {A : Type 0} → A → Type 0
  Yes a = Unit

  http_started-Returns :
      (iter : ℕ) (started : Option Container) → Returns (http_started world iter started)
  unfolding http_started stall
  http_started-Returns iter none s = tt
  http_started-Returns iter (some c) s = ground arith

  wait_grpc_health-Returns : (iter : ℕ) (c : Container) → Returns (wait_grpc_health world iter c)
  unfolding wait_grpc_health stall
  wait_grpc_health-Returns iter c s = ground arith

  grpc_checked-Returns :
      (c : Container) (r : Option (RunResult R)) → Returns (grpc_checked world c r)
  unfolding grpc_checked
  grpc_checked-Returns c none s = tt
  grpc_checked-Returns c (some r) s = tt

  grpc_started-Returns :
      (iter : ℕ) (started : Option Container) → Returns (grpc_started world iter started)
  unfolding grpc_started stall
  grpc_started-Returns iter none s = tt
  grpc_started-Returns iter (some c) s =
      then-Always Yes Yes (wait_grpc_health world iter c) (grpc_checked world c)
        (wait_grpc_health-Returns iter c) (λ r _. grpc_checked-Returns c r) s

  start_service-Returns : (iter : ℕ) → Returns (start_service_container world iter)
  unfolding start_service_container start_http_container start_grpc_container
  start_service-Returns iter s =
      let caps = s.state.opts.capabilities in
      either_way Yes caps.needs_grpc _ _
        (λ t. grpc_started-Returns iter (world.run_multi_port t.world).0 _)
        (either_way Yes (caps.needs_tui && not caps.needs_http) _ _ (λ t. tt)
          (either_way Yes (caps.needs_http || caps.needs_browser || not caps.needs_exec) _ _
            (λ t. http_started-Returns iter (world.run_container t.world).0 _) (λ t. tt)))
        s

  test_answered-Returns : (iter : ℕ) (t : TestResult) → Returns (test_answered world iter (some t))
  unfolding test_answered stall
  test_answered-Returns iter t s = ground arith

  run_test_command-Returns :
      (iter : ℕ) (container_id : Text) → Returns (run_test_command world iter container_id)
  unfolding run_test_command
  run_test_command-Returns iter container_id s =
      either_way Yes (is_empty s.state.opts.test_command || is_empty container_id) _ _ (λ t. tt)
        (λ t.
          let (result, same, _) = obliging.tests t.world in
          rw same
            (test_answered-Returns iter result (record t { world = (world.run_test t.world).1 })))
        s

  process_validation-Returns :
      (iter : ℕ) (satisfaction : R) (failures : List Text) (fs : Dict Text)
      → Returns (process_validation world iter satisfaction failures fs)
  unfolding process_validation converge_with keep_going write_best
  process_validation-Returns iter satisfaction failures fs s =
      elim (Bool-cases (
        fge satisfaction s.state.opts.threshold
        && not (
            s.state.opts.block_on_regression
            && not (is_empty (regressions_of iter failures s.state))))) [
              | inl e ↦ rw (e, obliging.writes fs s.world) tt
              | inr e ↦ elim (Bool-cases (flt s.state.best_satisfaction satisfaction)) [
                | inl better ↦ rw (e, better, obliging.writes fs s.world) tt
                | inr level ↦ rw (e, level) tt
              ]
            ]

  after_test-Returns :
      (iter : ℕ) (fs : Dict Text) (skipped : Option (Option (RunResult R)))
      → Returns (after_test world iter fs skipped)
  unfolding after_test validated_with
  after_test-Returns iter fs (some r) s = tt
  after_test-Returns iter fs none s =
      let tier = s.state.active_tier in
      let (v, same, _) = obliging.validates tier s.world in
      rw same (process_validation-Returns iter v.satisfaction v.failures fs _)

  test_and_validate-Returns :
      (iter : ℕ) (container_id : Text) (fs : Dict Text)
      → Returns (test_and_validate world iter container_id fs)
  unfolding test_and_validate
  test_and_validate-Returns iter container_id fs =
      then-Always Yes Yes (run_test_command world iter container_id) (after_test world iter fs)
        (run_test_command-Returns iter container_id)
        (λ skipped _. after_test-Returns iter fs skipped)

  deferring-Returns :
      {A : Type 0} (f : W → W) (m : Action W R A) → Returns m → Returns (deferring f m)
  deferring-Returns f m h = then-Always Yes Yes m _ h (λ a _ s. tt)

  served-Returns :
      (iter : ℕ) (fs : Dict Text) (svc : Service R) → Returns (served world iter fs svc)
  unfolding served
  served-Returns iter fs not_needed s = test_and_validate-Returns iter [] fs s
  served-Returns iter fs (up c) s =
      deferring-Returns world.stop_container (test_and_validate world iter c.container_id fs)
        (test_and_validate-Returns iter c.container_id fs) s
  served-Returns iter fs (down (some r)) s = tt
  served-Returns iter fs (down none) s = test_and_validate-Returns iter [] fs s

  serve_and_validate-Returns :
      (iter : ℕ) (fs : Dict Text) → Returns (serve_and_validate world iter fs)
  unfolding serve_and_validate
  serve_and_validate-Returns iter fs =
      then-Always Yes Yes (start_service_container world iter) (served world iter fs)
        (start_service-Returns iter) (λ svc _. served-Returns iter fs svc)

  in_session-Returns : (iter : ℕ) (fs : Dict Text) → Returns (in_session world iter fs)
  unfolding in_session
  in_session-Returns iter fs s =
      either_way Yes (world.start_session s.world).0 _ _
        (deferring-Returns world.stop_session (serve_and_validate world iter fs)
          (serve_and_validate-Returns iter fs))
        (stall-Returns world obliging iter run_fail run_error (λ r. r)) _

  build_run_validate-Returns :
      (iter : ℕ) (fs : Dict Text) → Returns (build_run_validate world iter fs)
  unfolding build_run_validate
  build_run_validate-Returns iter fs s =
      let caps = s.state.opts.capabilities in
      either_way Yes (not (world.build s.world).0) _ _
        (stall-Returns world obliging iter build_fail build_error (λ r. r))
        (either_way Yes (caps.needs_exec || caps.needs_tui) _ _ (in_session-Returns iter fs)
          (serve_and_validate-Returns iter fs))
        _

  use_generated-Returns : (iter : ℕ) (g : Generated R) → Returns (use_generated world iter g)
  unfolding use_generated
  use_generated-Returns iter (stopped r) s = tt
  use_generated-Returns iter (files fs) s =
      then-Always Yes Yes
        (modify (λ t. record t {
          last_failures = [];
          code_hashes = t.code_hashes ++ hash_files world.sha256 fs ∷ [];
        }))
        (λ _. build_run_validate world iter fs) (λ t. tt)
        (λ _ _. build_run_validate-Returns iter fs) s

  iterate-Returns : (iter : ℕ) → Returns (iterate world iter)
  unfolding iterate
  iterate-Returns iter s =
      then-Always Yes Yes _ (use_generated world iter)
        (either_way Yes s.state.opts.agentic (generate_agentic world iter)
          (generate_standard world iter) (generate_agentic-Returns world obliging iter)
          (generate_standard-Returns world obliging iter))
        (λ g _. use_generated-Returns iter g) _

  end_round-Returns :
      (next : Action W R (RunResult R)) (ended : Option (RunResult R))
      → Returns next
      → Returns (end_round next ended)
  unfolding end_round next_tier_or
  end_round-Returns next none h s = h s
  end_round-Returns next (some r) h s = decided (advance_tier_if_needed r s.state) s
    where
      decided : (o : Option (RunState R)) → Returns (next_tier_or next r o)
      decided none t = tt
      decided (some t') t = h _

  run_from-Returns : (left iter : ℕ) → Returns (run_from world left iter)
  unfolding run_from
  run_from-Returns zero iter s = tt
  run_from-Returns (suc left) iter s =
      either_way Yes (is_budget_exceeded s.state) _ _ (λ t. tt)
        (then-Always Yes Yes (iterate world iter) _ (iterate-Returns iter) (λ ended _ t.
          end_round-Returns (run_from world left (iter + 1)) ended
            (run_from-Returns left (iter + 1)) _))
        s

  Gives-done :
      {A : Type 0} (e : Exit W R A) → Gives e Yes → (a : A) × (t : Sys W R) × (e ≡ done a t)
  Gives-done (done a t) h = (a, t, refl)
  Gives-done (fail e) h = absurd h

  -- If every call of the world succeeds and no answer makes the parser panic, every run returns a
  -- result, whatever fails to build or to start.
  pub run-done :
      (opts : RunOptions R) (composed_cost : R) (composed_context : Bool)
      (summarize_cost : Option R) (w : W)
      → (r : RunResult R) × (t : Sys W R) × (run world opts composed_cost composed_context
            summarize_cost w
          ≡ done r t)
  unfolding run
  run-done opts composed_cost composed_context summarize_cost w =
      Gives-done _ (run_from-Returns opts.max_iterations 1 _)

-- ===== src/Attractor/Resources/PaidLoop.antt =====
-- The cost that the loop counts is what was spent.
use octopusgarden.Prelude.{
  ◌+◌, ◌++◌, ◌+ᶠ◌, [], ap, arith, Dict, false, Float, if◌then◌else◌, inl, inr, List, none, not,
  of_nat, Option, some, suc, Text, zero, ◌||◌, ℕ, ◌∷◌, ◌≡◌,
}
use octopusgarden.Attractor.Loop.World.{Action, call, Container, modify, Sys, Validation, World}
use octopusgarden.Attractor.Loop.State.{
  build_error, build_fail, is_budget_exceeded, record_stall, reset_for_tier_advancement, run_error,
  run_fail, RunResult,
}
use octopusgarden.Attractor.Loop.Generation.{
  files, generate_agentic, generate_standard, Generated, stall, stopped,
}
use octopusgarden.Attractor.Loop.Containers.{
  down, grpc_checked, grpc_started, http_started, not_needed, run_test_command, Service,
  start_grpc_container, start_http_container, start_service_container, test_answered, up,
  wait_grpc_health,
}
use octopusgarden.Attractor.Loop.Validation.{
  advance_tier, converge_with, keep_going, process_validation, record_feedback, record_improvement,
  record_no_improvement, record_scores, track_patch_regression, write_best,
}
use octopusgarden.Attractor.Loop.Run.{
  after_test, build_run_validate, end_round, in_session, iterate, next_tier_or, record_escalation,
  run_from, serve_and_validate, served, test_and_validate, use_generated, validated_with,
}
use octopusgarden.Attractor.Resources.Ledger.{
  EndsSettled, IsSettled, Ledger, paid, Settles, Settles-bind, Settles-deferring, Settles-if,
  Settles-unpaid, unpaid, with_validation,
}
use octopusgarden.Attractor.Oscillation.{hash_files}
use octopusgarden.Attractor.Loop.Outcomes.{advance_tier_if_needed-cases, stays}
use octopusgarden.Attractor.Resources.PaidGeneration.{
  generate_agentic-Settles, generate_standard-Settles, stall-Settles,
}

module _ {W R : Type 0} ⦃F : Float R⦄ (world : World W R) where
  process_validation-Settles :
      (iter : ℕ) (satisfaction : R) (failures : List Text) (fs : Dict Text)
      → Settles (process_validation (paid world) iter satisfaction failures fs)
  unfolding process_validation converge_with keep_going write_best record_scores record_improvement
      record_no_improvement record_feedback track_patch_regression
  process_validation-Settles iter satisfaction failures fs s e = ground (arith, e)

  validated_with-Settled :
      (iter : ℕ) (fs : Dict Text) (o : Option (Validation R)) (s : Sys (Ledger W R) R) (w : W)
      → IsSettled s
      → EndsSettled
          (validated_with (paid world) iter fs o (record s { world = with_validation o w s.world }))
  unfolding validated_with
  validated_with-Settled iter fs none s w e = tt
  validated_with-Settled iter fs (some v) s w e =
      process_validation-Settles iter v.satisfaction v.failures fs _ (ap (λ x. x +ᶠ v.cost) e)

  after_test-Settles :
      (iter : ℕ) (fs : Dict Text) (o : Option (Option (RunResult R)))
      → Settles (after_test (paid world) iter fs o)
  unfolding after_test
  after_test-Settles iter fs (some r) s e = e
  after_test-Settles iter fs none s e = validated_with-Settled iter fs _ s _ e

  run_test_command-Settles :
      (iter : ℕ) (container_id : Text) → Settles (run_test_command (paid world) iter container_id)
  unfolding run_test_command test_answered stall record_stall
  run_test_command-Settles iter container_id s e = ground (arith, e)

  test_and_validate-Settles :
      (iter : ℕ) (container_id : Text) (fs : Dict Text)
      → Settles (test_and_validate (paid world) iter container_id fs)
  unfolding test_and_validate
  test_and_validate-Settles iter container_id fs =
      Settles-bind (run_test_command (paid world) iter container_id) _
        (run_test_command-Settles iter container_id) (after_test-Settles iter fs)

  served-Settles :
      (iter : ℕ) (fs : Dict Text) (svc : Service R) → Settles (served (paid world) iter fs svc)
  unfolding served
  served-Settles iter fs not_needed s e = test_and_validate-Settles iter [] fs s e
  served-Settles iter fs (up i) s e =
      Settles-deferring world.stop_container _
        (test_and_validate-Settles iter (Container.container_id i) fs) s e
  served-Settles iter fs (down (some r)) s e = e
  served-Settles iter fs (down none) s e = test_and_validate-Settles iter [] fs s e

  start_service_container-Settles : (iter : ℕ) → Settles (start_service_container (paid world) iter)
  unfolding start_service_container start_http_container http_started start_grpc_container
      grpc_started grpc_checked wait_grpc_health stall record_stall
  start_service_container-Settles iter s e = ground (arith, e)

  serve_and_validate-Settles :
      (iter : ℕ) (fs : Dict Text) → Settles (serve_and_validate (paid world) iter fs)
  unfolding serve_and_validate
  serve_and_validate-Settles iter fs =
      Settles-bind (start_service_container (paid world) iter) _
        (start_service_container-Settles iter) (served-Settles iter fs)

  in_session-Settles : (iter : ℕ) (fs : Dict Text) → Settles (in_session (paid world) iter fs)
  unfolding in_session
  in_session-Settles iter fs =
      Settles-bind (call (unpaid world.start_session)) _ (Settles-unpaid world.start_session)
        (λ started.
          Settles-if started _ _
            (Settles-deferring world.stop_session _ (serve_and_validate-Settles iter fs))
            (stall-Settles world iter run_fail run_error (λ r. r)))

  build_run_validate-Settles :
      (iter : ℕ) (fs : Dict Text) → Settles (build_run_validate (paid world) iter fs)
  unfolding build_run_validate
  build_run_validate-Settles iter fs =
      Settles-bind (call (unpaid world.build)) _ (Settles-unpaid world.build) (λ built s e.
        Settles-if (not built) _ _ (stall-Settles world iter build_fail build_error (λ r. r))
          (Settles-if (s.state.opts.capabilities.needs_exec || s.state.opts.capabilities.needs_tui)
            _ _ (in_session-Settles iter fs) (serve_and_validate-Settles iter fs))
          s e)

  use_generated-Settles : (iter : ℕ) (g : Generated R) → Settles (use_generated (paid world) iter g)
  unfolding use_generated
  use_generated-Settles iter (stopped r) s e = e
  use_generated-Settles iter (files fs) s e =
      Settles-bind
        (modify (λ t. record t {
          last_failures = [];
          code_hashes = t.code_hashes ++ hash_files world.sha256 fs ∷ [];
        }))
        _ (λ t h. h) (λ _. build_run_validate-Settles iter fs) s e

  module _ (add_zero : (x : R) → x +ᶠ of_nat 0 ≡ x) where
    iterate-Settles : (iter : ℕ) → Settles (iterate (paid world) iter)
    unfolding iterate
    iterate-Settles iter =
        Settles-bind (modify (λ t. record t { last_improved = false; last_turns = 0 })) _ (λ s e. e)
          (λ _ s e.
            Settles-bind
              (if s.state.opts.agentic
                then generate_agentic (paid world) iter
                else generate_standard (paid world) iter)
              _
              (Settles-if s.state.opts.agentic _ _ (generate_agentic-Settles world iter)
                (generate_standard-Settles world add_zero iter))
              (use_generated-Settles iter) s e)

    end_round-Settles :
        (next : Action (Ledger W R) R (RunResult R)) (o : Option (RunResult R))
        → Settles next
        → Settles (end_round next o)
    unfolding end_round next_tier_or advance_tier reset_for_tier_advancement
    end_round-Settles next none h s e = h s e
    end_round-Settles next (some r) h s e = elim (advance_tier_if_needed-cases r s.state) [
      | inl (stays, _) ↦ rw stays e
      | inr (advances, _) ↦ rw advances (h _ e)
    ]

    pub run_from-Settles : (left iter : ℕ) → Settles (run_from (paid world) left iter)
    unfolding run_from record_escalation
    run_from-Settles zero iter s e = e
    run_from-Settles (suc left) iter s e =
        Settles-if (is_budget_exceeded s.state) _ _ (λ s' e'. e')
          (Settles-bind (iterate (paid world) iter) _ (iterate-Settles iter)
            (λ o t h. end_round-Settles _ o (run_from-Settles left (iter + 1)) _ h))
          s e

-- ===== src/Attractor/Resources/Loop.antt =====
-- A run stops every container and every session that it starts.
use mathlib.Core.Path.{subst}
use octopusgarden.Attractor.Oscillation.{hash_files}
use octopusgarden.Prelude.{
  ◌*◌, ◌+◌, ◌++◌, [], arith, Bool, Dict, false, Float, if◌then◌else◌, List, none, not, Option, refl,
  some, suc, sym, Text, true, zero, ◌||◌, ℕ, ◌∷◌, ◌≡◌,
}
use octopusgarden.Attractor.Loop.State.{
  build_error, build_fail, is_budget_exceeded, run_error, run_fail, RunOptions, RunResult, RunState,
}
use octopusgarden.Attractor.Loop.World.{
  Action, call, Container, deferring, modify, Validation, World,
}
use octopusgarden.Attractor.Loop.Generation.{
  files, generate_agentic, generate_standard, Generated, stall, stopped,
}
use octopusgarden.Attractor.Loop.Containers.{
  down, not_needed, run_test_command, Service, start_service_container, test_answered, up,
}
use octopusgarden.Attractor.Loop.Validation.{
  advance_tier_if_needed, converge_with, keep_going, process_validation, write_best,
}
use octopusgarden.Attractor.Loop.Run.{
  after_test, build_run_validate, end_round, in_session, iterate, next_tier_or, run, run_from,
  serve_and_validate, served, test_and_validate, use_generated, validated_with,
}
use octopusgarden.Attractor.Resources.Books.{booked, Books, counts, Counts, lifted, one_if}
use octopusgarden.Attractor.Resources.Steady.{
  From, from_bind, from_if, Holds, Spends, Within, Within-bind, Within-if, Within-lifted,
  Within-mono, Within-then,
}
use octopusgarden.Attractor.Resources.Serving.{
  counts_with, deferring_container-Spends, deferring_session-Spends, start_service_container-counts,
}
use octopusgarden.Attractor.Resources.Generation.{
  generate_agentic-Within, generate_standard-Within, stall-Within,
}

module _ {W R : Type 0} ⦃F : Float R⦄ (world : World W R) where
  process_validation-Within :
      (iter : ℕ) (satisfaction : R) (failures : List Text) (fs : Dict Text)
      → Within 0 (process_validation (booked world) iter satisfaction failures fs)
  unfolding process_validation converge_with keep_going write_best
  process_validation-Within iter satisfaction failures fs c s e = ground (arith, e)

  after_test-Within :
      (iter : ℕ) (fs : Dict Text) (o : Option (Option (RunResult R)))
      → Within 0 (after_test (booked world) iter fs o)
  unfolding after_test validated_with
  after_test-Within iter fs (some r) c s e = ground (arith, e)
  after_test-Within iter fs none c s e =
      Within-then 0 (call (lifted (world.validate s.state.active_tier))) _
        (Within-lifted (world.validate s.state.active_tier)) answered c s e
    where
      answered : (a : Option (Validation R)) → Within 0 (validated_with (booked world) iter fs a)
      answered none c' s' e' = tt
      answered (some v) c' s' e' =
          process_validation-Within iter v.satisfaction v.failures fs c' _ e'

  run_test_command-Within :
      (iter : ℕ) (container_id : Text)
      → Within 0 (run_test_command (booked world) iter container_id)
  unfolding run_test_command test_answered stall
  run_test_command-Within iter container_id c s e = ground (arith, e)

  test_and_validate-Within :
      (iter : ℕ) (container_id : Text) (fs : Dict Text)
      → Within 0 (test_and_validate (booked world) iter container_id fs)
  unfolding test_and_validate
  test_and_validate-Within iter container_id fs =
      Within-then 0 (run_test_command (booked world) iter container_id) _
        (run_test_command-Within iter container_id) (after_test-Within iter fs)

  served-Spends :
      (iter : ℕ) (fs : Dict Text) (svc : Service R) (c : Counts)
      → From (counts_with svc c) (served (booked world) iter fs svc) (λ _ d. Spends 0 c d)
  unfolding served
  served-Spends iter fs not_needed c s e = test_and_validate-Within iter [] fs c s e
  served-Spends iter fs (up i) c s e =
      deferring_container-Spends world 0
        (test_and_validate (booked world) iter (Container.container_id i) fs)
        (test_and_validate-Within iter (Container.container_id i) fs) c s e
  served-Spends iter fs (down (some r)) c s e = ground (arith, e)
  served-Spends iter fs (down none) c s e = test_and_validate-Within iter [] fs c s e

  serve_and_validate-Within :
      (iter : ℕ) (fs : Dict Text) → Within 0 (serve_and_validate (booked world) iter fs)
  unfolding serve_and_validate
  serve_and_validate-Within iter fs c =
      from_bind (λ svc d. d ≡ counts_with svc c) _ c (start_service_container (booked world) iter) _
        (start_service_container-counts world iter c)
        (λ svc d p.
          subst (λ x. From x (served (booked world) iter fs svc) (λ _ y. Spends 0 c y)) (sym p)
            (served-Spends iter fs svc c))

  session_started-Spends :
      (iter : ℕ) (fs : Dict Text) (c : Counts) (started : Bool)
      → From
          (record c { sessions = c.sessions + one_if started })
          (if started
            then deferring
                (World.stop_session (booked world))
                (serve_and_validate (booked world) iter fs)
            else stall (booked world) iter run_fail run_error (λ r. r))
          (λ _ d. Spends 0 c d)
  unfolding one_if
  session_started-Spends iter fs c true s e =
      deferring_session-Spends world 0 (serve_and_validate (booked world) iter fs)
        (serve_and_validate-Within iter fs) c s e
  session_started-Spends iter fs c false s e =
      stall-Within world iter run_fail run_error (λ r. r) c s (ground (arith, e))

  in_session-Within : (iter : ℕ) (fs : Dict Text) → Within 0 (in_session (booked world) iter fs)
  unfolding in_session
  in_session-Within iter fs c s e = session_started-Spends iter fs c _ _ (ground (arith, e))

  build_run_validate-Within :
      (iter : ℕ) (fs : Dict Text) → Within 0 (build_run_validate (booked world) iter fs)
  unfolding build_run_validate
  build_run_validate-Within iter fs c s e =
      from_if _ c (not (world.build s.world.inner).0) _ _
        (stall-Within world iter build_fail build_error (λ r. r) c)
        (from_if _ c (s.state.opts.capabilities.needs_exec || s.state.opts.capabilities.needs_tui) _
          _ (in_session-Within iter fs c) (serve_and_validate-Within iter fs c))
        _ e

  use_generated-Within :
      (iter : ℕ) (g : Generated R) → Within 0 (use_generated (booked world) iter g)
  unfolding use_generated
  use_generated-Within iter (stopped r) c s e = ground (arith, e)
  use_generated-Within iter (files fs) c s e =
      Within-then 0
        (modify (λ t. record t {
          last_failures = [];
          code_hashes = t.code_hashes ++ hash_files world.sha256 fs ∷ [];
        }))
        _ (λ c' s' e'. ground (arith, e')) (λ _. build_run_validate-Within iter fs) c s e

  pub iterate-Within : (iter : ℕ) → Within 4 (iterate (booked world) iter)
  unfolding iterate
  iterate-Within iter c s e =
      Within-then 4 (modify (λ t. record t { last_improved = false; last_turns = 0 })) _
        (λ c' s' e'. ground (arith, e'))
        (λ _ c' s' e'.
          Within-bind 4 0 4
            (if s'.state.opts.agentic
              then generate_agentic (booked world) iter
              else generate_standard (booked world) iter)
            _ (omega arith)
            (Within-if 4 s'.state.opts.agentic _ _
              (Within-mono 1 4 _ (omega arith) (generate_agentic-Within world iter))
              (generate_standard-Within world iter))
            (use_generated-Within iter) c' s' e')
        c s e

  end_round-Within :
      (n : ℕ) (next : Action (Books W) R (RunResult R)) (o : Option (RunResult R))
      → Within n next
      → Within n (end_round next o)
  unfolding end_round
  end_round-Within n next none h c s e = h c s e
  end_round-Within n next (some r) h c s e = tiered (advance_tier_if_needed r s.state)
    where
      tiered : (o : Option (RunState R)) → Holds (next_tier_or next r o s) (λ _ d. Spends n c d)
      tiered none = ground (arith, e)
      tiered (some t) = h c _ e

  pub run_from-Within : (left iter : ℕ) → Within (4 * left) (run_from (booked world) left iter)
  unfolding run_from
  run_from-Within zero iter c s e = ground (arith, e)
  run_from-Within (suc left) iter c s e =
      from_if _ c (is_budget_exceeded s.state) _ _ (λ s' e'. ground (arith, e'))
        (Within-bind 4 (4 * left) (4 * suc left) (iterate (booked world) iter) _ (omega arith)
          (iterate-Within iter)
          (λ o c' s' e'. end_round-Within (4 * left) _ o (run_from-Within left (iter + 1)) c' _ e')
          c)
        s e

  pub run-Spends :
      (opts : RunOptions R) (composed_cost : R) (composed_context : Bool)
      (summarize_cost : Option R) (b : Books W)
      → Holds
          (run (booked world) opts composed_cost composed_context summarize_cost b)
          (λ _ d. Spends (4 * opts.max_iterations) (counts b) d)
  unfolding run
  run-Spends opts composed_cost composed_context summarize_cost b =
      run_from-Within opts.max_iterations 1 (counts b) _ refl

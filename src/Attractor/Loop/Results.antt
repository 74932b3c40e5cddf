-- ===== src/Attractor/Loop/Results.antt =====
-- The result of the loop of Run in attractor.go, for every world and all options.
use mathlib.Core.Path.{subst}
use octopusgarden.Prelude.{◌<◌, arith, Bool, false, Float, inl, Option, refl, true, ◌≡◌}
use octopusgarden.Attractor.Loop.State.{
  initial_active_tier, new_run_state, RunOptions, RunResult, RunState, with_defaults,
}
use octopusgarden.Attractor.Loop.World.{done, Exit, Sys, World}
use octopusgarden.Attractor.Loop.Run.{run}
use octopusgarden.Attractor.Loop.Ensures.{Ensures}
use octopusgarden.Attractor.Loop.Frame.{course}
use octopusgarden.Attractor.Loop.Invariant.{IsRunning, IsTier}
use octopusgarden.Attractor.Loop.Outcomes.{IsOutcome, run_from-EndsWell}

initial-IsTier : (stratified : Bool) → IsTier stratified (initial_active_tier stratified)
unfolding initial_active_tier
initial-IsTier true = (omega arith, omega arith)
initial-IsTier false = refl

module _ {R : Type 0} ⦃F : Float R⦄ where
  pub with_defaults-positive : (opts : RunOptions R) → 0 < (with_defaults opts).stall_limit
  unfolding with_defaults
  with_defaults-positive opts = ground arith

  -- A new state is running under any options with a positive stall limit.
  pub new_run_state-IsRunning :
      (opts : RunOptions R) (composed_cost : R) (composed_context : Bool)
      → 0 < opts.stall_limit
      → IsRunning opts (course (new_run_state opts composed_cost composed_context))
  unfolding new_run_state
  new_run_state-IsRunning opts composed_cost composed_context positive = (
    record {
      same_opts = refl;
      best_above = tt;
      best_seen = inl refl;
      patch_count = λ _. omega arith;
      patch_allowed = λ e. e;
      tier = initial-IsTier opts.stratified;
    },
    positive,
  )

  pub done-Ensures :
      {W A : Type 0} (Q : A → RunState R → Type 0) (e : Exit W R A) (a : A) (s : Sys W R)
      → e ≡ done a s
      → Ensures e Q
      → Q a s.state
  done-Ensures Q e a s same = subst (λ x. Ensures x Q) same

module _ {W R : Type 0} ⦃F : Float R⦄ (world : World W R) where
  -- A run that returns a result has used at most `max_iterations` iterations; its satisfaction is
  -- the best one of the last tier; and its status holds of it: the satisfaction of a converged run
  -- reaches the threshold, in the last tier if the run is stratified; a stalled run has reached the
  -- stall limit; a run over budget has spent it; otherwise all the iterations were used.
  pub run-IsOutcome :
      (opts : RunOptions R) (composed_cost : R) (composed_context : Bool)
      (summarize_cost : Option R) (w : W) (r : RunResult R) (t : Sys W R)
      → run world (with_defaults opts) composed_cost composed_context summarize_cost w ≡ done r t
      → IsOutcome (with_defaults opts) r t.state
  unfolding run
  run-IsOutcome opts composed_cost composed_context summarize_cost w r t e =
      let o = with_defaults opts in
      done-Ensures (IsOutcome o) _ r t e (
        run_from-EndsWell world o o.max_iterations 1 _ (with_defaults-positive opts) refl
          (new_run_state-IsRunning o composed_cost composed_context (with_defaults-positive opts)))

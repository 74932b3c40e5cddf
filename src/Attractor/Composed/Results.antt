-- ===== src/Attractor/Composed/Results.antt =====
-- The result of Run, whichever way it was reached.
use octopusgarden.Prelude.{
  ◌<◌, [], Bool, Bool-cases, false, Float, inl, inr, is_empty, lookup, none, not, of_nat, Option,
  refl, some, Text, true, ◌||◌, ◌≡◌, ◌⊎◌,
}
use octopusgarden.Attractor.Loop.State.{RunOptions, RunResult, RunState, with_defaults}
use octopusgarden.Attractor.Loop.World.{done, Exit, fail, RunError, Sys, World}
use octopusgarden.Attractor.Loop.Run.{run}
use octopusgarden.Attractor.Loop.Ensures.{Ensures}
use octopusgarden.Attractor.Loop.Outcomes.{IsOutcome, run_from-EndsWell}
use octopusgarden.Attractor.Loop.Results.{
  done-Ensures, new_run_state-IsRunning, with_defaults-positive,
}
use octopusgarden.Attractor.Composed.Run.{
  accepted, after_composed, broken, Composed, composed_state, Composition, fell_back, run_checked,
  run_spec, try_composed, validate_run_inputs,
}
use octopusgarden.Attractor.Composed.Outcomes.{IsComposed, IsComposedOutcome, run_composed-Composes}

-- tryComposed goes on to the composed attempt.
abbrev pub is_composed : {W R : Type 0} → Composition W R → RunOptions R → Bool
is_composed composition opts = not (
    is_empty composition.gene_components
    || is_empty composition.component_validators
    || opts.agentic)

module _ {W R : Type 0} ⦃F : Float R⦄ where
  -- The result of the loop, or that of the composed attempt.
  abbrev pub IsRunOutcome : Composition W R → RunOptions R → RunResult R → RunState R → Type 0
  IsRunOutcome composition opts r t =
      IsOutcome opts r t
      ⊎ ((is_composed composition opts ≡ true)
          × IsComposedOutcome opts.threshold (lookup [] composition.component_validators) r t)

  Ensures-weaken :
      {A : Type 0} (P Q : A → RunState R → Type 0) (e : Exit W R A)
      → ((a : A) (t : RunState R) → P a t → Q a t)
      → Ensures e P
      → Ensures e Q
  Ensures-weaken P Q (done a s) f h = f a s.state h
  Ensures-weaken P Q (fail e) f h = tt

module _ {W R : Type 0} ⦃F : Float R⦄ (world : World W R) (composition : Composition W R)
    (opts : RunOptions R) (positive : 0 < opts.stall_limit) (summarize_cost : Option R) where
  run-Outcome :
      (composed_cost : R) (composed_context : Bool) (w : W)
      → Ensures
          (run world opts composed_cost composed_context summarize_cost w)
          (IsRunOutcome composition opts)
  unfolding run
  run-Outcome composed_cost composed_context w =
      Ensures-weaken (IsOutcome opts) _ _ (λ r t h. inl h)
        (run_from-EndsWell world opts opts.max_iterations 1 _ positive refl
          (new_run_state-IsRunning opts composed_cost composed_context positive))

  after_composed-Outcome :
      (x : Exit W R (Composed R))
      → is_composed composition opts ≡ true
      → Ensures x (λ a t.
        (t.opts ≡ opts)
        × IsComposed opts.threshold (lookup [] composition.component_validators) a t)
      → Ensures
          (after_composed world composition opts summarize_cost x)
          (IsRunOutcome composition opts)
  unfolding after_composed
  after_composed-Outcome (fail e) c h = tt
  after_composed-Outcome (done (accepted r) t) c h = inr (c, h.1)
  after_composed-Outcome (done (broken e) t) c h = tt
  after_composed-Outcome (done fell_back t) c h = run-Outcome t.state.total_cost true t.world

  try_composed-Outcome :
      (w : W)
      → Ensures
          (try_composed world composition opts summarize_cost w)
          (IsRunOutcome composition opts)
  unfolding try_composed composed_state
  try_composed-Outcome w =
      elim (Bool-cases (
        is_empty composition.gene_components
        || is_empty composition.component_validators
        || opts.agentic)) [
          | inl skipped ↦ rw skipped (run-Outcome (of_nat 0) false w)
          | inr tried ↦ rw tried (
              after_composed-Outcome _ (rw tried refl)
                (run_composed-Composes world composition opts _ refl))
        ]

module _ {W R : Type 0} ⦃F : Float R⦄ (world : World W R) (composition : Composition W R)
    (opts : RunOptions R) (summarize_cost : Option R) where
  run_checked-Outcome :
      (w : W) (e : Option RunError)
      → Ensures
          (run_checked world composition opts summarize_cost w e)
          (IsRunOutcome composition (with_defaults opts))
  unfolding run_checked
  run_checked-Outcome w (some e) = tt
  run_checked-Outcome w none =
      try_composed-Outcome world composition (with_defaults opts) (with_defaults-positive opts)
        summarize_cost w

  -- Whatever the world answers, a result of the whole of Run is one of the loop or, if the composed
  -- attempt was made, one of it. Of the loop: at most `max_iterations` iterations, the cost
  -- and the best satisfaction of the final state, and a status that is true of that state. Of the composed
  -- attempt: no iteration, converged, the cost and the tokens of its final state, and a satisfaction
  -- that the integration validator gave and that reaches the threshold, or 100 if there is none.
  pub run_spec-IsRunOutcome :
      (raw_spec : Text) (w : W) (r : RunResult R) (t : Sys W R)
      → run_spec world composition opts summarize_cost raw_spec w ≡ done r t
      → IsRunOutcome composition (with_defaults opts) r t.state
  unfolding run_spec
  run_spec-IsRunOutcome raw_spec w r t e =
      done-Ensures (IsRunOutcome composition (with_defaults opts)) _ r t e
        (run_checked-Outcome w (validate_run_inputs raw_spec composition.language))

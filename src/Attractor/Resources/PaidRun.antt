-- ===== src/Attractor/Resources/PaidRun.antt =====
-- The cost that the whole of Run counts is what was spent.
use mathlib.Core.Path.{subst}
use octopusgarden.Prelude.{
  ◌+ᶠ◌, Bool, Bool-cases, false, Float, inl, inr, is_empty, none, of_nat, Option, refl, some, Text,
  true, ◌||◌, ◌∙◌, ◌≡◌,
}
use octopusgarden.Attractor.Loop.World.{done, Exit, fail, RunError, Sys, World}
use octopusgarden.Attractor.Loop.State.{
  new_run_state, RunOptions, RunResult, RunState, with_defaults,
}
use octopusgarden.Attractor.Loop.Run.{run}
use octopusgarden.Attractor.Composed.Run.{
  accepted, after_composed, broken, Composed, composed_state, Composition, fell_back, run_checked,
  run_spec, try_composed, validate_run_inputs,
}
use octopusgarden.Attractor.Resources.Ledger.{EndsSettled, Ledger, paid, paid_composition}
use octopusgarden.Attractor.Resources.PaidLoop.{run_from-Settles}
use octopusgarden.Attractor.Resources.PaidComposed.{run_composed-Settles}
use octopusgarden.Attractor.Composed.Results.{IsRunOutcome, run_spec-IsRunOutcome}

module _ {W R : Type 0} ⦃F : Float R⦄ (world : World W R) (add_zero : (x : R) → x +ᶠ of_nat 0 ≡ x)
    (composition : Composition W R) (opts : RunOptions R) where
  run-EndsSettled :
      (composed_cost : R) (composed_context : Bool) (l : Ledger W R)
      → composed_cost ≡ l.spent
      → EndsSettled (run (paid world) opts composed_cost composed_context none l)
  unfolding run new_run_state
  run-EndsSettled composed_cost composed_context l e =
      run_from-Settles world add_zero opts.max_iterations 1 _ e

  after_composed-EndsSettled :
      (x : Exit (Ledger W R) R (Composed R))
      → EndsSettled x
      → EndsSettled (after_composed (paid world) (paid_composition composition) opts none x)
  unfolding after_composed
  after_composed-EndsSettled (fail e) h = tt
  after_composed-EndsSettled (done (accepted r) t) h = h
  after_composed-EndsSettled (done (broken e) t) h = tt
  after_composed-EndsSettled (done fell_back t) h =
      run-EndsSettled t.state.total_cost true t.world h

  try_composed-EndsSettled :
      (l : Ledger W R)
      → of_nat 0 ≡ l.spent
      → EndsSettled (try_composed (paid world) (paid_composition composition) opts none l)
  unfolding try_composed composed_state
  try_composed-EndsSettled l e =
      elim (Bool-cases (
        is_empty composition.gene_components
        || is_empty (Composition.component_validators (paid_composition composition))
        || opts.agentic)) [
          | inl skipped ↦ rw skipped (run-EndsSettled (of_nat 0) false l e)
          | inr tried ↦
              rw tried (after_composed-EndsSettled _ (run_composed-Settles world composition _ e))
        ]

abbrev pub new_ledger : {W R : Type 0} ⦃F : Float R⦄ → W → Ledger W R
new_ledger w = record { spent = of_nat 0; inner = w }

run_spec-IsSettled :
    {W R : Type 0} ⦃F : Float R⦄ (world : World W R)
    → ((x : R) → x +ᶠ of_nat 0 ≡ x)
    → (composition : Composition W R) (opts : RunOptions R) (raw_spec : Text) (w : W)
      (r : RunResult R) (t : Sys (Ledger W R) R)
    → run_spec (paid world) (paid_composition composition) opts none raw_spec (new_ledger w)
      ≡ done r t
    → t.state.total_cost ≡ t.world.spent
unfolding run_spec run_checked
run_spec-IsSettled world add_zero composition opts raw_spec w r t e =
    subst EndsSettled e (checked (validate_run_inputs raw_spec composition.language))
  where
    checked :
        (o : Option RunError)
        → EndsSettled
            (run_checked (paid world) (paid_composition composition) opts none (new_ledger w) o)
    checked (some err) = tt
    checked none =
        try_composed-EndsSettled world add_zero composition (with_defaults opts) (new_ledger w) refl

outcome-cost :
    {W R : Type 0} ⦃F : Float R⦄ (composition : Composition W R) (opts : RunOptions R)
    (r : RunResult R) (t : RunState R)
    → IsRunOutcome composition opts r t
    → r.cost_usd ≡ t.total_cost
outcome-cost composition opts r t (inl h) = h.cost
outcome-cost composition opts r t (inr (_, h)) = h.cost

-- When no summary of the spec was made and adding 0 changes no number, then however a run goes, through
-- a composed attempt and its fallback, failed builds, triage, agents and tiers, the cost that its
-- result reports is the sum, in their order, of the costs of every generation and every validation
-- that the world has answered.
pub run_spec-cost :
    {W R : Type 0} ⦃F : Float R⦄ (world : World W R)
    → ((x : R) → x +ᶠ of_nat 0 ≡ x)
    → (composition : Composition W R) (opts : RunOptions R) (raw_spec : Text) (w : W)
      (r : RunResult R) (t : Sys (Ledger W R) R)
    → run_spec (paid world) (paid_composition composition) opts none raw_spec (new_ledger w)
      ≡ done r t
    → r.cost_usd ≡ t.world.spent
run_spec-cost world add_zero composition opts raw_spec w r t e =
    outcome-cost (paid_composition composition) (with_defaults opts) r t.state (
      run_spec-IsRunOutcome (paid world) (paid_composition composition) opts none raw_spec
        (new_ledger w) r t e)
    ∙ run_spec-IsSettled world add_zero composition opts raw_spec w r t e

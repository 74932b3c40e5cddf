-- ===== src/Attractor/Resources/Results.antt =====
-- The whole of Run on the books.
use octopusgarden.Attractor.Resources.Composed.{run_composed-Within}
use octopusgarden.Prelude.{
  ◌*◌, ◌+◌, arith, false, Float, is_empty, length, none, of_nat, Option, refl, some, Text, true,
  ◌||◌, ℕ,
}
use octopusgarden.Attractor.Loop.State.{RunOptions, with_defaults}
use octopusgarden.Attractor.Loop.World.{done, Exit, fail, RunError, World}
use octopusgarden.Attractor.Loop.Run.{run}
use octopusgarden.Attractor.Composed.Run.{
  accepted, after_composed, broken, Composed, Composition, fell_back, run_checked, run_spec,
  try_composed, validate_run_inputs,
}
use octopusgarden.Attractor.Resources.Books.{booked, booked_composition, Books, counts, Counts}
use octopusgarden.Attractor.Resources.Steady.{Holds, Holds-if, Holds-map, Spends}
use octopusgarden.Attractor.Resources.Loop.{run-Spends}

-- Five generations for a component, and four for an iteration of the loop.
abbrev pub most_generations : {W R : Type 0} ⦃F : Float R⦄ → Composition W R → RunOptions R → ℕ
most_generations composition opts =
    5 * length composition.gene_components + 4 * RunOptions.max_iterations (with_defaults opts)

module _ {W R : Type 0} ⦃F : Float R⦄ (world : World W R) (composition : Composition W R)
    (opts : RunOptions R) (summarize_cost : Option R) where
  after_composed-Spends :
      (n : ℕ) (c : Counts) (x : Exit (Books W) R (Composed R))
      → Holds x (λ _ d. Spends n c d)
      → Holds
          (after_composed (booked world) (booked_composition composition) opts summarize_cost x)
          (λ _ d. Spends (n + 4 * opts.max_iterations) c d)
  unfolding after_composed
  after_composed-Spends n c (fail e) h = tt
  after_composed-Spends n c (done (accepted r) t) h = ground (arith, h)
  after_composed-Spends n c (done (broken e) t) h = tt
  after_composed-Spends n c (done fell_back t) h =
      Holds-map (λ _ d. Spends (4 * opts.max_iterations) (counts t.world) d) _
        (run (booked world) opts t.state.total_cost true summarize_cost t.world)
        (λ r d q. ground (arith, h, q))
        (run-Spends world opts t.state.total_cost true summarize_cost t.world)

  try_composed-Spends :
      (b : Books W)
      → Holds
          (try_composed (booked world) (booked_composition composition) opts summarize_cost b)
          (λ _ d.
            Spends (5 * length composition.gene_components + 4 * opts.max_iterations) (counts b) d)
  unfolding try_composed
  try_composed-Spends b =
      Holds-if _
        (is_empty composition.gene_components
          || is_empty (Composition.component_validators (booked_composition composition))
          || opts.agentic)
        _ _
        (Holds-map (λ _ d. Spends (4 * opts.max_iterations) (counts b) d) _
          (run (booked world) opts (of_nat 0) false summarize_cost b) (λ r d q. ground (arith, q))
          (run-Spends world opts (of_nat 0) false summarize_cost b))
        (after_composed-Spends (5 * length composition.gene_components) (counts b) _
          (run_composed-Within world composition (counts b) _ refl))

-- When a run returns a result, through any failures, fallbacks and early returns, as many containers
-- and as many sessions are open as before it, and it has asked for at most five generations for each
-- component of the gene and four for each iteration that its options allow. The call that summarises
-- a spec is not counted, and a validation is taken to leave as much open as it finds.
pub run_spec-Spends :
    {W R : Type 0} ⦃F : Float R⦄ (world : World W R) (composition : Composition W R)
    (opts : RunOptions R) (summarize_cost : Option R) (raw_spec : Text) (b : Books W)
    → Holds
        (run_spec (booked world) (booked_composition composition) opts summarize_cost raw_spec b)
        (λ _ d. Spends (most_generations composition opts) (counts b) d)
unfolding run_spec run_checked
run_spec-Spends world composition opts summarize_cost raw_spec b =
    checked_at (validate_run_inputs raw_spec composition.language)
  where
    checked_at :
        (e : Option RunError)
        → Holds
            (run_checked (booked world) (booked_composition composition) opts summarize_cost b e)
            (λ _ d. Spends (most_generations composition opts) (counts b) d)
    checked_at (some e) = tt
    checked_at none = try_composed-Spends world composition (with_defaults opts) summarize_cost b

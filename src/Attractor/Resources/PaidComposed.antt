-- ===== src/Attractor/Resources/PaidComposed.antt =====
-- The cost that the composed attempt counts is what was spent.
use octopusgarden.Prelude.{
  [], arith, Bool, Dict, false, fge, Float, inl, inr, List, map, none, of_nat, Option, some, Text,
  true, ◌∷◌, ◌⊎◌,
}
use octopusgarden.Attractor.Toposort.{Component, topo_sort, TopoError}
use octopusgarden.Attractor.Loop.World.{Action, call, Validation, World}
use octopusgarden.Attractor.Loop.State.{is_budget_exceeded}
use octopusgarden.Attractor.Composed.Serving.{ask_validator, Validator}
use octopusgarden.Attractor.Composed.Component.{component_failed, component_files, ComponentResult}
use octopusgarden.Attractor.Composed.Run.{
  accept, accept_written, after_component, all_converged, Composition, converge_all, fell_back,
  integrate, integration_checked, or_zero, run_composed, run_sorted, validate_composed,
}
use octopusgarden.Attractor.Resources.Ledger.{
  Ledger, paid, paid_composition, Settles, Settles-bind, Settles-if, Settles-unpaid, unpaid,
}
use octopusgarden.Attractor.Resources.PaidComponent.{
  built_and_served-Settles, converge_component-Settles, IsPaid, lookup-IsPaid,
}

module _ {W R : Type 0} ⦃F : Float R⦄ (world : World W R) where
  accept-Settles : (fs : Dict Text) (score : R) → Settles (accept (paid world) fs score)
  unfolding accept accept_written
  accept-Settles fs score s e = ground (arith, e)

  integration_checked-Settles :
      (fs : Dict Text) (o : Option (Validation R)) → Settles (integration_checked (paid world) fs o)
  unfolding integration_checked
  integration_checked-Settles fs none s e = e
  integration_checked-Settles fs (some v) s e =
      Settles-if (fge v.satisfaction s.state.opts.threshold) _ _ (accept-Settles fs v.satisfaction)
        (λ s' e'. e') s e

  integrate-Settles :
      (fs : Dict Text) (v : Option (Validator (Ledger W R) R)) (written : Bool)
      → IsPaid v
      → Settles (integrate (paid world) fs v written)
  unfolding integrate
  integrate-Settles fs v false h s e = e
  integrate-Settles fs none true h s e = accept-Settles fs (of_nat 100) s e
  integrate-Settles fs (some v) true h s e =
      built_and_served-Settles world fell_back _
        (Settles-bind (ask_validator v) _ h (integration_checked-Settles fs)) s e

module _ {W R : Type 0} ⦃F : Float R⦄ (world : World W R) (composition : Composition W R) where
  validate_composed-Settles :
      (fs : Dict Text) → Settles (validate_composed (paid world) (paid_composition composition) fs)
  unfolding validate_composed
  validate_composed-Settles fs =
      Settles-bind (call (unpaid (world.write_files fs))) _ (Settles-unpaid (world.write_files fs))
        (λ written.
          integrate-Settles world fs _ written (lookup-IsPaid [] composition.component_validators))

  after_component-Settles :
      (x : Component) (accumulated : Dict Text) (by_component : Dict (Dict Text))
      (next : Dict Text → Dict (Dict Text) → Action (Ledger W R) R (Option (Dict (Dict Text))))
      → ((fs : Dict Text) (all : Dict (Dict Text)) → Settles (next fs all))
      → (r : ComponentResult)
      → Settles (
          after_component
            (paid world)
            (paid_composition composition)
            next
            x
            accumulated
            by_component
            r)
  unfolding after_component
  after_component-Settles x accumulated by_component next h (component_failed err) s e = e
  after_component-Settles x accumulated by_component next h (component_files fs) s e = h _ _ s e

  converge_all-Settles :
      (cs : List Component) (accumulated : Dict Text) (by_component : Dict (Dict Text))
      → Settles
          (converge_all (paid world) (paid_composition composition) cs accumulated by_component)
  unfolding converge_all
  converge_all-Settles [] accumulated by_component s e = e
  converge_all-Settles (x ∷ cs) accumulated by_component s e =
      Settles-if (is_budget_exceeded s.state) _ _ (λ s' e'. e')
        (Settles-bind _ _
          (converge_component-Settles world _
            (lookup-IsPaid x.name composition.component_validators) accumulated)
          (λ r. after_component-Settles x accumulated by_component _ (converge_all-Settles cs) r))
        s e

  all_converged-Settles :
      (sorted : List Component) (o : Option (Dict (Dict Text)))
      → Settles (all_converged (paid world) (paid_composition composition) sorted o)
  unfolding all_converged
  all_converged-Settles sorted none s e = e
  all_converged-Settles sorted (some by_component) s e = validate_composed-Settles _ s e

  run_sorted-Settles :
      (r : TopoError ⊎ List (Option Component))
      → Settles (run_sorted (paid world) (paid_composition composition) r)
  unfolding run_sorted
  run_sorted-Settles (inl err) s e = e
  run_sorted-Settles (inr cs) s e =
      Settles-bind _ _ (converge_all-Settles (map or_zero cs) [] [])
        (all_converged-Settles (map or_zero cs)) s e

  pub run_composed-Settles : Settles (run_composed (paid world) (paid_composition composition))
  unfolding run_composed
  run_composed-Settles = run_sorted-Settles (topo_sort composition.gene_components)

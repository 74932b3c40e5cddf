-- ===== src/Attractor/Resources/Composed.antt =====
-- The composed attempt stops what it starts, and asks for at most five generations a component.
use octopusgarden.Prelude.{
  ◌*◌, [], arith, Bool, Dict, false, fge, Float, inl, inr, length, length-map, List, map, none,
  of_nat, Option, refl, some, Text, true, ℕ, ◌∷◌, ◌≡◌, ◌⊎◌,
}
use octopusgarden.Attractor.Loop.State.{is_budget_exceeded}
use octopusgarden.Attractor.Loop.World.{Action, call, Validation, World}
use octopusgarden.Attractor.Toposort.{
  by_name, Component, kahn_names, sorted_if, sorted_unless, topo_sort, TopoError,
}
use octopusgarden.Attractor.Composed.Serving.{ask_validator, Validator}
use octopusgarden.Attractor.Composed.Component.{component_failed, component_files, ComponentResult}
use octopusgarden.Attractor.Composed.Run.{
  accept, accept_written, after_component, all_converged, Composition, converge_all, fell_back,
  integrate, integration_checked, or_zero, run_composed, run_sorted, validate_composed,
}
use octopusgarden.Attractor.Resources.Books.{booked, booked_composition, Books, lifted}
use octopusgarden.Attractor.Resources.Steady.{
  from_if, Within, Within-bind, Within-lifted, Within-then,
}
use octopusgarden.Attractor.Resources.Component.{
  built_and_served-Within, converge_component-Within, IsBooked, lookup-IsBooked,
}

module _ {W R : Type 0} ⦃F : Float R⦄ (world : World W R) where
  accept-Within : (fs : Dict Text) (score : R) → Within 0 (accept (booked world) fs score)
  unfolding accept accept_written
  accept-Within fs score c s e = ground (arith, e)

  integration_checked-Within :
      (fs : Dict Text) (o : Option (Validation R))
      → Within 0 (integration_checked (booked world) fs o)
  unfolding integration_checked
  integration_checked-Within fs none c s e = ground (arith, e)
  integration_checked-Within fs (some v) c s e =
      from_if _ c (fge v.satisfaction s.state.opts.threshold) _ _
        (accept-Within fs v.satisfaction c) (λ s' e'. ground (arith, e')) s e

  integrate-Within :
      (fs : Dict Text) (v : Option (Validator (Books W) R)) (written : Bool)
      → IsBooked v
      → Within 0 (integrate (booked world) fs v written)
  unfolding integrate
  integrate-Within fs v false h c s e = ground (arith, e)
  integrate-Within fs none true h c s e = accept-Within fs (of_nat 100) c s e
  integrate-Within fs (some v) true h c s e =
      built_and_served-Within world 0 fell_back _
        (Within-then 0 (ask_validator v) _ h (integration_checked-Within fs)) c s e

sorted_unless-length :
    (gene_components : List Component) (e : Option TopoError) (cs : List (Option Component))
    → sorted_unless gene_components e ≡ inr cs
    → length cs ≡ length gene_components
unfolding sorted_if
sorted_unless-length gene_components (some err) cs h = cc
sorted_unless-length gene_components none cs h =
    ground (arith, h, length-map (by_name gene_components) (kahn_names gene_components))

module _ {W R : Type 0} ⦃F : Float R⦄ (world : World W R) (composition : Composition W R) where
  validate_composed-Within :
      (fs : Dict Text)
      → Within 0 (validate_composed (booked world) (booked_composition composition) fs)
  unfolding validate_composed
  validate_composed-Within fs =
      Within-then 0 (call (lifted (world.write_files fs))) _ (Within-lifted (world.write_files fs))
        (λ written.
          integrate-Within world fs _ written (lookup-IsBooked [] composition.component_validators))

  after_component-Within :
      (x : Component) (accumulated : Dict Text) (by_component : Dict (Dict Text))
      (next : Dict Text → Dict (Dict Text) → Action (Books W) R (Option (Dict (Dict Text)))) (n : ℕ)
      → ((fs : Dict Text) (all : Dict (Dict Text)) → Within n (next fs all))
      → (r : ComponentResult)
      → Within n (
          after_component
            (booked world)
            (booked_composition composition)
            next
            x
            accumulated
            by_component
            r)
  unfolding after_component
  after_component-Within x accumulated by_component next n h (component_failed err) c s e =
      ground (arith, e)
  after_component-Within x accumulated by_component next n h (component_files fs) c s e =
      h _ _ c s e

  converge_all-Within :
      (cs : List Component) (accumulated : Dict Text) (by_component : Dict (Dict Text))
      → Within
          (5 * length cs)
          (converge_all (booked world) (booked_composition composition) cs accumulated by_component)
  unfolding converge_all after_component
  converge_all-Within [] accumulated by_component c s e = ground (arith, e)
  converge_all-Within (x ∷ cs) accumulated by_component c s e =
      from_if _ c (is_budget_exceeded s.state) _ _ (λ s' e'. ground (arith, e'))
        (Within-bind 5 (5 * length cs) (5 * length (x ∷ cs)) _ _ (omega arith)
          (converge_component-Within world _
            (lookup-IsBooked x.name composition.component_validators) accumulated)
          (λ r.
            after_component-Within x accumulated by_component _ (5 * length cs)
              (converge_all-Within cs) r)
          c)
        s e

  all_converged-Within :
      (sorted : List Component) (o : Option (Dict (Dict Text)))
      → Within 0 (all_converged (booked world) (booked_composition composition) sorted o)
  unfolding all_converged
  all_converged-Within sorted none c s e = ground (arith, e)
  all_converged-Within sorted (some by_component) c s e = validate_composed-Within _ c s e

  run_sorted-Within :
      (n : ℕ) (r : TopoError ⊎ List (Option Component))
      → ((cs : List (Option Component)) → r ≡ inr cs → length cs ≡ n)
      → Within (5 * n) (run_sorted (booked world) (booked_composition composition) r)
  unfolding run_sorted
  run_sorted-Within n (inl err) h c s e = ground (arith, e)
  run_sorted-Within n (inr cs) h c s e =
      Within-bind (5 * length (map or_zero cs)) 0 (5 * n) _ _
        (omega (arith, h cs refl, length-map or_zero cs))
        (converge_all-Within (map or_zero cs) [] []) (all_converged-Within (map or_zero cs)) c s e

  pub run_composed-Within :
      Within
        (5 * length composition.gene_components)
        (run_composed (booked world) (booked_composition composition))
  unfolding run_composed topo_sort
  run_composed-Within =
      run_sorted-Within (length composition.gene_components) (topo_sort composition.gene_components)
        (sorted_unless-length composition.gene_components _)

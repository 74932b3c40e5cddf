-- ===== src/Attractor/Composed/Completes.antt =====
-- In a world whose calls succeed the whole of Run returns a result, unless its input is refused or
-- the components cannot be sorted.
use mathlib.Core.Path.{subst}
use octopusgarden.Prelude.{
  [], Bool-cases, Dict, false, fge, Float, inl, inr, is_empty, List, lookup, map, none, of_nat,
  Option, refl, some, sym, Text, true, ◌||◌, ◌∷◌, ◌≡◌, ◌⊎◌,
}
use octopusgarden.Attractor.Loop.State.{is_budget_exceeded, RunOptions, RunResult, with_defaults}
use octopusgarden.Attractor.Loop.World.{◌>>=◌, Action, done, Exit, fail, Sys, Validation, World}
use octopusgarden.Attractor.Loop.Returns.{
  Always, either_way, Gives, IsObliging, obeyed, Returns, then-Always,
}
use octopusgarden.Attractor.Loop.Completes.{run-done}
use octopusgarden.Attractor.Toposort.{Component, topo_sort, TopoError}
use octopusgarden.Attractor.Composed.Serving.{ask_validator, Validator}
use octopusgarden.Attractor.Composed.Component.{
  component_failed, component_files, ComponentResult, converge_component,
}
use octopusgarden.Attractor.Composed.Run.{
  accept, accept_written, accepted, after_component, after_composed, all_converged, broken,
  Composed, Composition, converge_all, fell_back, integrate, integration_checked, or_zero,
  run_checked, run_composed, run_sorted, run_spec, try_composed, validate_composed,
  validate_run_inputs,
}
use octopusgarden.Attractor.Composed.Returns.{
  built_and_served-Always, converge_component-Returns, Yes,
}

-- No error that ends the run.
abbrev pub Continues : {R : Type 0} → Composed R → Type 0
Continues (accepted r) = Unit
Continues fell_back = Unit
Continues (broken e) = ⊥

abbrev pub CanSort : TopoError ⊎ List (Option Component) → Type 0
CanSort (inl e) = ⊥
CanSort (inr cs) = Unit

-- Every integration validation runs.
abbrev pub IsObligingValidator : {W R : Type 0} → Option (Validator W R) → Type 0
IsObligingValidator none = Unit
IsObligingValidator {W} {R} (some v) =
    (w : W) → (a : Validation R) × ((v 0 w).0 ≡ some a) × Unit {0}

module _ {W R : Type 0} ⦃F : Float R⦄ (world : World W R) (obliging : IsObliging world) where
  accept-Continues : (files : Dict Text) (score : R) → Always Continues (accept world files score)
  unfolding accept accept_written
  accept-Continues files score s = rw (obliging.writes files s.world) tt

  integration_checked-Continues :
      (files : Dict Text) (v : Validation R)
      → Always Continues (integration_checked world files (some v))
  unfolding integration_checked
  integration_checked-Continues files v s =
      either_way Continues (fge v.satisfaction s.state.opts.threshold) _ _
        (accept-Continues files v.satisfaction) (λ t. tt) s

  integrated-Continues :
      (files : Dict Text) (v : Validator W R)
      → IsObligingValidator (some v)
      → Always Continues (do answer ← ask_validator v; integration_checked world files answer)
  unfolding ask_validator
  integrated-Continues files v h s =
      let (a, e, _) = h s.world in rw e (integration_checked-Continues files a _)

  integrate-Continues :
      (files : Dict Text) (v : Option (Validator W R))
      → IsObligingValidator v
      → Always Continues (integrate world files v true)
  unfolding integrate
  integrate-Continues files none h s = accept-Continues files (of_nat 100) s
  integrate-Continues files (some v) h s =
      built_and_served-Always world Continues fell_back _ tt (integrated-Continues files v h) s

module _ {W R : Type 0} ⦃F : Float R⦄ (world : World W R) (obliging : IsObliging world)
    (composition : Composition W R)
    (validates : IsObligingValidator (lookup [] composition.component_validators)) where
  validate_composed-Continues :
      (files : Dict Text) → Always Continues (validate_composed world composition files)
  unfolding validate_composed
  validate_composed-Continues files =
      obeyed (Continues {R = R}) (world.write_files files)
        (integrate world files (lookup [] composition.component_validators)) (obliging.writes files)
        (integrate-Continues world obliging files (lookup [] composition.component_validators)
          validates)

  after_component-Returns :
      (next : Dict Text → Dict (Dict Text) → Action W R (Option (Dict (Dict Text)))) (c : Component)
      (accumulated : Dict Text) (by_component : Dict (Dict Text)) (r : ComponentResult)
      → ((fs : Dict Text) (all : Dict (Dict Text)) → Returns (next fs all))
      → Returns (after_component world composition next c accumulated by_component r)
  unfolding after_component
  after_component-Returns next c accumulated by_component (component_failed e) h s = tt
  after_component-Returns next c accumulated by_component (component_files fs) h s = h _ _ s

  converge_all-Returns :
      (cs : List Component) (accumulated : Dict Text) (by_component : Dict (Dict Text))
      → Returns (converge_all world composition cs accumulated by_component)
  unfolding converge_all
  converge_all-Returns [] accumulated by_component s = tt
  converge_all-Returns (c ∷ cs) accumulated by_component s =
      either_way Yes (is_budget_exceeded s.state) _ _ (λ t. tt)
        (then-Always Yes Yes
          (converge_component world (lookup c.name composition.component_validators) accumulated) _
          (converge_component-Returns world obliging
            (lookup c.name composition.component_validators) accumulated)
          (λ r _. after_component-Returns _ c accumulated by_component r (converge_all-Returns cs)))
        s

  all_converged-Continues :
      (sorted : List Component) (o : Option (Dict (Dict Text)))
      → Always Continues (all_converged world composition sorted o)
  unfolding all_converged
  all_converged-Continues sorted none s = tt
  all_converged-Continues sorted (some by_component) s = validate_composed-Continues _ s

  run_sorted-Continues :
      (r : TopoError ⊎ List (Option Component))
      → CanSort r
      → Always Continues (run_sorted world composition r)
  unfolding run_sorted
  run_sorted-Continues (inl e) h s = absurd h
  run_sorted-Continues (inr cs) h s =
      then-Always Yes Continues (converge_all world composition (map or_zero cs) [] []) _
        (converge_all-Returns (map or_zero cs) [] [])
        (λ o _. all_converged-Continues (map or_zero cs) o) s

  after_composed-done :
      (opts : RunOptions R) (summarize_cost : Option R) (x : Exit W R (Composed R))
      → Gives x Continues
      → (r : RunResult R) × (t : Sys W R) × (after_composed world composition opts summarize_cost x
          ≡ done r t)
  unfolding after_composed
  after_composed-done opts summarize_cost (done (accepted r) t) h = (r, t, refl)
  after_composed-done opts summarize_cost (done (broken e) t) h = absurd h
  after_composed-done opts summarize_cost (fail e) h = absurd h
  after_composed-done opts summarize_cost (done fell_back t) h =
      run-done world obliging opts t.state.total_cost true summarize_cost t.world

  try_composed-done :
      (opts : RunOptions R) (summarize_cost : Option R) (w : W)
      → CanSort (topo_sort composition.gene_components)
      → (r : RunResult R) × (t : Sys W R) × (try_composed world composition opts summarize_cost w
          ≡ done r t)
  unfolding try_composed run_composed
  try_composed-done opts summarize_cost w h =
      elim (Bool-cases (
        is_empty composition.gene_components
        || is_empty composition.component_validators
        || opts.agentic)) [
          | inl skipped ↦
              rw skipped (run-done world obliging opts (of_nat 0) false summarize_cost w)
          | inr tried ↦ rw tried (
              after_composed-done opts summarize_cost _
                (run_sorted-Continues (topo_sort composition.gene_components) h _))
        ]

  -- If every call of the world succeeds, no answer makes the parser panic, the integration
  -- validator answers, the components of the gene can be sorted and the spec and the language are
  -- accepted, the whole of Run returns a result, whatever fails to build or to start.
  pub run_spec-done :
      (opts : RunOptions R) (summarize_cost : Option R) (raw_spec : Text) (w : W)
      → CanSort (topo_sort composition.gene_components)
      → validate_run_inputs raw_spec composition.language ≡ none
      → (r : RunResult R) × (t : Sys W R) × (run_spec world composition opts summarize_cost raw_spec
            w
          ≡ done r t)
  unfolding run_spec run_checked
  run_spec-done opts summarize_cost raw_spec w h valid =
      subst
        (λ e.
          (r : RunResult R) × (t : Sys W R) × (run_checked world composition opts summarize_cost w e
            ≡ done r t))
        (sym valid) (try_composed-done (with_defaults opts) summarize_cost w h)

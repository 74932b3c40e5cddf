-- ===== src/Attractor/Composed/Outcomes.antt =====
-- What the composed attempt accepts, and the result of the whole of Run.
use mathlib.Core.Path.{subst}
use octopusgarden.Prelude.{
  [], Bool, Bool-cases, Dict, false, fge, Float, inl, inr, List, lookup, map, none, of_nat, Option,
  refl, some, sym, Text, true, ◌∷◌, ◌≡◌, ◌⊎◌,
}
use octopusgarden.Attractor.Loop.State.{
  converged, is_budget_exceeded, result, RunOptions, RunResult, RunState,
}
use octopusgarden.Attractor.Loop.World.{Action, Sys, Validation, World}
use octopusgarden.Attractor.Loop.Ensures.{Ensures}
use octopusgarden.Attractor.Toposort.{Component, topo_sort, TopoError}
use octopusgarden.Attractor.Composed.Serving.{ask_validator, Validator}
use octopusgarden.Attractor.Composed.Component.{component_failed, component_files, ComponentResult}
use octopusgarden.Attractor.Composed.Run.{
  accept, accept_written, accepted, after_component, all_converged, broken, Composed, Composition,
  converge_all, fell_back, integrate, integration_checked, or_zero, run_composed, run_sorted,
  validate_composed,
}
use octopusgarden.Attractor.Composed.Kept.{
  built_and_served-Under, Keeps, Keeps-then, Under, Under-bind, Under-if,
}
use octopusgarden.Attractor.Composed.Judged.{HasScored, IsAnswer, IsComponentResult}
use octopusgarden.Attractor.Composed.Arrived.{
  ask_validator-Under, converge_component-IsComponentResult,
}

module _ {W R : Type 0} ⦃F : Float R⦄ where
  -- The integration validator scored at the threshold or above, or there is none.
  abbrev pub IsIntegrated : R → R → Option (Validator W R) → Type 0
  IsIntegrated threshold x none = x ≡ of_nat 100
  IsIntegrated threshold x (some v) = HasScored v x × (fge x threshold ≡ true)

  -- A result of the composed attempt: it converged before the first iteration of the loop.
  pub record IsComposedOutcome (threshold : R) (integration : Option (Validator W R))
      (r : RunResult R) (t : RunState R) : Type 0 where
    pub before_loop : r.iterations ≡ 0
    pub is_converged : r.status ≡ converged
    pub cost : r.cost_usd ≡ t.total_cost
    pub tokens : r.total_tokens ≡ t.total_tokens
    pub best : r.satisfaction ≡ t.best_satisfaction
    pub integrated : IsIntegrated threshold r.satisfaction integration

  abbrev pub IsComposed : R → Option (Validator W R) → Composed R → RunState R → Type 0
  IsComposed threshold integration (accepted r) t = IsComposedOutcome threshold integration r t
  IsComposed threshold integration fell_back t = Unit
  IsComposed threshold integration (broken e) t = Unit

module _ {W R : Type 0} ⦃F : Float R⦄ (world : World W R) (opts : RunOptions R)
    (v : Option (Validator W R)) where
  abbrev Composes : Action W R (Composed R) → Type 0
  Composes = Under opts (IsComposed opts.threshold v)

  accept_written-Composes :
      (score : R) (written : Bool) (s : Sys W R)
      → s.state.opts ≡ opts
      → s.state.best_satisfaction ≡ score
      → IsIntegrated opts.threshold score v
      → Ensures
          (accept_written world written s)
          (λ a t. (t.opts ≡ opts) × IsComposed opts.threshold v a t)
  unfolding accept_written result
  accept_written-Composes score false s e b h = (e, tt)
  accept_written-Composes score true s e b h = (
    e,
    record {
      before_loop = refl;
      is_converged = refl;
      cost = refl;
      tokens = refl;
      best = refl;
      integrated = subst (λ x. IsIntegrated opts.threshold x v) (sym b) h;
    },
  )

  accept-Composes :
      (fs : Dict Text) (score : R)
      → IsIntegrated opts.threshold score v
      → Composes (accept world fs score)
  unfolding accept
  accept-Composes fs score h s e = accept_written-Composes score _ _ e refl h

  integration_checked-Composes :
      (fs : Dict Text) (u : Validator W R) (o : Option (Validation R))
      → v ≡ some u
      → IsAnswer u o
      → Composes (integration_checked world fs o)
  unfolding integration_checked
  integration_checked-Composes fs u none same a s e = (e, tt)
  integration_checked-Composes fs u (some x) same (w, answer, _) s e =
      elim (Bool-cases (fge x.satisfaction s.state.opts.threshold)) [
        | inl reached ↦ rw reached (
            accept-Composes fs x.satisfaction
              (subst (IsIntegrated opts.threshold x.satisfaction) (sym same) (
                (w, x, answer, refl),
                subst (λ p. fge x.satisfaction (RunOptions.threshold p) ≡ true) e reached,
              ))
              s e)
        | inr missed ↦ rw missed (e, tt)
      ]

  integrate-Composes :
      (fs : Dict Text) (u : Option (Validator W R)) (written : Bool)
      → v ≡ u
      → Composes (integrate world fs u written)
  unfolding integrate
  integrate-Composes fs u false same s e = (e, tt)
  integrate-Composes fs none true same s e =
      accept-Composes fs (of_nat 100)
        (subst (IsIntegrated opts.threshold (of_nat 100)) (sym same) refl) s e
  integrate-Composes fs (some u) true same s e =
      built_and_served-Under world opts (IsComposed opts.threshold v) fell_back _ (λ t. tt)
        (Under-bind opts (λ o _. IsAnswer u o) (IsComposed opts.threshold v) (ask_validator u) _
          (ask_validator-Under opts u)
          (λ o t e' a. integration_checked-Composes fs u o same a t e'))
        s e

module _ {W R : Type 0} ⦃F : Float R⦄ (world : World W R) (composition : Composition W R)
    (opts : RunOptions R) where
  abbrev pub integration_validator : Option (Validator W R)
  integration_validator = lookup [] composition.component_validators

  after_component-Keeps :
      (next : Dict Text → Dict (Dict Text) → Action W R (Option (Dict (Dict Text)))) (c : Component)
      (accumulated : Dict Text) (by_component : Dict (Dict Text)) (r : ComponentResult)
      → ((fs : Dict Text) (all : Dict (Dict Text)) → Keeps opts (next fs all))
      → Keeps opts (after_component world composition next c accumulated by_component r)
  unfolding after_component
  after_component-Keeps next c accumulated by_component (component_failed err) h s e = (e, tt)
  after_component-Keeps next c accumulated by_component (component_files fs) h s e = h _ _ s e

  converge_all-Keeps :
      (cs : List Component) (accumulated : Dict Text) (by_component : Dict (Dict Text))
      → Keeps opts (converge_all world composition cs accumulated by_component)
  unfolding converge_all
  converge_all-Keeps [] accumulated by_component s e = (e, tt)
  converge_all-Keeps (c ∷ cs) accumulated by_component s e =
      Under-if opts _ (is_budget_exceeded s.state) _ _ (λ s' e'. (e', tt))
        (Under-bind opts
          (IsComponentResult world accumulated opts.threshold
            (lookup c.name composition.component_validators))
          _ _ _
          (converge_component-IsComponentResult world opts
            (lookup c.name composition.component_validators) accumulated)
          (λ r t e' _.
            after_component-Keeps _ c accumulated by_component r (converge_all-Keeps cs) t e'))
        s e

  validate_composed-Composes :
      (fs : Dict Text)
      → Composes world opts integration_validator (validate_composed world composition fs)
  unfolding validate_composed
  validate_composed-Composes fs s e =
      integrate-Composes world opts integration_validator fs integration_validator _ refl _ e

  all_converged-Composes :
      (sorted : List Component) (o : Option (Dict (Dict Text)))
      → Composes world opts integration_validator (all_converged world composition sorted o)
  unfolding all_converged
  all_converged-Composes sorted none s e = (e, tt)
  all_converged-Composes sorted (some by_component) s e = validate_composed-Composes _ s e

  run_sorted-Composes :
      (r : TopoError ⊎ List (Option Component))
      → Composes world opts integration_validator (run_sorted world composition r)
  unfolding run_sorted
  run_sorted-Composes (inl err) s e = (e, tt)
  run_sorted-Composes (inr cs) s e =
      Keeps-then opts _ (converge_all world composition (map or_zero cs) [] []) _
        (converge_all-Keeps (map or_zero cs) [] []) (all_converged-Composes (map or_zero cs)) s e

  pub run_composed-Composes :
      Composes world opts integration_validator (run_composed world composition)
  unfolding run_composed
  run_composed-Composes = run_sorted-Composes (topo_sort composition.gene_components)

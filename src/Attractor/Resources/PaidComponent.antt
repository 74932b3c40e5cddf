-- ===== src/Attractor/Resources/PaidComponent.antt =====
-- The cost that the loop of a component counts is what was spent.
use octopusgarden.Prelude.{
  ◌+◌, ◌+ᶠ◌, [], ap, arith, Bool, Bool-cases, Dict, false, Float, inl, inr, leb, lookup, map, none,
  Option, some, suc, Text, text_eq, true, zero, ◌||◌, ℕ, ◌∷◌,
}
use octopusgarden.Attractor.FileParse.{
  merge_files, no_files, panics, parse_files, Parsed, parsed, path_traversal,
}
use octopusgarden.Attractor.Loop.World.{
  Action, call, Container, GenerateResponse, Sys, Validation, World,
}
use octopusgarden.Attractor.Loop.State.{is_budget_exceeded, record_stall}
use octopusgarden.Attractor.Loop.Generation.{stall}
use octopusgarden.Attractor.Loop.Containers.{
  grpc_checked, grpc_started, http_started, start_grpc_container, start_http_container,
  wait_grpc_health,
}
use octopusgarden.Attractor.Composed.Serving.{
  ask_validator, built_and_served, charge_validation, composed_built, composed_served,
  in_composed_container, in_composed_session, start_composed_container, Validator,
}
use octopusgarden.Attractor.Composed.Component.{
  after_attempt, arrived, Attempt, build_and_validate_component, component_answered,
  component_iteration, component_parsed, component_written, ComponentLoopState, ComponentResult,
  converge_component, converge_from, evaluate_component, gave_up, goes_on, new_component_loop_state,
}
use octopusgarden.Attractor.Resources.Ledger.{
  EndsSettled, IsSettled, Ledger, paid, paid_validator, Settles, Settles-bind, Settles-deferring,
  Settles-if, Settles-unpaid, unpaid, with_answer, with_validation,
}

module _ {W R : Type 0} ⦃F : Float R⦄ where
  charged-IsSettled :
      (o : Option (Validation R)) (s : Sys (Ledger W R) R) (w : W)
      → IsSettled s
      → IsSettled
          (record { state = charge_validation o s.state; world = with_validation o w s.world })
  unfolding charge_validation
  charged-IsSettled none s w h = h
  charged-IsSettled (some v) s w h = ap (λ x. x +ᶠ v.cost) h

  pub ask_validator-Settles : (v : Validator W R) → Settles (ask_validator (paid_validator v))
  unfolding ask_validator
  ask_validator-Settles v s h = charged-IsSettled (v 0 s.world.inner).0 s (v 0 s.world.inner).1 h

  abbrev pub IsPaid : Option (Validator (Ledger W R) R) → Type 0
  IsPaid none = Unit
  IsPaid (some v) = Settles (ask_validator v)

  pub lookup-IsPaid :
      (k : Text) (vs : Dict (Validator W R))
      → IsPaid (lookup k (map (λ e. (e.0, paid_validator e.1)) vs))
  unfolding lookup
  lookup-IsPaid k [] = tt
  lookup-IsPaid k ((j, v) ∷ vs) = elim (Bool-cases (text_eq j k)) [
    | inl hit ↦ rw hit (ask_validator-Settles v)
    | inr miss ↦ rw miss (lookup-IsPaid k vs)
  ]

module _ {W R : Type 0} ⦃F : Float R⦄ (world : World W R) where
  start_composed_container-Settles : Settles (start_composed_container (paid world))
  unfolding start_composed_container start_http_container http_started start_grpc_container
      grpc_started grpc_checked wait_grpc_health stall record_stall
  start_composed_container-Settles s e = ground (arith, e)

module _ {W R A : Type 0} ⦃F : Float R⦄ (world : World W R) (failed : A)
    (body : Action (Ledger W R) R A) (on_body : Settles body) where
  composed_served-Settles :
      (o : Option (Option Container)) → Settles (composed_served (paid world) failed body o)
  unfolding composed_served
  composed_served-Settles none s e = e
  composed_served-Settles (some none) s e = on_body s e
  composed_served-Settles (some (some c)) s e =
      Settles-deferring world.stop_container body on_body s e

  in_composed_container-Settles : Settles (in_composed_container (paid world) failed body)
  unfolding in_composed_container
  in_composed_container-Settles =
      Settles-bind (start_composed_container (paid world)) _
        (start_composed_container-Settles world) composed_served-Settles

  in_composed_session-Settles :
      (b : Bool) → Settles (in_composed_session (paid world) failed body b)
  unfolding in_composed_session
  in_composed_session-Settles true s e =
      Settles-deferring world.stop_session (in_composed_container (paid world) failed body)
        in_composed_container-Settles s e
  in_composed_session-Settles false s e = e

  composed_built-Settles : (b : Bool) → Settles (composed_built (paid world) failed body b)
  unfolding composed_built
  composed_built-Settles false s e = e
  composed_built-Settles true s e =
      Settles-if (s.state.opts.capabilities.needs_exec || s.state.opts.capabilities.needs_tui) _ _
        (λ s' e'. in_composed_session-Settles _ _ e') in_composed_container-Settles s e

  pub built_and_served-Settles : Settles (built_and_served (paid world) failed body)
  unfolding built_and_served
  built_and_served-Settles =
      Settles-bind (call (unpaid world.build)) _ (Settles-unpaid world.build) composed_built-Settles

module _ {W R : Type 0} ⦃F : Float R⦄ (world : World W R)
    (validator : Option (Validator (Ledger W R) R)) (is_paid : IsPaid validator)
    (base_files : Dict Text) where
  component_written-Settles :
      (iter : ℕ) (cs : ComponentLoopState R) (fs : Dict Text)
      (v : Option (Validator (Ledger W R) R)) (written : Bool)
      → IsPaid v
      → Settles (component_written (paid world) validator base_files iter cs fs v written)
  unfolding component_written evaluate_component build_and_validate_component
  component_written-Settles iter cs fs v false hv s e = e
  component_written-Settles iter cs fs none true hv s e = e
  component_written-Settles iter cs fs (some v) true hv s e =
      Settles-bind (built_and_served (paid world) none (ask_validator v)) _
        (built_and_served-Settles world none (ask_validator v) hv) (λ a t h. h) s e

  component_parsed-Settles :
      (iter : ℕ) (cs : ComponentLoopState R) (p : Parsed (Dict Text))
      → Settles (component_parsed (paid world) validator base_files iter cs p)
  unfolding component_parsed
  component_parsed-Settles iter cs (parsed fs) s e =
      Settles-bind (call (unpaid (world.write_files (merge_files fs base_files)))) _
        (Settles-unpaid (world.write_files (merge_files fs base_files)))
        (λ written. component_written-Settles iter cs fs validator written is_paid) s e
  component_parsed-Settles iter cs panics s e = tt
  component_parsed-Settles iter cs no_files s e = e
  component_parsed-Settles iter cs path_traversal s e = e

  -- The generation is paid before it is charged.
  component_answered-Settled :
      (iter : ℕ) (cs : ComponentLoopState R) (o : Option (GenerateResponse R))
      (s : Sys (Ledger W R) R) (w : W)
      → IsSettled s
      → EndsSettled (
          component_answered
            (paid world)
            validator
            base_files
            iter
            cs
            o
            (record s { world = with_answer o w s.world }))
  unfolding component_answered
  component_answered-Settled iter cs none s w e = e
  component_answered-Settled iter cs (some a) s w e =
      component_parsed-Settles iter cs (parse_files a.content) _ (ap (λ x. x +ᶠ a.cost_usd) e)

  component_iteration-Settles :
      (iter : ℕ) (cs : ComponentLoopState R)
      → Settles (component_iteration (paid world) validator base_files iter cs)
  unfolding component_iteration
  component_iteration-Settles iter cs s e = component_answered-Settled iter cs _ s _ e

  after_attempt-Settles :
      (next : ComponentLoopState R → Action (Ledger W R) R ComponentResult) (a : Attempt R)
      → ((cs : ComponentLoopState R) → Settles (next cs))
      → Settles (after_attempt (paid world) validator base_files next a)
  unfolding after_attempt
  after_attempt-Settles next (arrived fs) h s e = e
  after_attempt-Settles next (gave_up err) h s e = e
  after_attempt-Settles next (goes_on cs) h s e =
      Settles-if (leb 2 cs.stall_count) _ _ (λ s' e'. e') (h cs) s e

  converge_from-Settles :
      (left iter : ℕ) (cs : ComponentLoopState R)
      → Settles (converge_from (paid world) validator base_files left iter cs)
  unfolding converge_from
  converge_from-Settles zero iter cs s e = e
  converge_from-Settles (suc left) iter cs s e =
      Settles-if (is_budget_exceeded s.state) _ _ (λ s' e'. e')
        (Settles-bind (component_iteration (paid world) validator base_files iter cs) _
          (component_iteration-Settles iter cs)
          (λ a. after_attempt-Settles _ a (converge_from-Settles left (iter + 1))))
        s e

  pub converge_component-Settles : Settles (converge_component (paid world) validator base_files)
  unfolding converge_component
  converge_component-Settles = converge_from-Settles 5 1 new_component_loop_state

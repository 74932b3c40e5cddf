-- ===== src/Attractor/Resources/Component.antt =====
-- The loop of a component stops what it starts, and asks for at most five generations.
use mathlib.Core.Path.{subst}
use octopusgarden.Attractor.FileParse.{
  merge_files, no_files, panics, parse_files, parsed, Parsed, path_traversal,
}
use octopusgarden.Attractor.Loop.State.{is_budget_exceeded}
use octopusgarden.Attractor.Loop.Generation.{charge}
use octopusgarden.Attractor.Composed.Component.{
  after_attempt, arrived, Attempt, build_and_validate_component, component_answered,
  component_iteration, component_parsed, component_written, ComponentLoopState, ComponentResult,
  converge_component, converge_from, evaluate_component, gave_up, goes_on, new_component_loop_state,
}
use octopusgarden.Prelude.{
  ◌+◌, [], arith, Bool, Bool-cases, Dict, false, Float, inl, inr, leb, lookup, map, none, Option,
  some, suc, sym, Text, text_eq, true, zero, ◌||◌, ℕ, ◌∷◌, ◌≡◌,
}
use octopusgarden.Attractor.Loop.World.{Action, call, code, Container, GenerateResponse, World}
use octopusgarden.Attractor.Composed.Serving.{
  ask_validator, built_and_served, composed_built, composed_served, in_composed_container,
  in_composed_session, start_composed_container, Validator,
}
use octopusgarden.Attractor.Resources.Books.{
  booked, booked_validator, Books, Counts, lifted, one_if,
}
use octopusgarden.Attractor.Resources.Steady.{
  From, from_bind, from_if, Spends, Within, Within-bind, Within-lifted, Within-then,
}
use octopusgarden.Attractor.Resources.Serving.{
  counts_with_started, deferring_container-Spends, deferring_session-Spends,
  start_composed_container-counts,
}

module _ {W R A : Type 0} ⦃F : Float R⦄ (world : World W R) (n : ℕ) (failed : A)
    (body : Action (Books W) R A) (body_within : Within n body) where
  composed_served-Spends :
      (c : Counts) (o : Option (Option Container))
      → From
          (counts_with_started o c)
          (composed_served (booked world) failed body o)
          (λ _ d. Spends n c d)
  unfolding composed_served
  composed_served-Spends c none s e = ground (arith, e)
  composed_served-Spends c (some none) s e = body_within c s e
  composed_served-Spends c (some (some i)) s e =
      deferring_container-Spends world n body body_within c s e

  in_composed_container-Within : Within n (in_composed_container (booked world) failed body)
  unfolding in_composed_container
  in_composed_container-Within c =
      from_bind (λ o d. d ≡ counts_with_started o c) _ c (start_composed_container (booked world)) _
        (start_composed_container-counts world c)
        (λ o d p.
          subst (λ x. From x (composed_served (booked world) failed body o) (λ _ y. Spends n c y))
            (sym p) (composed_served-Spends c o))

  in_composed_session-Spends :
      (c : Counts) (started : Bool)
      → From
          (record c { sessions = c.sessions + one_if started })
          (in_composed_session (booked world) failed body started)
          (λ _ d. Spends n c d)
  unfolding in_composed_session one_if
  in_composed_session-Spends c true s e =
      deferring_session-Spends world n (in_composed_container (booked world) failed body)
        in_composed_container-Within c s e
  in_composed_session-Spends c false s e = ground (arith, e)

  composed_built-Within : (b : Bool) → Within n (composed_built (booked world) failed body b)
  unfolding composed_built
  composed_built-Within false c s e = ground (arith, e)
  composed_built-Within true c s e =
      from_if _ c (s.state.opts.capabilities.needs_exec || s.state.opts.capabilities.needs_tui) _ _
        (λ s' e'. in_composed_session-Spends c _ _ (ground (arith, e')))
        (in_composed_container-Within c) s e

  pub built_and_served-Within : Within n (built_and_served (booked world) failed body)
  unfolding built_and_served
  built_and_served-Within =
      Within-then n (call (lifted world.build)) _ (Within-lifted world.build) composed_built-Within

module _ {W R : Type 0} ⦃F : Float R⦄ where
  abbrev pub IsBooked : Option (Validator (Books W) R) → Type 0
  IsBooked none = Unit
  IsBooked (some v) = Within 0 (ask_validator v)

  pub ask_validator-Within : (v : Validator W R) → Within 0 (ask_validator (booked_validator v))
  unfolding ask_validator
  ask_validator-Within v c s e = ground (arith, e)

  pub lookup-IsBooked :
      (k : Text) (vs : Dict (Validator W R))
      → IsBooked (lookup k (map (λ e. (e.0, booked_validator e.1)) vs))
  unfolding lookup
  lookup-IsBooked k [] = tt
  lookup-IsBooked k ((j, v) ∷ vs) = elim (Bool-cases (text_eq j k)) [
    | inl hit ↦ rw hit (ask_validator-Within v)
    | inr miss ↦ rw miss (lookup-IsBooked k vs)
  ]

module _ {W R : Type 0} ⦃F : Float R⦄ (world : World W R) where
  evaluate_component-Within :
      (iter : ℕ) (fs : Dict Text) (v : Validator (Books W) R) (cs : ComponentLoopState R)
      → Within 0 (ask_validator v)
      → Within 0 (evaluate_component (booked world) iter fs v cs)
  unfolding evaluate_component build_and_validate_component
  evaluate_component-Within iter fs v cs hv =
      Within-then 0 (built_and_served (booked world) none (ask_validator v)) _
        (built_and_served-Within world 0 none (ask_validator v) hv) (λ a c s e. ground (arith, e))

module _ {W R : Type 0} ⦃F : Float R⦄ (world : World W R)
    (validator : Option (Validator (Books W) R)) (validator_IsBooked : IsBooked validator)
    (base_files : Dict Text) where
  component_written-Within :
      (iter : ℕ) (cs : ComponentLoopState R) (fs : Dict Text) (v : Option (Validator (Books W) R))
      (written : Bool)
      → IsBooked v
      → Within 0 (component_written (booked world) validator base_files iter cs fs v written)
  unfolding component_written
  component_written-Within iter cs fs v false hv c s e = ground (arith, e)
  component_written-Within iter cs fs none true hv c s e = ground (arith, e)
  component_written-Within iter cs fs (some v) true hv c s e =
      evaluate_component-Within world iter fs v cs hv c s e

  component_parsed-Within :
      (iter : ℕ) (cs : ComponentLoopState R) (p : Parsed (Dict Text))
      → Within 0 (component_parsed (booked world) validator base_files iter cs p)
  unfolding component_parsed
  component_parsed-Within iter cs (parsed fs) c s e =
      Within-then 0 (call (lifted (world.write_files (merge_files fs base_files)))) _
        (Within-lifted (world.write_files (merge_files fs base_files)))
        (λ written. component_written-Within iter cs fs validator written validator_IsBooked) c s e
  component_parsed-Within iter cs panics c s e = tt
  component_parsed-Within iter cs no_files c s e = ground (arith, e)
  component_parsed-Within iter cs path_traversal c s e = ground (arith, e)

  component_answered-Within :
      (iter : ℕ) (cs : ComponentLoopState R) (o : Option (GenerateResponse R))
      → Within 0 (component_answered (booked world) validator base_files iter cs o)
  unfolding component_answered
  component_answered-Within iter cs none c s e = ground (arith, e)
  component_answered-Within iter cs (some resp) c s e =
      Within-then 0 (charge (booked world) resp.cost_usd (resp.input_tokens + resp.output_tokens)) _
        (λ c s e. ground (arith, e))
        (λ _. component_parsed-Within iter cs (parse_files resp.content)) c s e

  component_iteration-Within :
      (iter : ℕ) (cs : ComponentLoopState R)
      → Within 1 (component_iteration (booked world) validator base_files iter cs)
  unfolding component_iteration
  component_iteration-Within iter cs c s =
      Within-bind 1 0 1 (call (World.generate (booked world) code s.state.opts.model)) _
        (omega arith) (λ c' s' e'. ground (arith, e')) (component_answered-Within iter cs) c s

  after_attempt-Within :
      (n : ℕ) (next : ComponentLoopState R → Action (Books W) R ComponentResult) (a : Attempt R)
      → ((cs : ComponentLoopState R) → Within n (next cs))
      → Within n (after_attempt (booked world) validator base_files next a)
  unfolding after_attempt
  after_attempt-Within n next (arrived fs) h c s e = ground (arith, e)
  after_attempt-Within n next (gave_up err) h c s e = ground (arith, e)
  after_attempt-Within n next (goes_on cs) h c s e =
      from_if _ c (leb 2 cs.stall_count) _ _ (λ s' e'. ground (arith, e')) (h cs c) s e

  converge_from-Within :
      (left iter : ℕ) (cs : ComponentLoopState R)
      → Within left (converge_from (booked world) validator base_files left iter cs)
  unfolding converge_from
  converge_from-Within zero iter cs c s e = ground (arith, e)
  converge_from-Within (suc left) iter cs c s e =
      from_if _ c (is_budget_exceeded s.state) _ _ (λ s' e'. ground (arith, e'))
        (Within-bind 1 left (suc left)
          (component_iteration (booked world) validator base_files iter cs) _ (omega arith)
          (component_iteration-Within iter cs)
          (λ a. after_attempt-Within left _ a (converge_from-Within left (iter + 1))) c)
        s e

  pub converge_component-Within : Within 5 (converge_component (booked world) validator base_files)
  unfolding converge_component
  converge_component-Within = converge_from-Within 5 1 new_component_loop_state

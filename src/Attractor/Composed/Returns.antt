-- ===== src/Attractor/Composed/Returns.antt =====
-- In a world whose calls succeed the loop of a component returns.
use octopusgarden.Prelude.{
  ◌+◌, arith, Bool, Dict, false, Float, leb, none, Option, some, suc, Text, true, zero, ◌||◌, ℕ,
}
use octopusgarden.Attractor.FileParse.{
  merge_files, no_files, panics, parse_files, parse_files_with_metadata, Parsed, parsed,
  ParseResult, path_traversal,
}
use octopusgarden.Attractor.Loop.World.{Action, code, Container, deferring, World}
use octopusgarden.Attractor.Loop.Containers.{
  grpc_checked, grpc_started, http_started, start_grpc_container, start_http_container,
  wait_grpc_health,
}
use octopusgarden.Attractor.Loop.Generation.{stall}
use octopusgarden.Attractor.Loop.Returns.{
  Always, either_way, IsObliging, IsReadable, Returns, then-Always,
}
use octopusgarden.Attractor.Composed.Serving.{
  ask_validator, built_and_served, composed_built, composed_served, in_composed_container,
  in_composed_session, start_composed_container, Validator,
}
use octopusgarden.Attractor.Composed.Component.{
  after_attempt, arrived, Attempt, build_and_validate_component, component_answered,
  component_iteration, component_parsed, component_written, ComponentLoopState, ComponentResult,
  converge_component, converge_from, evaluate_component, gave_up, goes_on, new_component_loop_state,
}
use octopusgarden.Attractor.Loop.State.{is_budget_exceeded}

abbrev pub Yes : {A : Type 0} → A → Type 0
Yes a = Unit

module _ {W R A : Type 0} (Q : A → Type 0) where
  deferring-Always : (g : W → W) (m : Action W R A) → Always Q m → Always Q (deferring g m)
  deferring-Always g m h = then-Always Q Q m _ h (λ a q s. q)

module _ {W R : Type 0} ⦃F : Float R⦄ (world : World W R) where
  start_composed_container-Returns : Returns (start_composed_container world)
  unfolding start_composed_container start_http_container http_started start_grpc_container
      grpc_started grpc_checked wait_grpc_health stall
  start_composed_container-Returns s = ground arith

module _ {W R A : Type 0} ⦃F : Float R⦄ (world : World W R) (Q : A → Type 0) (failed : A)
    (body : Action W R A) (on_failure : Q failed) (on_body : Always Q body) where
  composed_served-Always :
      (o : Option (Option Container)) → Always Q (composed_served world failed body o)
  unfolding composed_served
  composed_served-Always none s = on_failure
  composed_served-Always (some none) s = on_body s
  composed_served-Always (some (some c)) s = deferring-Always Q world.stop_container body on_body s

  in_composed_container-Always : Always Q (in_composed_container world failed body)
  unfolding in_composed_container
  in_composed_container-Always =
      then-Always Yes Q (start_composed_container world) _ (start_composed_container-Returns world)
        (λ o _. composed_served-Always o)

  in_composed_session-Always : (b : Bool) → Always Q (in_composed_session world failed body b)
  unfolding in_composed_session
  in_composed_session-Always true s =
      deferring-Always Q world.stop_session (in_composed_container world failed body)
        in_composed_container-Always s
  in_composed_session-Always false s = on_failure

  composed_built-Always : (b : Bool) → Always Q (composed_built world failed body b)
  unfolding composed_built
  composed_built-Always false s = on_failure
  composed_built-Always true s =
      either_way Q (s.state.opts.capabilities.needs_exec || s.state.opts.capabilities.needs_tui) _ _
        (λ t. in_composed_session-Always _ _) in_composed_container-Always s

  pub built_and_served-Always : Always Q (built_and_served world failed body)
  unfolding built_and_served
  built_and_served-Always s =
      composed_built-Always (world.build s.world).0 (record s { world = (world.build s.world).1 })

module _ {W R : Type 0} ⦃F : Float R⦄ where
  pub ask_validator-Returns : (v : Validator W R) → Returns (ask_validator v)
  unfolding ask_validator
  ask_validator-Returns v s = tt

abbrev IsReadDict : Parsed (Dict Text) → Type 0
IsReadDict (parsed fs) = Unit
IsReadDict no_files = Unit
IsReadDict path_traversal = Unit
IsReadDict panics = ⊥

readable_files :
    (p : Parsed ParseResult)
    → IsReadable p
    → IsReadDict (elim p [
      | parsed r ↦ parsed r.files
      | no_files ↦ no_files
      | path_traversal ↦ path_traversal
      | panics ↦ panics
    ])
readable_files (parsed r) h = tt
readable_files no_files h = tt
readable_files path_traversal h = tt
readable_files panics h = h

parse_files-IsReadDict :
    (content : Text)
    → IsReadable (parse_files_with_metadata content)
    → IsReadDict (parse_files content)
unfolding parse_files
parse_files-IsReadDict content h = readable_files (parse_files_with_metadata content) h

module _ {W R : Type 0} ⦃F : Float R⦄ (world : World W R) (obliging : IsObliging world)
    (validator : Option (Validator W R)) (base_files : Dict Text) where
  component_written-Returns :
      (iter : ℕ) (cs : ComponentLoopState R) (fs : Dict Text) (v : Option (Validator W R))
      (written : Bool)
      → Returns (component_written world validator base_files iter cs fs v written)
  unfolding component_written evaluate_component build_and_validate_component
  component_written-Returns iter cs fs v false s = tt
  component_written-Returns iter cs fs none true s = tt
  component_written-Returns iter cs fs (some v) true s =
      then-Always Yes Yes (built_and_served world none (ask_validator v)) _
        (built_and_served-Always world Yes none (ask_validator v) tt (ask_validator-Returns v))
        (λ o _ t. tt) s

  component_parsed-Returns :
      (iter : ℕ) (cs : ComponentLoopState R) (p : Parsed (Dict Text))
      → IsReadDict p
      → Returns (component_parsed world validator base_files iter cs p)
  unfolding component_parsed
  component_parsed-Returns iter cs (parsed fs) h s =
      component_written-Returns iter cs fs validator
        (world.write_files (merge_files fs base_files) s.world).0
        (record s { world = (world.write_files (merge_files fs base_files) s.world).1 })
  component_parsed-Returns iter cs panics h s = absurd h
  component_parsed-Returns iter cs no_files h s = tt
  component_parsed-Returns iter cs path_traversal h s = tt

  component_iteration-Returns :
      (iter : ℕ) (cs : ComponentLoopState R)
      → Returns (component_iteration world validator base_files iter cs)
  unfolding component_iteration component_answered
  component_iteration-Returns iter cs s =
      let (resp, e, good) = obliging.generates code s.state.opts.model s.world in
      rw e (
        component_parsed-Returns iter cs (parse_files resp.content)
          (parse_files-IsReadDict resp.content good) _)

  after_attempt-Returns :
      (next : ComponentLoopState R → Action W R ComponentResult) (a : Attempt R)
      → ((cs : ComponentLoopState R) → Returns (next cs))
      → Returns (after_attempt world validator base_files next a)
  unfolding after_attempt
  after_attempt-Returns next (arrived fs) h s = tt
  after_attempt-Returns next (gave_up e) h s = tt
  after_attempt-Returns next (goes_on cs) h s =
      either_way Yes (leb 2 cs.stall_count) _ _ (λ t. tt) (h cs) s

  converge_from-Returns :
      (left iter : ℕ) (cs : ComponentLoopState R)
      → Returns (converge_from world validator base_files left iter cs)
  unfolding converge_from
  converge_from-Returns zero iter cs s = tt
  converge_from-Returns (suc left) iter cs s =
      either_way Yes (is_budget_exceeded s.state) _ _ (λ t. tt)
        (then-Always Yes Yes (component_iteration world validator base_files iter cs) _
          (component_iteration-Returns iter cs)
          (λ a _. after_attempt-Returns _ a (converge_from-Returns left (iter + 1))))
        s

  pub converge_component-Returns : Returns (converge_component world validator base_files)
  unfolding converge_component
  converge_component-Returns = converge_from-Returns 5 1 new_component_loop_state

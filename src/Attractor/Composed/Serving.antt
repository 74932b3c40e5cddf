-- ===== src/Attractor/Composed/Serving.antt =====
-- startComposedContainer, and the way from the build to the validation that validateComposed and
-- buildAndValidateComponent of attractor.go share: the stops are deferred, the container's first.
use octopusgarden.Prelude.{
  ◌&&◌, ◌+ᶠ◌, Bool, false, Float, if◌then◌else◌, none, not, Option, some, true, ◌||◌, ℕ,
}
use octopusgarden.Attractor.Loop.State.{RunState}
use octopusgarden.Attractor.Loop.World.{
  ◌>>◌, ◌>>=◌, Action, call, Container, deferring, get, modify, pure, Validation, World,
}
use octopusgarden.Attractor.Loop.Containers.{
  down, not_needed, Service, start_grpc_container, start_http_container, up,
}

-- An entry of opts.ComponentValidators, which may change the world.
abbrev pub Validator : Type 0 → Type 0 → Type 0
Validator W R = (max_tier : ℕ) → W → Option (Validation R) × W

-- `res.stop == nil` is an error; so is a failed start.
unfoldable pub started_container : {R : Type 0} → Service R → Option (Option Container)
started_container not_needed = none
started_container (up c) = some (some c)
started_container (down r) = none

module _ {W R : Type 0} ⦃F : Float R⦄ (world : World W R) where
  -- `none` is the fallback error, `some none` that no container is needed.
  unfoldable pub start_composed_container : Action W R (Option (Option Container))
  unfolding started_container
  start_composed_container = do
    s ← get
    let caps = s.opts.capabilities
    if caps.needs_grpc
        then (do svc ← start_grpc_container world 0; pure (started_container svc))
        else if caps.needs_tui && not caps.needs_http && not caps.needs_grpc
        then pure (some none)
        else if caps.needs_http || caps.needs_browser || not caps.needs_exec
        then (do svc ← start_http_container world 0; pure (started_container svc))
        else pure (some none)

module _ {W R : Type 0} {A : Type 0} ⦃F : Float R⦄ (world : World W R) (failed : A)
    (body : Action W R A) where
  unfoldable pub composed_served : Option (Option Container) → Action W R A
  composed_served none = pure failed
  composed_served (some none) = body
  composed_served (some (some c)) = deferring world.stop_container body

  unfoldable pub in_composed_container : Action W R A
  unfolding composed_served
  in_composed_container = do started ← start_composed_container world; composed_served started

  unfoldable pub in_composed_session : Bool → Action W R A
  unfolding in_composed_container
  in_composed_session true = deferring world.stop_session in_composed_container
  in_composed_session false = pure failed

  unfoldable pub composed_built : Bool → Action W R A
  unfolding in_composed_session in_composed_container
  composed_built false = pure failed
  composed_built true = do
    s ← get
    if s.opts.capabilities.needs_exec || s.opts.capabilities.needs_tui
        then (do started ← call world.start_session; in_composed_session started)
        else in_composed_container

  unfoldable pub built_and_served : Action W R A
  unfolding composed_built
  built_and_served = do built ← call world.build; composed_built built

-- s.totalCost += valCost
unfoldable pub charge_validation :
    {R : Type 0} ⦃F : Float R⦄ → Option (Validation R) → RunState R → RunState R
charge_validation none s = s
charge_validation (some v) s = record s { total_cost = s.total_cost +ᶠ v.cost }

module _ {W R : Type 0} ⦃F : Float R⦄ where
  unfoldable pub ask_validator : Validator W R → Action W R (Option (Validation R))
  unfolding charge_validation
  ask_validator validate = do
    answer ← call (validate 0)
    modify (charge_validation answer)
    pure answer

-- ===== src/Attractor/Composed/Kept.antt =====
-- The composed attempt never changes the options of its state.
use octopusgarden.Prelude.{
  arith, Bool, false, Float, if◌then◌else◌, none, Option, some, true, ◌||◌, ◌≡◌,
}
use octopusgarden.Attractor.Loop.State.{record_stall, RunOptions, RunState}
use octopusgarden.Attractor.Loop.World.{◌>>=◌, Action, Container, deferring, Sys, World}
use octopusgarden.Attractor.Loop.Generation.{stall}
use octopusgarden.Attractor.Loop.Containers.{
  grpc_checked, grpc_started, http_started, start_grpc_container, start_http_container,
  wait_grpc_health,
}
use octopusgarden.Attractor.Loop.Ensures.{chain, deferring-Ensures, Ensures}
use octopusgarden.Attractor.Composed.Serving.{
  built_and_served, composed_built, composed_served, in_composed_container, in_composed_session,
  start_composed_container,
}

-- A state with the options of the run, and what a computation from it leaves.
module _ {W R : Type 0} where
  abbrev pub Under : {A : Type 0} → RunOptions R → (A → RunState R → Type 0) → Action W R A → Type 0
  Under opts Q m =
      (s : Sys W R) → s.state.opts ≡ opts → Ensures (m s) (λ a t. (t.opts ≡ opts) × Q a t)

  abbrev pub Keeps : {A : Type 0} → RunOptions R → Action W R A → Type 0
  Keeps opts m = Under opts (λ _ _. Unit {0}) m

module _ {W R A B : Type 0} (opts : RunOptions R) where
  pub Under-bind :
      (P : A → RunState R → Type 0) (Q : B → RunState R → Type 0) (m : Action W R A)
      (f : A → Action W R B)
      → Under opts P m
      → ((a : A) (s : Sys W R)
          → s.state.opts ≡ opts
          → P a s.state
          → Ensures (f a s) (λ b t. (t.opts ≡ opts) × Q b t))
      → Under opts Q (m >>= f)
  Under-bind P Q m f hm hf s e =
      chain (λ a t. (t.opts ≡ opts) × P a t) (λ b t. (t.opts ≡ opts) × Q b t) (m s) f (hm s e)
        (λ a t h. hf a t h.0 h.1)

  pub Keeps-then :
      (Q : B → RunState R → Type 0) (m : Action W R A) (f : A → Action W R B)
      → Keeps opts m
      → ((a : A) → Under opts Q (f a))
      → Under opts Q (m >>= f)
  Keeps-then Q m f hm hf = Under-bind (λ _ _. Unit) Q m f hm (λ a t e _. hf a t e)

module _ {W R A : Type 0} (opts : RunOptions R) (Q : A → RunState R → Type 0) where
  pub Under-if :
      (b : Bool) (m k : Action W R A)
      → Under opts Q m
      → Under opts Q k
      → Under opts Q (if b then m else k)
  Under-if true m k hm hk = hm
  Under-if false m k hm hk = hk

  pub Under-deferring :
      (g : W → W) (m : Action W R A) → Under opts Q m → Under opts Q (deferring g m)
  Under-deferring g m h s e = deferring-Ensures (λ a t. (t.opts ≡ opts) × Q a t) g m s (h s e)

module _ {W R : Type 0} ⦃F : Float R⦄ (world : World W R) (opts : RunOptions R) where
  start_composed_container-Keeps : Keeps opts (start_composed_container world)
  unfolding start_composed_container start_http_container http_started start_grpc_container
      grpc_started grpc_checked wait_grpc_health stall record_stall
  start_composed_container-Keeps s e = ground (arith, e)

module _ {W R A : Type 0} ⦃F : Float R⦄ (world : World W R) (opts : RunOptions R)
    (Q : A → RunState R → Type 0) (failed : A) (body : Action W R A)
    (on_failure : (t : RunState R) → Q failed t) (on_body : Under opts Q body) where
  composed_served-Under :
      (o : Option (Option Container)) → Under opts Q (composed_served world failed body o)
  unfolding composed_served
  composed_served-Under none s e = (e, on_failure s.state)
  composed_served-Under (some none) s e = on_body s e
  composed_served-Under (some (some c)) s e =
      Under-deferring opts Q world.stop_container body on_body s e

  in_composed_container-Under : Under opts Q (in_composed_container world failed body)
  unfolding in_composed_container
  in_composed_container-Under =
      Keeps-then opts Q (start_composed_container world) _
        (start_composed_container-Keeps world opts) composed_served-Under

  in_composed_session-Under : (b : Bool) → Under opts Q (in_composed_session world failed body b)
  unfolding in_composed_session
  in_composed_session-Under true s e =
      Under-deferring opts Q world.stop_session (in_composed_container world failed body)
        in_composed_container-Under s e
  in_composed_session-Under false s e = (e, on_failure s.state)

  composed_built-Under : (b : Bool) → Under opts Q (composed_built world failed body b)
  unfolding composed_built
  composed_built-Under false s e = (e, on_failure s.state)
  composed_built-Under true s e =
      Under-if opts Q (s.state.opts.capabilities.needs_exec || s.state.opts.capabilities.needs_tui)
        _ _ (λ s' e'. in_composed_session-Under _ _ e') in_composed_container-Under s e

  pub built_and_served-Under : Under opts Q (built_and_served world failed body)
  unfolding built_and_served
  built_and_served-Under s e = composed_built-Under _ _ e

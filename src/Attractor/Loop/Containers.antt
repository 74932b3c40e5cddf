-- ===== src/Attractor/Loop/Containers.antt =====
-- The containers of one iteration: startServiceContainer, startHTTPContainer, startGRPCContainer,
-- waitGRPCHealth and runTestCommand of attractor.go. The restart closure is modelled in
-- Restart. The callbacks that hand the session and the gRPC target on are not modelled: they change
-- no field of the state.
use octopusgarden.Prelude.{
  ◌&&◌, Float, if◌then◌else◌, is_empty, none, not, Option, some, Text, ◌||◌, ℕ,
}
use octopusgarden.Attractor.Loop.State.{
  health_error, health_fail, run_error, run_fail, RunResult, test_error, test_fail,
}
use octopusgarden.Attractor.Loop.World.{
  ◌>>◌, ◌>>=◌, Action, call, Container, get, pure, test_failed, TestResult, throw, World,
}
use octopusgarden.Attractor.Loop.Generation.{stall}

-- `down` is a failed start: its `stalled` field, which is nil below the stall limit.
pub data Service (R : Type 0) : Type 0 where
  not_needed : Service R
  up : Container → Service R
  down : Option (RunResult R) → Service R

module _ {W R : Type 0} ⦃F : Float R⦄ (world : World W R) where
  unfoldable pub http_started : ℕ → Option Container → Action W R (Service R)
  http_started iter none = stall world iter run_fail run_error down
  http_started iter (some c) = do
    healthy ← call world.wait_healthy
    if healthy then pure (up c) else (do
      call (λ w. (tt, world.stop_container w))
      stall world iter health_fail health_error down)

  unfoldable pub start_http_container : ℕ → Action W R (Service R)
  unfolding http_started
  start_http_container iter = do started ← call world.run_container; http_started iter started

  -- A failed check records the stall. The result is nil below the stall limit, as after a success.
  unfoldable pub wait_grpc_health : ℕ → Container → Action W R (Option (RunResult R))
  wait_grpc_health iter c = do
    s ← get
    let caps = s.opts.capabilities
    if caps.needs_http || caps.needs_browser
        then (do
          healthy ← call world.wait_healthy
          if healthy then pure none else stall world iter health_fail health_error (λ r. r))
        else if is_empty c.grpc_target
        then pure none
        else (do
          open_port ← call world.wait_port
          if open_port then pure none else stall world iter health_fail health_error (λ r. r))

  unfoldable pub grpc_checked : Container → Option (RunResult R) → Action W R (Service R)
  grpc_checked c none = pure (up c)
  grpc_checked c (some r) = do call (λ w. (tt, world.stop_container w)); pure (down (some r))

  unfoldable pub grpc_started : ℕ → Option Container → Action W R (Service R)
  unfolding wait_grpc_health grpc_checked
  grpc_started iter none = stall world iter run_fail run_error down
  grpc_started iter (some c) = do checked ← wait_grpc_health iter c; grpc_checked c checked

  unfoldable pub start_grpc_container : ℕ → Action W R (Service R)
  unfolding grpc_started
  start_grpc_container iter = do started ← call world.run_multi_port; grpc_started iter started

  unfoldable pub start_service_container : ℕ → Action W R (Service R)
  unfolding start_http_container start_grpc_container
  start_service_container iter = do
    s ← get
    let caps = s.opts.capabilities
    if caps.needs_grpc
        then start_grpc_container iter
        else if caps.needs_tui && not caps.needs_http
        then pure not_needed
        else if caps.needs_http || caps.needs_browser || not caps.needs_exec
        then start_http_container iter
        else pure not_needed

  unfoldable pub test_answered : ℕ → Option TestResult → Action W R (Option (Option (RunResult R)))
  test_answered iter none = throw test_failed
  test_answered iter (some t) =
      if t.is_zero_exit then pure none else stall world iter test_fail test_error some

  -- `some` if the test command failed, and the iteration ends with what it holds.
  unfoldable pub run_test_command : ℕ → Text → Action W R (Option (Option (RunResult R)))
  unfolding test_answered
  run_test_command iter container_id = do
    s ← get
    if is_empty s.opts.test_command || is_empty container_id
        then pure none
        else (do answer ← call world.run_test; test_answered iter answer)

-- ===== src/Attractor/Loop/Serving.antt =====
-- The containers of an iteration: they keep the invariant of the run, or end it with a cause.
use octopusgarden.Prelude.{
  ◌&&◌, Bool, Float, if◌then◌else◌, is_empty, none, not, Option, refl, some, sym, ◌||◌, ℕ,
}
use octopusgarden.Attractor.Loop.World.{◌>>=◌, Action, call, Container, pure, Sys, World}
use octopusgarden.Attractor.Loop.State.{
  FeedbackKind, health_error, health_fail, IterationOutcome, run_error, run_fail, RunOptions,
  RunResult, RunState,
}
use octopusgarden.Attractor.Loop.Generation.{stall}
use octopusgarden.Attractor.Loop.Containers.{
  down, grpc_checked, grpc_started, http_started, not_needed, Service, start_grpc_container,
  start_http_container, start_service_container, up, wait_grpc_health,
}
use octopusgarden.Attractor.Loop.Ensures.{assume, chain, Ensures, use_now}
use octopusgarden.Attractor.Loop.Frame.{
  after, after_if, Course, course, IsStall, one_more_stall, stall-Yields, Yields,
}
use octopusgarden.Attractor.Loop.Invariant.{check_stalled-IsAfter, IsAfter, IsRunning, IsSound}
use mathlib.Core.Path.{subst}

module _ {R : Type 0} ⦃F : Float R⦄ where
  one_more_stall-IsSound :
      (opts : RunOptions R) (c : Course R) → IsSound opts c → IsSound opts (one_more_stall c)
  one_more_stall-IsSound opts c h = record {
    same_opts = h.same_opts;
    best_above = h.best_above;
    best_seen = h.best_seen;
    patch_count = h.patch_count;
    patch_allowed = h.patch_allowed;
    tier = h.tier;
  }

  pub stalled-IsAfter :
      (opts : RunOptions R) (iter : ℕ) (c : Course R) (r : Option (RunResult R)) (t : RunState R)
      → IsStall iter c r t
      → IsSound opts c
      → IsAfter opts iter r t
  stalled-IsAfter opts iter c r t (same, e) h =
      subst (λ x. IsAfter opts iter x t) (sym e)
        (check_stalled-IsAfter opts iter t
          (subst (IsSound opts) (sym same) (one_more_stall-IsSound opts c h)))

  -- Postconditions of the parts of an iteration that starts in a running state.
  abbrev pub Ends : RunOptions R → ℕ → Course R → Option (RunResult R) → RunState R → Type 0
  Ends opts iter c r t = IsRunning opts c → IsAfter opts iter r t

  abbrev pub IsServed : RunOptions R → ℕ → Service R → RunState R → Type 0
  IsServed opts iter not_needed t = IsRunning opts (course t)
  IsServed opts iter (up c) t = IsRunning opts (course t)
  IsServed opts iter (down r) t = IsAfter opts iter r t

  abbrev pub Serves : RunOptions R → ℕ → Course R → Service R → RunState R → Type 0
  Serves opts iter c svc t = IsRunning opts c → IsServed opts iter svc t

  abbrev pub IsTested : RunOptions R → ℕ → Option (Option (RunResult R)) → RunState R → Type 0
  IsTested opts iter none t = IsRunning opts (course t)
  IsTested opts iter (some r) t = IsAfter opts iter r t

  abbrev pub Tests :
      RunOptions R → ℕ → Course R → Option (Option (RunResult R)) → RunState R → Type 0
  Tests opts iter c r t = IsRunning opts c → IsTested opts iter r t

module _ {W R : Type 0} ⦃F : Float R⦄ (world : World W R) (opts : RunOptions R) (iter : ℕ) where
  stall-down :
      (how : IterationOutcome) (kind : FeedbackKind)
      → Yields (Serves opts iter) (stall world iter how kind down)
  stall-down how kind =
      stall-Yields world (Serves opts iter) iter how kind down
        (λ c r t h run. stalled-IsAfter opts iter c r t h run.0)

  pub stall-Ends :
      (how : IterationOutcome) (kind : FeedbackKind)
      → Yields (Ends opts iter) (stall world iter how kind (λ r. r))
  stall-Ends how kind =
      stall-Yields world (Ends opts iter) iter how kind (λ r. r)
        (λ c r t h run. stalled-IsAfter opts iter c r t h run.0)

  http_started-Serves :
      (started : Option Container) → Yields (Serves opts iter) (http_started world iter started)
  unfolding http_started
  http_started-Serves none = stall-down run_fail run_error
  http_started-Serves (some c) =
      after (Serves opts iter) (call world.wait_healthy) _ (λ t. refl)
        (λ healthy.
          after_if (Serves opts iter) healthy (pure (up c)) _ (λ s run. run)
            (after (Serves opts iter) (call (λ w. (tt, world.stop_container w))) _ (λ t. refl)
              (λ _. stall-down health_fail health_error)))

  wait_grpc_health-Ends : (c : Container) → Yields (Ends opts iter) (wait_grpc_health world iter c)
  unfolding wait_grpc_health
  wait_grpc_health-Ends c s =
      after_if (Ends opts iter)
        (s.state.opts.capabilities.needs_http || s.state.opts.capabilities.needs_browser) _ _
        (check world.wait_healthy)
        (after_if (Ends opts iter) (is_empty c.grpc_target) (pure none) _ (λ t run. run)
          (check world.wait_port))
        s
    where
      check :
          (f : W → Bool × W)
          → Yields (Ends opts iter) (do
            healthy ← call f
            if healthy then pure none else stall world iter health_fail health_error (λ r. r))
      check f =
          after (Ends opts iter) (call f) _ (λ t. refl)
            (λ b.
              after_if (Ends opts iter) b (pure none) _ (λ t run. run)
                (stall-Ends health_fail health_error))

  -- Two actions, the second from any state that the first may leave.
  pub follow :
      {A B : Type 0} (P : A → RunState R → Type 0) (Q : B → RunState R → Type 0) (m : Action W R A)
      (f : A → Action W R B)
      → Yields (λ c a t. IsRunning opts c → P a t) m
      → ((a : A) (t : Sys W R) → P a t.state → Ensures (f a t) Q)
      → Yields (λ c b t. IsRunning opts c → Q b t) (m >>= f)
  follow P Q m f h k s =
      assume (IsRunning opts (course s.state)) Q _
        λ run. chain P Q (m s) f (use_now (IsRunning opts (course s.state)) P (m s) run (h s)) k

  grpc_checked-IsServed :
      (c : Container) (r : Option (RunResult R)) (t : Sys W R)
      → IsAfter opts iter r t.state
      → Ensures (grpc_checked world c r t) (IsServed opts iter)
  unfolding grpc_checked
  grpc_checked-IsServed c none t h = h
  grpc_checked-IsServed c (some r) t h = h

  grpc_started-Serves :
      (started : Option Container) → Yields (Serves opts iter) (grpc_started world iter started)
  unfolding grpc_started
  grpc_started-Serves none = stall-down run_fail run_error
  grpc_started-Serves (some c) =
      follow (IsAfter opts iter) (IsServed opts iter) (wait_grpc_health world iter c)
        (grpc_checked world c) (wait_grpc_health-Ends c) (grpc_checked-IsServed c)

  pub start_service-Serves : Yields (Serves opts iter) (start_service_container world iter)
  unfolding start_service_container start_http_container start_grpc_container
  start_service-Serves s =
      let caps = s.state.opts.capabilities in
      after_if (Serves opts iter) caps.needs_grpc _ _
        (after (Serves opts iter) (call world.run_multi_port) (grpc_started world iter) (λ t. refl)
          grpc_started-Serves)
        (after_if (Serves opts iter) (caps.needs_tui && not caps.needs_http) _ _ (λ t run. run)
          (after_if (Serves opts iter)
            (caps.needs_http || caps.needs_browser || not caps.needs_exec) _ _
            (after (Serves opts iter) (call world.run_container) (http_started world iter)
              (λ t. refl) http_started-Serves)
            (λ t run. run)))
        s

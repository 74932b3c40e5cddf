-- ===== src/Attractor/Resources/Serving.antt =====
-- What the starts and stops of a container and of a session do to the books.
use octopusgarden.Prelude.{◌+◌, arith, Float, none, Option, some, ℕ, ◌≡◌}
use octopusgarden.Attractor.Loop.World.{Action, Container, deferring, World}
use octopusgarden.Attractor.Loop.Generation.{stall}
use octopusgarden.Attractor.Loop.Containers.{
  down, grpc_checked, grpc_started, http_started, not_needed, Service, start_grpc_container,
  start_http_container, start_service_container, up, wait_grpc_health,
}
use octopusgarden.Attractor.Composed.Serving.{start_composed_container, started_container}
use octopusgarden.Attractor.Resources.Books.{
  booked, Books, closing_container, closing_session, Counts, one_if_some,
}
use octopusgarden.Attractor.Resources.Steady.{From, from_bind, Spends, Within}

abbrev pub with_container : Counts → Counts
with_container c = record c { containers = c.containers + 1 }

abbrev pub with_session : Counts → Counts
with_session c = record c { sessions = c.sessions + 1 }

module _ {R : Type 0} where
  -- The counts when a service has been started.
  abbrev pub counts_with : Service R → Counts → Counts
  counts_with not_needed c = c
  counts_with (up i) c = with_container c
  counts_with (down r) c = c

abbrev pub counts_with_started : Option (Option Container) → Counts → Counts
counts_with_started none c = c
counts_with_started (some none) c = c
counts_with_started (some (some i)) c = with_container c

module _ {W R : Type 0} ⦃F : Float R⦄ (world : World W R) where
  pub start_http_container-counts :
      (iter : ℕ) (c : Counts)
      → From c (start_http_container (booked world) iter) (λ svc d. d ≡ counts_with svc c)
  unfolding start_http_container http_started stall one_if_some
  start_http_container-counts iter c s e = ground arith

  pub start_grpc_container-counts :
      (iter : ℕ) (c : Counts)
      → From c (start_grpc_container (booked world) iter) (λ svc d. d ≡ counts_with svc c)
  unfolding start_grpc_container grpc_started grpc_checked wait_grpc_health stall one_if_some
  start_grpc_container-counts iter c s e = ground arith

  pub start_service_container-counts :
      (iter : ℕ) (c : Counts)
      → From c (start_service_container (booked world) iter) (λ svc d. d ≡ counts_with svc c)
  unfolding start_service_container
  start_service_container-counts iter c s e =
      ground (arith, start_http_container-counts iter c s e, start_grpc_container-counts iter c s e)

  pub start_composed_container-counts :
      (c : Counts)
      → From c (start_composed_container (booked world)) (λ o d. d ≡ counts_with_started o c)
  unfolding start_composed_container started_container
  start_composed_container-counts c s e =
      ground (arith, start_http_container-counts 0 c s e, start_grpc_container-counts 0 c s e)

module _ {W R A : Type 0} (world : World W R) (n : ℕ) (body : Action (Books W) R A)
    (body_within : Within n body) where
  -- What a deferred stop closes was opened before the body.
  pub deferring_container-Spends :
      (c : Counts)
      → From
          (with_container c)
          (deferring (closing_container world.stop_container) body)
          (λ _ d. Spends n c d)
  deferring_container-Spends c =
      from_bind (λ _ d. Spends n (with_container c) d) _ (with_container c) body _
        (body_within (with_container c)) (λ a d p s e. ground (arith, p, e))

  pub deferring_session-Spends :
      (c : Counts)
      → From
          (with_session c)
          (deferring (closing_session world.stop_session) body)
          (λ _ d. Spends n c d)
  deferring_session-Spends c =
      from_bind (λ _ d. Spends n (with_session c) d) _ (with_session c) body _
        (body_within (with_session c)) (λ a d p s e. ground (arith, p, e))

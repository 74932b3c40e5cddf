-- ===== src/Attractor/Loop.antt =====
-- internal/attractor/attractor.go: the loop that generates, builds, runs and validates.
pub mod State
pub mod World
pub mod Steering
pub mod Triage
pub mod Generation
pub mod Containers
pub mod Restart
pub mod Validation
pub mod Run
pub mod Samples
pub mod Ensures
pub mod Frame
pub mod Invariant
pub mod Judged
pub mod Serving
pub mod Steps
pub mod Outcomes
pub mod Results
pub mod Returns
pub mod Completes
mod Tests

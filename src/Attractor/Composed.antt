-- ===== src/Attractor/Composed.antt =====
-- The composed attempt of internal/attractor/attractor.go: each component of a gene converges on
-- its own in the order of the dependencies, and the whole is validated before the monolithic loop
-- is tried.
pub mod Serving
pub mod Component
pub mod Infrastructure
pub mod Run
pub mod Kept
pub mod Judged
pub mod Arrived
pub mod Outcomes
pub mod Results
pub mod Files
pub mod Returns
pub mod Completes
mod Tests

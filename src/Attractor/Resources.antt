-- ===== src/Attractor/Resources.antt =====
-- What a run holds of the outside world: containers and sessions that it has started and not
-- stopped, the generations that it has asked for, and what its answers cost.
pub mod Books
pub mod Steady
pub mod Serving
pub mod Component
pub mod Composed
pub mod Generation
pub mod Loop
pub mod Results
pub mod Restarts
pub mod Ledger
pub mod PaidComponent
pub mod PaidComposed
pub mod PaidGeneration
pub mod PaidLoop
pub mod PaidRun
mod Tests

-- ===== src/Attractor.antt =====
-- internal/attractor: the convergence loop and its parts.
pub mod Escalation
pub mod Convergence
pub mod Oscillation
pub mod FileParse
pub mod Regression
pub mod Loop
pub mod Feedback
pub mod Toposort
pub mod Languages
pub mod Composed
pub mod Resources

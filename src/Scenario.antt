-- ===== src/Scenario.antt =====
-- internal/scenario: holdout scenarios, their execution step by step, and their scores.
pub mod Types
pub mod JsonPath
pub mod Variables
pub mod Execution
pub mod Runner
pub mod Judge
pub mod Tiers

-- ===== src/Lint.antt =====
-- internal/lint: the checks of scenarios before they are run.
pub mod VarCheck

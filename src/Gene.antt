-- ===== src/Gene.antt =====
-- internal/gene: the coding guide that is taken from a source repository.
pub mod Budget
pub mod Components

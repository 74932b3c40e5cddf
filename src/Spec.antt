-- ===== src/Spec.antt =====
-- internal/spec: specifications in Markdown, and their summaries for a budget of tokens.
pub mod Parser
pub mod Summary

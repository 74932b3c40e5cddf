-- ===== src/Llm.antt =====
-- internal/llm: the answers of the LLM clients.
pub mod Json

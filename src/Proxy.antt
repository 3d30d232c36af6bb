-- ===== src/Proxy.antt =====
-- internal/cognitor/proxy: the streaming side of the LLM proxy.
pub mod ThinkParser

-- ===== src/Engine.antt =====
-- internal/engine: the choice of a provider.
pub mod Fallback

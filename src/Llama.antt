-- ===== src/Llama.antt =====
-- ark/infra/llamacpp: what the local model runtime computes beside its C bridge.
pub mod Stops
pub mod Utf8
pub mod Worker

-- ===== src/Memory.antt =====
-- internal/bionic/memory: what an agent remembers beyond one context.
pub mod Cache

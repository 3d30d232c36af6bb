-- ===== src/Brain.antt =====
-- internal/brain: the sensory signals on their way to the brain.
pub mod RingBuffer

-- ===== src/Context.antt =====
-- internal/bionic/context: the context of one agent.
pub mod Stm
pub mod Bridge
pub mod Node
pub mod Graph
pub mod Pipeline
pub mod Manager

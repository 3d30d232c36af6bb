-- ===== src/Copilot.antt =====
-- internal/bionic/tool/copilot: the control that Domour has over a Copilot CLI session.
pub mod Veto

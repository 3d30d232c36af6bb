-- ===== src/Session.antt =====
-- ark/session: conversation sessions, their serialisation and their storage.
pub mod Locker

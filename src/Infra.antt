-- ===== src/Infra.antt =====
-- internal/infra: what the services share.
pub mod EventBus

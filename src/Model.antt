-- ===== src/Model.antt =====
-- internal/infra/model: the models that requests can be sent to.
pub mod Registry

-- ===== src/Supervisor.antt =====
-- ark/supervisor: the registry of the agent processes of this machine, and the approvals they wait
-- for.
pub mod Registry
pub mod Approval

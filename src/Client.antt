-- ===== src/Client.antt =====
-- client: the supervisor of the agents that a machine runs, and the session with the gateway.
pub mod AgentId
pub mod Approvals
pub mod ConfigApply
pub mod FakeAdapter
pub mod Manager
pub mod Supervisor

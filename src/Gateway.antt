-- ===== src/Gateway.antt =====
-- gateway/internal: the stores of the gateway and the hub that keeps them.
pub mod Routing
pub mod RuntimeIndex
pub mod Registry
pub mod Settings
pub mod ApprovalId
pub mod ConsoleHub
pub mod ClientHub

-- ===== src/Gateway.antt =====
-- backend/internal/wsgateway: the process that holds the players' connections.
pub mod Hub
pub mod Registry
pub mod Session
pub mod Routing
pub mod Connections

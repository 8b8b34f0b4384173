-- ===== src/Gateway.antt =====
-- internal/gateway.
pub mod Cost
pub mod Json
pub mod Routes
pub mod Http
pub mod Prepare
pub mod Server
pub mod Proxy
pub mod Budget

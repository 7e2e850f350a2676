-- ===== src/Gateway.antt =====
pub mod Headers
pub mod Metrics
pub mod Accounts
pub mod Registry
pub mod Paths
pub mod Limiter
pub mod Router
pub mod Scenario
mod Tests
mod Examples

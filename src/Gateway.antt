-- ===== src/Gateway.antt =====
-- system-design/api-gateway: the middleware chain in front of an upstream.
pub mod Http
pub mod Tenants
pub mod Policy
pub mod Credentials
pub mod Quota
pub mod Metrics
pub mod Chain
mod Tests

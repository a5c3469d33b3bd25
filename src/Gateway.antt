-- ===== src/Gateway.antt =====
-- services/gateway: what stands in front of the services.
pub mod Failures
pub mod Limiter
pub mod Tokens
pub mod Identity
mod Examples

-- ===== src/Gateway.antt =====
-- The gateway: who may call which route.
pub mod Authz
mod Tests

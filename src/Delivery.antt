-- ===== src/Delivery.antt =====
-- The delivery of events: the outbox and its relay, and the consumers.
pub mod Outbox
pub mod Relay
pub mod Consumer
pub mod Dedup
mod Tests

-- ===== src/Identity.antt =====
-- The identity service: users, and refresh sessions with rotation.
pub mod Rules
pub mod Tables
pub mod Service
pub mod Families
pub mod Rotation
pub mod Once
mod Tests

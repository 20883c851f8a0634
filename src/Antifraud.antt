-- ===== src/Antifraud.antt =====
-- The antifraud service: its rules and its scorer.
pub mod Rules
pub mod Windows
pub mod Scorer
mod Tests

-- ===== src/Account.antt =====
-- The account service: its numbers and statuses, its operations, and what it reads from events.
pub mod Numbers
pub mod Tables
pub mod Service
pub mod Consumers
pub mod Projection
pub mod Newest
pub mod Convergence
pub mod Opening
mod Tests

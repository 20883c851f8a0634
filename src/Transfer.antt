-- ===== src/Transfer.antt =====
-- The transfer service: the saga's states, the checks of a request and the legs it posts.
pub mod State
pub mod Request
pub mod Tables
pub mod Store
pub mod Postings
pub mod Clients
pub mod Validate
pub mod Saga
pub mod Create
pub mod Recovery
pub mod Rounds
pub mod Drive
pub mod Once
pub mod Linked
pub mod Settlement
pub mod Backing
pub mod Outcome
pub mod Stranded
mod Tests

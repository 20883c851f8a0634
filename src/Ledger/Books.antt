-- ===== src/Ledger/Books.antt =====
-- The books of the ledger: the invariant of its tables and the proofs about the use cases.
mod Invariant
mod Sums
pub mod Holds
pub mod Listing
pub mod Sweep
pub mod Place
pub mod Returns
mod Deltas
mod Capture
mod Balances
mod Entries
mod Steps
mod Outcome
mod Made
pub mod Post
pub mod Once
mod Kept
pub mod Final
pub mod Payload
pub use Invariant.*
pub use Deltas.{is_posted, resolve-cons, AgreesWith}
pub use Capture.{named_hold}
pub use Post.{IsRequest, HoldIsPosted}

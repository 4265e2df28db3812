-- ===== src/Transactions.antt =====
-- Transactions and their hashes: crates/primitives/transactions.
pub mod Types
pub mod Bytes
pub mod Hashing
pub mod Invoke
pub mod Declare
pub mod Deploy
pub mod ComputeHash
pub mod Bounds
pub mod Eras
pub mod Nonces
pub mod NoPanic
pub mod Core
pub mod ToCore
pub mod ReadBack
pub mod RoundTrip
pub mod Answers
pub mod HashKept
pub mod Broadcast
pub mod Relay
mod Tests

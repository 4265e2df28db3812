-- ===== src/Rpc.antt =====
-- The JSON-RPC server: crates/client/rpc.
pub mod Types
pub mod Token
pub mod GetEvents
pub mod CallInfo
pub mod Server
pub mod Reads
pub mod TransactionReads
pub mod Receipts
pub mod BlockReads
pub mod BlockReceipts
pub mod ReadLaws
pub mod ReceiptLaws
pub mod BlockLaws
mod ReadTests
mod Tests

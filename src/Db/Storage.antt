-- ===== src/Db/Storage.antt =====
-- The handlers of the state tries: crates/client/db/src/storage.rs.
pub mod Keys
pub mod Trie
pub mod Handlers
pub mod ContractTrie
pub mod ContractStorageTrie
pub mod ClassTrie
pub mod Laws
pub mod Memory
mod Tests

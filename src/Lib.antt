-- ===== src/Lib.antt =====
-- Deoxys, a Starknet full node on Substrate: a model of its core in a cubical type theory.
--
-- The pallet (crates/pallets/starknet) keeps the Starknet state of a Substrate block and puts the Starknet
-- block into the digest. The client's mapping sync (crates/client/mapping-sync) finds that block with
-- crates/primitives/digest-log and writes the mapping between the hashes of both chains to the databases of
-- crates/client/db. The RPC server (crates/client/rpc) answers from them. Transactions are hashed by
-- crates/primitives/transactions. The sync (crates/client/sync) fetches blocks with their updates, commits to
-- them in the state tries of crates/client/db, and hands them on to the pallet.
--
--   * Base: Boolean tests and conditionals on native numbers, lists, options and results as chains, and
--     association lists.
--   * Db: crates/client/db/src. Db/Column is the enum Column (lib.rs), Db/Rocks the RocksDB store and the
--     codecs as parameters, with a store in memory that has the laws; Db/Mapping is mapping_db.rs, with
--     what the database answers after a write in Mapping/Views and its invariant in Mapping/Consistent;
--     Db/Meta is meta_db.rs, Db/Da is da_db.rs and
--     Db/L1Fee is l1_handler_tx_fee.rs. Functions have the names of the methods. Db/Storage is storage.rs:
--     the keys of the tries (Keys), the bonsai storage as a parameter with its laws (Trie), the three
--     storages and their handles (Handlers), the operations of each trie, and a storage in memory that has
--     the laws. Db/Bonsai is bonsai_db.rs over RocksDB and its iterator.
--   * DigestLog: crates/primitives/digest-log/src/lib.rs; `find_from` is the loop of `_find_log`.
--   * MappingSync: crates/client/mapping-sync/src. MappingSync/Action is a call that writes and may fail: what
--     was written before a failure stays written. MappingSync/Step is sync_blocks.rs, MappingSync/Worker
--     the poll of lib.rs; Sync, Frame and Consistent hold the theorems.
--   * Transactions: crates/primitives/transactions/src. For compute_hash.rs, Transactions/Types has the
--     transactions and the record Field of the arithmetic and hash functions of other crates; Hashing,
--     Invoke, Declare, Deploy and ComputeHash are the `compute_hash` implementations, with `none` for a
--     panic; Bytes, Bounds, Eras, Nonces and NoPanic hold the theorems. ToCore is
--     to_starknet_core_transaction.rs, whose answers Core describes and ReadBack reads; RoundTrip,
--     Answers and HashKept hold the theorems. Broadcast is the part of from_broadcasted_transactions.rs on invoke and
--     deploy account transactions, with its theorems in Relay.
--   * Pallet: crates/pallets/starknet/src/lib.rs. Pallet/CallInfo is the emission of events and messages,
--     Pallet/State the storage, the genesis and the getters, Pallet/Hooks the hooks and the inherent, with
--     `none` for a panic, Pallet/Adapter is blockifier_state_adapter.rs with its theorems; Emission, Blocks
--     and Updates hold the others.
--   * Commitments: crates/client/sync/src/commitments. Commitments/Memory is transactions.rs and events.rs,
--     Commitments/Leaves and Commitments/Roots are lib.rs; Signatures, Contracts, Roots/Writes and
--     Roots/Refines hold the theorems.
--   * StateSync: crates/client/sync/src. StateSync/State is the shared state of l1.rs and l2.rs, L1 and L2
--     their functions, the loop that applies blocks included, and Fetch is fetch/fetchers.rs; Statuses,
--     Deliveries and Classes hold the theorems.
--   * Header: crates/primitives/block/src/header.rs, the hash of a header.
--   * Reorgs: crates/client/sync/src/reorgs/lib.rs, its loop on fuel.
--   * Rpc: crates/client/rpc/src. Rpc/Types and Rpc/Token are types.rs; Rpc/GetEvents is
--     methods/read/get_events.rs, and its Paging, Pages, Filter and Errors hold the theorems; Rpc/CallInfo
--     is the extraction of a call's events in utils.rs. Rpc/Server is the server of lib.rs with
--     madara_backend_client.rs, by what its parts answer, the conversion of transactions included, which
--     Transactions/ToCore and Transactions/HashKept fill; Rpc/Reads, Rpc/TransactionReads, Rpc/BlockReads,
--     Rpc/BlockReceipts and Rpc/Receipts are the handlers of methods/read, with the theorems in
--     Rpc/ReadLaws, Rpc/BlockLaws and Rpc/ReceiptLaws.
--
-- Numbers are native; machine integers are bounded where a theorem needs it (u64 tokens, u64 amounts, u128
-- prices and fees). Loops are structural recursion, on the list that the code walks or on its limit, with
-- these exceptions: the fetch of a block is on fuel, for which its fifteen attempts are enough; the pages of
-- Rpc/GetEvents are fetched on a number of requests, one more than the events that are left; the loop of
-- Reorgs and the conversion of declare transactions in Rpc/Receipts are on fuel, as the code bounds them by
-- nothing.
-- A StarkFelt, a FieldElement and a Felt252Wrapper of the same value are one value.
--
-- Not modelled: the requests to Ethereum and the feeder, whose answers are arguments; the RPC methods that
-- execute or send transactions; the conversions of classes and of the declare transactions that users send; the
-- simulations; and the node's command line, runtime configuration and terminal interface. Metrics and logging
-- are left out. RocksDB, SCALE codecs, bonsai tries, starknet-crypto, starknet-core and starknet-api are
-- parameters, with their documented behaviour as records of laws.
pub mod Base
pub mod Db
pub mod DigestLog
pub mod MappingSync
pub mod Transactions
pub mod Pallet
pub mod Commitments
pub mod Reorgs
pub mod Rpc
pub mod StateSync
pub mod Header

-- ===== src/Rpc/Reads.antt =====
-- The read handlers of blocks, classes, nonces and storage: crates/client/rpc/src/methods/read.

use deoxys.Base.{ℕ, Option, none}
use deoxys.Base.Outcome.{Result, ok, err, ◌>>=◌, map_err, ok_or}
use deoxys.Base.Assoc.{Eq}
use deoxys.Db.Storage.Trie.{BonsaiStorage}
use deoxys.Db.Storage.Handlers.{
  Felts, Backend, DeoxysStorageError, number as block_number_id, contract_storage_mut,
}
use deoxys.Db.Storage.ContractStorageTrie
use deoxys.Rpc.Types.{
  BlockId, block_not_found, internal_server_error, contract_not_found, class_hash_not_found,
  no_blocks,
}
use deoxys.Rpc.Server.{
  RpcError, api, Server, block_hash_or_error, substrate_block_number_from_starknet_block,
  current_block_number, current_block_hash, substrate_block_hash_from_starknet_block,
}

module _ {F H Tx Class Abi RpcClass : Type 0} ⦃e : Eq F⦄ ⦃eh : Eq H⦄
    (s : Server F H Tx Class Abi RpcClass) where
  unfoldable pub block_hash_and_number : Result RpcError (F × ℕ)
  unfolding current_block_hash current_block_number
  block_hash_and_number = do
    block_hash ← map_err (λ _. api no_blocks) (current_block_hash s)
    ok (block_hash, current_block_number s)

  unfoldable pub get_block_transaction_count : BlockId F → Result RpcError ℕ
  unfolding substrate_block_hash_from_starknet_block
  get_block_transaction_count block_id = do
    h ← block_hash_or_error s block_id
    block ← s.get_block_by_block_hash h
    ok block.transaction_count

  unfoldable pub get_class : BlockId F → F → Result RpcError RpcClass
  unfolding substrate_block_hash_from_starknet_block
  get_class block_id class_hash = do
    h ← block_hash_or_error s block_id
    class ← ok_or (s.contract_class_by_class_hash h class_hash) (api class_hash_not_found)
    abi ← ok_or (s.contract_abi_by_class_hash h class_hash) (api class_hash_not_found)
    ok_or (s.to_rpc_class class abi) (api internal_server_error)

  unfoldable pub get_class_at : BlockId F → F → Result RpcError RpcClass
  unfolding substrate_block_hash_from_starknet_block
  get_class_at block_id address = do
    h ← block_hash_or_error s block_id
    class ← ok_or (s.contract_class_by_address h address) (api contract_not_found)
    abi ← ok_or (s.contract_abi_by_address h address) (api contract_not_found)
    ok_or (s.to_rpc_class class abi) (api internal_server_error)

  unfoldable pub get_class_hash_at : BlockId F → F → Result RpcError F
  unfolding substrate_block_hash_from_starknet_block
  get_class_hash_at block_id address = do
    h ← block_hash_or_error s block_id
    ok_or (s.contract_class_hash_by_address h address) (api contract_not_found)

  unfoldable pub get_nonce : BlockId F → F → Result RpcError F
  unfolding substrate_block_hash_from_starknet_block
  get_nonce block_id address = do
    h ← block_hash_or_error s block_id
    ok_or (s.nonce h address) (api contract_not_found)

  -- `unwrap_or(None)`
  abbrev pub value_or_none : Result DeoxysStorageError (Option F) → Option F
  value_or_none (ok value) = value
  value_or_none (err e) = none

  module _ (pedersen poseidon : BonsaiStorage F) (felts : Felts F) where
    unfoldable pub get_storage_at :
        F → F → BlockId F → Backend pedersen poseidon → Result RpcError F
    unfolding substrate_block_number_from_starknet_block contract_storage_mut
        ContractStorageTrie.get
    get_storage_at address key block_id d = do
      n ← map_err (λ _. api block_not_found) (substrate_block_number_from_starknet_block s block_id)
      handle ←
          map_err (λ _. api contract_not_found)
            (contract_storage_mut pedersen poseidon (block_number_id n) d).0
      ok_or (value_or_none (ContractStorageTrie.get pedersen poseidon felts address key d).0)
          (api contract_not_found)

-- ===== src/Transactions/Invoke.antt =====
-- The hashes of invoke transactions: crates/primitives/transactions/src/compute_hash.rs.
use deoxys.Base.{ℕ, Bool, Option, some, List, [], ◌∷◌, if◌then◌else◌}
use deoxys.Base.Opt.{◌>>=◌}
use deoxys.Transactions.Types.{
  Field, InvokeTransactionV0, InvokeTransactionV1, InvokeTransactionV3, InvokeTransaction,
  invoke_v0, invoke_v1, invoke_v3,
}
use deoxys.Transactions.Hashing.{
  legacy_block_number, invoke_prefix, is_above, offset, offset_zero, gas_hash, modes,
  paymaster_hash,
}

-- `hash` is `H::compute_hash_on_elements` of the hasher `H`.
module _ (field : Field) (hash : List field.Fe → field.Fe) where
  unfoldable pub hash_invoke_v0 :
      InvokeTransactionV0 field.Fe → field.Fe → Bool → Option ℕ → Option field.Fe
  hash_invoke_v0 tx chain_id offset_version block_number = do
    prefix ← field.from_byte_slice_be invoke_prefix
    let calldata_hash = field.compute_hash_on_elements tx.calldata
    some (
        if is_above block_number legacy_block_number
        then hash (
            prefix
            ∷ offset_zero field offset_version
            ∷ tx.contract_address
            ∷ tx.entry_point_selector
            ∷ calldata_hash
            ∷ field.from tx.max_fee
            ∷ chain_id
            ∷ [])
        else hash (
            prefix ∷ tx.contract_address ∷ tx.entry_point_selector ∷ calldata_hash ∷ chain_id ∷ []))

  unfoldable pub hash_invoke_v1 : InvokeTransactionV1 field.Fe → field.Fe → Bool → Option field.Fe
  hash_invoke_v1 tx chain_id offset_version = do
    prefix ← field.from_byte_slice_be invoke_prefix
    some (
        hash (
          prefix
          ∷ offset field offset_version 1
          ∷ tx.sender_address
          ∷ field.from 0
          ∷ field.compute_hash_on_elements tx.calldata
          ∷ field.from tx.max_fee
          ∷ chain_id
          ∷ tx.nonce
          ∷ []))

  unfoldable pub hash_invoke_v3 : InvokeTransactionV3 field.Fe → field.Fe → Bool → Option field.Fe
  hash_invoke_v3 tx chain_id offset_version = do
    prefix ← field.from_byte_slice_be invoke_prefix
    gas ← gas_hash field tx.fees
    data_availability_modes ← modes field tx.fees
    let account_deployment_data_hash = field.compute_hash_on_elements tx.account_deployment_data
    let calldata_hash = field.compute_hash_on_elements tx.calldata
    some (
        hash (
          prefix
          ∷ offset field offset_version 3
          ∷ tx.sender_address
          ∷ gas
          ∷ paymaster_hash field tx.fees
          ∷ chain_id
          ∷ tx.nonce
          ∷ data_availability_modes
          ∷ field.compute_hash_on_elements (account_deployment_data_hash ∷ calldata_hash ∷ [])
          ∷ []))

  unfoldable pub hash_invoke :
      InvokeTransaction field.Fe → field.Fe → Bool → Option ℕ → Option field.Fe
  hash_invoke (invoke_v0 tx) chain_id offset_version block_number =
      hash_invoke_v0 tx chain_id offset_version block_number
  hash_invoke (invoke_v1 tx) chain_id offset_version block_number =
      hash_invoke_v1 tx chain_id offset_version
  hash_invoke (invoke_v3 tx) chain_id offset_version block_number =
      hash_invoke_v3 tx chain_id offset_version

-- ===== src/Transactions/Deploy.antt =====
-- The hashes of deploy, deploy account and L1 handler transactions:
-- crates/primitives/transactions/src/compute_hash.rs.
use deoxys.Base.{ℕ, Bool, true, false, ◌&&◌, Option, none, some, List, [], ◌∷◌, if◌then◌else◌}
use deoxys.Base.Opt.{◌>>=◌}
use deoxys.Transactions.Types.{
  Field, DeployAccountTransactionV1, DeployAccountTransactionV3, DeployAccountTransaction,
  deploy_account_v1, deploy_account_v3, DeployTransaction, L1HandlerTransaction,
}
use deoxys.Transactions.Hashing.{
  legacy_block_number, legacy_l1_handler_block, deploy_account_prefix, deploy_prefix, invoke_prefix,
  l1_handler_prefix, constructor_name, is_above, is_below, offset, offset_zero, gas_hash, modes,
  paymaster_hash,
}

abbrev pub is_some : Option ℕ → Bool
is_some none = false
is_some (some n) = true

module _ (field : Field) (hash : List field.Fe → field.Fe) where
  unfoldable pub hash_deploy_account_v1 :
      DeployAccountTransactionV1 field.Fe → field.Fe → Bool → Option field.Fe
  hash_deploy_account_v1 tx chain_id offset_version = do
    contract_address ←
        field.calculate_contract_address tx.contract_address_salt tx.class_hash
          tx.constructor_calldata
    prefix ← field.from_byte_slice_be deploy_account_prefix
    let calldata = tx.class_hash ∷ tx.contract_address_salt ∷ tx.constructor_calldata
    some (
        hash (
          prefix
          ∷ offset field offset_version 1
          ∷ contract_address
          ∷ field.from 0
          ∷ field.compute_hash_on_elements calldata
          ∷ field.from tx.max_fee
          ∷ chain_id
          ∷ tx.nonce
          ∷ []))

  unfoldable pub hash_deploy_account_v3 :
      DeployAccountTransactionV3 field.Fe → field.Fe → Bool → Option field.Fe
  hash_deploy_account_v3 tx chain_id offset_version = do
    prefix ← field.from_byte_slice_be deploy_account_prefix
    contract_address ←
        field.calculate_contract_address tx.contract_address_salt tx.class_hash
          tx.constructor_calldata
    gas ← gas_hash field tx.fees
    data_availability_modes ← modes field tx.fees
    some (
        hash (
          prefix
          ∷ offset field offset_version 3
          ∷ contract_address
          ∷ gas
          ∷ paymaster_hash field tx.fees
          ∷ chain_id
          ∷ tx.nonce
          ∷ data_availability_modes
          ∷ field.compute_hash_on_elements tx.constructor_calldata
          ∷ tx.class_hash
          ∷ tx.contract_address_salt
          ∷ []))

  unfoldable pub hash_deploy_account :
      DeployAccountTransaction field.Fe → field.Fe → Bool → Option field.Fe
  hash_deploy_account (deploy_account_v1 tx) chain_id offset_version =
      hash_deploy_account_v1 tx chain_id offset_version
  hash_deploy_account (deploy_account_v3 tx) chain_id offset_version =
      hash_deploy_account_v3 tx chain_id offset_version

  unfoldable pub compute_hash_given_contract_address :
      DeployTransaction field.Fe → field.Fe → field.Fe → Option ℕ → List field.Fe → Option field.Fe
  compute_hash_given_contract_address tx chain_id contract_address block_number
        constructor_calldata =
      do
        prefix ← field.from_byte_slice_be deploy_prefix
        let calldata_hash = field.compute_hash_on_elements constructor_calldata
        let constructor = field.starknet_keccak constructor_name
        some (
            if is_above block_number legacy_block_number
            then hash (
                prefix
                ∷ tx.version
                ∷ contract_address
                ∷ constructor
                ∷ calldata_hash
                ∷ field.from 0
                ∷ chain_id
                ∷ [])
            else hash (prefix ∷ contract_address ∷ constructor ∷ calldata_hash ∷ chain_id ∷ []))

  unfoldable pub hash_deploy : DeployTransaction field.Fe → field.Fe → Option ℕ → Option field.Fe
  hash_deploy tx chain_id block_number = do
    contract_address ←
        field.calculate_contract_address tx.contract_address_salt tx.class_hash
          tx.constructor_calldata
    compute_hash_given_contract_address tx chain_id contract_address block_number
        tx.constructor_calldata

  unfoldable pub hash_l1_handler :
      L1HandlerTransaction field.Fe → field.Fe → Bool → Option ℕ → Option field.Fe
  hash_l1_handler tx chain_id offset_version block_number = do
    prefix ← field.from_byte_slice_be l1_handler_prefix
    old_prefix ← field.from_byte_slice_be invoke_prefix
    let calldata_hash = field.compute_hash_on_elements tx.calldata
    some (
        if is_below block_number legacy_l1_handler_block && is_some block_number
        then hash (
            old_prefix ∷ tx.contract_address ∷ tx.entry_point_selector ∷ calldata_hash ∷ chain_id
            ∷ [])
        else if is_below block_number legacy_block_number && is_some block_number
        then hash (
            prefix ∷ tx.contract_address ∷ tx.entry_point_selector ∷ calldata_hash ∷ chain_id
            ∷ tx.nonce ∷ [])
        else hash (
            prefix
            ∷ offset_zero field offset_version
            ∷ tx.contract_address
            ∷ tx.entry_point_selector
            ∷ calldata_hash
            ∷ field.from 0
            ∷ chain_id
            ∷ tx.nonce
            ∷ []))

-- ===== src/Transactions/Broadcast.antt =====
-- The invoke and deploy account transactions that users send to the RPC server:
-- crates/primitives/transactions/src/from_broadcasted_transactions.rs. A panic is `none`. `to_u128` is
-- `u128::try_from` of starknet-ff.
use deoxys.Base.{ℕ, Bool, false, Option, none, some, List}
use deoxys.Base.Opt.{◌>>=◌}
use deoxys.Base.Outcome.{Result, ok, err, ok_or}
use deoxys.Transactions.Types.{
  Field, l1_gas, l2_gas, ResourceBoundsMapping, DataAvailabilityMode, l1, l2, FeeFields,
  InvokeTransaction, DeployAccountTransaction, deploy_account, invoke, invoke_v1, invoke_v3,
  deploy_account_v1, deploy_account_v3,
}
use deoxys.Transactions.Core.{
  CoreResourceBoundsMapping, CoreDataAvailabilityMode, core_l1, core_l2, CoreFeeFields,
}
use deoxys.Transactions.ComputeHash.{compute_hash}

pub data BroadcastedTransactionConversionError : Type 0 where
  max_fee_too_big program_decompression_failed program_deserialization_failed :
      BroadcastedTransactionConversionError
  class_hash_computation_failed casm_contract_class_conversion_failed :
      BroadcastedTransactionConversionError
  invalid_compiled_class_hash sierra_compilation_failed : BroadcastedTransactionConversionError
  unsuported_transaction_version : BroadcastedTransactionConversionError

pub record BroadcastedInvokeV1 (Fe : Type 0) : Type 0 where
  pub sender_address : Fe
  pub calldata : List Fe
  pub max_fee : Fe
  pub signature : List Fe
  pub nonce : Fe
  pub is_query : Bool

pub record BroadcastedInvokeV3 (Fe : Type 0) : Type 0 where
  pub sender_address : Fe
  pub calldata : List Fe
  pub signature : List Fe
  pub nonce : Fe
  pub fees : CoreFeeFields Fe
  pub account_deployment_data : List Fe
  pub is_query : Bool

pub record BroadcastedDeployAccountV1 (Fe : Type 0) : Type 0 where
  pub max_fee : Fe
  pub signature : List Fe
  pub nonce : Fe
  pub contract_address_salt : Fe
  pub constructor_calldata : List Fe
  pub class_hash : Fe
  pub is_query : Bool

pub record BroadcastedDeployAccountV3 (Fe : Type 0) : Type 0 where
  pub signature : List Fe
  pub nonce : Fe
  pub contract_address_salt : Fe
  pub constructor_calldata : List Fe
  pub class_hash : Fe
  pub fees : CoreFeeFields Fe
  pub is_query : Bool

pub data BroadcastedInvoke (Fe : Type 0) : Type 0 where
  broadcasted_invoke_v1 : BroadcastedInvokeV1 Fe → BroadcastedInvoke Fe
  broadcasted_invoke_v3 : BroadcastedInvokeV3 Fe → BroadcastedInvoke Fe

pub data BroadcastedDeployAccount (Fe : Type 0) : Type 0 where
  broadcasted_deploy_account_v1 : BroadcastedDeployAccountV1 Fe → BroadcastedDeployAccount Fe
  broadcasted_deploy_account_v3 : BroadcastedDeployAccountV3 Fe → BroadcastedDeployAccount Fe

-- `AccountTransaction` of blockifier, of these two kinds, with the hash, and the address of the contract.
pub data AccountTransaction (Fe : Type 0) : Type 0 where
  account_invoke : InvokeTransaction Fe → Fe → AccountTransaction Fe
  account_deploy_account : DeployAccountTransaction Fe → Fe → Fe → AccountTransaction Fe

unfoldable pub core_da_to_api_da : CoreDataAvailabilityMode → DataAvailabilityMode
core_da_to_api_da core_l1 = l1
core_da_to_api_da core_l2 = l2

unfoldable pub core_resources_to_api_resources : CoreResourceBoundsMapping → ResourceBoundsMapping
core_resources_to_api_resources core_resources l1_gas = some (record {
  max_amount = core_resources.l1_gas_bounds.max_amount;
  max_price_per_unit = core_resources.l1_gas_bounds.max_price_per_unit;
})
core_resources_to_api_resources core_resources l2_gas = some (record {
  max_amount = core_resources.l2_gas_bounds.max_amount;
  max_price_per_unit = core_resources.l2_gas_bounds.max_price_per_unit;
})

unfoldable pub api_fees : {Fe : Type 0} → CoreFeeFields Fe → FeeFields Fe
api_fees fees = record {
  tip = fees.tip;
  resource_bounds = core_resources_to_api_resources fees.resource_bounds;
  paymaster_data = fees.paymaster_data;
  nonce_data_availability_mode = core_da_to_api_da fees.nonce_data_availability_mode;
  fee_data_availability_mode = core_da_to_api_da fees.fee_data_availability_mode;
}

-- `unwrap` of a result.
abbrev pub unwrap : {E A : Type 0} → Result E A → Option A
unwrap (ok a) = some a
unwrap (err e) = none

module _ (field : Field) (hash : List field.Fe → field.Fe) (to_u128 : field.Fe → Option ℕ) where
  abbrev pub Converted : Type 0
  Converted = Option (Result BroadcastedTransactionConversionError (AccountTransaction field.Fe))

  unfoldable pub max_fee_of : field.Fe → Option ℕ
  max_fee_of max_fee = unwrap (ok_or (to_u128 max_fee) max_fee_too_big)

  unfoldable pub invoke_transaction :
      BroadcastedInvoke field.Fe → Option (InvokeTransaction field.Fe)
  invoke_transaction (broadcasted_invoke_v1 tx) = do
    max_fee ← max_fee_of tx.max_fee
    some (
        invoke_v1 (record {
          max_fee = max_fee;
          signature = tx.signature;
          nonce = tx.nonce;
          sender_address = tx.sender_address;
          calldata = tx.calldata;
        }))
  invoke_transaction (broadcasted_invoke_v3 tx) = some (
      invoke_v3 (record {
        fees = api_fees tx.fees;
        signature = tx.signature;
        nonce = tx.nonce;
        sender_address = tx.sender_address;
        calldata = tx.calldata;
        account_deployment_data = tx.account_deployment_data;
      }))

  unfoldable pub invoke_to_account_transaction : BroadcastedInvoke field.Fe → Converted
  invoke_to_account_transaction value = do
    invoke_tx ← invoke_transaction value
    tx_hash ← compute_hash field hash (invoke invoke_tx) (field.from 0) false none
    some (ok (account_invoke invoke_tx tx_hash))

  unfoldable pub deploy_account_transaction :
      BroadcastedDeployAccount field.Fe → Option (DeployAccountTransaction field.Fe)
  deploy_account_transaction (broadcasted_deploy_account_v1 tx) = do
    max_fee ← max_fee_of tx.max_fee
    some (
        deploy_account_v1 (record {
          max_fee = max_fee;
          signature = tx.signature;
          nonce = tx.nonce;
          contract_address_salt = tx.contract_address_salt;
          constructor_calldata = tx.constructor_calldata;
          class_hash = tx.class_hash;
        }))
  deploy_account_transaction (broadcasted_deploy_account_v3 tx) = some (
      deploy_account_v3 (record {
        fees = api_fees tx.fees;
        signature = tx.signature;
        nonce = tx.nonce;
        contract_address_salt = tx.contract_address_salt;
        constructor_calldata = tx.constructor_calldata;
        class_hash = tx.class_hash;
      }))

  unfoldable pub account_address : BroadcastedDeployAccount field.Fe → Option field.Fe
  account_address (broadcasted_deploy_account_v1 tx) =
      field.calculate_contract_address tx.contract_address_salt tx.class_hash
        tx.constructor_calldata
  account_address (broadcasted_deploy_account_v3 tx) =
      field.calculate_contract_address tx.contract_address_salt tx.class_hash
        tx.constructor_calldata

  unfoldable pub deploy_account_to_account_transaction :
      BroadcastedDeployAccount field.Fe → Converted
  deploy_account_to_account_transaction tx = do
    deploy_account_tx ← deploy_account_transaction tx
    tx_hash ← compute_hash field hash (deploy_account deploy_account_tx) (field.from 0) false none
    contract_address ← account_address tx
    some (ok (account_deploy_account deploy_account_tx tx_hash contract_address))

-- ===== src/Transactions/ToCore.antt =====
-- The transactions that the RPC server answers: `to_starknet_core_tx` of
-- crates/primitives/transactions/src/to_starknet_core_transaction.rs. A panic is `none`. `to_u64` is
-- `u64::try_from` of starknet-ff; the conversions between the types of a field element are the identity.
use deoxys.Base.{ℕ, Option, some}
use deoxys.Base.Opt.{◌>>=◌}
use deoxys.Transactions.Types.{
  Field, l1_gas, l2_gas, ResourceBoundsMapping, DataAvailabilityMode, l1, l2, FeeFields,
  Transaction, DeclareTransaction, DeployAccountTransaction, DeployTransaction, InvokeTransaction,
  L1HandlerTransaction, declare, deploy, deploy_account, invoke, l1_handler, invoke_v0, invoke_v1,
  invoke_v3, declare_v0, declare_v1, declare_v2, declare_v3, deploy_account_v1, deploy_account_v3,
}
use deoxys.Transactions.Core.{
  CoreResourceBoundsMapping, CoreDataAvailabilityMode, CoreFeeFields, CoreTransaction, core_l1,
  core_l2, core_declare_v0, core_declare_v1, core_declare_v2, core_declare_v3,
  core_deploy_account_v1, core_deploy_account_v3, core_deploy, core_invoke_v0, core_invoke_v1,
  core_invoke_v3, core_l1_handler,
}

unfoldable pub api_resources_to_core_ressources :
    ResourceBoundsMapping → Option CoreResourceBoundsMapping
api_resources_to_core_ressources resource = do
  l1_bounds ← resource l1_gas
  l2_bounds ← resource l2_gas
  some (record { l1_gas_bounds = l1_bounds; l2_gas_bounds = l2_bounds })

unfoldable pub api_da_to_core_da : DataAvailabilityMode → Option CoreDataAvailabilityMode
api_da_to_core_da l1 = some core_l1
api_da_to_core_da l2 = some core_l2

unfoldable pub core_fees : {Fe : Type 0} → FeeFields Fe → Option (CoreFeeFields Fe)
core_fees fees = do
  resource_bounds ← api_resources_to_core_ressources fees.resource_bounds
  nonce_mode ← api_da_to_core_da fees.nonce_data_availability_mode
  fee_mode ← api_da_to_core_da fees.fee_data_availability_mode
  some (record {
    resource_bounds = resource_bounds;
    tip = fees.tip;
    nonce_data_availability_mode = nonce_mode;
    fee_data_availability_mode = fee_mode;
    paymaster_data = fees.paymaster_data;
  })

module _ (field : Field) (to_u64 : field.Fe → Option ℕ) where
  unfoldable pub core_declare :
      DeclareTransaction field.Fe → field.Fe → Option (CoreTransaction field.Fe)
  core_declare (declare_v0 tx) transaction_hash = some (
      core_declare_v0 (record {
        transaction_hash = transaction_hash;
        max_fee = field.from tx.max_fee;
        signature = tx.signature;
        class_hash = tx.class_hash;
        sender_address = tx.sender_address;
      }))
  core_declare (declare_v1 tx) transaction_hash = some (
      core_declare_v1 (record {
        transaction_hash = transaction_hash;
        max_fee = field.from tx.max_fee;
        signature = tx.signature;
        nonce = tx.nonce;
        class_hash = tx.class_hash;
        sender_address = tx.sender_address;
      }))
  core_declare (declare_v2 tx) transaction_hash = some (
      core_declare_v2 (record {
        transaction_hash = transaction_hash;
        max_fee = field.from tx.max_fee;
        signature = tx.signature;
        nonce = tx.nonce;
        class_hash = tx.class_hash;
        sender_address = tx.sender_address;
        compiled_class_hash = tx.compiled_class_hash;
      }))
  core_declare (declare_v3 tx) transaction_hash = do
    fees ← core_fees tx.fees
    some (
        core_declare_v3 (record {
          transaction_hash = transaction_hash;
          fees = fees;
          signature = tx.signature;
          nonce = tx.nonce;
          class_hash = tx.class_hash;
          compiled_class_hash = tx.compiled_class_hash;
          sender_address = tx.sender_address;
          account_deployment_data = tx.account_deployment_data;
        }))

  unfoldable pub core_deploy_account :
      DeployAccountTransaction field.Fe → field.Fe → Option (CoreTransaction field.Fe)
  core_deploy_account (deploy_account_v1 tx) transaction_hash = some (
      core_deploy_account_v1 (record {
        transaction_hash = transaction_hash;
        max_fee = field.from tx.max_fee;
        signature = tx.signature;
        nonce = tx.nonce;
        contract_address_salt = tx.contract_address_salt;
        constructor_calldata = tx.constructor_calldata;
        class_hash = tx.class_hash;
      }))
  core_deploy_account (deploy_account_v3 tx) transaction_hash = do
    fees ← core_fees tx.fees
    some (
        core_deploy_account_v3 (record {
          transaction_hash = transaction_hash;
          fees = fees;
          signature = tx.signature;
          nonce = tx.nonce;
          class_hash = tx.class_hash;
          contract_address_salt = tx.contract_address_salt;
          constructor_calldata = tx.constructor_calldata;
        }))

  unfoldable pub core_deployed : DeployTransaction field.Fe → field.Fe → CoreTransaction field.Fe
  core_deployed tx transaction_hash = core_deploy (record {
    transaction_hash = transaction_hash;
    contract_address_salt = tx.contract_address_salt;
    constructor_calldata = tx.constructor_calldata;
    class_hash = tx.class_hash;
    version = field.from 0;
  })

  unfoldable pub core_invoke :
      InvokeTransaction field.Fe → field.Fe → Option (CoreTransaction field.Fe)
  core_invoke (invoke_v0 tx) transaction_hash = some (
      core_invoke_v0 (record {
        transaction_hash = transaction_hash;
        max_fee = field.from tx.max_fee;
        signature = tx.signature;
        contract_address = tx.contract_address;
        entry_point_selector = tx.entry_point_selector;
        calldata = tx.calldata;
      }))
  core_invoke (invoke_v1 tx) transaction_hash = some (
      core_invoke_v1 (record {
        transaction_hash = transaction_hash;
        max_fee = field.from tx.max_fee;
        signature = tx.signature;
        nonce = tx.nonce;
        sender_address = tx.sender_address;
        calldata = tx.calldata;
      }))
  core_invoke (invoke_v3 tx) transaction_hash = do
    fees ← core_fees tx.fees
    some (
        core_invoke_v3 (record {
          transaction_hash = transaction_hash;
          fees = fees;
          signature = tx.signature;
          nonce = tx.nonce;
          sender_address = tx.sender_address;
          calldata = tx.calldata;
          account_deployment_data = tx.account_deployment_data;
        }))

  unfoldable pub core_l1_handled :
      L1HandlerTransaction field.Fe → field.Fe → Option (CoreTransaction field.Fe)
  core_l1_handled tx transaction_hash = do
    nonce ← to_u64 tx.nonce
    some (
        core_l1_handler (record {
          transaction_hash = transaction_hash;
          version = field.from 0;
          nonce = nonce;
          contract_address = tx.contract_address;
          entry_point_selector = tx.entry_point_selector;
          calldata = tx.calldata;
        }))

  unfoldable pub to_starknet_core_tx :
      Transaction field.Fe → field.Fe → Option (CoreTransaction field.Fe)
  to_starknet_core_tx (declare tx) transaction_hash = core_declare tx transaction_hash
  to_starknet_core_tx (deploy_account tx) transaction_hash = core_deploy_account tx transaction_hash
  to_starknet_core_tx (deploy tx) transaction_hash = some (core_deployed tx transaction_hash)
  to_starknet_core_tx (invoke tx) transaction_hash = core_invoke tx transaction_hash
  to_starknet_core_tx (l1_handler tx) transaction_hash = core_l1_handled tx transaction_hash

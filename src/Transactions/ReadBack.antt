-- ===== src/Transactions/ReadBack.antt =====
-- What a client of the RPC server can read from its answer: the transaction that
-- crates/primitives/transactions/src/to_starknet_core_transaction.rs converted, and its hash.
use deoxys.Base.{ℕ, ◌≡◌, ◌<◌, ◌^◌, true, Option, none, some, ltb, if◌then◌else◌}
use deoxys.Transactions.Types.{
  Field, l1_gas, l2_gas, ResourceBoundsMapping, DataAvailabilityMode, l1, l2, FeeFields,
  Transaction, DeployTransaction, L1HandlerTransaction, declare, deploy, deploy_account, invoke,
  l1_handler, invoke_v0, invoke_v1, invoke_v3, declare_v0, declare_v1, declare_v2, declare_v3,
  deploy_account_v1, deploy_account_v3,
}
use deoxys.Transactions.Core.{
  CoreResourceBoundsMapping, CoreDataAvailabilityMode, CoreFeeFields, CoreTransaction, core_l1,
  core_l2, core_declare_v0, core_declare_v1, core_declare_v2, core_declare_v3,
  core_deploy_account_v1, core_deploy_account_v3, core_deploy, core_invoke_v0, core_invoke_v1,
  core_invoke_v3, core_l1_handler,
}
use deoxys.Transactions.Bounds.{field_prime}
use deoxys.Transactions.Nonces.{with_nonce}

-- The documented behaviour of the conversions of field elements from and to machine integers.
pub record NumberLaws (field : Field) (to_u64 : field.Fe → Option ℕ) : Type 0 where
  pub value_of : field.Fe → ℕ
  pub value_of-from : (n : ℕ) → n < field_prime → value_of (field.from n) ≡ n
  pub from-value_of : (fe : field.Fe) → field.from (value_of fe) ≡ fe
  pub to_u64-value_of :
      (fe : field.Fe)
      → to_u64 fe ≡ (if ltb (value_of fe) (2 ^ 64) then some (value_of fe) else none)
  pub is_equal-same : (fe : field.Fe) → field.is_equal fe fe ≡ true

abbrev pub back_mode : CoreDataAvailabilityMode → DataAvailabilityMode
back_mode core_l1 = l1
back_mode core_l2 = l2

abbrev pub back_resources : CoreResourceBoundsMapping → ResourceBoundsMapping
back_resources bounds l1_gas = some bounds.l1_gas_bounds
back_resources bounds l2_gas = some bounds.l2_gas_bounds

abbrev pub back_fees : {Fe : Type 0} → CoreFeeFields Fe → FeeFields Fe
back_fees fees = record {
  tip = fees.tip;
  resource_bounds = back_resources fees.resource_bounds;
  paymaster_data = fees.paymaster_data;
  nonce_data_availability_mode = back_mode fees.nonce_data_availability_mode;
  fee_data_availability_mode = back_mode fees.fee_data_availability_mode;
}

abbrev pub with_version : {Fe : Type 0} → Fe → DeployTransaction Fe → DeployTransaction Fe
with_version version tx = record {
  version = version;
  class_hash = tx.class_hash;
  contract_address_salt = tx.contract_address_salt;
  constructor_calldata = tx.constructor_calldata;
}

abbrev pub with_l1_version : {Fe : Type 0} → Fe → L1HandlerTransaction Fe → L1HandlerTransaction Fe
with_l1_version version tx = record {
  version = version;
  nonce = tx.nonce;
  contract_address = tx.contract_address;
  entry_point_selector = tx.entry_point_selector;
  calldata = tx.calldata;
}

module _ (field : Field) (to_u64 : field.Fe → Option ℕ) (laws : NumberLaws field to_u64) where
  -- The transaction that an answer describes.
  abbrev pub read_back : CoreTransaction field.Fe → Transaction field.Fe
  read_back (core_declare_v0 tx) = declare (
      declare_v0 (record {
        sender_address = tx.sender_address;
        max_fee = laws.value_of tx.max_fee;
        signature = tx.signature;
        nonce = field.from 0;
        class_hash = tx.class_hash;
      }))
  read_back (core_declare_v1 tx) = declare (
      declare_v1 (record {
        sender_address = tx.sender_address;
        max_fee = laws.value_of tx.max_fee;
        signature = tx.signature;
        nonce = tx.nonce;
        class_hash = tx.class_hash;
      }))
  read_back (core_declare_v2 tx) = declare (
      declare_v2 (record {
        sender_address = tx.sender_address;
        max_fee = laws.value_of tx.max_fee;
        signature = tx.signature;
        nonce = tx.nonce;
        class_hash = tx.class_hash;
        compiled_class_hash = tx.compiled_class_hash;
      }))
  read_back (core_declare_v3 tx) = declare (
      declare_v3 (record {
        fees = back_fees tx.fees;
        signature = tx.signature;
        sender_address = tx.sender_address;
        nonce = tx.nonce;
        class_hash = tx.class_hash;
        compiled_class_hash = tx.compiled_class_hash;
        account_deployment_data = tx.account_deployment_data;
      }))
  read_back (core_deploy_account_v1 tx) = deploy_account (
      deploy_account_v1 (record {
        max_fee = laws.value_of tx.max_fee;
        signature = tx.signature;
        nonce = tx.nonce;
        class_hash = tx.class_hash;
        contract_address_salt = tx.contract_address_salt;
        constructor_calldata = tx.constructor_calldata;
      }))
  read_back (core_deploy_account_v3 tx) = deploy_account (
      deploy_account_v3 (record {
        fees = back_fees tx.fees;
        signature = tx.signature;
        nonce = tx.nonce;
        class_hash = tx.class_hash;
        contract_address_salt = tx.contract_address_salt;
        constructor_calldata = tx.constructor_calldata;
      }))
  read_back (core_deploy tx) = deploy (record {
    version = tx.version;
    class_hash = tx.class_hash;
    contract_address_salt = tx.contract_address_salt;
    constructor_calldata = tx.constructor_calldata;
  })
  read_back (core_invoke_v0 tx) = invoke (
      invoke_v0 (record {
        contract_address = tx.contract_address;
        entry_point_selector = tx.entry_point_selector;
        calldata = tx.calldata;
        max_fee = laws.value_of tx.max_fee;
        signature = tx.signature;
      }))
  read_back (core_invoke_v1 tx) = invoke (
      invoke_v1 (record {
        sender_address = tx.sender_address;
        calldata = tx.calldata;
        max_fee = laws.value_of tx.max_fee;
        signature = tx.signature;
        nonce = tx.nonce;
      }))
  read_back (core_invoke_v3 tx) = invoke (
      invoke_v3 (record {
        fees = back_fees tx.fees;
        signature = tx.signature;
        sender_address = tx.sender_address;
        calldata = tx.calldata;
        nonce = tx.nonce;
        account_deployment_data = tx.account_deployment_data;
      }))
  read_back (core_l1_handler tx) = l1_handler (record {
    version = tx.version;
    nonce = field.from tx.nonce;
    contract_address = tx.contract_address;
    entry_point_selector = tx.entry_point_selector;
    calldata = tx.calldata;
  })

  -- A transaction without what the conversion leaves out: the nonce of a declare transaction of version
  -- 0, and the versions of deploy and L1 handler transactions.
  abbrev pub answered : Transaction field.Fe → Transaction field.Fe
  answered (declare (declare_v0 tx)) = declare (declare_v0 (with_nonce (field.from 0) tx))
  answered (deploy tx) = deploy (with_version (field.from 0) tx)
  answered (l1_handler tx) = l1_handler (with_l1_version (field.from 0) tx)
  answered tx = tx

  -- The maximal fee is a `u128`.
  abbrev pub FeeFits : Transaction field.Fe → Type 0
  FeeFits (declare (declare_v0 tx)) = tx.max_fee < 2 ^ 128
  FeeFits (declare (declare_v1 tx)) = tx.max_fee < 2 ^ 128
  FeeFits (declare (declare_v2 tx)) = tx.max_fee < 2 ^ 128
  FeeFits (deploy_account (deploy_account_v1 tx)) = tx.max_fee < 2 ^ 128
  FeeFits (invoke (invoke_v0 tx)) = tx.max_fee < 2 ^ 128
  FeeFits (invoke (invoke_v1 tx)) = tx.max_fee < 2 ^ 128
  FeeFits tx = Unit

  -- What the hash reads of a deploy transaction that an answer does not carry.
  abbrev pub VersionIsZero : Transaction field.Fe → Type 0
  VersionIsZero (deploy tx) = tx.version ≡ field.from 0
  VersionIsZero tx = Unit

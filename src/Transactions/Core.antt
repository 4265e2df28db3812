-- ===== src/Transactions/Core.antt =====
-- The transactions of starknet-core that crates/primitives/transactions/src/to_starknet_core_transaction.rs
-- builds: the answers of the RPC server.
use deoxys.Base.{ℕ, List}
use deoxys.Transactions.Types.{ResourceBounds}

pub record CoreResourceBoundsMapping : Type 0 where
  pub l1_gas_bounds : ResourceBounds
  pub l2_gas_bounds : ResourceBounds

pub data CoreDataAvailabilityMode : Type 0 where
  core_l1 core_l2 : CoreDataAvailabilityMode

-- The fields that the transactions of version 3 share.
pub record CoreFeeFields (Fe : Type 0) : Type 0 where
  pub resource_bounds : CoreResourceBoundsMapping
  pub tip : ℕ
  pub nonce_data_availability_mode : CoreDataAvailabilityMode
  pub fee_data_availability_mode : CoreDataAvailabilityMode
  pub paymaster_data : List Fe

pub record CoreDeclareV0 (Fe : Type 0) : Type 0 where
  pub transaction_hash : Fe
  pub max_fee : Fe
  pub signature : List Fe
  pub class_hash : Fe
  pub sender_address : Fe

pub record CoreDeclareV1 (Fe : Type 0) : Type 0 where
  pub transaction_hash : Fe
  pub max_fee : Fe
  pub signature : List Fe
  pub nonce : Fe
  pub class_hash : Fe
  pub sender_address : Fe

pub record CoreDeclareV2 (Fe : Type 0) : Type 0 where
  pub transaction_hash : Fe
  pub max_fee : Fe
  pub signature : List Fe
  pub nonce : Fe
  pub class_hash : Fe
  pub sender_address : Fe
  pub compiled_class_hash : Fe

pub record CoreDeclareV3 (Fe : Type 0) : Type 0 where
  pub transaction_hash : Fe
  pub fees : CoreFeeFields Fe
  pub signature : List Fe
  pub nonce : Fe
  pub class_hash : Fe
  pub compiled_class_hash : Fe
  pub sender_address : Fe
  pub account_deployment_data : List Fe

pub record CoreDeployAccountV1 (Fe : Type 0) : Type 0 where
  pub transaction_hash : Fe
  pub max_fee : Fe
  pub signature : List Fe
  pub nonce : Fe
  pub contract_address_salt : Fe
  pub constructor_calldata : List Fe
  pub class_hash : Fe

pub record CoreDeployAccountV3 (Fe : Type 0) : Type 0 where
  pub transaction_hash : Fe
  pub fees : CoreFeeFields Fe
  pub signature : List Fe
  pub nonce : Fe
  pub class_hash : Fe
  pub contract_address_salt : Fe
  pub constructor_calldata : List Fe

pub record CoreDeploy (Fe : Type 0) : Type 0 where
  pub transaction_hash : Fe
  pub contract_address_salt : Fe
  pub constructor_calldata : List Fe
  pub class_hash : Fe
  pub version : Fe

pub record CoreInvokeV0 (Fe : Type 0) : Type 0 where
  pub transaction_hash : Fe
  pub max_fee : Fe
  pub signature : List Fe
  pub contract_address : Fe
  pub entry_point_selector : Fe
  pub calldata : List Fe

pub record CoreInvokeV1 (Fe : Type 0) : Type 0 where
  pub transaction_hash : Fe
  pub max_fee : Fe
  pub signature : List Fe
  pub nonce : Fe
  pub sender_address : Fe
  pub calldata : List Fe

pub record CoreInvokeV3 (Fe : Type 0) : Type 0 where
  pub transaction_hash : Fe
  pub fees : CoreFeeFields Fe
  pub signature : List Fe
  pub nonce : Fe
  pub sender_address : Fe
  pub calldata : List Fe
  pub account_deployment_data : List Fe

pub record CoreL1Handler (Fe : Type 0) : Type 0 where
  pub transaction_hash : Fe
  pub version : Fe
  pub nonce : ℕ
  pub contract_address : Fe
  pub entry_point_selector : Fe
  pub calldata : List Fe

pub data CoreTransaction (Fe : Type 0) : Type 0 where
  core_declare_v0 : CoreDeclareV0 Fe → CoreTransaction Fe
  core_declare_v1 : CoreDeclareV1 Fe → CoreTransaction Fe
  core_declare_v2 : CoreDeclareV2 Fe → CoreTransaction Fe
  core_declare_v3 : CoreDeclareV3 Fe → CoreTransaction Fe
  core_deploy_account_v1 : CoreDeployAccountV1 Fe → CoreTransaction Fe
  core_deploy_account_v3 : CoreDeployAccountV3 Fe → CoreTransaction Fe
  core_deploy : CoreDeploy Fe → CoreTransaction Fe
  core_invoke_v0 : CoreInvokeV0 Fe → CoreTransaction Fe
  core_invoke_v1 : CoreInvokeV1 Fe → CoreTransaction Fe
  core_invoke_v3 : CoreInvokeV3 Fe → CoreTransaction Fe
  core_l1_handler : CoreL1Handler Fe → CoreTransaction Fe

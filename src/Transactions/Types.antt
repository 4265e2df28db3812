-- ===== src/Transactions/Types.antt =====
-- The transactions that compute_hash.rs and to_starknet_core_transaction.rs of
-- crates/primitives/transactions/src read, with the fields that they read, and the field arithmetic and
-- hash functions of other crates. A `StarkFelt` and its `FieldElement` are one value.
use deoxys.Base.{ℕ, Bool, Option, List}

-- `FieldElement` of starknet-crypto, and the functions on it of starknet-core and starknet-api.
-- `from` is the conversion of an unsigned integer.
pub record Field : Type 1 where
  pub Fe : Type 0
  pub from : ℕ → Fe
  pub from_mont : ℕ → ℕ → ℕ → ℕ → Fe
  pub add : Fe → Fe → Fe
  pub is_equal : Fe → Fe → Bool
  pub from_bytes_be : List ℕ → Option Fe
  pub from_byte_slice_be : List ℕ → Option Fe
  pub compute_hash_on_elements : List Fe → Fe
  pub starknet_keccak : List ℕ → Fe
  pub calculate_contract_address : Fe → Fe → List Fe → Option Fe

pub data Resource : Type 0 where
  l1_gas l2_gas : Resource

pub record ResourceBounds : Type 0 where
  pub max_amount : ℕ
  pub max_price_per_unit : ℕ

abbrev pub ResourceBoundsMapping : Type 0
ResourceBoundsMapping = Resource → Option ResourceBounds

pub data DataAvailabilityMode : Type 0 where
  l1 l2 : DataAvailabilityMode

-- The fields that the transactions of version 3 share.
pub record FeeFields (Fe : Type 0) : Type 0 where
  pub tip : ℕ
  pub resource_bounds : ResourceBoundsMapping
  pub paymaster_data : List Fe
  pub nonce_data_availability_mode : DataAvailabilityMode
  pub fee_data_availability_mode : DataAvailabilityMode

pub record InvokeTransactionV0 (Fe : Type 0) : Type 0 where
  pub contract_address : Fe
  pub entry_point_selector : Fe
  pub calldata : List Fe
  pub max_fee : ℕ
  pub signature : List Fe

pub record InvokeTransactionV1 (Fe : Type 0) : Type 0 where
  pub sender_address : Fe
  pub calldata : List Fe
  pub max_fee : ℕ
  pub signature : List Fe
  pub nonce : Fe

pub record InvokeTransactionV3 (Fe : Type 0) : Type 0 where
  pub fees : FeeFields Fe
  pub signature : List Fe
  pub sender_address : Fe
  pub calldata : List Fe
  pub nonce : Fe
  pub account_deployment_data : List Fe

pub record DeclareTransactionV0V1 (Fe : Type 0) : Type 0 where
  pub sender_address : Fe
  pub max_fee : ℕ
  pub signature : List Fe
  pub nonce : Fe
  pub class_hash : Fe

pub record DeclareTransactionV2 (Fe : Type 0) : Type 0 where
  pub sender_address : Fe
  pub max_fee : ℕ
  pub signature : List Fe
  pub nonce : Fe
  pub class_hash : Fe
  pub compiled_class_hash : Fe

pub record DeclareTransactionV3 (Fe : Type 0) : Type 0 where
  pub fees : FeeFields Fe
  pub signature : List Fe
  pub sender_address : Fe
  pub nonce : Fe
  pub class_hash : Fe
  pub compiled_class_hash : Fe
  pub account_deployment_data : List Fe

pub record DeployAccountTransactionV1 (Fe : Type 0) : Type 0 where
  pub max_fee : ℕ
  pub signature : List Fe
  pub nonce : Fe
  pub class_hash : Fe
  pub contract_address_salt : Fe
  pub constructor_calldata : List Fe

pub record DeployAccountTransactionV3 (Fe : Type 0) : Type 0 where
  pub fees : FeeFields Fe
  pub signature : List Fe
  pub nonce : Fe
  pub class_hash : Fe
  pub contract_address_salt : Fe
  pub constructor_calldata : List Fe

pub record DeployTransaction (Fe : Type 0) : Type 0 where
  pub version : Fe
  pub class_hash : Fe
  pub contract_address_salt : Fe
  pub constructor_calldata : List Fe

pub record L1HandlerTransaction (Fe : Type 0) : Type 0 where
  pub version : Fe
  pub nonce : Fe
  pub contract_address : Fe
  pub entry_point_selector : Fe
  pub calldata : List Fe

pub data InvokeTransaction (Fe : Type 0) : Type 0 where
  invoke_v0 : InvokeTransactionV0 Fe → InvokeTransaction Fe
  invoke_v1 : InvokeTransactionV1 Fe → InvokeTransaction Fe
  invoke_v3 : InvokeTransactionV3 Fe → InvokeTransaction Fe

pub data DeclareTransaction (Fe : Type 0) : Type 0 where
  declare_v0 : DeclareTransactionV0V1 Fe → DeclareTransaction Fe
  declare_v1 : DeclareTransactionV0V1 Fe → DeclareTransaction Fe
  declare_v2 : DeclareTransactionV2 Fe → DeclareTransaction Fe
  declare_v3 : DeclareTransactionV3 Fe → DeclareTransaction Fe

pub data DeployAccountTransaction (Fe : Type 0) : Type 0 where
  deploy_account_v1 : DeployAccountTransactionV1 Fe → DeployAccountTransaction Fe
  deploy_account_v3 : DeployAccountTransactionV3 Fe → DeployAccountTransaction Fe

pub data Transaction (Fe : Type 0) : Type 0 where
  declare : DeclareTransaction Fe → Transaction Fe
  deploy : DeployTransaction Fe → Transaction Fe
  deploy_account : DeployAccountTransaction Fe → Transaction Fe
  invoke : InvokeTransaction Fe → Transaction Fe
  l1_handler : L1HandlerTransaction Fe → Transaction Fe

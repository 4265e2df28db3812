-- ===== src/Transactions/Declare.antt =====
-- The hashes of declare transactions: crates/primitives/transactions/src/compute_hash.rs.
use deoxys.Base.{Bool, Option, some, List, [], ◌∷◌, if◌then◌else◌}
use deoxys.Base.Opt.{◌>>=◌}
use deoxys.Transactions.Types.{
  Field, DeclareTransactionV0V1, DeclareTransactionV2, DeclareTransactionV3, DeclareTransaction,
  declare_v0, declare_v1, declare_v2, declare_v3,
}
use deoxys.Transactions.Hashing.{
  declare_prefix, offset, offset_zero, gas_hash, modes, paymaster_hash,
}

module _ (field : Field) (hash : List field.Fe → field.Fe) where
  -- One implementation for the versions 0 and 1, which looks at the offset alone.
  unfoldable pub hash_declare_v0_v1 :
      DeclareTransactionV0V1 field.Fe → field.Fe → Bool → Option field.Fe
  hash_declare_v0_v1 tx chain_id offset_version = do
    prefix ← field.from_byte_slice_be declare_prefix
    let version = offset_zero field offset_version
    let nonce_or_class_hash =
        if field.is_equal version (field.from 0) then tx.class_hash else tx.nonce
    let class_or_nothing_hash =
        if field.is_equal version (field.from 0)
        then field.compute_hash_on_elements []
        else field.compute_hash_on_elements (tx.class_hash ∷ [])
    some (
        hash (
          prefix
          ∷ version
          ∷ tx.sender_address
          ∷ field.from 0
          ∷ class_or_nothing_hash
          ∷ field.from tx.max_fee
          ∷ chain_id
          ∷ nonce_or_class_hash
          ∷ []))

  unfoldable pub hash_declare_v2 : DeclareTransactionV2 field.Fe → field.Fe → Bool → Option field.Fe
  hash_declare_v2 tx chain_id offset_version = do
    prefix ← field.from_byte_slice_be declare_prefix
    some (
        hash (
          prefix
          ∷ offset field offset_version 2
          ∷ tx.sender_address
          ∷ field.from 0
          ∷ field.compute_hash_on_elements (tx.class_hash ∷ [])
          ∷ field.from tx.max_fee
          ∷ chain_id
          ∷ tx.nonce
          ∷ tx.compiled_class_hash
          ∷ []))

  unfoldable pub hash_declare_v3 : DeclareTransactionV3 field.Fe → field.Fe → Bool → Option field.Fe
  hash_declare_v3 tx chain_id offset_version = do
    prefix ← field.from_byte_slice_be declare_prefix
    gas ← gas_hash field tx.fees
    data_availability_modes ← modes field tx.fees
    some (
        hash (
          prefix
          ∷ offset field offset_version 3
          ∷ tx.sender_address
          ∷ gas
          ∷ paymaster_hash field tx.fees
          ∷ chain_id
          ∷ tx.nonce
          ∷ data_availability_modes
          ∷ field.compute_hash_on_elements tx.account_deployment_data
          ∷ tx.class_hash
          ∷ tx.compiled_class_hash
          ∷ []))

  unfoldable pub hash_declare : DeclareTransaction field.Fe → field.Fe → Bool → Option field.Fe
  hash_declare (declare_v0 tx) chain_id offset_version =
      hash_declare_v0_v1 tx chain_id offset_version
  hash_declare (declare_v1 tx) chain_id offset_version =
      hash_declare_v0_v1 tx chain_id offset_version
  hash_declare (declare_v2 tx) chain_id offset_version = hash_declare_v2 tx chain_id offset_version
  hash_declare (declare_v3 tx) chain_id offset_version = hash_declare_v3 tx chain_id offset_version

-- ===== src/Transactions/NoPanic.antt =====
-- Hashing never panics: crates/primitives/transactions/src/compute_hash.rs.
use deoxys.Base.{ℕ, ◌≡◌, ◌<◌, length, refl, Bool, Option, none, some, List, arith}
use deoxys.Base.Opt.{◌>>=◌}
use deoxys.Transactions.Types.{
  Field, l1_gas, l2_gas, FeeFields, Transaction, declare, deploy, deploy_account, invoke,
  l1_handler, invoke_v0, invoke_v1, invoke_v3, declare_v0, declare_v1, declare_v2, declare_v3,
  deploy_account_v1, deploy_account_v3,
}
use deoxys.Transactions.Hashing.{
  declare_prefix, deploy_account_prefix, deploy_prefix, invoke_prefix, l1_handler_prefix, gas_hash,
  modes,
}
use deoxys.Transactions.Invoke.{hash_invoke, hash_invoke_v0, hash_invoke_v1, hash_invoke_v3}
use deoxys.Transactions.Declare.{hash_declare, hash_declare_v0_v1, hash_declare_v2, hash_declare_v3}
use deoxys.Transactions.Deploy.{
  hash_deploy, hash_deploy_account, hash_deploy_account_v1, hash_deploy_account_v3,
  compute_hash_given_contract_address, hash_l1_handler,
}
use deoxys.Transactions.ComputeHash.{compute_hash}
use deoxys.Transactions.Bounds.{
  FieldLaws, FitsIn, prepare_resource_bound_value_packs, prepare_data_availability_modes_packs,
}

-- The bounds of a transaction's resources are machine integers.
abbrev pub FeesFit : {Fe : Type 0} → FeeFields Fe → Type 0
FeesFit fees = FitsIn (fees.resource_bounds l1_gas) × FitsIn (fees.resource_bounds l2_gas)

abbrev pub Fits : {Fe : Type 0} → Transaction Fe → Type 0
Fits (invoke (invoke_v3 tx)) = FeesFit tx.fees
Fits (declare (declare_v3 tx)) = FeesFit tx.fees
Fits (deploy_account (deploy_account_v3 tx)) = FeesFit tx.fees
Fits tx = Unit

abbrev pub Returns : {A : Type 0} → Option A → Type 0
Returns {A = A} o = (a : A) × (o ≡ some a)

-- A chain returns if its first step does and the rest does after it.
pub >>=-Returns :
    {A B : Type 0} (m : Option A) (f : A → Option B)
    → Returns m
    → ((a : A) → Returns (f a))
    → Returns (m >>= f)
>>=-Returns (some a) f h k = k a
>>=-Returns none f h k = cc (h.1)

module _ (field : Field) (laws : FieldLaws field) where
  gas_hash-Returns : (fees : FeeFields field.Fe) → FeesFit fees → Returns (gas_hash field fees)
  gas_hash-Returns fees fits =
      let first =
        prepare_resource_bound_value_packs field laws fees.resource_bounds l1_gas fits.0 in
      let second =
        prepare_resource_bound_value_packs field laws fees.resource_bounds l2_gas fits.1 in
      >>=-Returns _ _ (first.0, first.1)
        (λ l1_bound. >>=-Returns _ _ (second.0, second.1) (λ l2_bound. (_, refl)))

  modes-Returns : (fees : FeeFields field.Fe) → Returns (modes field fees)
  modes-Returns fees =
      let packed =
        prepare_data_availability_modes_packs field laws fees.nonce_data_availability_mode
          fees.fee_data_availability_mode in
      (packed.0, packed.1)

  prefix-Returns : (bs : List ℕ) → length bs < 32 → Returns (field.from_byte_slice_be bs)
  prefix-Returns bs short = let read = laws.from_byte_slice_be-value bs short in (read.0, read.1)

  module _ (hash : List field.Fe → field.Fe) (chain_id : field.Fe)
      (addressed : (salt class_hash : field.Fe) (calldata : List field.Fe)
        → Returns (field.calculate_contract_address salt class_hash calldata)) where
    -- Where starknet-api gives every deployment an address, the hash of every transaction whose bounds are
    -- machine integers is computed: none of the conversions panics.
    pub compute_hash-Returns :
        (tx : Transaction field.Fe) (offset_version : Bool) (block_number : Option ℕ)
        → Fits tx
        → Returns (compute_hash field hash tx chain_id offset_version block_number)
    unfolding compute_hash hash_invoke hash_invoke_v0 hash_invoke_v1 hash_invoke_v3 hash_declare
        hash_declare_v0_v1 hash_declare_v2 hash_declare_v3 hash_deploy hash_deploy_account
        hash_deploy_account_v1 hash_deploy_account_v3 compute_hash_given_contract_address
        hash_l1_handler
    compute_hash-Returns (invoke (invoke_v0 tx)) q n fits =
        >>=-Returns _ _ (prefix-Returns invoke_prefix (omega arith)) (λ prefix. (_, refl))
    compute_hash-Returns (invoke (invoke_v1 tx)) q n fits =
        >>=-Returns _ _ (prefix-Returns invoke_prefix (omega arith)) (λ prefix. (_, refl))
    compute_hash-Returns (invoke (invoke_v3 tx)) q n fits =
        >>=-Returns _ _ (prefix-Returns invoke_prefix (omega arith)) (λ prefix.
          >>=-Returns _ _ (gas_hash-Returns tx.fees fits)
            (λ gas. >>=-Returns _ _ (modes-Returns tx.fees) (λ modes. (_, refl))))
    compute_hash-Returns (declare (declare_v0 tx)) q n fits =
        >>=-Returns _ _ (prefix-Returns declare_prefix (omega arith)) (λ prefix. (_, refl))
    compute_hash-Returns (declare (declare_v1 tx)) q n fits =
        >>=-Returns _ _ (prefix-Returns declare_prefix (omega arith)) (λ prefix. (_, refl))
    compute_hash-Returns (declare (declare_v2 tx)) q n fits =
        >>=-Returns _ _ (prefix-Returns declare_prefix (omega arith)) (λ prefix. (_, refl))
    compute_hash-Returns (declare (declare_v3 tx)) q n fits =
        >>=-Returns _ _ (prefix-Returns declare_prefix (omega arith)) (λ prefix.
          >>=-Returns _ _ (gas_hash-Returns tx.fees fits)
            (λ gas. >>=-Returns _ _ (modes-Returns tx.fees) (λ modes. (_, refl))))
    compute_hash-Returns (deploy_account (deploy_account_v1 tx)) q n fits =
        >>=-Returns _ _ (addressed tx.contract_address_salt tx.class_hash tx.constructor_calldata)
          (λ address.
            >>=-Returns _ _ (prefix-Returns deploy_account_prefix (omega arith))
              (λ prefix. (_, refl)))
    compute_hash-Returns (deploy_account (deploy_account_v3 tx)) q n fits =
        >>=-Returns _ _ (prefix-Returns deploy_account_prefix (omega arith)) (λ prefix.
          >>=-Returns _ _ (addressed tx.contract_address_salt tx.class_hash tx.constructor_calldata)
            (λ address.
              >>=-Returns _ _ (gas_hash-Returns tx.fees fits)
                (λ gas. >>=-Returns _ _ (modes-Returns tx.fees) (λ modes. (_, refl)))))
    compute_hash-Returns (deploy tx) q n fits =
        >>=-Returns _ _ (addressed tx.contract_address_salt tx.class_hash tx.constructor_calldata)
          (λ address.
            >>=-Returns _ _ (prefix-Returns deploy_prefix (omega arith)) (λ prefix. (_, refl)))
    compute_hash-Returns (l1_handler tx) q n fits =
        >>=-Returns _ _ (prefix-Returns l1_handler_prefix (omega arith)) (λ prefix.
          >>=-Returns _ _ (prefix-Returns invoke_prefix (omega arith)) (λ old_prefix. (_, refl)))

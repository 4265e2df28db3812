-- ===== src/Transactions/Relay.antt =====
-- What a user sends is what the RPC server answers: from_broadcasted_transactions.rs with
-- to_starknet_core_transaction.rs of crates/primitives/transactions/src.
use mathlib.Core.Option.{some-injective}
use deoxys.Base.{ℕ, ◌≡◌, refl, sym, ap, ◌∙◌, false, Option, none, some, List}
use deoxys.Base.Opt.{>>=-eq-some}
use deoxys.Base.Outcome.{Result, ok, ok_or}
use deoxys.Transactions.Types.{
  Field, InvokeTransaction, DeployAccountTransaction, deploy_account, invoke,
}
use deoxys.Transactions.Core.{
  CoreDataAvailabilityMode, core_l1, core_l2, CoreFeeFields, CoreTransaction, core_invoke_v1,
  core_invoke_v3, core_deploy_account_v1, core_deploy_account_v3,
}
use deoxys.Transactions.ComputeHash.{compute_hash}
use deoxys.Transactions.ToCore.{
  api_resources_to_core_ressources, api_da_to_core_da, core_fees, core_invoke, core_deploy_account,
  to_starknet_core_tx,
}
use deoxys.Transactions.Broadcast.{
  BroadcastedTransactionConversionError, max_fee_too_big, AccountTransaction, account_invoke,
  account_deploy_account, BroadcastedInvoke, broadcasted_invoke_v1, broadcasted_invoke_v3,
  BroadcastedDeployAccount, broadcasted_deploy_account_v1, broadcasted_deploy_account_v3,
  core_da_to_api_da, core_resources_to_api_resources, api_fees, unwrap, max_fee_of,
  invoke_transaction, invoke_to_account_transaction, deploy_account_transaction, account_address,
  deploy_account_to_account_transaction,
}

-- The documented behaviour of the conversion to a `u128`: it keeps the value.
pub record IsLossless (field : Field) (to_u128 : field.Fe → Option ℕ) : Type 0 where
  pub from-to_u128 : (fe : field.Fe) (n : ℕ) → to_u128 fe ≡ some n → field.from n ≡ fe

mode-core :
    (mode : CoreDataAvailabilityMode) → api_da_to_core_da (core_da_to_api_da mode) ≡ some mode
unfolding api_da_to_core_da core_da_to_api_da
mode-core core_l1 = refl
mode-core core_l2 = refl

-- The fee fields that are sent are those that are answered.
core_fees-api_fees : {Fe : Type 0} (fees : CoreFeeFields Fe) → core_fees (api_fees fees) ≡ some fees
unfolding core_fees api_fees api_resources_to_core_ressources core_resources_to_api_resources
core_fees-api_fees fees =
    rw (mode-core fees.nonce_data_availability_mode)
      (rw (mode-core fees.fee_data_availability_mode))

unwrapped : (m : Option ℕ) {n : ℕ} → unwrap (ok_or m max_fee_too_big) ≡ some n → m ≡ some n
unwrapped none done = cc
unwrapped (some k) done = done

same_invoke :
    {Fe : Type 0} {t u : InvokeTransaction Fe} {h k : Fe}
    → ◌≡◌ {A = Option (Result BroadcastedTransactionConversionError (AccountTransaction Fe))}
        (some (ok (account_invoke t h)))
        (some (ok (account_invoke u k)))
    → some t ≡ some u
same_invoke done = cc

same_deploy_account :
    {Fe : Type 0} {t u : DeployAccountTransaction Fe} {h k a b : Fe}
    → ◌≡◌ {A = Option (Result BroadcastedTransactionConversionError (AccountTransaction Fe))}
        (some (ok (account_deploy_account t h a)))
        (some (ok (account_deploy_account u k b)))
    → some t ≡ some u
same_deploy_account done = cc

abbrev pub sent_invoke : {Fe : Type 0} → BroadcastedInvoke Fe → Fe → CoreTransaction Fe
sent_invoke (broadcasted_invoke_v1 tx) transaction_hash = core_invoke_v1 (record {
  transaction_hash = transaction_hash;
  max_fee = tx.max_fee;
  signature = tx.signature;
  nonce = tx.nonce;
  sender_address = tx.sender_address;
  calldata = tx.calldata;
})
sent_invoke (broadcasted_invoke_v3 tx) transaction_hash = core_invoke_v3 (record {
  transaction_hash = transaction_hash;
  fees = tx.fees;
  signature = tx.signature;
  nonce = tx.nonce;
  sender_address = tx.sender_address;
  calldata = tx.calldata;
  account_deployment_data = tx.account_deployment_data;
})

abbrev pub sent_deploy_account :
    {Fe : Type 0} → BroadcastedDeployAccount Fe → Fe → CoreTransaction Fe
sent_deploy_account (broadcasted_deploy_account_v1 tx) transaction_hash =
    core_deploy_account_v1 (record {
      transaction_hash = transaction_hash;
      max_fee = tx.max_fee;
      signature = tx.signature;
      nonce = tx.nonce;
      contract_address_salt = tx.contract_address_salt;
      constructor_calldata = tx.constructor_calldata;
      class_hash = tx.class_hash;
    })
sent_deploy_account (broadcasted_deploy_account_v3 tx) transaction_hash =
    core_deploy_account_v3 (record {
      transaction_hash = transaction_hash;
      fees = tx.fees;
      signature = tx.signature;
      nonce = tx.nonce;
      class_hash = tx.class_hash;
      contract_address_salt = tx.contract_address_salt;
      constructor_calldata = tx.constructor_calldata;
    })

module _ (field : Field) (hash : List field.Fe → field.Fe) (to_u64 to_u128 : field.Fe → Option ℕ)
    (laws : IsLossless field to_u128) where
  max_fee-kept :
      (fe : field.Fe) (n : ℕ) → max_fee_of field hash to_u128 fe ≡ some n → field.from n ≡ fe
  unfolding max_fee_of
  max_fee-kept fe n done = laws.from-to_u128 fe n (unwrapped (to_u128 fe) done)

  core_invoke-sent :
      (tx : BroadcastedInvoke field.Fe) (transaction_hash : field.Fe)
      {built : InvokeTransaction field.Fe}
      → invoke_transaction field hash to_u128 tx ≡ some built
      → core_invoke field to_u64 built transaction_hash ≡ some (sent_invoke tx transaction_hash)
  unfolding invoke_transaction core_invoke
  core_invoke-sent (broadcasted_invoke_v1 tx) h {built} done =
      let fee = >>=-eq-some (max_fee_of field hash to_u128 tx.max_fee) _ done in
      ap (λ t. core_invoke field to_u64 t h) (sym (some-injective _ built (fee.2)))
      ∙ rw (max_fee-kept tx.max_fee (fee.0) (fee.1))
  core_invoke-sent (broadcasted_invoke_v3 tx) h {built} done =
      ap (λ t. core_invoke field to_u64 t h) (sym (some-injective _ built done))
      ∙ rw (core_fees-api_fees tx.fees)

  core_deploy_account-sent :
      (tx : BroadcastedDeployAccount field.Fe) (transaction_hash : field.Fe)
      {built : DeployAccountTransaction field.Fe}
      → deploy_account_transaction field hash to_u128 tx ≡ some built
      → core_deploy_account field to_u64 built transaction_hash
        ≡ some (sent_deploy_account tx transaction_hash)
  unfolding deploy_account_transaction core_deploy_account
  core_deploy_account-sent (broadcasted_deploy_account_v1 tx) h {built} done =
      let fee = >>=-eq-some (max_fee_of field hash to_u128 tx.max_fee) _ done in
      ap (λ t. core_deploy_account field to_u64 t h) (sym (some-injective _ built (fee.2)))
      ∙ rw (max_fee-kept tx.max_fee (fee.0) (fee.1))
  core_deploy_account-sent (broadcasted_deploy_account_v3 tx) h {built} done =
      ap (λ t. core_deploy_account field to_u64 t h) (sym (some-injective _ built done))
      ∙ rw (core_fees-api_fees tx.fees)

  -- The answer for an invoke transaction that was accepted has the fields that the user sent.
  pub invoke_to_account_transaction-relayed :
      (tx : BroadcastedInvoke field.Fe) (transaction_hash : field.Fe)
      (accepted : InvokeTransaction field.Fe) (tx_hash : field.Fe)
      → invoke_to_account_transaction field hash to_u128 tx
        ≡ some (ok (account_invoke accepted tx_hash))
      → to_starknet_core_tx field to_u64 (invoke accepted) transaction_hash
        ≡ some (sent_invoke tx transaction_hash)
  unfolding to_starknet_core_tx invoke_to_account_transaction
  invoke_to_account_transaction-relayed tx transaction_hash accepted tx_hash done =
      let built = >>=-eq-some (invoke_transaction field hash to_u128 tx) _ done in
      let hashed =
        >>=-eq-some (compute_hash field hash (invoke (built.0)) (field.from 0) false none) _
          (built.2) in
      core_invoke-sent tx transaction_hash (built.1 ∙ same_invoke (hashed.2))

  -- The answer for a deploy account transaction that was accepted has the fields that the user sent.
  pub deploy_account_to_account_transaction-relayed :
      (tx : BroadcastedDeployAccount field.Fe) (transaction_hash : field.Fe)
      (accepted : DeployAccountTransaction field.Fe) (tx_hash contract_address : field.Fe)
      → deploy_account_to_account_transaction field hash to_u128 tx
        ≡ some (ok (account_deploy_account accepted tx_hash contract_address))
      → to_starknet_core_tx field to_u64 (deploy_account accepted) transaction_hash
        ≡ some (sent_deploy_account tx transaction_hash)
  unfolding to_starknet_core_tx deploy_account_to_account_transaction
  deploy_account_to_account_transaction-relayed tx transaction_hash accepted tx_hash
        contract_address done =
      let built = >>=-eq-some (deploy_account_transaction field hash to_u128 tx) _ done in
      let hashed =
        >>=-eq-some (compute_hash field hash (deploy_account (built.0)) (field.from 0) false none) _
          (built.2) in
      let addressed = >>=-eq-some (account_address field hash to_u128 tx) _ (hashed.2) in
      core_deploy_account-sent tx transaction_hash (built.1 ∙ same_deploy_account (addressed.2))

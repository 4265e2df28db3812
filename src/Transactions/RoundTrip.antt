-- ===== src/Transactions/RoundTrip.antt =====
-- What the answers of crates/primitives/transactions/src/to_starknet_core_transaction.rs keep of the
-- transaction.
use mathlib.Core.Option.{some-injective}
use std.Path.{fun_ext}
use deoxys.Base.{
  ℕ, ◌≡◌, ◌<◌, ◌^◌, refl, sym, ap, ◌∙◌, Bool, true, false, Option, none, some, List, ltb,
  if◌then◌else◌, arith,
}
use deoxys.Base.Opt.{>>=-eq-some}
use deoxys.Transactions.Types.{
  Field, Resource, l1_gas, l2_gas, ResourceBoundsMapping, DataAvailabilityMode, l1, l2, FeeFields,
  Transaction, declare, deploy, deploy_account, invoke, l1_handler, invoke_v0, invoke_v1, invoke_v3,
  declare_v0, declare_v1, declare_v2, declare_v3, deploy_account_v1, deploy_account_v3,
}
use deoxys.Transactions.Core.{
  CoreResourceBoundsMapping, CoreDataAvailabilityMode, CoreFeeFields, CoreTransaction, core_l1,
  core_l2,
}
use deoxys.Transactions.ToCore.{
  api_resources_to_core_ressources, api_da_to_core_da, core_fees, core_declare, core_deploy_account,
  core_deployed, core_invoke, core_l1_handled, to_starknet_core_tx,
}
use deoxys.Transactions.Deploy.{hash_l1_handler}
use deoxys.Transactions.Declare.{hash_declare, hash_declare_v0_v1}
use deoxys.Transactions.ComputeHash.{compute_hash}
use deoxys.Transactions.ReadBack.{
  NumberLaws, back_mode, back_resources, back_fees, with_version, read_back, answered, FeeFits,
  VersionIsZero,
}

mode-back :
    (mode : DataAvailabilityMode) {k : CoreDataAvailabilityMode}
    → api_da_to_core_da mode ≡ some k
    → back_mode k ≡ mode
unfolding api_da_to_core_da
mode-back l1 {k} done = ap back_mode (sym (some-injective core_l1 k done))
mode-back l2 {k} done = ap back_mode (sym (some-injective core_l2 k done))

resources-back :
    (resource : ResourceBoundsMapping) {bounds : CoreResourceBoundsMapping}
    → api_resources_to_core_ressources resource ≡ some bounds
    → (r : Resource) → back_resources bounds r ≡ resource r
unfolding api_resources_to_core_ressources
resources-back resource {bounds} done l1_gas =
    let first = >>=-eq-some (resource l1_gas) _ done in
    let second = >>=-eq-some (resource l2_gas) _ (first.2) in
    ap (λ b. some (b.l1_gas_bounds)) (sym (some-injective _ bounds (second.2))) ∙ sym (first.1)
resources-back resource {bounds} done l2_gas =
    let first = >>=-eq-some (resource l1_gas) _ done in
    let second = >>=-eq-some (resource l2_gas) _ (first.2) in
    ap (λ b. some (b.l2_gas_bounds)) (sym (some-injective _ bounds (second.2))) ∙ sym (second.1)

fees-back :
    {Fe : Type 0} (fees : FeeFields Fe) {answer : CoreFeeFields Fe}
    → core_fees fees ≡ some answer
    → back_fees answer ≡ fees
unfolding core_fees
fees-back fees {answer} done =
    let resources = >>=-eq-some (api_resources_to_core_ressources fees.resource_bounds) _ done in
    let nonce_mode =
      >>=-eq-some (api_da_to_core_da fees.nonce_data_availability_mode) _ resources.2 in
    let fee_mode = >>=-eq-some (api_da_to_core_da fees.fee_data_availability_mode) _ nonce_mode.2 in
    let bounds = fun_ext (resources-back fees.resource_bounds (resources.1)) in
    let nonce_back = mode-back fees.nonce_data_availability_mode (nonce_mode.1) in
    let fee_back = mode-back fees.fee_data_availability_mode (fee_mode.1) in
    ap back_fees (sym (some-injective _ answer (fee_mode.2))) ∙ (λ i. record {
      tip = fees.tip;
      resource_bounds = bounds i;
      paymaster_data = fees.paymaster_data;
      nonce_data_availability_mode = nonce_back i;
      fee_data_availability_mode = fee_back i;
    })

-- A guarded value that is there is the value.
tested-value : (b : Bool) {m n : ℕ} → (if b then some m else none) ≡ some n → n ≡ m
tested-value true {m} {n} done = sym (some-injective m n done)
tested-value false done = cc

module _ (field : Field) (to_u64 : field.Fe → Option ℕ) (laws : NumberLaws field to_u64) where
  fee-back : (n : ℕ) → n < 2 ^ 128 → laws.value_of (field.from n) ≡ n
  fee-back n fits = laws.value_of-from n (omega arith)

  built-back :
      {built : CoreTransaction field.Fe} {answer : CoreTransaction field.Fe}
      {tx : Transaction field.Fe}
      → some built ≡ some answer
      → read_back field to_u64 laws built ≡ tx
      → read_back field to_u64 laws answer ≡ tx
  built-back {built} {answer} done back =
      ap (read_back field to_u64 laws) (sym (some-injective built answer done)) ∙ back

  -- A nonce that fits in a `u64` is read back as itself.
  nonce-back : (fe : field.Fe) {n : ℕ} → to_u64 fe ≡ some n → field.from n ≡ fe
  nonce-back fe done =
      ap field.from
        (tested-value (ltb (laws.value_of fe) (2 ^ 64)) (sym (laws.to_u64-value_of fe) ∙ done))
      ∙ laws.from-value_of fe

  -- Where the maximal fee is a `u128`, the transaction that is read from an answer is the converted one,
  -- but for the nonce of a declare transaction of version 0 and the versions of deploy and L1 handler
  -- transactions, which are zero.
  pub to_starknet_core_tx-read_back :
      (tx : Transaction field.Fe) (transaction_hash : field.Fe) (answer : CoreTransaction field.Fe)
      → FeeFits field to_u64 laws tx
      → to_starknet_core_tx field to_u64 tx transaction_hash ≡ some answer
      → read_back field to_u64 laws answer ≡ answered field to_u64 laws tx
  unfolding to_starknet_core_tx core_declare core_deploy_account core_deployed core_invoke
      core_l1_handled
  to_starknet_core_tx-read_back (declare (declare_v0 tx)) h answer fits done =
      built-back done (rw (fee-back tx.max_fee fits))
  to_starknet_core_tx-read_back (declare (declare_v1 tx)) h answer fits done =
      built-back done (rw (fee-back tx.max_fee fits))
  to_starknet_core_tx-read_back (declare (declare_v2 tx)) h answer fits done =
      built-back done (rw (fee-back tx.max_fee fits))
  to_starknet_core_tx-read_back (declare (declare_v3 tx)) h answer fits done =
      let fees = >>=-eq-some (core_fees tx.fees) _ done in
      built-back (fees.2) (rw (fees-back tx.fees (fees.1)))
  to_starknet_core_tx-read_back (deploy_account (deploy_account_v1 tx)) h answer fits done =
      built-back done (rw (fee-back tx.max_fee fits))
  to_starknet_core_tx-read_back (deploy_account (deploy_account_v3 tx)) h answer fits done =
      let fees = >>=-eq-some (core_fees tx.fees) _ done in
      built-back (fees.2) (rw (fees-back tx.fees (fees.1)))
  to_starknet_core_tx-read_back (deploy tx) h answer fits done = built-back done refl
  to_starknet_core_tx-read_back (invoke (invoke_v0 tx)) h answer fits done =
      built-back done (rw (fee-back tx.max_fee fits))
  to_starknet_core_tx-read_back (invoke (invoke_v1 tx)) h answer fits done =
      built-back done (rw (fee-back tx.max_fee fits))
  to_starknet_core_tx-read_back (invoke (invoke_v3 tx)) h answer fits done =
      let fees = >>=-eq-some (core_fees tx.fees) _ done in
      built-back (fees.2) (rw (fees-back tx.fees (fees.1)))
  to_starknet_core_tx-read_back (l1_handler tx) h answer fits done =
      let nonce = >>=-eq-some (to_u64 tx.nonce) _ done in
      built-back (nonce.2) (rw (nonce-back tx.nonce (nonce.1)))

  module _ (hash : List field.Fe → field.Fe) (chain_id : field.Fe) (block_number : Option ℕ) where
    compute_hash-answered :
        (tx : Transaction field.Fe)
        → VersionIsZero field to_u64 laws tx
        → compute_hash field hash (answered field to_u64 laws tx) chain_id false block_number
          ≡ compute_hash field hash tx chain_id false block_number
    unfolding compute_hash hash_declare hash_declare_v0_v1 hash_l1_handler
    compute_hash-answered (declare (declare_v0 tx)) zero_version =
        rw (laws.is_equal-same (field.from 0))
    compute_hash-answered (declare (declare_v1 tx)) zero_version = refl
    compute_hash-answered (declare (declare_v2 tx)) zero_version = refl
    compute_hash-answered (declare (declare_v3 tx)) zero_version = refl
    compute_hash-answered (deploy tx) zero_version =
        ap
          (λ version.
            compute_hash field hash (deploy (with_version version tx)) chain_id false block_number)
          (sym zero_version)
    compute_hash-answered (deploy_account tx) zero_version = refl
    compute_hash-answered (invoke tx) zero_version = refl
    compute_hash-answered (l1_handler tx) zero_version = refl

    -- The hash of a transaction can be computed from the answer: where the maximal fee is a `u128` and a
    -- deploy transaction has version 0, the transaction that is read from the answer has, without the
    -- version offset, the hash of the converted transaction.
    pub compute_hash-read_back :
        (tx : Transaction field.Fe) (transaction_hash : field.Fe)
        (answer : CoreTransaction field.Fe)
        → FeeFits field to_u64 laws tx
        → VersionIsZero field to_u64 laws tx
        → to_starknet_core_tx field to_u64 tx transaction_hash ≡ some answer
        → compute_hash field hash (read_back field to_u64 laws answer) chain_id false block_number
          ≡ compute_hash field hash tx chain_id false block_number
    compute_hash-read_back tx transaction_hash answer fits zero_version done =
        ap (λ t. compute_hash field hash t chain_id false block_number)
          (to_starknet_core_tx-read_back tx transaction_hash answer fits done)
        ∙ compute_hash-answered tx zero_version

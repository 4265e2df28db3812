-- ===== src/Transactions/Answers.antt =====
-- When crates/primitives/transactions/src/to_starknet_core_transaction.rs answers.
use deoxys.Base.{
  ℕ, ◌≡◌, ◌<◌, ◌^◌, refl, sym, ◌∙◌, Bool, true, false, Option, none, some, ltb, if◌then◌else◌,
}
use deoxys.Base.Opt.{◌>>=◌, >>=-eq-some}
use deoxys.Transactions.Types.{
  Field, l1_gas, l2_gas, DataAvailabilityMode, l1, l2, FeeFields, Transaction, declare, deploy,
  deploy_account, invoke, l1_handler, invoke_v0, invoke_v1, invoke_v3, declare_v0, declare_v1,
  declare_v2, declare_v3, deploy_account_v1, deploy_account_v3,
}
use deoxys.Transactions.Core.{core_l1, core_l2}
use deoxys.Transactions.ToCore.{
  api_resources_to_core_ressources, api_da_to_core_da, core_fees, core_declare, core_deploy_account,
  core_invoke, core_l1_handled, to_starknet_core_tx,
}
use deoxys.Transactions.NoPanic.{Returns, >>=-Returns}
use deoxys.Transactions.ReadBack.{NumberLaws}
use deoxys.Base.{◌↔◌, ltb→lt, lt→ltb}

-- Both resources have bounds.
abbrev pub HasBounds : {Fe : Type 0} → FeeFields Fe → Type 0
HasBounds fees = Returns (fees.resource_bounds l1_gas) × Returns (fees.resource_bounds l2_gas)

mode-Returns : (mode : DataAvailabilityMode) → Returns (api_da_to_core_da mode)
unfolding api_da_to_core_da
mode-Returns l1 = (core_l1, refl)
mode-Returns l2 = (core_l2, refl)

fees-Returns : {Fe : Type 0} (fees : FeeFields Fe) → HasBounds fees → Returns (core_fees fees)
unfolding core_fees api_resources_to_core_ressources
fees-Returns fees has =
    >>=-Returns _ _ (>>=-Returns _ _ (has.0) (λ b. >>=-Returns _ _ (has.1) (λ c. (_, refl))))
      (λ resources.
        >>=-Returns _ _ (mode-Returns fees.nonce_data_availability_mode)
          (λ m. >>=-Returns _ _ (mode-Returns fees.fee_data_availability_mode) (λ n. (_, refl))))

fees-HasBounds : {Fe : Type 0} (fees : FeeFields Fe) → Returns (core_fees fees) → HasBounds fees
unfolding core_fees api_resources_to_core_ressources
fees-HasBounds fees done =
    let resources =
      >>=-eq-some (api_resources_to_core_ressources fees.resource_bounds) _ (done.1) in
    let first = >>=-eq-some (fees.resource_bounds l1_gas) _ (resources.1) in
    let second = >>=-eq-some (fees.resource_bounds l2_gas) _ (first.2) in
    ((first.0, first.1), (second.0, second.1))

tested-true : (b : Bool) (m : ℕ) {n : ℕ} → (if b then some m else none) ≡ some n → b ≡ true
tested-true true m done = refl
tested-true false m done = cc

module _ (field : Field) (to_u64 : field.Fe → Option ℕ) (laws : NumberLaws field to_u64) where
  -- What the conversion needs: bounds of both resources, and a nonce of an L1 handler transaction that
  -- fits in a `u64`.
  abbrev pub IsAnswerable : Transaction field.Fe → Type 0
  IsAnswerable (declare (declare_v3 tx)) = HasBounds tx.fees
  IsAnswerable (deploy_account (deploy_account_v3 tx)) = HasBounds tx.fees
  IsAnswerable (invoke (invoke_v3 tx)) = HasBounds tx.fees
  IsAnswerable (l1_handler tx) = laws.value_of tx.nonce < 2 ^ 64
  IsAnswerable tx = Unit

  nonce-Returns : (fe : field.Fe) → laws.value_of fe < 2 ^ 64 → Returns (to_u64 fe)
  nonce-Returns fe fits =
      (laws.value_of fe, laws.to_u64-value_of fe ∙ rw (lt→ltb (laws.value_of fe) (2 ^ 64) fits))

  nonce-fits : (fe : field.Fe) → Returns (to_u64 fe) → laws.value_of fe < 2 ^ 64
  nonce-fits fe returned =
      ltb→lt (laws.value_of fe) (2 ^ 64) (
        tested-true (ltb (laws.value_of fe) (2 ^ 64)) _
          (sym (laws.to_u64-value_of fe) ∙ returned.1))

  bind-first : {A B : Type 0} (m : Option A) (f : A → Option B) → Returns (m >>= f) → Returns m
  bind-first m f returned = let first = >>=-eq-some m f (returned.1) in (first.0, first.1)

  to_starknet_core_tx-IsAnswerable :
      (tx : Transaction field.Fe) (transaction_hash : field.Fe)
      → Returns (to_starknet_core_tx field to_u64 tx transaction_hash)
      → IsAnswerable tx
  unfolding to_starknet_core_tx core_declare core_deploy_account core_invoke core_l1_handled
  to_starknet_core_tx-IsAnswerable (declare (declare_v0 tx)) h returned = tt
  to_starknet_core_tx-IsAnswerable (declare (declare_v1 tx)) h returned = tt
  to_starknet_core_tx-IsAnswerable (declare (declare_v2 tx)) h returned = tt
  to_starknet_core_tx-IsAnswerable (declare (declare_v3 tx)) h returned =
      fees-HasBounds tx.fees (bind-first _ _ returned)
  to_starknet_core_tx-IsAnswerable (deploy tx) h returned = tt
  to_starknet_core_tx-IsAnswerable (deploy_account (deploy_account_v1 tx)) h returned = tt
  to_starknet_core_tx-IsAnswerable (deploy_account (deploy_account_v3 tx)) h returned =
      fees-HasBounds tx.fees (bind-first _ _ returned)
  to_starknet_core_tx-IsAnswerable (invoke (invoke_v0 tx)) h returned = tt
  to_starknet_core_tx-IsAnswerable (invoke (invoke_v1 tx)) h returned = tt
  to_starknet_core_tx-IsAnswerable (invoke (invoke_v3 tx)) h returned =
      fees-HasBounds tx.fees (bind-first _ _ returned)
  to_starknet_core_tx-IsAnswerable (l1_handler tx) h returned =
      nonce-fits tx.nonce (bind-first _ _ returned)

  to_starknet_core_tx-Returns :
      (tx : Transaction field.Fe) (transaction_hash : field.Fe)
      → IsAnswerable tx
      → Returns (to_starknet_core_tx field to_u64 tx transaction_hash)
  unfolding to_starknet_core_tx core_declare core_deploy_account core_invoke core_l1_handled
  to_starknet_core_tx-Returns (declare (declare_v0 tx)) h answerable = (_, refl)
  to_starknet_core_tx-Returns (declare (declare_v1 tx)) h answerable = (_, refl)
  to_starknet_core_tx-Returns (declare (declare_v2 tx)) h answerable = (_, refl)
  to_starknet_core_tx-Returns (declare (declare_v3 tx)) h answerable =
      >>=-Returns _ _ (fees-Returns tx.fees answerable) (λ fees. (_, refl))
  to_starknet_core_tx-Returns (deploy tx) h answerable = (_, refl)
  to_starknet_core_tx-Returns (deploy_account (deploy_account_v1 tx)) h answerable = (_, refl)
  to_starknet_core_tx-Returns (deploy_account (deploy_account_v3 tx)) h answerable =
      >>=-Returns _ _ (fees-Returns tx.fees answerable) (λ fees. (_, refl))
  to_starknet_core_tx-Returns (invoke (invoke_v0 tx)) h answerable = (_, refl)
  to_starknet_core_tx-Returns (invoke (invoke_v1 tx)) h answerable = (_, refl)
  to_starknet_core_tx-Returns (invoke (invoke_v3 tx)) h answerable =
      >>=-Returns _ _ (fees-Returns tx.fees answerable) (λ fees. (_, refl))
  to_starknet_core_tx-Returns (l1_handler tx) h answerable =
      >>=-Returns _ _ (nonce-Returns tx.nonce answerable) (λ nonce. (_, refl))

  -- The conversion answers for a transaction exactly where its resources both have bounds, if it is of
  -- version 3, and where its nonce is below 2^64, if it is an L1 handler transaction; it panics for any
  -- other.
  pub to_starknet_core_tx_answers_iff :
      (tx : Transaction field.Fe) (transaction_hash : field.Fe)
      → Returns (to_starknet_core_tx field to_u64 tx transaction_hash) ↔ IsAnswerable tx
  to_starknet_core_tx_answers_iff tx transaction_hash = (
    to_starknet_core_tx-IsAnswerable tx transaction_hash,
    to_starknet_core_tx-Returns tx transaction_hash,
  )

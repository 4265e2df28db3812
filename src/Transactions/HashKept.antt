-- ===== src/Transactions/HashKept.antt =====
-- The hash in an answer of crates/primitives/transactions/src/to_starknet_core_transaction.rs.
use mathlib.Core.Option.{some-injective}
use deoxys.Base.{ℕ, ◌≡◌, sym, ap, Option, some}
use deoxys.Base.Opt.{>>=-eq-some}
use deoxys.Transactions.Types.{
  Field, Transaction, declare, deploy, deploy_account, invoke, l1_handler, invoke_v0, invoke_v1,
  invoke_v3, declare_v0, declare_v1, declare_v2, declare_v3, deploy_account_v1, deploy_account_v3,
}
use deoxys.Transactions.Core.{
  CoreTransaction, core_declare_v0, core_declare_v1, core_declare_v2, core_declare_v3,
  core_deploy_account_v1, core_deploy_account_v3, core_deploy, core_invoke_v0, core_invoke_v1,
  core_invoke_v3, core_l1_handler,
}
use deoxys.Transactions.ToCore.{
  core_fees, core_declare, core_deploy_account, core_deployed, core_invoke, core_l1_handled,
  to_starknet_core_tx,
}

abbrev pub transaction_hash_of : {Fe : Type 0} → CoreTransaction Fe → Fe
transaction_hash_of (core_declare_v0 tx) = tx.transaction_hash
transaction_hash_of (core_declare_v1 tx) = tx.transaction_hash
transaction_hash_of (core_declare_v2 tx) = tx.transaction_hash
transaction_hash_of (core_declare_v3 tx) = tx.transaction_hash
transaction_hash_of (core_deploy_account_v1 tx) = tx.transaction_hash
transaction_hash_of (core_deploy_account_v3 tx) = tx.transaction_hash
transaction_hash_of (core_deploy tx) = tx.transaction_hash
transaction_hash_of (core_invoke_v0 tx) = tx.transaction_hash
transaction_hash_of (core_invoke_v1 tx) = tx.transaction_hash
transaction_hash_of (core_invoke_v3 tx) = tx.transaction_hash
transaction_hash_of (core_l1_handler tx) = tx.transaction_hash

same_hash :
    {Fe : Type 0} {built answer : CoreTransaction Fe}
    → some built ≡ some answer
    → transaction_hash_of answer ≡ transaction_hash_of built
same_hash {built = built} {answer = answer} done =
    ap transaction_hash_of (sym (some-injective built answer done))

module _ (field : Field) (to_u64 : field.Fe → Option ℕ) where
  -- An answer has the hash that it was asked for.
  pub transaction_hash_of-to_starknet_core_tx :
      (tx : Transaction field.Fe) (h : field.Fe) (answer : CoreTransaction field.Fe)
      → to_starknet_core_tx field to_u64 tx h ≡ some answer
      → transaction_hash_of answer ≡ h
  unfolding to_starknet_core_tx core_declare core_deploy_account core_deployed core_invoke
      core_l1_handled
  transaction_hash_of-to_starknet_core_tx (declare (declare_v0 tx)) h answer done = same_hash done
  transaction_hash_of-to_starknet_core_tx (declare (declare_v1 tx)) h answer done = same_hash done
  transaction_hash_of-to_starknet_core_tx (declare (declare_v2 tx)) h answer done = same_hash done
  transaction_hash_of-to_starknet_core_tx (declare (declare_v3 tx)) h answer done =
      let fees = >>=-eq-some (core_fees tx.fees) _ done in same_hash (fees.2)
  transaction_hash_of-to_starknet_core_tx (deploy tx) h answer done = same_hash done
  transaction_hash_of-to_starknet_core_tx (deploy_account (deploy_account_v1 tx)) h answer done =
      same_hash done
  transaction_hash_of-to_starknet_core_tx (deploy_account (deploy_account_v3 tx)) h answer done =
      let fees = >>=-eq-some (core_fees tx.fees) _ done in same_hash (fees.2)
  transaction_hash_of-to_starknet_core_tx (invoke (invoke_v0 tx)) h answer done = same_hash done
  transaction_hash_of-to_starknet_core_tx (invoke (invoke_v1 tx)) h answer done = same_hash done
  transaction_hash_of-to_starknet_core_tx (invoke (invoke_v3 tx)) h answer done =
      let fees = >>=-eq-some (core_fees tx.fees) _ done in same_hash (fees.2)
  transaction_hash_of-to_starknet_core_tx (l1_handler tx) h answer done =
      let nonce = >>=-eq-some (to_u64 tx.nonce) _ done in same_hash (nonce.2)

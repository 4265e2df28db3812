-- ===== src/Transactions/ComputeHash.antt =====
-- The hash of any transaction: crates/primitives/transactions/src/compute_hash.rs.
use deoxys.Base.{ℕ, Bool, Option, List}
use deoxys.Transactions.Types.{
  Field, Transaction, declare, deploy, deploy_account, invoke, l1_handler,
}
use deoxys.Transactions.Invoke.{hash_invoke}
use deoxys.Transactions.Declare.{hash_declare}
use deoxys.Transactions.Deploy.{hash_deploy, hash_deploy_account, hash_l1_handler}

module _ (field : Field) (hash : List field.Fe → field.Fe) where
  unfoldable pub compute_hash : Transaction field.Fe → field.Fe → Bool → Option ℕ → Option field.Fe
  compute_hash (declare tx) chain_id offset_version block_number =
      hash_declare field hash tx chain_id offset_version
  compute_hash (deploy tx) chain_id offset_version block_number =
      hash_deploy field hash tx chain_id block_number
  compute_hash (deploy_account tx) chain_id offset_version block_number =
      hash_deploy_account field hash tx chain_id offset_version
  compute_hash (invoke tx) chain_id offset_version block_number =
      hash_invoke field hash tx chain_id offset_version block_number
  compute_hash (l1_handler tx) chain_id offset_version block_number =
      hash_l1_handler field hash tx chain_id offset_version block_number

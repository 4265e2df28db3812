-- ===== src/Commitments/Memory.antt =====
-- The commitments to transactions and events: crates/client/sync/src/commitments/transactions.rs and
-- events.rs, and `calculate_commitments` of lib.rs. `none` stands for a panic.
use deoxys.Base.{ℕ, suc, false, Option, some, List, [], ◌∷◌, leb, map, if◌then◌else◌}
use deoxys.Base.Opt.{◌>>=◌, collect}
use deoxys.Transactions.Types.{
  Field, Transaction, declare, deploy, deploy_account, invoke, l1_handler,
}
use deoxys.Transactions.Bytes.{to_be_bytes}
use deoxys.Transactions.ComputeHash.{compute_hash}

-- A hasher of crates/primitives/hashers: of two elements, and of a list.
pub record Hasher (Fe : Type 0) : Type 0 where
  pub hash_elements : Fe → Fe → Fe
  pub compute_hash_on_elements : List Fe → Fe

-- A bonsai trie in memory: bytes as keys; each call may fail.
pub record Bonsai (Fe : Type 0) : Type 1 where
  pub Trie : Type 0
  pub new : Option Trie
  pub insert : Trie → List ℕ → Fe → Option Trie
  pub commit : Trie → Option Trie
  pub root_hash : Trie → Option Fe

pub record Event (Fe : Type 0) : Type 0 where
  pub from_address : Fe
  pub keys : List Fe
  pub values : List Fe

module _ (field : Field) (h : Hasher field.Fe)
    (signature : Transaction field.Fe → List field.Fe) where
  -- Where the signature counts: always for an invoke transaction, and from block 61394 on for those that
  -- declare a class or deploy an account.
  unfoldable pub signature_hash : Transaction field.Fe → ℕ → field.Fe
  signature_hash (invoke tx) block_number = h.compute_hash_on_elements (signature (invoke tx))
  signature_hash (declare tx) block_number =
      if leb 61394 block_number
      then h.compute_hash_on_elements (signature (declare tx))
      else h.compute_hash_on_elements []
  signature_hash (deploy_account tx) block_number =
      if leb 61394 block_number
      then h.compute_hash_on_elements (signature (deploy_account tx))
      else h.compute_hash_on_elements []
  signature_hash (l1_handler tx) block_number = h.compute_hash_on_elements []
  signature_hash (deploy tx) block_number = h.compute_hash_on_elements []

  unfoldable pub calculate_transaction_hash_with_signature :
      Transaction field.Fe → field.Fe → ℕ → Option field.Fe
  unfolding signature_hash
  calculate_transaction_hash_with_signature tx chain_id block_number = do
    hash ← compute_hash field h.compute_hash_on_elements tx chain_id false (some block_number)
    some (h.hash_elements hash (signature_hash tx block_number))

module _ {Fe : Type 0} (bonsai : Bonsai Fe) where
  -- `for (i, hash) in hashes.enumerate()`, from an index on.
  unfoldable pub insert_indexed : ℕ → List Fe → bonsai.Trie → Option bonsai.Trie
  insert_indexed i [] trie = some trie
  insert_indexed i (hash ∷ hashes) trie =
      bonsai.insert trie (to_be_bytes 8 i) hash >>= insert_indexed (suc i) hashes

  abbrev pub root_of : List Fe → Option Fe
  root_of hashes = do
    trie ← bonsai.new
    filled ← insert_indexed 0 hashes trie
    committed ← bonsai.commit filled
    bonsai.root_hash committed

module _ (field : Field) (h : Hasher field.Fe) (bonsai : Bonsai field.Fe)
    (signature : Transaction field.Fe → List field.Fe) where
  unfoldable pub memory_transaction_commitment :
      List (Transaction field.Fe) → field.Fe → ℕ → Option field.Fe
  memory_transaction_commitment transactions chain_id block_number = do
    hashes ←
        collect
          (λ tx.
            calculate_transaction_hash_with_signature field h signature tx chain_id block_number)
          transactions
    root_of bonsai hashes

module _ (field : Field) (h : Hasher field.Fe) (bonsai : Bonsai field.Fe) where
  unfoldable pub calculate_event_hash : Event field.Fe → field.Fe
  calculate_event_hash event = h.compute_hash_on_elements (
      event.from_address
      ∷ h.compute_hash_on_elements event.keys
      ∷ h.compute_hash_on_elements event.values
      ∷ [])

  -- No events: zero, and no trie is built.
  unfoldable pub memory_event_commitment : List (Event field.Fe) → Option field.Fe
  unfolding calculate_event_hash
  memory_event_commitment [] = some (field.from 0)
  memory_event_commitment (event ∷ events) =
      root_of bonsai (map calculate_event_hash (event ∷ events))

module _ (field : Field) (h : Hasher field.Fe) (bonsai : Bonsai field.Fe)
    (signature : Transaction field.Fe → List field.Fe) where
  unfoldable pub calculate_commitments :
      List (Transaction field.Fe)
      → List (Event field.Fe)
      → field.Fe
      → ℕ
      → Option (field.Fe × field.Fe)
  unfolding memory_transaction_commitment memory_event_commitment
  calculate_commitments transactions events chain_id block_number = do
    commitment_tx ←
        memory_transaction_commitment field h bonsai signature transactions chain_id block_number
    commitment_event ← memory_event_commitment field h bonsai events
    some (commitment_tx, commitment_event)

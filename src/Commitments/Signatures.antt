-- ===== src/Commitments/Signatures.antt =====
-- Which signatures the transaction commitment depends on:
-- crates/client/sync/src/commitments/transactions.rs.
use deoxys.Base.{
  ℕ, ◌≡◌, refl, ap, Bool, true, false, Option, some, List, [], ◌∷◌, leb, arith, All, if◌then◌else◌,
}
use deoxys.Base.Opt.{◌>>=◌, collect}
use deoxys.Transactions.Types.{
  Field, Transaction, declare, deploy, deploy_account, invoke, l1_handler,
}
use deoxys.Commitments.Memory.{
  Hasher, Bonsai, signature_hash, calculate_transaction_hash_with_signature,
  memory_transaction_commitment,
}
use deoxys.Transactions.ComputeHash.{compute_hash}

-- The transactions whose signatures are covered at a block.
abbrev pub covers : {Fe : Type 0} → ℕ → Transaction Fe → Bool
covers n (invoke tx) = true
covers n (declare tx) = leb 61394 n
covers n (deploy_account tx) = leb 61394 n
covers n (l1_handler tx) = false
covers n (deploy tx) = false

module _ (field : Field) (h : Hasher field.Fe)
    (signature signature' : Transaction field.Fe → List field.Fe) where
  -- Two readings of the signatures agree on those that the commitment covers.
  abbrev pub Agree : ℕ → Transaction field.Fe → Type 0
  Agree n tx = covers n tx ≡ true → signature tx ≡ signature' tx

  signature_hash-Agree :
      (n : ℕ) (tx : Transaction field.Fe)
      → Agree n tx
      → signature_hash field h signature tx n ≡ signature_hash field h signature' tx n
  unfolding signature_hash
  signature_hash-Agree n (invoke tx) agree = ap h.compute_hash_on_elements (agree refl)
  signature_hash-Agree n (declare tx) agree = ground (arith, agree)
  signature_hash-Agree n (deploy_account tx) agree = ground (arith, agree)
  signature_hash-Agree n (l1_handler tx) agree = refl
  signature_hash-Agree n (deploy tx) agree = refl

  collect-Agree :
      (chain_id : field.Fe) (n : ℕ) (txs : List (Transaction field.Fe))
      → All (Agree n) txs
      → collect
          (λ tx. calculate_transaction_hash_with_signature field h signature tx chain_id n)
          txs
        ≡ collect
            (λ tx. calculate_transaction_hash_with_signature field h signature' tx chain_id n)
            txs
  unfolding calculate_transaction_hash_with_signature
  collect-Agree chain_id n [] agree = refl
  collect-Agree chain_id n (tx ∷ txs) agree =
      rw (signature_hash-Agree n tx agree.0, collect-Agree chain_id n txs agree.1)

  -- Two readings of the signatures that agree on those that are covered give the same commitment.
  pub memory_transaction_commitment-Agree :
      (bonsai : Bonsai field.Fe) (txs : List (Transaction field.Fe)) (chain_id : field.Fe) (n : ℕ)
      → All (Agree n) txs
      → memory_transaction_commitment field h bonsai signature txs chain_id n
        ≡ memory_transaction_commitment field h bonsai signature' txs chain_id n
  unfolding memory_transaction_commitment
  memory_transaction_commitment-Agree bonsai txs chain_id n agree =
      rw (collect-Agree chain_id n txs agree)

module _ (field : Field) (h : Hasher field.Fe)
    (signature : Transaction field.Fe → List field.Fe) where
  -- The signature of a transaction that is covered at a block, and nothing for another one.
  abbrev pub covered_signature : ℕ → Transaction field.Fe → List field.Fe
  covered_signature n tx = if covers n tx then signature tx else []

  -- A transaction's hash with the hash of its covered signature.
  abbrev pub covered_leaf : field.Fe → ℕ → Transaction field.Fe → Option field.Fe
  covered_leaf chain_id n tx =
      compute_hash field h.compute_hash_on_elements tx chain_id false (some n) >>= λ hash.
      some (h.hash_elements hash (h.compute_hash_on_elements (covered_signature n tx)))

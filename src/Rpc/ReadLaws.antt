-- ===== src/Rpc/ReadLaws.antt =====
-- What the read handlers of crates/client/rpc/src/methods/read answer.
use deoxys.Base.{
  ℕ, zero, suc, ◌<◌, ◌≡◌, ◌≢◌, refl, ap, sym, ◌∙◌, false, Option, none, some, List, [], ◌∷◌,
  get_elem?, arith, inl, inr, Bool-cases, map,
}
use deoxys.Base.Outcome.{ok, ok_or}
use deoxys.Base.Assoc.{Eq, ◌==◌, ==_self}
use deoxys.Db.Storage.Trie.{BonsaiStorage}
use deoxys.Db.Storage.Handlers.{Felts, Backend, contract_storage_mut}
use deoxys.Rpc.Types.{BlockId, number}
use deoxys.Rpc.Server.{
  Block, Server, panicked, core_tx, substrate_block_number_from_starknet_block,
  get_cached_transaction_hashes, chain_id, block_hash_or_error,
}
use deoxys.Rpc.Receipts.{hashes_of}
use deoxys.Rpc.Reads.{get_storage_at}
use deoxys.Rpc.TransactionReads.{
  find_cached, find_computed, find_tx, hash_at, get_transaction_by_hash,
  get_transaction_by_block_id_and_index,
}

module _ {F H Tx Class Abi RpcClass : Type 0} ⦃e : Eq F⦄ ⦃eh : Eq H⦄
    (s : Server F H Tx Class Abi RpcClass) where
  -- `getStorageAt` does not depend on the block: any two block numbers for which the storage trie can be
  -- opened get the same answer, which is read from the latest state.
  pub get_storage_at-any_block :
      (pedersen poseidon : BonsaiStorage F) (felts : Felts F) (address key : F) (n m : ℕ)
      (d : Backend pedersen poseidon) (t u : pedersen.Transaction)
      → pedersen.get_transactional_state d.bonsai_storage n ≡ ok (some t)
      → pedersen.get_transactional_state d.bonsai_storage m ≡ ok (some u)
      → get_storage_at s pedersen poseidon felts address key (number n) d
        ≡ get_storage_at s pedersen poseidon felts address key (number m) d
  unfolding get_storage_at contract_storage_mut substrate_block_number_from_starknet_block
  get_storage_at-any_block pedersen poseidon felts address key n m d t u opened_n opened_m =
      rw (opened_n, opened_m) refl

some_eq : {X : Type 0} {x y : X} → some x ≡ some y → x ≡ y
some_eq h = cc h

differs : {F : Type 0} ⦃e : Eq F⦄ (h k : F) → k ≢ h → (k == h) ≡ false
differs ⦃e⦄ h k apart = elim (Bool-cases (k == h)) [
  | inl same ↦ absurd (apart ((e.same_iff k h).0 same))
  | inr other ↦ other
]

get_elem?-map :
    {X Y : Type 0} (f : X → Y) (xs : List X) (i : ℕ) (x : X)
    → get_elem? xs i ≡ some x
    → get_elem? (map f xs) i ≡ some (f x)
get_elem?-map f [] i x h = cc h
get_elem?-map f (y ∷ ys) zero x h = ap (λ (z : _). some (f z)) (some_eq h)
get_elem?-map f (y ∷ ys) (suc i) x h = get_elem?-map f ys i x h

module _ {F Tx : Type 0} ⦃e : Eq F⦄ where
  find_cached_lem :
      (h : F) (tx : Tx) (i : ℕ) (hashes : List F) (txs : List Tx)
      → get_elem? hashes i ≡ some h
      → get_elem? txs i ≡ some tx
      → ((j : ℕ) → j < i → get_elem? hashes j ≢ some h)
      → find_cached h hashes txs ≡ some tx
  find_cached_lem h tx i [] txs at_hash at_tx first = cc at_hash
  find_cached_lem h tx i (k ∷ hashes) [] at_hash at_tx first = cc at_tx
  find_cached_lem h tx zero (k ∷ hashes) (t ∷ txs) at_hash at_tx first =
      rw (ap (λ (t : F). t == h) (some_eq at_hash), ==_self h) at_tx
  find_cached_lem h tx (suc i) (k ∷ hashes) (t ∷ txs) at_hash at_tx first =
      rw (differs h k (λ same. first 0 (omega arith) (ap some same)))
        (find_cached_lem h tx i hashes txs at_hash at_tx (λ j small. first (suc j) (omega arith)))

  find_computed_lem :
      (compute : Tx → F) (h : F) (tx : Tx) (i : ℕ) (txs : List Tx)
      → get_elem? txs i ≡ some tx
      → compute tx ≡ h
      → ((j : ℕ) → j < i → get_elem? (map compute txs) j ≢ some h)
      → find_computed compute h txs ≡ some tx
  find_computed_lem compute h tx i [] at_tx computed first = cc at_tx
  find_computed_lem compute h tx zero (t ∷ txs) at_tx computed first =
      rw (ap (λ (t : Tx). compute t == h) (some_eq at_tx), computed, ==_self h) at_tx
  find_computed_lem compute h tx (suc i) (t ∷ txs) at_tx computed first =
      rw (differs h (compute t) (λ same. first 0 (omega arith) (ap some same))) (
        find_computed_lem compute h tx i txs at_tx computed
          (λ j small. first (suc j) (omega arith)))

module _ {F H Tx Class Abi RpcClass : Type 0} ⦃e : Eq F⦄ ⦃eh : Eq H⦄
    (s : Server F H Tx Class Abi RpcClass) where
  -- The hashes of a block's transactions, as the handlers use them.
  abbrev pub block_hashes : F → Block F Tx → List F
  block_hashes chain block =
      hashes_of (get_cached_transaction_hashes s block.block_hash)
        (λ tx. s.compute_hash tx chain block.block_number) block.transactions

  hash_at-find_tx :
      (cached : Option (List F)) (compute : Tx → F) (txs : List Tx) (index : ℕ) (tx : Tx) (h : F)
      → get_elem? txs index ≡ some tx
      → get_elem? (hashes_of cached compute txs) index ≡ some h
      → ((j : ℕ) → j < index → get_elem? (hashes_of cached compute txs) j ≢ some h)
      → (hash_at cached index (compute tx) ≡ ok h) × (find_tx cached compute h txs ≡ some tx)
  hash_at-find_tx (some hashes) compute txs index tx h at_tx at_hash first =
      (rw at_hash refl, find_cached_lem h tx index hashes txs at_hash at_tx first)
  hash_at-find_tx none compute txs index tx h at_tx at_hash first =
      let computed : compute tx ≡ h =
        some_eq (sym (get_elem?-map compute txs index tx at_tx) ∙ at_hash) in
      (ap ok computed, find_computed_lem compute h tx index txs at_tx computed first)

  -- Where the chain id is configured, a block is found by its id, the mapping gives the same block for a
  -- hash, and the hash is the one of the transaction at an index and of none before it, whether it comes
  -- from the cache or is computed: the handlers by index and by hash both answer the conversion of this
  -- transaction with this hash, or both panic where the conversion does.
  pub get_transaction-agree :
      (block_id : BlockId F) (sub : H) (block : Block F Tx) (chain : F) (index : ℕ) (tx : Tx)
      (h : F)
      → block_hash_or_error s block_id ≡ ok sub
      → s.get_block_by_block_hash sub ≡ ok block
      → chain_id s ≡ ok chain
      → s.block_hash_from_transaction_hash h ≡ ok (some sub)
      → get_elem? block.transactions index ≡ some tx
      → get_elem? (block_hashes chain block) index ≡ some h
      → ((j : ℕ) → j < index → get_elem? (block_hashes chain block) j ≢ some h)
      → (get_transaction_by_block_id_and_index s block_id index
          ≡ ok_or (s.to_starknet_core_tx tx h) panicked)
        × (get_transaction_by_hash s h ≡ ok_or (s.to_starknet_core_tx tx h) panicked)
  unfolding get_transaction_by_block_id_and_index get_transaction_by_hash core_tx
  get_transaction-agree block_id sub block chain index tx h resolved loaded configured mapped at_tx
        at_hash first =
      let both =
        hash_at-find_tx (get_cached_transaction_hashes s block.block_hash)
          (λ (t : Tx). s.compute_hash t chain block.block_number) block.transactions index tx h
          at_tx at_hash first in
      (
        rw (resolved, loaded, at_tx, configured, both.0) refl,
        rw (mapped, loaded, configured, both.1) refl,
      )

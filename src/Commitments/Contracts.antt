-- ===== src/Commitments/Contracts.antt =====
-- What a contract's leaf takes from a state update: crates/client/sync/src/commitments/lib.rs.
use deoxys.Base.{
  ◌≡◌, ap, ◌∙◌, sym, Option, none, some, List, [], ◌∷◌, map, Bool-cases, ◌≢◌, inl, inr,
}
use deoxys.Base.Opt.{collect, >>=-eq-some}
use deoxys.Base.Assoc.{Eq, ◌==◌}
use deoxys.Pallet.Updates.{last_or, lookup-insert_all}
use deoxys.Commitments.Leaves.{
  StateUpdate, CommitmentStateDiff, StateHash, all_deployed, build_commitment_state_diff,
  class_hash, contract_state_leaf_hash, contract_updates,
}

last_or-some :
    {K V : Type 0} ⦃e : Eq K⦄ (k : K) (v : V) (kvs : List (K × V)) → last_or (some v) k kvs ≢ none
last_or-some k v [] h = cc h
last_or-some k v ((j, w) ∷ kvs) h = elim (Bool-cases (j == k)) [
  | inl here ↦ last_or-some k w kvs (rw here at h)
  | inr there ↦ last_or-some k v kvs (rw there at h)
]

some_injective : {A : Type 0} {a b : A} → some a ≡ some b → a ≡ b
some_injective h = cc h

collect-keys :
    {K V W : Type 0} (f : K × V → Option (K × W)) (xs : List (K × V)) (ys : List (K × W))
    → ((x : K × V) (y : K × W) → f x ≡ some y → y.0 ≡ x.0)
    → collect f xs ≡ some ys
    → map (λ (y : K × W). y.0) ys ≡ map (λ (x : K × V). x.0) xs
collect-keys {K = K} {W = W} f [] ys keeps e =
    ap (map (λ (y : K × W). y.0)) (some_injective (sym e))
collect-keys {K = K} {W = W} f (x ∷ xs) ys keeps e =
    let first = >>=-eq-some (f x) _ e in
    let rest = >>=-eq-some (collect f xs) _ first.2 in
    ap (map (λ (y : K × W). y.0)) (some_injective (sym rest.2))
    ∙ rw (keeps x first.0 first.1, collect-keys f xs rest.0 keeps rest.1)

module _ {Fe Block : Type 0} ⦃e : Eq Fe⦄ (hs : StateHash Fe)
    (overrides : Block → Fe → Option Fe) where
  last_or-deployed :
      (old : Option Fe) (address : Fe) (contracts : List (Fe × Fe))
      → last_or old address contracts ≡ none
      → last_or old address (all_deployed hs contracts) ≡ none
  last_or-deployed old address [] h = h
  last_or-deployed old address ((a, c) ∷ contracts) h = elim (Bool-cases (a == address)) [
    | inl here ↦ absurd (last_or-some address c contracts (rw here at h))
    | inr there ↦ rw (there, last_or) (last_or-deployed old address contracts (rw there at h))
  ]

  -- The leaf of a contract that the update neither deploys nor gives a nonce is made of its class hash in
  -- the earlier state and the nonce zero, whatever classes the update replaces and whatever the
  -- contract's nonce is.
  pub contract_state_leaf_hash-unchanged :
      (update : StateUpdate Fe) (address storage_root class : Fe) (h : Block)
      → last_or none address update.deployed_contracts ≡ none
      → last_or none address update.nonces ≡ none
      → overrides h address ≡ some class
      → contract_state_leaf_hash hs overrides
          (build_commitment_state_diff hs update)
          address
          storage_root
          (some h)
        ≡ some (hs.pedersen (hs.pedersen (hs.pedersen class storage_root) hs.zero_fe) hs.zero_fe)
  unfolding contract_state_leaf_hash class_hash build_commitment_state_diff
  contract_state_leaf_hash-unchanged update address storage_root class h not_deployed no_nonce
        found =
      rw (
        lookup-insert_all address (all_deployed hs update.deployed_contracts) [],
        last_or-deployed none address update.deployed_contracts not_deployed,
        lookup-insert_all address update.nonces [],
        no_nonce,
        found,
      )

  -- Where the leaves are computed, they are those of the contracts with storage updates, in their order,
  -- and of no other contract.
  pub contract_updates-addresses :
      (csd : CommitmentStateDiff Fe) (storage_root : Fe → Option Fe) (maybe_block : Option Block)
      (updates : List (Fe × Fe))
      → contract_updates hs overrides csd storage_root maybe_block ≡ some updates
      → map (λ (u : Fe × Fe). u.0) updates
        ≡ map (λ (c : Fe × List (Fe × Fe)). c.0) csd.storage_updates
  unfolding contract_updates
  contract_updates-addresses csd storage_root maybe_block updates written =
      collect-keys _ csd.storage_updates updates
        (λ contract leaf e₁.
          let root = >>=-eq-some (storage_root contract.0) _ e₁ in
          let made =
            >>=-eq-some (contract_state_leaf_hash hs overrides csd contract.0 root.0 maybe_block) _
              root.2 in
          ap (λ (u : Fe × Fe). u.0) (some_injective (sym made.2)))
        written

-- ===== src/Pallet/Updates.antt =====
-- What a state update leaves in the pallet's storage: crates/pallets/starknet/src/lib.rs.
use deoxys.Base.{◌≡◌, refl, ap, ◌∙◌, Option, some, List, [], ◌∷◌, ◌++◌, if◌then◌else◌}
use deoxys.Base.Assoc.{Eq, ◌==◌, lookup, insert, lookup-insert}
use deoxys.Pallet.State.{Types, Pallet, insert_all}
use deoxys.Pallet.Hooks.{StateDiff, UpdateCodec, stored_diff, store_state_update}

-- The value that a list of pairs gives a key: that of its last pair for it, else the old one.
module _ {K V : Type 0} ⦃e : Eq K⦄ where
  abbrev pub last_or : Option V → K → List (K × V) → Option V
  last_or old k [] = old
  last_or old k ((j, v) ∷ kvs) = last_or (if j == k then some v else old) k kvs

  pub lookup-insert_all :
      (k : K) (kvs m : List (K × V)) → lookup k (insert_all kvs m) ≡ last_or (lookup k m) k kvs
  lookup-insert_all k [] m = refl
  lookup-insert_all k ((j, v) ∷ kvs) m =
      lookup-insert_all k kvs (insert j v m)
      ∙ ap (λ (old : Option V). last_or old k kvs) (lookup-insert j k v m)

  pub last_or-append :
      (old : Option V) (k : K) (xs ys : List (K × V))
      → last_or old k (xs ++ ys) ≡ last_or (last_or old k xs) k ys
  last_or-append old k [] ys = refl
  last_or-append old k ((j, v) ∷ xs) ys = last_or-append (if j == k then some v else old) k xs ys

module _ (t : Types) (codec : UpdateCodec t) where
  store_state_update-decoded :
      (s : Pallet t) (encoded : t.Bytes) (diff : StateDiff t.Fe)
      → codec.decode_state_update encoded ≡ some diff
      → store_state_update t codec encoded s ≡ stored_diff t codec diff s
  unfolding store_state_update
  store_state_update-decoded s encoded diff decoded = rw (decoded, store_state_update)

  -- After a state update that decodes, every contract's nonce and class hash and every class's compiled
  -- hash are the last ones that the update gives, and else as before; for the class hash of a contract the
  -- replaced classes win over the deployed contracts.
  pub store_state_update-lookup :
      (s : Pallet t) (encoded : t.Bytes) (diff : StateDiff t.Fe) (k : t.Fe)
      → codec.decode_state_update encoded ≡ some diff
      → let s' = store_state_update t codec encoded s in
        (lookup ⦃e = t.fe_Eq⦄ k s'.nonces
          ≡ last_or ⦃e = t.fe_Eq⦄ (lookup ⦃e = t.fe_Eq⦄ k s.nonces) k diff.nonces)
        × (lookup ⦃e = t.fe_Eq⦄ k s'.contract_class_hashes
            ≡ last_or ⦃e = t.fe_Eq⦄
                (last_or ⦃e = t.fe_Eq⦄
                  (lookup ⦃e = t.fe_Eq⦄ k s.contract_class_hashes)
                  k
                  diff.deployed_contracts)
                k
                diff.replaced_classes)
        × (lookup ⦃e = t.fe_Eq⦄ k s'.compiled_class_hashes
            ≡ last_or ⦃e = t.fe_Eq⦄
                (lookup ⦃e = t.fe_Eq⦄ k s.compiled_class_hashes)
                k
                diff.declared_classes)
  store_state_update-lookup s encoded diff k decoded =
      let now = store_state_update-decoded s encoded diff decoded in
      (
        ap (λ (p : Pallet t). lookup ⦃e = t.fe_Eq⦄ k p.nonces) now
            ∙ lookup-insert_all ⦃e = t.fe_Eq⦄ k diff.nonces s.nonces,
        ap (λ (p : Pallet t). lookup ⦃e = t.fe_Eq⦄ k p.contract_class_hashes) now
            ∙ lookup-insert_all ⦃e = t.fe_Eq⦄ k (diff.deployed_contracts ++ diff.replaced_classes)
                s.contract_class_hashes
            ∙ last_or-append ⦃e = t.fe_Eq⦄ _ k diff.deployed_contracts diff.replaced_classes,
        ap (λ (p : Pallet t). lookup ⦃e = t.fe_Eq⦄ k p.compiled_class_hashes) now
            ∙ lookup-insert_all ⦃e = t.fe_Eq⦄ k diff.declared_classes s.compiled_class_hashes,
      )

-- ===== src/Db/Storage/Laws.antt =====
-- Reading what the handlers of crates/client/db/src/storage.rs have written.
use deoxys.Base.{◌≡◌, refl, ap, true, none, some, ◌&&◌, if◌then◌else◌, inl, inr, Bool-cases}
use deoxys.Base.Outcome.{ok}
use deoxys.Base.Assoc.{Eq, nat_Eq, list_Eq, ◌==◌, ==_self, list_beq_iff}
use deoxys.Db.Rocks.{Bytes}
use deoxys.Db.Storage.Keys.{
  conv_contract_identifier, conv_contract_key, conv_contract_storage_key, IsKey,
  conv_contract_key_injective,
}
use deoxys.Db.Storage.Trie.{BonsaiStorage, BonsaiLaws, bool_Eq}
use deoxys.Db.Storage.Handlers.{Felts, Backend}
use deoxys.Db.Storage.ContractStorageTrie

-- Keys are compared as their bytes are.
key_eq :
    (a b : Bytes)
    → IsKey a
    → IsKey b
    → (conv_contract_storage_key a == conv_contract_storage_key b) ≡ (a == b)
unfolding conv_contract_storage_key conv_contract_key
key_eq a b fits_a fits_b = elim (Bool-cases (a == b)) [
  | inl same ↦ rw (same, (list_beq_iff a b).0 same) (==_self (conv_contract_storage_key b))
  | inr differs ↦ elim (Bool-cases (conv_contract_storage_key a == conv_contract_storage_key b)) [
    | inl h ↦ cc (
        (list_beq_iff a b).1 (
          conv_contract_key_injective a b fits_a fits_b
            ((list_beq_iff (conv_contract_storage_key a) (conv_contract_storage_key b)).0 h)))
    | inr h ↦ rw (h, differs) refl
  ]
]

module _ {Fe : Type 0} ⦃e : Eq Fe⦄ (pedersen poseidon : BonsaiStorage Fe)
    (laws : BonsaiLaws pedersen) (felts : Felts Fe) where
  -- The documented behaviour of an insertion: it keeps the value, and a zero deletes the leaf.
  abbrev pub ZeroDeletes : Fe → Type 0
  ZeroDeletes zero_fe = (v : Fe) → laws.kept v ≡ (if v == zero_fe then none else some v)

  -- Where the storages do not fail and the contract's trie is initialised, `ContractStorageTrieMut::insert`
  -- of a value whose bytes stand for it succeeds, and from then on the contract's address with the key reads the value,
  -- or nothing if the value is zero, while every other pair of an address and a key below 2 ^ 251 reads what it
  -- read before.
  pub get-insert :
      (zero_fe address key v other : Fe) (place : Fe) (d : Backend pedersen poseidon)
      → ZeroDeletes zero_fe
      → felts.from_bytes_be (felts.to_bytes v) ≡ v
      → laws.is_known d.bonsai_storage (felts.to_bytes address) ≡ true
      → IsKey (felts.to_bytes key)
      → IsKey (felts.to_bytes place)
      → (d' : Backend pedersen poseidon) × (ContractStorageTrie.insert pedersen poseidon felts
            address key v d
          ≡ (ok tt, d'))
        × ((ContractStorageTrie.get pedersen poseidon felts other place d').0 ≡ (
            if felts.to_bytes other == felts.to_bytes address
              && felts.to_bytes place == felts.to_bytes key
            then ok (if v == zero_fe then none else some v)
            else (ContractStorageTrie.get pedersen poseidon felts other place d).0))
  unfolding ContractStorageTrie.insert ContractStorageTrie.get conv_contract_identifier
  get-insert zero_fe address key v other place d deletes faithful known fits_key fits_place =
      let i = felts.to_bytes address in
      let k = conv_contract_storage_key (felts.to_bytes key) in
      let value = felts.from_bytes_be (felts.to_bytes v) in
      (
        record d { bonsai_storage = laws.inserted i k value d.bonsai_storage },
        rw (laws.inserts i k value d.bonsai_storage known) refl,
        rw
            (
              laws.gets (laws.inserted i k value d.bonsai_storage) (felts.to_bytes other)
                  (conv_contract_storage_key (felts.to_bytes place)),
              laws.contents-inserted i k value d.bonsai_storage,
              laws.gets d.bonsai_storage (felts.to_bytes other)
                  (conv_contract_storage_key (felts.to_bytes place)),
              ap laws.kept faithful,
              deletes v,
              key_eq (felts.to_bytes place) (felts.to_bytes key) fits_place fits_key,
            )
            (elim (Bool-cases
              (felts.to_bytes other == i && felts.to_bytes place == felts.to_bytes key)) [
                | inl h ↦ rw h refl
                | inr h ↦ rw h refl
              ]),
      )

-- ===== src/Db/Storage/Tests.antt =====
-- The theorems on crates/client/db/src/storage.rs at small tries.
use deoxys.Base.{◌≡◌, refl, none, some, arith, ◌&&◌, if◌then◌else◌}
use deoxys.Base.Outcome.{ok}
use deoxys.Base.Assoc.{nat_Eq, list_Eq, ◌==◌}
use deoxys.Transactions.Bytes.{to_be_bytes}
use deoxys.Db.Storage.Keys.{IsKey}
use deoxys.Db.Storage.Handlers.{Backend}
use deoxys.Db.Storage.Memory.{TreesInMemory, TreesInMemory_laws, number_felts, Trees}
use deoxys.Db.Storage.ContractStorageTrie
use deoxys.Db.Storage.Laws.{get-insert}

abbrev trees : Trees
trees = record { names = λ i. i == to_be_bytes 32 8; leaves = λ i k. none }

abbrev backend : Backend TreesInMemory TreesInMemory
backend = record { bonsai_contract = trees; bonsai_storage = trees; bonsai_class = trees }

five-IsKey : IsKey (to_be_bytes 32 5)
five-IsKey = omega arith

get-insert_example :
    (d' : Backend TreesInMemory TreesInMemory) × (ContractStorageTrie.insert TreesInMemory
        TreesInMemory number_felts 8 5 77 backend
      ≡ (ok tt, d'))
    × ((ContractStorageTrie.get TreesInMemory TreesInMemory number_felts 8 5 d').0 ≡ (
        if to_be_bytes 32 8 == to_be_bytes 32 8 && to_be_bytes 32 5 == to_be_bytes 32 5
        then ok (some 77)
        else (ContractStorageTrie.get TreesInMemory TreesInMemory number_felts 8 5 backend).0))
get-insert_example =
    get-insert TreesInMemory TreesInMemory TreesInMemory_laws number_felts 0 8 5 77 8 5 backend
      (λ v. refl) refl refl five-IsKey five-IsKey

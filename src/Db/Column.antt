-- ===== src/Db/Column.antt =====
-- The columns of the database and their names in RocksDB: crates/client/db/src/lib.rs.
use deoxys.Base.{List, [], ◌∷◌}
use deoxys.Base.Assoc.{Eq, of_discrete}

pub data Column : Type 0 where
  meta block_mapping transaction_mapping synced_mapping da : Column
  starknet_transaction_hashes_cache starknet_block_hashes_cache l1_handler_paid_fee : Column
  bonsai_contracts_trie bonsai_contracts_flat bonsai_contracts_log : Column
  bonsai_contracts_storage_trie bonsai_contracts_storage_flat bonsai_contracts_storage_log : Column
  bonsai_classes_trie bonsai_classes_flat bonsai_classes_log : Column

abbrev Column-discrete : Discrete Column
Column-discrete = hlevel

-- `#[derive(PartialEq, Eq)]`
instance abbrev pub column_Eq : Eq Column
column_Eq = of_discrete Column-discrete

-- `Column::ALL`: the column families that the database is opened with.
pub all : List Column
all =
    meta ∷ block_mapping ∷ transaction_mapping ∷ synced_mapping ∷ da
    ∷ starknet_transaction_hashes_cache ∷ starknet_block_hashes_cache ∷ l1_handler_paid_fee
    ∷ bonsai_contracts_trie ∷ bonsai_contracts_flat ∷ bonsai_contracts_log
    ∷ bonsai_contracts_storage_trie ∷ bonsai_contracts_storage_flat ∷ bonsai_contracts_storage_log
    ∷ bonsai_classes_trie ∷ bonsai_classes_flat ∷ bonsai_classes_log ∷ []

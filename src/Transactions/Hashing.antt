-- ===== src/Transactions/Hashing.antt =====
-- What all transaction hashes are made of: crates/primitives/transactions/src/compute_hash.rs and the
-- constants of crates/primitives/transactions/src/lib.rs. `none` stands for a panic (`unwrap`).
use deoxys.Base.{ℕ, Bool, true, false, Option, none, some, List, [], ◌∷◌, ◌++◌, replicate, ltb}
use deoxys.Base.Opt.{◌>>=◌}
use deoxys.Transactions.Types.{
  Field, Resource, l1_gas, l2_gas, ResourceBounds, ResourceBoundsMapping, DataAvailabilityMode, l1,
  l2, FeeFields,
}
use deoxys.Transactions.Bytes.{to_be_bytes}

abbrev pub legacy_block_number : ℕ
legacy_block_number = 1470

abbrev pub legacy_l1_handler_block : ℕ
legacy_l1_handler_block = 854

abbrev pub declare_prefix : List ℕ
declare_prefix = b'd' ∷ b'e' ∷ b'c' ∷ b'l' ∷ b'a' ∷ b'r' ∷ b'e' ∷ []

abbrev pub deploy_account_prefix : List ℕ
deploy_account_prefix =
    b'd' ∷ b'e' ∷ b'p' ∷ b'l' ∷ b'o' ∷ b'y' ∷ b'_' ∷ b'a' ∷ b'c' ∷ b'c' ∷ b'o' ∷ b'u' ∷ b'n' ∷ b't'
    ∷ []

abbrev pub deploy_prefix : List ℕ
deploy_prefix = b'd' ∷ b'e' ∷ b'p' ∷ b'l' ∷ b'o' ∷ b'y' ∷ []

abbrev pub invoke_prefix : List ℕ
invoke_prefix = b'i' ∷ b'n' ∷ b'v' ∷ b'o' ∷ b'k' ∷ b'e' ∷ []

abbrev pub l1_handler_prefix : List ℕ
l1_handler_prefix = b'l' ∷ b'1' ∷ b'_' ∷ b'h' ∷ b'a' ∷ b'n' ∷ b'd' ∷ b'l' ∷ b'e' ∷ b'r' ∷ []

abbrev pub constructor_name : List ℕ
constructor_name = b'c' ∷ b'o' ∷ b'n' ∷ b's' ∷ b't' ∷ b'r' ∷ b'u' ∷ b'c' ∷ b't' ∷ b'o' ∷ b'r' ∷ []

-- `L1_GAS` and `L2_GAS`.
abbrev pub gas_name : Resource → List ℕ
gas_name l1_gas = b'L' ∷ b'1' ∷ b'_' ∷ b'G' ∷ b'A' ∷ b'S' ∷ []
gas_name l2_gas = b'L' ∷ b'2' ∷ b'_' ∷ b'G' ∷ b'A' ∷ b'S' ∷ []

-- `DataAvailabilityMode as u32`
abbrev pub mode_number : DataAvailabilityMode → ℕ
mode_number l1 = 0
mode_number l2 = 1

-- The order of `Option<u64>`: `None` is below every block.
abbrev pub is_above : Option ℕ → ℕ → Bool
is_above none m = false
is_above (some n) m = ltb m n

abbrev pub is_below : Option ℕ → ℕ → Bool
is_below none m = true
is_below (some n) m = ltb n m

-- `buffer[8..]`: the bounds of the resource, or the zeros that the buffer was filled with.
abbrev pub bounds_bytes : Option ResourceBounds → List ℕ
bounds_bytes none = replicate 24 0
bounds_bytes (some bounds) =
    to_be_bytes 8 bounds.max_amount ++ to_be_bytes 16 bounds.max_price_per_unit

abbrev pub bounds_buffer : ResourceBoundsMapping → Resource → List ℕ
bounds_buffer mapping resource =
    replicate 2 0 ++ gas_name resource ++ bounds_bytes (mapping resource)

abbrev pub modes_buffer : DataAvailabilityMode → DataAvailabilityMode → List ℕ
modes_buffer nonce_mode fee_mode =
    replicate 8 0
    ++ to_be_bytes 4 (mode_number nonce_mode)
    ++ to_be_bytes 4 (mode_number fee_mode)
    ++ replicate 16 0

module _ (field : Field) where
  abbrev pub simulate_tx_version_offset : field.Fe
  simulate_tx_version_offset =
      field.from_mont 18446744073700081665 17407 18446744073709551584 576460752142434320

  -- `if offset_version { SIMULATE_TX_VERSION_OFFSET + version } else { version }`
  abbrev pub offset : Bool → ℕ → field.Fe
  offset true version = field.add simulate_tx_version_offset (field.from version)
  offset false version = field.from version

  -- The same for version 0, where nothing is added to the offset.
  abbrev pub offset_zero : Bool → field.Fe
  offset_zero true = simulate_tx_version_offset
  offset_zero false = field.from 0

  unfoldable pub prepare_resource_bound_value : ResourceBoundsMapping → Resource → Option field.Fe
  prepare_resource_bound_value mapping resource =
      field.from_bytes_be (bounds_buffer mapping resource)

  unfoldable pub prepare_data_availability_modes :
      DataAvailabilityMode → DataAvailabilityMode → Option field.Fe
  prepare_data_availability_modes nonce_mode fee_mode =
      field.from_bytes_be (modes_buffer nonce_mode fee_mode)

  abbrev pub gas_hash : FeeFields field.Fe → Option field.Fe
  gas_hash fees = do
    l1_bound ← prepare_resource_bound_value fees.resource_bounds l1_gas
    l2_bound ← prepare_resource_bound_value fees.resource_bounds l2_gas
    some (field.compute_hash_on_elements (field.from fees.tip ∷ l1_bound ∷ l2_bound ∷ []))

  abbrev pub modes : FeeFields field.Fe → Option field.Fe
  modes fees =
      prepare_data_availability_modes fees.nonce_data_availability_mode
        fees.fee_data_availability_mode

  abbrev pub paymaster_hash : FeeFields field.Fe → field.Fe
  paymaster_hash fees = field.compute_hash_on_elements fees.paymaster_data

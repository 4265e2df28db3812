-- ===== src/Transactions/Bounds.antt =====
-- The buffers of crates/primitives/transactions/src/compute_hash.rs as field elements: the `unwrap`s never
-- fail.
use deoxys.Base.{
  ℕ, ◌≡◌, ◌<◌, ◌+◌, ◌*◌, ◌^◌, refl, ◌∙◌, Option, none, some, List, arith, length, length-append,
}
use deoxys.Transactions.Types.{
  Field, Resource, l1_gas, l2_gas, ResourceBounds, ResourceBoundsMapping, DataAvailabilityMode, l1,
  l2,
}
use deoxys.Transactions.Bytes.{
  to_be_bytes, value, value_from, value_from-append, length-to_be_bytes, value_from-to_be_bytes,
  value_from-replicate,
}
use deoxys.Transactions.Hashing.{
  gas_name, mode_number, bounds_bytes, bounds_buffer, modes_buffer, prepare_resource_bound_value,
  prepare_data_availability_modes,
}

-- 2^251 + 17 * 2^192 + 1
abbrev pub field_prime : ℕ
field_prime = 3618502788666131213697322783095070105623107215331596699973092056135872020481

-- The documented behaviour of the conversions from bytes: 32 bytes of a number below the prime, and any
-- shorter slice, give the element of that value.
pub record FieldLaws (field : Field) : Type 0 where
  pub value_of : field.Fe → ℕ
  pub from_bytes_be-value :
      (bs : List ℕ)
      → length bs ≡ 32
      → value bs < field_prime
      → (fe : field.Fe) × (field.from_bytes_be bs ≡ some fe) × (value_of fe ≡ value bs)
  pub from_byte_slice_be-value :
      (bs : List ℕ)
      → length bs < 32
      → (fe : field.Fe) × (field.from_byte_slice_be bs ≡ some fe) × (value_of fe ≡ value bs)

-- The bounds of a `u64` amount and a `u128` price, zero for a resource without bounds.
abbrev pub FitsIn : Option ResourceBounds → Type 0
FitsIn none = Unit
FitsIn (some bounds) = (bounds.max_amount < 2 ^ 64) × (bounds.max_price_per_unit < 2 ^ 128)

abbrev pub amount : Option ResourceBounds → ℕ
amount none = 0
amount (some bounds) = bounds.max_amount

abbrev pub price : Option ResourceBounds → ℕ
price none = 0
price (some bounds) = bounds.max_price_per_unit

value-bounds_bytes :
    (acc : ℕ) (bounds : Option ResourceBounds)
    → FitsIn bounds
    → value_from acc (bounds_bytes bounds) ≡ acc * 2 ^ 192 + amount bounds * 2 ^ 128 + price bounds
value-bounds_bytes acc none fits = omega (arith, value_from-replicate 24 acc)
value-bounds_bytes acc (some bounds) fits =
    value_from-append acc (to_be_bytes 8 bounds.max_amount)
      (to_be_bytes 16 bounds.max_price_per_unit)
    ∙ joined acc bounds.max_amount bounds.max_price_per_unit (omega arith) (omega arith)
  where
    joined :
        (acc a p : ℕ)
        → a < 256 ^ 8
        → p < 256 ^ 16
        → value_from (value_from acc (to_be_bytes 8 a)) (to_be_bytes 16 p)
          ≡ acc * 2 ^ 192 + a * 2 ^ 128 + p
    joined acc a p ha hp =
        value_from-to_be_bytes 16 (value_from acc (to_be_bytes 8 a)) p hp
        ∙ omega (arith, value_from-to_be_bytes 8 acc a ha)

length-bounds_bytes : (bounds : Option ResourceBounds) → length (bounds_bytes bounds) ≡ 24
length-bounds_bytes none = refl
length-bounds_bytes (some bounds) = omega (
  arith,
  length-append (to_be_bytes 8 bounds.max_amount) (to_be_bytes 16 bounds.max_price_per_unit),
  length-to_be_bytes 8 bounds.max_amount,
  length-to_be_bytes 16 bounds.max_price_per_unit,
)

abbrev pub gas_number : Resource → ℕ
gas_number resource = value (gas_name resource)

amount-FitsIn :
    (bounds : Option ResourceBounds)
    → FitsIn bounds
    → (amount bounds < 2 ^ 64) × (price bounds < 2 ^ 128)
amount-FitsIn none fits = (omega arith, omega arith)
amount-FitsIn (some bounds) fits = fits

bounds_buffer-value :
    (mapping : ResourceBoundsMapping) (resource : Resource)
    → FitsIn (mapping resource)
    → value (bounds_buffer mapping resource)
      ≡ gas_number resource * 2 ^ 192
        + amount (mapping resource) * 2 ^ 128
        + price (mapping resource)
bounds_buffer-value mapping l1_gas fits =
    value-bounds_bytes (gas_number l1_gas) (mapping l1_gas) fits
bounds_buffer-value mapping l2_gas fits =
    value-bounds_bytes (gas_number l2_gas) (mapping l2_gas) fits

length-bounds_buffer :
    (mapping : ResourceBoundsMapping) (resource : Resource)
    → length (bounds_buffer mapping resource) ≡ 32
length-bounds_buffer mapping l1_gas = omega (arith, length-bounds_bytes (mapping l1_gas))
length-bounds_buffer mapping l2_gas = omega (arith, length-bounds_bytes (mapping l2_gas))

gas_number-fits : (resource : Resource) → gas_number resource < 2 ^ 48
gas_number-fits l1_gas = omega arith
gas_number-fits l2_gas = omega arith

module _ (field : Field) (laws : FieldLaws field) where
  -- The bounds of a resource, a u64 amount and a u128 price, are packed without loss and without a panic:
  -- the element is the resource's name, the amount and the price, each at its own bits, and zeros where
  -- the resource has no bounds.
  pub prepare_resource_bound_value_packs :
      (mapping : ResourceBoundsMapping) (resource : Resource)
      → FitsIn (mapping resource)
      → (fe : field.Fe) × (prepare_resource_bound_value field mapping resource ≡ some fe)
        × (laws.value_of fe
            ≡ gas_number resource * 2 ^ 192
              + amount (mapping resource) * 2 ^ 128
              + price (mapping resource))
  unfolding prepare_resource_bound_value
  prepare_resource_bound_value_packs mapping resource fits =
      let packed =
        laws.from_bytes_be-value (bounds_buffer mapping resource)
          (length-bounds_buffer mapping resource)
          (omega (
            arith,
            bounds_buffer-value mapping resource fits,
            gas_number-fits resource,
            amount-FitsIn (mapping resource) fits,
          )) in
      (packed.0, packed.1, packed.2 ∙ bounds_buffer-value mapping resource fits)

  -- The two modes are packed without a panic, the nonce's 32 bits above the fee's.
  pub prepare_data_availability_modes_packs :
      (nonce_mode fee_mode : DataAvailabilityMode)
      → (fe : field.Fe) × (prepare_data_availability_modes field nonce_mode fee_mode ≡ some fe)
        × (laws.value_of fe ≡ (mode_number nonce_mode * 2 ^ 32 + mode_number fee_mode) * 2 ^ 128)
  unfolding prepare_data_availability_modes
  prepare_data_availability_modes_packs l1 l1 =
      laws.from_bytes_be-value (modes_buffer l1 l1) refl (omega arith)
  prepare_data_availability_modes_packs l1 l2 =
      laws.from_bytes_be-value (modes_buffer l1 l2) refl (omega arith)
  prepare_data_availability_modes_packs l2 l1 =
      laws.from_bytes_be-value (modes_buffer l2 l1) refl (omega arith)
  prepare_data_availability_modes_packs l2 l2 =
      laws.from_bytes_be-value (modes_buffer l2 l2) refl (omega arith)

-- ===== src/Transaction/Intrinsic.antt =====
-- src/executor/intrinsic_gas.c: the gas that a transaction pays before it runs.
use div.Common.{
  ℕ, ◌+◌, ◌*◌, ◌/◌, ◌%◌, ◌^◌, ◌<◌, ◌≡◌, arith, Bool, true, false, List, [], ◌∷◌, ltb, ◌==◌,
  if◌then◌else◌, Bool-cases, inl, inr, length, u64,
}
use div.Transaction.{
  Transaction, AccessList, transaction_data, transaction_is_create, transaction_access_list,
}

abbrev pub gas_tx : ℕ
gas_tx = 21000

abbrev pub gas_create : ℕ
gas_create = 32000

abbrev pub gas_tx_data_zero : ℕ
gas_tx_data_zero = 4

abbrev pub gas_tx_data_non_zero : ℕ
gas_tx_data_non_zero = 16

abbrev pub gas_access_list_address : ℕ
gas_access_list_address = 2400

abbrev pub gas_access_list_storage_key : ℕ
gas_access_list_storage_key = 1900

-- The loop over the calldata.
unfoldable pub add_calldata_gas : List ℕ → ℕ → ℕ
add_calldata_gas [] gas = gas
add_calldata_gas (byte ∷ bytes) gas =
    add_calldata_gas bytes
      (u64 (gas + (if byte == 0 then gas_tx_data_zero else gas_tx_data_non_zero)))

unfoldable pub add_create_gas : Bool → ℕ → ℕ → ℕ
add_create_gas is_create size gas =
    if is_create
    then (let gas' = u64 (gas + gas_create) in
        if ltb 0 size then u64 (gas' + u64 (u64 (size + 31) / 32 * 2)) else gas')
    else gas

-- The loop over the access list.
unfoldable pub add_access_list_gas : AccessList → ℕ → ℕ
add_access_list_gas [] gas = gas
add_access_list_gas (entry ∷ entries) gas = add_access_list_gas entries (
    u64 (
      u64 (gas + gas_access_list_address)
      + u64 (length entry.storage_keys * gas_access_list_storage_key)))

unfoldable pub tx_intrinsic_gas : Transaction → ℕ
tx_intrinsic_gas tx = add_access_list_gas (transaction_access_list tx) (
    add_create_gas (transaction_is_create tx) (length (transaction_data tx))
      (add_calldata_gas (transaction_data tx) gas_tx))

abbrev pub zeros : List ℕ → ℕ
zeros [] = 0
zeros (byte ∷ bytes) = (if byte == 0 then 1 else 0) + zeros bytes

abbrev pub non_zeros : List ℕ → ℕ
non_zeros [] = 0
non_zeros (byte ∷ bytes) = (if byte == 0 then 0 else 1) + non_zeros bytes

abbrev pub total_keys : AccessList → ℕ
total_keys [] = 0
total_keys (entry ∷ entries) = length entry.storage_keys + total_keys entries

abbrev pub create_price : Bool → ℕ → ℕ
create_price is_create size = if is_create then 32000 + 2 * ((size + 31) / 32) else 0

-- The price of a transaction in exact numbers: its base, its bytes, the creation of a contract
-- with the words of its code, and the addresses and keys that it announces.
abbrev pub intrinsic_price : Transaction → ℕ
intrinsic_price tx =
    let bytes = transaction_data tx in
    let entries = transaction_access_list tx in
    21000
    + 4 * zeros bytes
    + 16 * non_zeros bytes
    + create_price (transaction_is_create tx) (length bytes)
    + 2400 * length entries
    + 1900 * total_keys entries

add_calldata_gas_exact :
    (bytes : List ℕ) (gas : ℕ)
    → gas < 2 ^ 64
    → add_calldata_gas bytes gas ≡ u64 (gas + 4 * zeros bytes + 16 * non_zeros bytes)
unfolding add_calldata_gas
add_calldata_gas_exact [] gas h = omega arith
add_calldata_gas_exact (byte ∷ bytes) gas h = elim (Bool-cases (byte == 0)) [
  | inl zero_byte ↦
      rw zero_byte (omega (arith, add_calldata_gas_exact bytes (u64 (gas + 4)) (omega arith)))
  | inr other ↦
      rw other (omega (arith, add_calldata_gas_exact bytes (u64 (gas + 16)) (omega arith)))
]

add_create_gas_exact :
    (is_create : Bool) (size gas : ℕ)
    → gas < 2 ^ 64
    → size < 2 ^ 63
    → add_create_gas is_create size gas ≡ u64 (gas + create_price is_create size)
unfolding add_create_gas
add_create_gas_exact true size gas h k = ground arith
add_create_gas_exact false size gas h k = omega arith

add_access_list_gas_exact :
    (entries : AccessList) (gas : ℕ)
    → gas < 2 ^ 64
    → add_access_list_gas entries gas
      ≡ u64 (gas + 2400 * length entries + 1900 * total_keys entries)
unfolding add_access_list_gas
add_access_list_gas_exact [] gas h = omega arith
add_access_list_gas_exact (entry ∷ entries) gas h = omega (
  arith,
  add_access_list_gas_exact entries
      (u64 (
        u64 (gas + gas_access_list_address)
        + u64 (length entry.storage_keys * gas_access_list_storage_key)))
      (omega arith),
)

-- For calldata of fewer than 2 ^ 63 bytes the function computes the exact price of the
-- transaction, reduced modulo 2 ^ 64.
pub tx_intrinsic_gas_exact :
    (tx : Transaction)
    → length (transaction_data tx) < 2 ^ 63
    → tx_intrinsic_gas tx ≡ intrinsic_price tx % 2 ^ 64
unfolding tx_intrinsic_gas
tx_intrinsic_gas_exact tx h =
    let bytes = transaction_data tx in
    let gas : ℕ = add_calldata_gas bytes gas_tx in
    let first = add_calldata_gas_exact bytes gas_tx (omega arith) in
    let second =
      add_create_gas_exact (transaction_is_create tx) (length bytes) gas (omega arith) h in
    omega (
      arith,
      first,
      second,
      add_access_list_gas_exact (transaction_access_list tx)
          (add_create_gas (transaction_is_create tx) (length bytes) gas) (omega arith),
    )

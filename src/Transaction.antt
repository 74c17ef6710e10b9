-- ===== src/Transaction.antt =====
-- include/div0/ethereum/transaction: the five types of transactions and their common view.
-- A pointer to an address that may be null is an option; an array with its count is a list.
pub mod Intrinsic
pub mod Price
use div.Common.{
  ℕ, ◌+◌, ◌-◌, ◌*◌, ◌/◌, Bool, true, false, ◌||◌, Option, none, some, List, [], ◌∷◌, leb, ◌==◌,
  if◌then◌else◌, length, u64,
}
use div.Types.Address.{Address, Hash}
use div.Uint256.{Uint256, u256_zero, add, lt}

pub record AccessListEntry : Type 0 where
  pub address : Address
  pub storage_keys : List Uint256

abbrev pub AccessList : Type 0
AccessList = List AccessListEntry

unfoldable pub access_list_total_keys : AccessList → ℕ
access_list_total_keys [] = 0
access_list_total_keys (entry ∷ entries) =
    u64 (length entry.storage_keys + access_list_total_keys entries)

pub record Authorization : Type 0 where
  pub chain_id : ℕ
  pub address : Address
  pub nonce : ℕ
  pub y_parity : ℕ
  pub r : Uint256
  pub s : Uint256

-- `v` is 27 or 28, or holds the chain identifier.
pub record LegacyTx : Type 0 where
  pub nonce : ℕ
  pub gas_price : Uint256
  pub gas_limit : ℕ
  pub to : Option Address
  pub value : Uint256
  pub payload : List ℕ
  pub v : ℕ
  pub r : Uint256
  pub s : Uint256

pub record Eip2930Tx : Type 0 where
  pub chain_id : ℕ
  pub nonce : ℕ
  pub gas_price : Uint256
  pub gas_limit : ℕ
  pub to : Option Address
  pub value : Uint256
  pub payload : List ℕ
  pub access_list : AccessList
  pub y_parity : ℕ
  pub r : Uint256
  pub s : Uint256

pub record Eip1559Tx : Type 0 where
  pub chain_id : ℕ
  pub nonce : ℕ
  pub max_priority_fee_per_gas : Uint256
  pub max_fee_per_gas : Uint256
  pub gas_limit : ℕ
  pub to : Option Address
  pub value : Uint256
  pub payload : List ℕ
  pub access_list : AccessList
  pub y_parity : ℕ
  pub r : Uint256
  pub s : Uint256

pub record Eip4844Tx : Type 0 where
  pub chain_id : ℕ
  pub nonce : ℕ
  pub max_priority_fee_per_gas : Uint256
  pub max_fee_per_gas : Uint256
  pub gas_limit : ℕ
  pub to : Address
  pub value : Uint256
  pub payload : List ℕ
  pub access_list : AccessList
  pub max_fee_per_blob_gas : Uint256
  pub blob_versioned_hashes : List Hash
  pub y_parity : ℕ
  pub r : Uint256
  pub s : Uint256

pub record Eip7702Tx : Type 0 where
  pub chain_id : ℕ
  pub nonce : ℕ
  pub max_priority_fee_per_gas : Uint256
  pub max_fee_per_gas : Uint256
  pub gas_limit : ℕ
  pub to : Address
  pub value : Uint256
  pub payload : List ℕ
  pub access_list : AccessList
  pub authorization_list : List Authorization
  pub y_parity : ℕ
  pub r : Uint256
  pub s : Uint256

-- The tag and the union.
pub data Transaction : Type 0 where
  legacy : LegacyTx → Transaction
  eip2930 : Eip2930Tx → Transaction
  eip1559 : Eip1559Tx → Transaction
  eip4844 : Eip4844Tx → Transaction
  eip7702 : Eip7702Tx → Transaction

unfoldable pub legacy_tx_chain_id : LegacyTx → Option ℕ
legacy_tx_chain_id tx =
    if (tx.v == 27) || (tx.v == 28)
    then none
    else if leb 35 tx.v
    then some ((tx.v - 35) / 2)
    else none

abbrev pub transaction_nonce : Transaction → ℕ
transaction_nonce (legacy tx) = tx.nonce
transaction_nonce (eip2930 tx) = tx.nonce
transaction_nonce (eip1559 tx) = tx.nonce
transaction_nonce (eip4844 tx) = tx.nonce
transaction_nonce (eip7702 tx) = tx.nonce

abbrev pub transaction_gas_limit : Transaction → ℕ
transaction_gas_limit (legacy tx) = tx.gas_limit
transaction_gas_limit (eip2930 tx) = tx.gas_limit
transaction_gas_limit (eip1559 tx) = tx.gas_limit
transaction_gas_limit (eip4844 tx) = tx.gas_limit
transaction_gas_limit (eip7702 tx) = tx.gas_limit

abbrev pub transaction_value : Transaction → Uint256
transaction_value (legacy tx) = tx.value
transaction_value (eip2930 tx) = tx.value
transaction_value (eip1559 tx) = tx.value
transaction_value (eip4844 tx) = tx.value
transaction_value (eip7702 tx) = tx.value

abbrev pub transaction_to : Transaction → Option Address
transaction_to (legacy tx) = tx.to
transaction_to (eip2930 tx) = tx.to
transaction_to (eip1559 tx) = tx.to
transaction_to (eip4844 tx) = some tx.to
transaction_to (eip7702 tx) = some tx.to

abbrev pub is_null : Option Address → Bool
is_null none = true
is_null (some a) = false

abbrev pub transaction_is_create : Transaction → Bool
transaction_is_create (legacy tx) = is_null tx.to
transaction_is_create (eip2930 tx) = is_null tx.to
transaction_is_create (eip1559 tx) = is_null tx.to
transaction_is_create (eip4844 tx) = false
transaction_is_create (eip7702 tx) = false

abbrev pub transaction_data : Transaction → List ℕ
transaction_data (legacy tx) = tx.payload
transaction_data (eip2930 tx) = tx.payload
transaction_data (eip1559 tx) = tx.payload
transaction_data (eip4844 tx) = tx.payload
transaction_data (eip7702 tx) = tx.payload

abbrev pub transaction_chain_id : Transaction → Option ℕ
transaction_chain_id (legacy tx) = legacy_tx_chain_id tx
transaction_chain_id (eip2930 tx) = some tx.chain_id
transaction_chain_id (eip1559 tx) = some tx.chain_id
transaction_chain_id (eip4844 tx) = some tx.chain_id
transaction_chain_id (eip7702 tx) = some tx.chain_id

-- The body that the three types with a priority fee share.
unfoldable pub tx_effective_gas_price : Uint256 → Uint256 → Uint256 → Uint256
tx_effective_gas_price max_fee_per_gas max_priority_fee_per_gas base_fee =
    let priority_price = add base_fee max_priority_fee_per_gas in
    if lt max_fee_per_gas priority_price then max_fee_per_gas else priority_price

abbrev pub transaction_effective_gas_price : Transaction → Uint256 → Uint256
transaction_effective_gas_price (legacy tx) base_fee = tx.gas_price
transaction_effective_gas_price (eip2930 tx) base_fee = tx.gas_price
transaction_effective_gas_price (eip1559 tx) base_fee =
    tx_effective_gas_price tx.max_fee_per_gas tx.max_priority_fee_per_gas base_fee
transaction_effective_gas_price (eip4844 tx) base_fee =
    tx_effective_gas_price tx.max_fee_per_gas tx.max_priority_fee_per_gas base_fee
transaction_effective_gas_price (eip7702 tx) base_fee =
    tx_effective_gas_price tx.max_fee_per_gas tx.max_priority_fee_per_gas base_fee

-- For the types without a priority fee this is the gas price.
abbrev pub transaction_max_fee_per_gas : Transaction → Uint256
transaction_max_fee_per_gas (legacy tx) = tx.gas_price
transaction_max_fee_per_gas (eip2930 tx) = tx.gas_price
transaction_max_fee_per_gas (eip1559 tx) = tx.max_fee_per_gas
transaction_max_fee_per_gas (eip4844 tx) = tx.max_fee_per_gas
transaction_max_fee_per_gas (eip7702 tx) = tx.max_fee_per_gas

-- A null pointer is the empty list, which the callers treat alike.
abbrev pub transaction_access_list : Transaction → AccessList
transaction_access_list (legacy tx) = []
transaction_access_list (eip2930 tx) = tx.access_list
transaction_access_list (eip1559 tx) = tx.access_list
transaction_access_list (eip4844 tx) = tx.access_list
transaction_access_list (eip7702 tx) = tx.access_list

abbrev pub get_blob_hashes : Transaction → List Hash
get_blob_hashes (legacy tx) = []
get_blob_hashes (eip2930 tx) = []
get_blob_hashes (eip1559 tx) = []
get_blob_hashes (eip4844 tx) = tx.blob_versioned_hashes
get_blob_hashes (eip7702 tx) = []

abbrev pub gas_per_blob : ℕ
gas_per_blob = 131072

abbrev pub get_blob_gas : Transaction → ℕ
get_blob_gas (legacy tx) = 0
get_blob_gas (eip2930 tx) = 0
get_blob_gas (eip1559 tx) = 0
get_blob_gas (eip4844 tx) = u64 (length tx.blob_versioned_hashes * gas_per_blob)
get_blob_gas (eip7702 tx) = 0

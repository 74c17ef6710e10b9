-- ===== src/State/World.antt =====
-- include/div0/state/world_state.h and src/state/world_state.c: the state of the accounts. The
-- account under an address is in the state trie, under the hash of the address, in its encoding.
pub mod Storage
pub mod Table
pub mod Accounts
pub mod Lawful
pub mod Nonces
pub mod Slots
pub mod Originals
pub mod Code
pub mod Erase
pub mod Root
use div.Common.{
  ℕ, suc, zero, ◌+◌, ◌-◌, Bool, true, false, not, Option, none, some, List, [], ◌∷◌, leb, ltb, ◌==◌,
  if◌then◌else◌, length, u64, u64_max,
}
use div.Types.Address.{Address, Hash, address_equal}
use div.Uint256.{Uint256, is_zero, add, sub, lt}
use div.Uint256.Bytes.{to_bytes_be}
use div.State.Account.{
  Account, account_empty, account_is_empty, empty_code_hash, account_rlp_encode, account_rlp_decode,
}
use div.State.Stores.{Stores, SlotKey}

pub record WorldState (e : Stores) : Type 0 where
  pub state_trie : e.Trie
  pub storage_tries : e.Tries
  pub code_store : e.Codes
  pub warm_addresses : e.Addresses
  pub warm_slots : e.Slots
  pub original_storage : e.Originals
  pub dirty_storage : e.Addresses
  pub all_accounts : e.Addresses
  pub all_storage_slots : e.Slots
  pub snapshot_counter : ℕ

abbrev pub is_some {ℓ} : {A : Type ℓ} → Option A → Bool
is_some none = false
is_some (some value) = true

-- The keys of the address among the first ones, at most `room` of them, and whether there are more.
unfoldable pub collect : ℕ → Address → List SlotKey → List SlotKey × Bool
collect room addr [] = ([], false)
collect zero addr (key ∷ keys) =
    if address_equal key.addr addr then ([], true) else collect zero addr keys
collect (suc room) addr (key ∷ keys) =
    let next = collect room addr keys in
    let rest = collect (suc room) addr keys in
    if address_equal key.addr addr then (key ∷ next.0, next.1) else rest

module _ (e : Stores) where
  unfoldable pub erase_keys : List SlotKey → e.Slots → e.Slots
  erase_keys [] all_slots = all_slots
  erase_keys (key ∷ keys) all_slots = erase_keys keys (e.slots.erase key all_slots)

  -- The rounds of the loop, each with a buffer of 64 keys; `none` is a loop that has not ended
  -- within the fuel.
  unfoldable pub erase_rounds : ℕ → Address → e.Slots → Option e.Slots
  erase_rounds zero addr all_slots = none
  erase_rounds (suc rounds) addr all_slots =
      let found = collect 64 addr (e.slots.elements all_slots) in
      let erased = erase_keys found.0 all_slots in
      let rest = erase_rounds rounds addr erased in if found.1 then rest else some erased

  -- The set at the end of the loop. Without an end there is none, and the set as it was stands for
  -- it; `Erase` shows that this does not happen in `erase_slots_for_address`.
  abbrev pub erased_or : e.Slots → Option e.Slots → e.Slots
  erased_or all_slots none = all_slots
  erased_or all_slots (some erased) = erased

  -- Each round but the last erases keys, so that there are no more rounds than keys, and one.
  unfoldable pub erase_slots_for_address : Address → e.Slots → e.Slots
  erase_slots_for_address addr all_slots =
      erased_or all_slots (erase_rounds (length (e.slots.elements all_slots) + 1) addr all_slots)

  abbrev pub address_to_key : Address → Hash
  address_to_key addr = e.keccak256 addr

  abbrev pub slot_to_key : Uint256 → Hash
  slot_to_key slot = e.keccak256 (to_bytes_be slot)

  abbrev pub decoded : Option (List ℕ) → Option Account
  decoded none = none
  decoded (some value) = account_rlp_decode value

  -- `none` is the answer false, with an empty account.
  unfoldable pub get_account : Address → WorldState e → Option Account
  get_account addr ws = decoded (e.mpt.get (address_to_key addr) ws.state_trie)

  unfoldable pub set_account : Address → Account → WorldState e → Bool × WorldState e
  set_account addr acc ws =
      if account_is_empty acc
      then (
        true,
        record ws {
          state_trie = e.mpt.delete (address_to_key addr) ws.state_trie;
          all_accounts = e.addresses.erase addr ws.all_accounts;
          all_storage_slots = erase_slots_for_address addr ws.all_storage_slots;
        },
      )
      else (let ws' = record ws { all_accounts = e.addresses.insert addr ws.all_accounts } in
          let encoded = account_rlp_encode e.alloc acc in
          if not encoded.allocated then (false, ws') else (
            true,
            record ws' {
              state_trie = e.mpt.insert (address_to_key addr) encoded.stored ws'.state_trie;
            },
          ))

  -- The callers do not look at the answer.
  abbrev pub set_account! : Address → Account → WorldState e → WorldState e
  set_account! addr acc ws = (set_account addr acc ws).1

  abbrev pub or_empty : Option Account → Account
  or_empty none = account_empty
  or_empty (some acc) = acc

  unfoldable pub ws_account_exists : Address → WorldState e → Bool
  ws_account_exists addr ws = is_some (e.mpt.get (address_to_key addr) ws.state_trie)

  unfoldable pub ws_account_is_empty : Address → WorldState e → Bool
  ws_account_is_empty addr ws = elim (get_account addr ws) [
    | none ↦ true
    | some acc ↦ account_is_empty acc
  ]

  unfoldable pub ws_create_contract : Address → WorldState e → WorldState e
  ws_create_contract addr ws =
      if ws_account_exists addr ws
      then ws
      else set_account! addr (record account_empty { nonce = 1 }) ws

  unfoldable pub ws_delete_account : Address → WorldState e → WorldState e
  ws_delete_account addr ws = record ws {
    state_trie = e.mpt.delete (address_to_key addr) ws.state_trie;
    storage_tries = e.tries.erase addr ws.storage_tries;
    code_store = e.codes.erase addr ws.code_store;
  }

  abbrev pub ws_get_balance : Address → WorldState e → Uint256
  ws_get_balance addr ws = (or_empty (get_account addr ws)).balance

  unfoldable pub ws_set_balance : Address → Uint256 → WorldState e → WorldState e
  ws_set_balance addr balance ws =
      set_account! addr (record (or_empty (get_account addr ws)) { balance = balance }) ws

  unfoldable pub ws_add_balance : Address → Uint256 → WorldState e → Bool × WorldState e
  ws_add_balance addr amount ws =
      let acc = or_empty (get_account addr ws) in
      let new_balance = add acc.balance amount in
      if lt new_balance acc.balance
      then (false, ws)
      else (true, set_account! addr (record acc { balance = new_balance }) ws)

  abbrev pub sub_from : Address → Uint256 → Option Account → WorldState e → Bool × WorldState e
  sub_from addr amount none ws = (is_zero amount, ws)
  sub_from addr amount (some acc) ws =
      if lt acc.balance amount
      then (false, ws)
      else (true, set_account! addr (record acc { balance = sub acc.balance amount }) ws)

  unfoldable pub ws_sub_balance : Address → Uint256 → WorldState e → Bool × WorldState e
  ws_sub_balance addr amount ws = sub_from addr amount (get_account addr ws) ws

  abbrev pub ws_get_nonce : Address → WorldState e → ℕ
  ws_get_nonce addr ws = (or_empty (get_account addr ws)).nonce

  unfoldable pub ws_set_nonce : Address → ℕ → WorldState e → WorldState e
  ws_set_nonce addr nonce ws =
      set_account! addr (record (or_empty (get_account addr ws)) { nonce = nonce }) ws

  unfoldable pub ws_increment_nonce : Address → WorldState e → ℕ × WorldState e
  ws_increment_nonce addr ws =
      let acc = or_empty (get_account addr ws) in
      if leb (u64_max - 1) acc.nonce
      then (acc.nonce, ws)
      else (acc.nonce, set_account! addr (record acc { nonce = u64 (acc.nonce + 1) }) ws)

  abbrev pub bytes_or_empty : Option (List ℕ) → List ℕ
  bytes_or_empty none = []
  bytes_or_empty (some code) = code

  abbrev pub ws_get_code : Address → WorldState e → List ℕ
  ws_get_code addr ws = bytes_or_empty (e.codes.get addr ws.code_store)

  abbrev pub ws_get_code_size : Address → WorldState e → ℕ
  ws_get_code_size addr ws = length (ws_get_code addr ws)

  abbrev pub ws_get_code_hash : Address → WorldState e → Hash
  ws_get_code_hash addr ws = (or_empty (get_account addr ws)).code_hash

  -- The code is copied as far as the arena has room.
  abbrev pub copied : List ℕ → List ℕ
  copied code = if ltb 0 (length code) then (if e.alloc (length code) then code else []) else []

  abbrev pub hash_of_code : List ℕ → Hash
  hash_of_code code = if length code == 0 then empty_code_hash else e.keccak256 code

  unfoldable pub ws_set_code : Address → List ℕ → WorldState e → WorldState e
  ws_set_code addr code ws =
      let ws' = record ws { code_store = e.codes.insert addr (copied code) ws.code_store } in
      set_account! addr (record (or_empty (get_account addr ws')) { code_hash = hash_of_code code })
        ws'

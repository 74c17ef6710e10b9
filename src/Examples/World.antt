-- ===== src/Examples/World.antt =====
-- The world state at concrete inputs.
use div.Common.{ℕ, ◌≡◌, refl, arith, false, none, some, List, [], ◌∷◌, if◌then◌else◌, replicate}
use div.Types.Address.{Address, address_equal}
use div.Uint256.{Uint256, from_u64, u256_zero}
use div.State.Stores.{SlotKey, warm_slot_key_eq, kept_or}
use div.State.World.{
  WorldState, get_account, ws_get_code, ws_get_code_hash, ws_set_code, hash_of_code,
}
use div.State.World.{erase_slots_for_address, erase_rounds}
use div.State.World.Erase.{erase_slots_for_address-erases}
use div.State.Account.{Account, account_empty}
use div.State.World.{set_account! }
use div.State.World.Storage.{world_state_root}
use div.State.World.Accounts.{HasAccounts-set_account}
use div.State.World.Root.{rooted, world_state_root-Rooted}
use div.State.World.Code.{ws_get_code-ws_set_code}
use div.State.World.Storage.{
  ws_get_storage, ws_set_storage, ws_get_original_storage, ws_begin_transaction,
}
use div.State.World.Accounts.{HasAccounts}
use div.Examples.Tables.{tables, tables-IsStores, tables-HasDistinctKeys}
use div.State.World.Originals.{write_all, ws_get_original_storage-write_all}
use div.State.World.Slots.{slot_key, ws_get_storage-ws_set_storage}

abbrev nothing_yet : WorldState tables
nothing_yet = record {
  state_trie = λ j. none;
  storage_tries = λ a. none;
  code_store = λ a. none;
  warm_addresses = [];
  warm_slots = [];
  original_storage = λ k. none;
  dirty_storage = [];
  all_accounts = [];
  all_storage_slots = [];
  snapshot_counter = 0;
}

abbrev vault : Address
vault = replicate 20 9

ws_get_storage-ws_set_storage_example :
    ws_get_storage tables vault
      (from_u64 1)
      (ws_set_storage tables vault (from_u64 1) (from_u64 500) nothing_yet)
    ≡ (if warm_slot_key_eq (slot_key vault (from_u64 1)) (slot_key vault (from_u64 1))
        then from_u64 500
        else ws_get_storage tables vault (from_u64 1) nothing_yet)
ws_get_storage-ws_set_storage_example =
    ws_get_storage-ws_set_storage tables tables-IsStores vault vault (from_u64 1) (from_u64 1)
      (from_u64 500) nothing_yet (λ e. refl) (omega arith)

-- Two writes to one slot.
abbrev two_writes : List (SlotKey × Uint256)
two_writes =
    (slot_key vault (from_u64 1), from_u64 8) ∷ (slot_key vault (from_u64 1), u256_zero) ∷ []

abbrev written_once : WorldState tables
written_once = ws_set_storage tables vault (from_u64 1) (from_u64 500) nothing_yet

ws_get_original_storage-write_all_example :
    ws_get_original_storage tables vault
      (from_u64 1)
      (write_all tables two_writes (ws_begin_transaction tables written_once))
    ≡ ws_get_storage tables vault (from_u64 1) written_once
ws_get_original_storage-write_all_example =
    ws_get_original_storage-write_all tables tables-IsStores two_writes vault (from_u64 1)
      written_once (((λ e. refl), omega arith), (((λ e. refl), omega arith), tt))

abbrev old_code : List ℕ
old_code = 0x60 ∷ 0 ∷ []

-- A contract with a code.
abbrev deployed : WorldState tables
deployed = record nothing_yet {
  code_store = λ a. if address_equal vault a then some old_code else none;
}

deployed-HasAccounts : HasAccounts tables deployed
unfolding get_account
deployed-HasAccounts b acc e = cc

ws_get_code-ws_set_code_example :
    (ws_get_code tables vault (ws_set_code tables vault (0 ∷ []) deployed) ≡ (
      if address_equal vault vault
      then kept_or (tables.codes.get vault deployed.code_store) (0 ∷ [])
      else ws_get_code tables vault deployed))
    × (ws_get_code_hash tables vault (ws_set_code tables vault (0 ∷ []) deployed)
        ≡ hash_of_code tables (0 ∷ []))
ws_get_code-ws_set_code_example =
    ws_get_code-ws_set_code tables tables-IsStores vault vault (0 ∷ []) deployed
      deployed-HasAccounts refl

abbrev one_slot : List SlotKey
one_slot = slot_key vault (from_u64 1) ∷ []

erase_slots_for_address-erases_example :
    (erase_rounds tables 2 vault one_slot ≡ some (erase_slots_for_address tables vault one_slot))
    × ((k : SlotKey)
        → tables.slots.contains k (erase_slots_for_address tables vault one_slot)
          ≡ (if address_equal k.addr vault then false else tables.slots.contains k one_slot))
erase_slots_for_address-erases_example =
    erase_slots_for_address-erases tables tables-IsStores vault one_slot

abbrev contract : Account
contract = record account_empty { nonce = 1 }

-- A contract whose storage has changed.
abbrev changed : WorldState tables
changed = record (set_account! tables vault contract nothing_yet) {
  storage_tries = λ a. some (λ j. none);
  dirty_storage = vault ∷ [];
}

nothing-HasAccounts : HasAccounts tables nothing_yet
unfolding get_account
nothing-HasAccounts b acc e = cc

changed-HasAccounts : HasAccounts tables changed
unfolding get_account
changed-HasAccounts =
    HasAccounts-set_account tables tables-IsStores vault contract nothing_yet
      (record {
        nonce = omega arith;
        balance = (omega arith, omega arith, omega arith, omega arith);
        storage_root = refl;
        code_hash = refl;
      })
      nothing-HasAccounts

world_state_root-Rooted_example :
    (get_account tables vault (world_state_root tables changed).1 ≡ (
      if tables.addresses.contains vault changed.dirty_storage
      then rooted tables
          (tables.tries.get vault changed.storage_tries)
          (get_account tables vault changed)
      else get_account tables vault changed))
    × (tables.addresses.contains vault (world_state_root tables changed).1.dirty_storage ≡ false)
    × ((world_state_root tables changed).0
        ≡ tables.mpt.root_hash (world_state_root tables changed).1.state_trie)
world_state_root-Rooted_example =
    world_state_root-Rooted tables tables-IsStores tables-HasDistinctKeys vault changed (refl, tt)
      refl changed-HasAccounts

-- ===== src/State/World/Storage.antt =====
-- src/state/world_state.c: storage, the warm sets, snapshots and the root of the state.
use div.Common.{
  ℕ, ◌+◌, Bool, true, false, Option, none, some, List, [], ◌∷◌, ◌==◌, if◌then◌else◌, length, u64,
}
use div.Types.Address.{Address, Hash}
use div.Uint256.{Uint256, u256_zero, is_zero}
use div.Uint256.Bytes.{to_bytes_be, from_bytes_be}
use div.Rlp.Words.{strip_zeros}
use div.State.Stores.{Stores, SlotKey}
use div.State.World.{WorldState, is_some, slot_to_key, get_account, set_account!, or_empty}

module _ (e : Stores) where
  -- From the trie in the table, if any, and a new one, if the arena has room.
  abbrev pub opened :
      Address → WorldState e → Option e.Trie → Option e.Trie → Option e.Trie × WorldState e
  opened addr ws (some storage) created = (some storage, ws)
  opened addr ws none none = (none, ws)
  opened addr ws none (some storage) =
      (some storage, record ws { storage_tries = e.tries.insert addr storage ws.storage_tries })

  -- `none` is a null pointer.
  unfoldable pub get_storage_trie : Address → WorldState e → Option e.Trie × WorldState e
  get_storage_trie addr ws = opened addr ws (e.tries.get addr ws.storage_tries) e.mpt.create

  abbrev pub word_of : Option (List ℕ) → Uint256
  word_of none = u256_zero
  word_of (some value) = if length value == 0 then u256_zero else from_bytes_be value

  abbrev pub slot_of : Uint256 → Option e.Trie → Uint256
  slot_of slot none = u256_zero
  slot_of slot (some storage) = word_of (e.mpt.get (slot_to_key e slot) storage)

  unfoldable pub ws_get_storage : Address → Uint256 → WorldState e → Uint256
  ws_get_storage addr slot ws = slot_of slot (e.tries.get addr ws.storage_tries)

  abbrev pub or_current : Option Uint256 → Uint256 → Uint256
  or_current none current = current
  or_current (some original) current = original

  unfoldable pub ws_get_original_storage : Address → Uint256 → WorldState e → Uint256
  ws_get_original_storage addr slot ws =
      or_current (e.originals.get (record { addr = addr; slot = slot }) ws.original_storage)
        (ws_get_storage addr slot ws)

  abbrev pub changed_slot : Uint256 → Uint256 → e.Trie → e.Trie
  changed_slot slot value storage =
      if is_zero value
      then e.mpt.delete (slot_to_key e slot) storage
      else e.mpt.insert (slot_to_key e slot) (strip_zeros (to_bytes_be value)) storage

  -- The trie is changed through the pointer in the table.
  abbrev pub write_slot : Address → Uint256 → Uint256 → Option e.Trie × WorldState e → WorldState e
  write_slot addr slot value (none, ws) = ws
  write_slot addr slot value (some storage, ws) = record ws {
    storage_tries = e.tries.write addr (changed_slot slot value storage) ws.storage_tries;
  }

  -- The first value of the slot in the transaction is kept, and the sets follow the write.
  abbrev pub ws_tracked : Address → Uint256 → Uint256 → WorldState e → WorldState e
  ws_tracked addr slot value ws =
      let slot_key : SlotKey = record { addr = addr; slot = slot } in
      record ws {
        original_storage =
            if is_some (e.originals.get slot_key ws.original_storage)
            then ws.original_storage
            else e.originals.insert slot_key (ws_get_storage addr slot ws) ws.original_storage;
        dirty_storage = e.addresses.insert addr ws.dirty_storage;
        all_storage_slots =
            if is_zero value
            then e.slots.erase slot_key ws.all_storage_slots
            else e.slots.insert slot_key ws.all_storage_slots;
      }

  -- The source does not test whether there is a new trie, and would follow a null pointer where
  -- `write_slot` leaves the state.
  unfoldable pub ws_set_storage : Address → Uint256 → Uint256 → WorldState e → WorldState e
  ws_set_storage addr slot value ws =
      write_slot addr slot value (get_storage_trie addr (ws_tracked addr slot value ws))

  abbrev pub ws_is_address_warm : Address → WorldState e → Bool
  ws_is_address_warm addr ws = e.addresses.contains addr ws.warm_addresses

  unfoldable pub ws_warm_address : Address → WorldState e → Bool × WorldState e
  ws_warm_address addr ws =
      if e.addresses.contains addr ws.warm_addresses
      then (false, ws)
      else (true, record ws { warm_addresses = e.addresses.insert addr ws.warm_addresses })

  abbrev pub ws_is_slot_warm : Address → Uint256 → WorldState e → Bool
  ws_is_slot_warm addr slot ws =
      e.slots.contains (record { addr = addr; slot = slot }) ws.warm_slots

  unfoldable pub ws_warm_slot : Address → Uint256 → WorldState e → Bool × WorldState e
  ws_warm_slot addr slot ws =
      let key : SlotKey = record { addr = addr; slot = slot } in
      if e.slots.contains key ws.warm_slots
      then (false, ws)
      else (true, record ws { warm_slots = e.slots.insert key ws.warm_slots })

  unfoldable pub ws_begin_transaction : WorldState e → WorldState e
  ws_begin_transaction ws = record ws {
    warm_addresses = e.addresses.clear ws.warm_addresses;
    warm_slots = e.slots.clear ws.warm_slots;
    original_storage = e.originals.clear ws.original_storage;
  }

  unfoldable pub ws_snapshot : WorldState e → ℕ × WorldState e
  ws_snapshot ws =
      let counter = u64 (ws.snapshot_counter + 1) in
      (counter, record ws { snapshot_counter = counter })

  abbrev pub ws_revert_to_snapshot : ℕ → WorldState e → WorldState e
  ws_revert_to_snapshot snapshot_id ws = ws

  abbrev pub ws_commit_snapshot : ℕ → WorldState e → WorldState e
  ws_commit_snapshot snapshot_id ws = ws

  -- The account of an address whose storage has changed gets the root of its trie.
  abbrev pub update_root : Address → Option e.Trie → WorldState e → WorldState e
  update_root addr none ws = ws
  update_root addr (some storage) ws =
      set_account! e addr
        (record (or_empty e (get_account e addr ws)) { storage_root = e.mpt.root_hash storage }) ws

  -- The loop over the addresses.
  unfoldable pub update_roots : List Address → WorldState e → WorldState e
  update_roots [] ws = ws
  update_roots (addr ∷ addrs) ws =
      update_roots addrs (update_root addr (e.tries.get addr ws.storage_tries) ws)

  unfoldable pub world_state_root : WorldState e → Hash × WorldState e
  world_state_root ws =
      let ws' = update_roots (e.addresses.elements ws.dirty_storage) ws in
      (
        e.mpt.root_hash ws'.state_trie,
        record ws' { dirty_storage = e.addresses.clear ws'.dirty_storage },
      )

  unfoldable pub world_state_clear : WorldState e → WorldState e
  world_state_clear ws = record ws {
    state_trie = e.mpt.clear ws.state_trie;
    storage_tries = e.tries.clear ws.storage_tries;
    code_store = e.codes.clear ws.code_store;
    warm_addresses = e.addresses.clear ws.warm_addresses;
    warm_slots = e.slots.clear ws.warm_slots;
    original_storage = e.originals.clear ws.original_storage;
    dirty_storage = e.addresses.clear ws.dirty_storage;
    all_accounts = e.addresses.clear ws.all_accounts;
    all_storage_slots = e.slots.clear ws.all_storage_slots;
  }

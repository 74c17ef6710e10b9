-- ===== src/State/World/Table.antt =====
-- src/state/world_state.c: the table of functions of the world state.
use div.State.Access.{StateAccess}
use div.State.Stores.{Stores}
use div.State.World.{
  WorldState, ws_account_exists, ws_account_is_empty, ws_create_contract, ws_delete_account,
  ws_get_balance, ws_set_balance, ws_add_balance, ws_sub_balance, ws_get_nonce, ws_set_nonce,
  ws_increment_nonce, ws_get_code, ws_get_code_size, ws_get_code_hash, ws_set_code,
}
use div.State.World.Storage.{
  ws_get_storage, ws_get_original_storage, ws_set_storage, ws_is_address_warm, ws_warm_address,
  ws_is_slot_warm, ws_warm_slot, ws_begin_transaction, ws_snapshot, ws_revert_to_snapshot,
  ws_commit_snapshot, world_state_root,
}

abbrev pub world_access : (e : Stores) → StateAccess (WorldState e)
world_access e = record {
  account_exists = ws_account_exists e;
  account_is_empty = ws_account_is_empty e;
  create_contract = ws_create_contract e;
  delete_account = ws_delete_account e;
  get_balance = ws_get_balance e;
  set_balance = ws_set_balance e;
  add_balance = ws_add_balance e;
  sub_balance = ws_sub_balance e;
  get_nonce = ws_get_nonce e;
  set_nonce = ws_set_nonce e;
  increment_nonce = ws_increment_nonce e;
  get_code = ws_get_code e;
  get_code_size = ws_get_code_size e;
  get_code_hash = ws_get_code_hash e;
  set_code = ws_set_code e;
  get_storage = ws_get_storage e;
  get_original_storage = ws_get_original_storage e;
  set_storage = ws_set_storage e;
  is_address_warm = ws_is_address_warm e;
  warm_address = ws_warm_address e;
  is_slot_warm = ws_is_slot_warm e;
  warm_slot = ws_warm_slot e;
  begin_transaction = ws_begin_transaction e;
  snapshot = ws_snapshot e;
  revert_to_snapshot = ws_revert_to_snapshot e;
  commit_snapshot = ws_commit_snapshot e;
  state_root = world_state_root e;
}

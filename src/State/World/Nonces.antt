-- ===== src/State/World/Nonces.antt =====
-- Changes of nonces: incrementing and setting one, and the account of a new contract.
use div.Common.{
  ℕ, ◌+◌, ◌-◌, ◌≡◌, refl, ◌∙◌, arith, true, false, Option, none, some, List, Bool-cases, inl, inr,
  if◌then◌else◌, ltb, leb, u64, u64_max, ltb→lt, IsU64,
}
use div.Types.Address.{Address, IsAddress}
use div.Uint256.{u256_zero}
use div.State.Account.{Account, account_empty}
use div.State.Account.RoundTrip.{IsAccount}
use div.State.Access.{OtherNonces, SameBalances, SameCodes}
use div.State.Stores.{Stores, IsStores, HasDistinctKeys}
use div.State.World.{
  WorldState, get_account, or_empty, ws_get_balance, ws_get_nonce, ws_increment_nonce,
  ws_create_contract, ws_set_nonce, ws_account_exists, address_to_key, decoded, is_some,
}
use div.State.World.Table.{world_access}
use div.State.World.Accounts.{
  HasAccounts, HasAccounts-set_account, set_account-OnlyNonce, or_empty-IsAccount,
}

-- The account of a new contract.
abbrev contract : Account
contract = record account_empty { nonce = 1 }

contract-IsAccount : IsAccount contract
contract-IsAccount = record {
  nonce = omega arith;
  balance = (omega arith, omega arith, omega arith, omega arith);
  storage_root = refl;
  code_hash = refl;
}

module _ (e : Stores) (is : IsStores e) (keys : HasDistinctKeys e) where
  pub increment :
      (a : Address) (ws : WorldState e)
      → HasAccounts e ws
      → IsAddress a
      → ((ws_increment_nonce e a ws).0 ≡ ws_get_nonce e a ws)
        × SameBalances (world_access e) ws (ws_increment_nonce e a ws).1
        × (ws_get_nonce e a (ws_increment_nonce e a ws).1 ≡ (
            if ltb (ws_get_nonce e a ws) (u64_max - 1)
            then ws_get_nonce e a ws + 1
            else ws_get_nonce e a ws))
        × OtherNonces (world_access e) a ws (ws_increment_nonce e a ws).1
        × HasAccounts e (ws_increment_nonce e a ws).1
        × SameCodes (world_access e) ws (ws_increment_nonce e a ws).1
  unfolding ws_increment_nonce
  increment a ws h p =
      let acc : Account = or_empty e (get_account e a ws) in
      let w = or_empty-IsAccount e is a ws h in
      elim (Bool-cases (leb (u64_max - 1) acc.nonce)) [
        | inl full ↦
            let stop : ltb acc.nonce (u64_max - 1) ≡ false = ground (arith, full) in
            rw (full, stop) (refl, (λ b q. refl), refl, (λ b q apart. refl), h, λ b. refl)
        | inr room ↦
            let go : ltb acc.nonce (u64_max - 1) ≡ true = ground (arith, room) in
            let exact : u64 (acc.nonce + 1) ≡ acc.nonce + 1 = omega (arith, ltb→lt _ _ go) in
            let next : Account = record acc { nonce = u64 (acc.nonce + 1) } in
            let next_account : IsAccount next = record {
              nonce = omega arith;
              balance = w.balance;
              storage_root = w.storage_root;
              code_hash = w.code_hash;
            } in
            let changed = set_account-OnlyNonce e is keys a next ws p next_account refl in
            rw (room, go)
              (
                refl,
                changed.0,
                changed.1 ∙ exact,
                changed.2,
                HasAccounts-set_account e is a next ws next_account h,
                changed.3,
              )
      ]

  pub create :
      (a : Address) (ws : WorldState e)
      → HasAccounts e ws
      → IsAddress a
      → SameBalances (world_access e) ws (ws_create_contract e a ws)
        × (ws_get_nonce e a (ws_create_contract e a ws)
            ≡ (if ws_account_exists e a ws then ws_get_nonce e a ws else 1))
        × OtherNonces (world_access e) a ws (ws_create_contract e a ws)
        × HasAccounts e (ws_create_contract e a ws)
        × SameCodes (world_access e) ws (ws_create_contract e a ws)
  unfolding ws_create_contract ws_account_exists get_account
  create a ws h p = elim (Bool-cases (is_some (e.mpt.get (address_to_key e a) ws.state_trie))) [
    | inl present ↦ rw present ((λ b q. refl), refl, (λ b q apart. refl), h, λ b. refl)
    | inr missing ↦
        let no_balance : u256_zero ≡ ws_get_balance e a ws =
          nothing_stored (e.mpt.get (address_to_key e a) ws.state_trie) missing in
        let changed =
          set_account-OnlyNonce e is keys a contract ws p contract-IsAccount no_balance in
        let valid = HasAccounts-set_account e is a contract ws contract-IsAccount h in
        rw missing (changed.0, changed.1, changed.2, valid, changed.3)
  ]
    where
      nothing_stored :
          (found : Option (List ℕ))
          → is_some found ≡ false
          → u256_zero ≡ (or_empty e (decoded e found)).balance
      nothing_stored none missing = refl
      nothing_stored (some bytes) missing = cc

  pub set_nonce :
      (a : Address) (n : ℕ) (ws : WorldState e)
      → HasAccounts e ws
      → IsAddress a
      → IsU64 n
      → SameBalances (world_access e) ws (ws_set_nonce e a n ws)
        × (ws_get_nonce e a (ws_set_nonce e a n ws) ≡ n)
        × OtherNonces (world_access e) a ws (ws_set_nonce e a n ws)
        × HasAccounts e (ws_set_nonce e a n ws)
        × SameCodes (world_access e) ws (ws_set_nonce e a n ws)
  unfolding ws_set_nonce
  set_nonce a n ws h p small =
      let w = or_empty-IsAccount e is a ws h in
      let next : Account = record (or_empty e (get_account e a ws)) { nonce = n } in
      let next_account : IsAccount next = record {
        nonce = small;
        balance = w.balance;
        storage_root = w.storage_root;
        code_hash = w.code_hash;
      } in
      let changed = set_account-OnlyNonce e is keys a next ws p next_account refl in
      let valid = HasAccounts-set_account e is a next ws next_account h in
      (changed.0, changed.1, changed.2, valid, changed.3)

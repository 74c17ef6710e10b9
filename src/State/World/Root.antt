-- ===== src/State/World/Root.antt =====
-- The root of the state: the accounts of the changed addresses get the roots of their storage.
use div.Common.{
  ◌≡◌, ◌≢◌, refl, sym, ap, ◌∙◌, true, false, Option, none, some, List, [], ◌∷◌, Bool-cases, inl,
  inr, if◌then◌else◌, All,
}
use div.Types.Address.{Address, IsAddress, address_equal, address_equal_iff}
use div.Uint256.{is_zero}
use div.State.Account.{Account, account_is_empty, account_rlp_encode}
use div.State.Account.RoundTrip.{IsAccount}
use div.State.Stores.{Stores, IsStores, HasDistinctKeys, listed}
use div.State.World.{WorldState, get_account, set_account, or_empty}
use div.State.World.Storage.{update_root, update_roots, world_state_root}
use div.State.World.Accounts.{
  HasAccounts, kept, same_key, get_account-set_account, HasAccounts-set_account, or_empty-IsAccount,
  same_key_self, same_key_other,
}

module _ (e : Stores) where
  -- The account under a new root.
  abbrev pub rooted : Option e.Trie → Option Account → Option Account
  rooted none found = found
  rooted (some storage) found =
      kept (record (or_empty e found) { storage_root = e.mpt.root_hash storage })

  tries-set_account :
      (a : Address) (acc : Account) (ws : WorldState e)
      → (set_account e a acc ws).1.storage_tries ≡ ws.storage_tries
  unfolding set_account
  tries-set_account a acc ws = elim (Bool-cases (account_is_empty acc)) [
    | inl empty ↦ rw empty refl
    | inr more ↦ elim (Bool-cases (account_rlp_encode e.alloc acc).allocated) [
      | inl room ↦ rw (more, room) refl
      | inr full ↦ rw (more, full) refl
    ]
  ]

  tries-update_root :
      (a : Address) (found : Option e.Trie) (ws : WorldState e)
      → (update_root e a found ws).storage_tries ≡ ws.storage_tries
  tries-update_root a none ws = refl
  tries-update_root a (some storage) ws =
      tries-set_account a
        (record (or_empty e (get_account e a ws)) { storage_root = e.mpt.root_hash storage }) ws

  rooted-none : (storage : e.Trie) → rooted (some storage) none ≡ none
  unfolding account_is_empty is_zero address_equal
  rooted-none storage = refl

  rooted-rooted :
      (found : Option e.Trie) (acc : Option Account)
      → rooted found (rooted found acc) ≡ rooted found acc
  rooted-rooted none acc = refl
  rooted-rooted (some storage) acc =
      let new : Account = record (or_empty e acc) { storage_root = e.mpt.root_hash storage } in
      elim (Bool-cases (account_is_empty new)) [
        | inl empty ↦
            let nothing : kept new ≡ none = rw empty refl in
            ap (rooted (some storage)) nothing ∙ rooted-none storage ∙ sym nothing
        | inr more ↦
            let stored : kept new ≡ some new = rw more refl in ap (rooted (some storage)) stored
      ]

  module _ (is : IsStores e) (keys_apart : HasDistinctKeys e) where
    new_root :
        (storage : e.Trie) (acc : Account)
        → IsAccount acc
        → IsAccount (record acc { storage_root = e.mpt.root_hash storage })
    new_root storage acc old = record {
      nonce = old.nonce;
      balance = old.balance;
      storage_root = is.mpt.root_size storage;
      code_hash = old.code_hash;
    }

    get-update_root :
        (a b : Address) (found : Option e.Trie) (ws : WorldState e)
        → IsAddress a
        → IsAddress b
        → HasAccounts e ws
        → get_account e b (update_root e a found ws)
          ≡ (if address_equal a b then rooted found (get_account e b ws) else get_account e b ws)
    get-update_root a b none ws p q h = elim (Bool-cases (address_equal a b)) [
      | inl s ↦ rw s refl
      | inr s ↦ rw s refl
    ]
    get-update_root a b (some storage) ws p q h =
        let root = e.mpt.root_hash storage in
        let acc : Account = or_empty e (get_account e a ws) in
        let old = or_empty-IsAccount e is a ws h in
        let new : Account = record acc { storage_root = root } in
        get_account-set_account e is a b new ws (new_root storage acc old)
        ∙ elim (Bool-cases (address_equal a b)) [
          | inl same ↦
              let ab : a ≡ b = (address_equal_iff a b).0 same in
              let keys : same_key e a b ≡ true =
                ap (same_key e a) (sym ab) ∙ same_key_self e is a in
              rw (keys, same)
                (ap (λ x. kept (record (or_empty e (get_account e x ws)) { storage_root = root }))
                  ab)
          | inr other ↦
              let apart : a ≢ b =
                λ ab. (let clash : false ≡ true = sym other ∙ (address_equal_iff a b).1 ab in cc) in
              rw (same_key_other e is keys_apart a b p q apart, other) refl
        ]

    HasAccounts-update_root :
        (a : Address) (found : Option e.Trie) (ws : WorldState e)
        → HasAccounts e ws
        → HasAccounts e (update_root e a found ws)
    HasAccounts-update_root a none ws h = h
    HasAccounts-update_root a (some storage) ws h =
        let acc : Account = or_empty e (get_account e a ws) in
        HasAccounts-set_account e is a (record acc { storage_root = e.mpt.root_hash storage }) ws
          (new_root storage acc (or_empty-IsAccount e is a ws h)) h

    -- The loop gives every address in the list its root.
    get-update_roots :
        (addrs : List Address) (b : Address) (ws : WorldState e)
        → All IsAddress addrs
        → IsAddress b
        → HasAccounts e ws
        → get_account e b (update_roots e addrs ws) ≡ (
            if listed address_equal b addrs
            then rooted (e.tries.get b ws.storage_tries) (get_account e b ws)
            else get_account e b ws)
    unfolding update_roots
    get-update_roots [] b ws all q h = refl
    get-update_roots (a ∷ addrs) b ws all q h =
        let found : Option e.Trie = e.tries.get a ws.storage_tries in
        let next : WorldState e = update_root e a found ws in
        let rest = get-update_roots addrs b next all.1 q (HasAccounts-update_root a found ws h) in
        let first = get-update_root a b found ws all.0 q h in
        let tries : e.tries.get b next.storage_tries ≡ e.tries.get b ws.storage_tries =
          ap (e.tries.get b) (tries-update_root a found ws) in
        rest
        ∙ rw (tries, first)
            (elim (Bool-cases (address_equal a b)) [
              | inl same ↦
                  let own : found ≡ e.tries.get b ws.storage_tries =
                    ap (λ x. e.tries.get x ws.storage_tries) ((address_equal_iff a b).0 same) in
                  rw (same, own)
                    (elim (Bool-cases (listed address_equal b addrs)) [
                      | inl again ↦
                          rw again
                            (rooted-rooted (e.tries.get b ws.storage_tries) (get_account e b ws))
                      | inr once ↦ rw once refl
                    ])
              | inr other ↦ rw other refl
            ])

    -- Over stores that keep their laws and hold different addresses under different keys, in a state
    -- whose accounts are well formed, asking for the root leaves the accounts so: an address with
    -- changed storage and a storage trie has its account under the root of that trie, or none where
    -- the account is empty; every other address has the account that it had. No storage counts as
    -- changed any more, and the answer is the root of the state trie that is left.
    pub world_state_root-Rooted :
        (b : Address) (ws : WorldState e)
        → All IsAddress (e.addresses.elements ws.dirty_storage)
        → IsAddress b
        → HasAccounts e ws
        → (get_account e b (world_state_root e ws).1 ≡ (
            if e.addresses.contains b ws.dirty_storage
            then rooted (e.tries.get b ws.storage_tries) (get_account e b ws)
            else get_account e b ws))
          × (e.addresses.contains b (world_state_root e ws).1.dirty_storage ≡ false)
          × ((world_state_root e ws).0 ≡ e.mpt.root_hash (world_state_root e ws).1.state_trie)
    unfolding world_state_root get_account
    world_state_root-Rooted b ws all q h =
        let addrs : List Address = e.addresses.elements ws.dirty_storage in
        (
          get-update_roots addrs b ws all q h ∙ rw (is.addresses.elements b ws.dirty_storage) refl,
          is.addresses.contains_clear b (update_roots e addrs ws).dirty_storage,
          refl,
        )

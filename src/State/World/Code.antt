-- ===== src/State/World/Code.antt =====
-- Which code is read after a code was set.
use div.Common.{
  ℕ, ◌≡◌, refl, ap, ◌∙◌, arith, true, List, [], ◌∷◌, length, ◌==◌, ltb, Bool-cases, inl, inr,
  if◌then◌else◌,
}
use div.Types.Address.{Address, address_equal}
use div.State.Account.{Account}
use div.State.Account.RoundTrip.{IsAccount}
use div.State.Stores.{Stores, IsStores, kept_or}
use div.State.World.{
  WorldState, get_account, or_empty, ws_get_code, ws_get_code_hash, ws_set_code, copied,
  hash_of_code, bytes_or_empty,
}
use div.State.World.Accounts.{
  HasAccounts, or_empty-IsAccount, code_hash-set_account, code_store-set_account,
}

module _ (e : Stores) where
  copied_whole : (code : List ℕ) → e.alloc (length code) ≡ true → copied e code ≡ code
  copied_whole [] room = refl
  copied_whole (x ∷ xs) room =
      let some_bytes : ltb 0 (length (x ∷ xs)) ≡ true = ground arith in rw (some_bytes, room) refl

  hash_of_code_size : IsStores e → (code : List ℕ) → length (hash_of_code e code) ≡ 32
  hash_of_code_size is code = elim (Bool-cases (length code == 0)) [
    | inl empty ↦ rw empty refl
    | inr more ↦ rw more (is.hash_size code)
  ]

  -- Over stores that keep their laws, in a state whose accounts are well formed and with room in
  -- the arena for the code: the code of an address is the one that was set first, while the hash
  -- of its code is that of the one that was set last, and no other code changes.
  pub ws_get_code-ws_set_code :
      (is : IsStores e) (a b : Address) (code : List ℕ) (ws : WorldState e)
      → HasAccounts e ws
      → e.alloc (length code) ≡ true
      → (ws_get_code e b (ws_set_code e a code ws) ≡ (
          if address_equal a b
          then kept_or (e.codes.get b ws.code_store) code
          else ws_get_code e b ws))
        × (ws_get_code_hash e a (ws_set_code e a code ws) ≡ hash_of_code e code)
  unfolding ws_set_code get_account
  ws_get_code-ws_set_code is a b code ws h room =
      let ws' : WorldState e = record ws {
        code_store = e.codes.insert a (copied e code) ws.code_store;
      } in
      let acc : Account = or_empty e (get_account e a ws) in
      let new : Account = record acc { code_hash = hash_of_code e code } in
      let old = or_empty-IsAccount e is a ws h in
      let new-IsAccount : IsAccount new = record {
        nonce = old.nonce;
        balance = old.balance;
        storage_root = old.storage_root;
        code_hash = hash_of_code_size is code;
      } in
      let whole = copied_whole code room in
      (
        ap (λ m. bytes_or_empty e (e.codes.get b m)) (code_store-set_account e a new ws')
            ∙ ap (bytes_or_empty e) (is.codes.get_insert a b (copied e code) ws.code_store)
            ∙ rw whole (elim (Bool-cases (address_equal a b)) [
              | inl same ↦ rw same refl
              | inr other ↦ rw other refl
            ]),
        code_hash-set_account e is a new ws' new-IsAccount,
      )

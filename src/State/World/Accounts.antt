-- ===== src/State/World/Accounts.antt =====
-- Accounts are read back from the state trie as they were set.
use div.Common.{
  ℕ, ◌<◌, ◌≡◌, ◌≢◌, refl, sym, ap, ◌∙◌, arith, Bool, true, false, Option, none, some, List, length,
  length-append, ◌==◌, ==_iff, Bool-cases, inl, inr, if◌then◌else◌,
}
use mathlib.Core.Option.{some-injective}
use mathlib.Core.Path.{subst}
use div.Types.Address.{Address, IsAddress, address_equal, address_equal_iff}
use div.Uint256.{Uint256, IsUint256, u256_zero, is_zero}
use div.Uint256.Order.{is_zero_iff, to_nat-injective}
use div.Rlp.Lists.RoundTrip.{header, header_bound}
use div.State.Account.{Account, account_is_empty, account_rlp_encode, empty_code_hash}
use div.State.Account.RoundTrip.{
  IsAccount, payload, payload_bound, account_rlp_encode-Written, account_rlp_decode-encode,
}
use div.State.Access.{OnlyBalance, OtherNonces, SameBalances, SameCodes}
use div.State.World.Table.{world_access}
use div.State.Stores.{Stores, IsStores, HasDistinctKeys}
use div.State.World.{
  WorldState, address_to_key, decoded, get_account, set_account, set_account!, or_empty,
  ws_get_balance, ws_get_nonce, ws_get_code, ws_get_code_hash, bytes_or_empty,
}

-- What is stored for an account: nothing for an empty one.
abbrev pub kept : Account → Option Account
kept acc = if account_is_empty acc then none else some acc

pub zero_word : (v : Uint256) → IsUint256 v → is_zero v ≡ true → u256_zero ≡ v
zero_word v h nothing =
    to_nat-injective u256_zero v (omega arith, omega arith, omega arith, omega arith) h
      (sym ((is_zero_iff v).0 nothing))

module _ (e : Stores) where
  -- Every account that is read has well-formed fields.
  abbrev pub HasAccounts : WorldState e → Type 0
  HasAccounts ws = (b : Address) (acc : Account) → get_account e b ws ≡ some acc → IsAccount acc

  pub code_store-set_account :
      (a : Address) (acc : Account) (ws : WorldState e)
      → (set_account e a acc ws).1.code_store ≡ ws.code_store
  unfolding set_account
  code_store-set_account a acc ws = elim (Bool-cases (account_is_empty acc)) [
    | inl empty ↦ rw empty refl
    | inr more ↦ elim (Bool-cases (account_rlp_encode e.alloc acc).allocated) [
      | inl room ↦ rw (more, room) refl
      | inr full ↦ rw (more, full) refl
    ]
  ]

  pub code-set_account :
      (a b : Address) (acc : Account) (ws : WorldState e)
      → ws_get_code e b (set_account! e a acc ws) ≡ ws_get_code e b ws
  code-set_account a b acc ws =
      ap (λ m. bytes_or_empty e (e.codes.get b m)) (code_store-set_account a acc ws)

  -- Whether two addresses have one key.
  abbrev pub same_key : Address → Address → Bool
  same_key a b = address_equal (address_to_key e a) (address_to_key e b)

  module _ (is : IsStores e) where
    encoded_some :
        (acc : Account) → IsAccount acc → 0 < length (account_rlp_encode e.alloc acc).stored
    encoded_some acc a =
        let bound = payload_bound acc a in
        let n : ℕ = length (payload acc) in
        omega (
          arith,
          ap length (account_rlp_encode-Written e.alloc is.room acc a).0,
          length-append (header n) (payload acc),
          header_bound n (omega (arith, bound)),
        )

    trie_after_empty :
        (a : Address) (acc : Account) (ws : WorldState e)
        → account_is_empty acc ≡ true
        → (set_account e a acc ws).1.state_trie ≡ e.mpt.delete (address_to_key e a) ws.state_trie
    unfolding set_account
    trie_after_empty a acc ws empty = rw empty refl

    trie_after_some :
        (a : Address) (acc : Account) (ws : WorldState e)
        → IsAccount acc
        → account_is_empty acc ≡ false
        → (set_account e a acc ws).1.state_trie
          ≡ e.mpt.insert (address_to_key e a) (account_rlp_encode e.alloc acc).stored ws.state_trie
    unfolding set_account
    trie_after_some a acc ws h more =
        rw (more, (account_rlp_encode-Written e.alloc is.room acc h).1) refl

    -- After an account was set, it is read under its address, and all others are as before.
    pub get_account-set_account :
        (a b : Address) (acc : Account) (ws : WorldState e)
        → IsAccount acc
        → get_account e b (set_account! e a acc ws)
          ≡ (if same_key a b then kept acc else get_account e b ws)
    unfolding get_account
    get_account-set_account a b acc ws h =
        let stored : List ℕ = (account_rlp_encode e.alloc acc).stored in
        let after : e.Trie → Option Account = λ t. decoded e (e.mpt.get (address_to_key e b) t) in
        elim (Bool-cases (account_is_empty acc)) [
          | inl empty ↦
              ap after (trie_after_empty a acc ws empty)
              ∙ ap (decoded e) (
                  is.mpt.get_delete (address_to_key e a) (address_to_key e b) ws.state_trie
                    (is.hash_size a) (is.hash_size b))
              ∙ elim (Bool-cases (same_key a b)) [
                | inl same ↦ rw (same, empty) refl
                | inr other ↦ rw other refl
              ]
          | inr more ↦
              ap after (trie_after_some a acc ws h more)
              ∙ ap (decoded e) (
                  is.mpt.get_insert (address_to_key e a) (address_to_key e b) stored ws.state_trie
                    (is.hash_size a) (is.hash_size b) (encoded_some acc h))
              ∙ elim (Bool-cases (same_key a b)) [
                | inl same ↦ rw (same, more) (account_rlp_decode-encode e.alloc is.room acc h)
                | inr other ↦ rw other refl
              ]
        ]

    pub HasAccounts-set_account :
        (a : Address) (acc : Account) (ws : WorldState e)
        → IsAccount acc
        → HasAccounts ws
        → HasAccounts (set_account! e a acc ws)
    HasAccounts-set_account a acc ws h v b found e1 =
        let after : Option Account = get_account e b (set_account! e a acc ws) in
        let read : after ≡ (if same_key a b then kept acc else get_account e b ws) =
          get_account-set_account a b acc ws h in
        elim (Bool-cases (same_key a b)) [
          | inl same ↦
              let own : after ≡ kept acc = read ∙ rw same refl in
              elim (Bool-cases (account_is_empty acc)) [
                | inl empty ↦
                    let nothing : after ≡ none = own ∙ rw empty refl in
                    (let clash : none ≡ some found = sym nothing ∙ e1 in cc)
                | inr more ↦
                    let stored : after ≡ some acc = own ∙ rw more refl in
                    subst IsAccount (some-injective acc found (sym stored ∙ e1)) h
              ]
          | inr other ↦
              let before : after ≡ get_account e b ws = read ∙ rw other refl in
              v b found (sym before ∙ e1)
        ]

    -- An empty account that is not stored is read with its own balance and nonce.
    or_empty-kept :
        (acc : Account)
        → IsAccount acc
        → ((or_empty e (kept acc)).balance ≡ acc.balance)
          × ((or_empty e (kept acc)).nonce ≡ acc.nonce)
          × ((or_empty e (kept acc)).code_hash ≡ acc.code_hash)
    unfolding account_is_empty
    or_empty-kept acc h = elim (Bool-cases (acc.nonce == 0)) [
      | inl no_nonce ↦ elim (Bool-cases (is_zero acc.balance)) [
        | inl no_balance ↦ elim (Bool-cases (address_equal acc.code_hash empty_code_hash)) [
          | inl no_code ↦
              rw (no_nonce, no_balance, no_code)
                (
                  zero_word acc.balance h.balance no_balance,
                  sym ((==_iff acc.nonce 0).0 no_nonce),
                  sym ((address_equal_iff acc.code_hash empty_code_hash).0 no_code),
                )
          | inr code ↦ rw (no_nonce, no_balance, code) (refl, refl, refl)
        ]
        | inr balance ↦ rw (no_nonce, balance) (refl, refl, refl)
      ]
      | inr nonce ↦ rw nonce (refl, refl, refl)
    ]

    pub same_key_self : (a : Address) → same_key a a ≡ true
    same_key_self a = (address_equal_iff (address_to_key e a) (address_to_key e a)).1 refl

    -- The balances and nonces after an account was set.
    pub balance-set_account :
        (a b : Address) (acc : Account) (ws : WorldState e)
        → IsAccount acc
        → ws_get_balance e b (set_account! e a acc ws)
          ≡ (if same_key a b then acc.balance else ws_get_balance e b ws)
    balance-set_account a b acc ws h =
        ap (λ t. (or_empty e t).balance) (get_account-set_account a b acc ws h)
        ∙ elim (Bool-cases (same_key a b)) [
          | inl same ↦ rw same (or_empty-kept acc h).0
          | inr other ↦ rw other refl
        ]

    pub nonce-set_account :
        (a b : Address) (acc : Account) (ws : WorldState e)
        → IsAccount acc
        → ws_get_nonce e b (set_account! e a acc ws)
          ≡ (if same_key a b then acc.nonce else ws_get_nonce e b ws)
    nonce-set_account a b acc ws h =
        ap (λ t. (or_empty e t).nonce) (get_account-set_account a b acc ws h)
        ∙ elim (Bool-cases (same_key a b)) [
          | inl same ↦ rw same (or_empty-kept acc h).1
          | inr other ↦ rw other refl
        ]

    pub code_hash-set_account :
        (a : Address) (acc : Account) (ws : WorldState e)
        → IsAccount acc
        → ws_get_code_hash e a (set_account! e a acc ws) ≡ acc.code_hash
    code_hash-set_account a acc ws h =
        ap (λ t. (or_empty e t).code_hash) (get_account-set_account a a acc ws h)
        ∙ rw (same_key_self a) (or_empty-kept acc h).2

    pub same_key_other :
        HasDistinctKeys e
        → (a b : Address) → IsAddress a
        → IsAddress b
        → a ≢ b
        → same_key a b ≡ false
    same_key_other keys a b p q apart = elim (Bool-cases (same_key a b)) [
      | inl same ↦ absurd (
          apart
            (keys a b p q ((address_equal_iff (address_to_key e a) (address_to_key e b)).0 same)))
      | inr other ↦ other
    ]

    pub or_empty-IsAccount :
        (a : Address) (ws : WorldState e)
        → HasAccounts ws
        → IsAccount (or_empty e (get_account e a ws))
    or_empty-IsAccount a ws v = by_account (get_account e a ws) refl
      where
        by_account :
            (found : Option Account) → get_account e a ws ≡ found → IsAccount (or_empty e found)
        by_account none e1 = record {
          nonce = omega arith;
          balance = (omega arith, omega arith, omega arith, omega arith);
          storage_root = refl;
          code_hash = refl;
        }
        by_account (some acc) e1 = v a acc e1

    -- Setting an account whose nonce stays changes one balance, and no nonce.
    pub set_account-OnlyBalance :
        (keys : HasDistinctKeys e) (a : Address) (acc : Account) (ws : WorldState e)
        → IsAddress a
        → IsAccount acc
        → acc.nonce ≡ ws_get_nonce e a ws
        → OnlyBalance (world_access e) a acc.balance ws (set_account! e a acc ws)
    set_account-OnlyBalance keys a acc ws p h same_nonce = (
      balance-set_account a a acc ws h ∙ rw (same_key_self a) refl,
      λ b q apart. balance-set_account a b acc ws h ∙ rw (same_key_other keys a b p q apart) refl,
      (λ b q. nonce-set_account a b acc ws h ∙ nonces b q),
      λ b. code-set_account a b acc ws,
    )
      where
        nonces :
            (b : Address)
            → IsAddress b
            → (if same_key a b then acc.nonce else ws_get_nonce e b ws) ≡ ws_get_nonce e b ws
        nonces b q = elim (Bool-cases (same_key a b)) [
          | inl same ↦ rw same (
              same_nonce
              ∙ ap (λ t. ws_get_nonce e t ws)
                  (keys a b p q
                    ((address_equal_iff (address_to_key e a) (address_to_key e b)).0 same)))
          | inr other ↦ rw other refl
        ]

    -- Setting an account whose balance stays changes one nonce, and no balance.
    pub set_account-OnlyNonce :
        (keys : HasDistinctKeys e) (a : Address) (acc : Account) (ws : WorldState e)
        → IsAddress a
        → IsAccount acc
        → acc.balance ≡ ws_get_balance e a ws
        → SameBalances (world_access e) ws (set_account! e a acc ws)
          × (ws_get_nonce e a (set_account! e a acc ws) ≡ acc.nonce)
          × OtherNonces (world_access e) a ws (set_account! e a acc ws)
          × SameCodes (world_access e) ws (set_account! e a acc ws)
    set_account-OnlyNonce keys a acc ws p h same_balance = (
      (λ b q. balance-set_account a b acc ws h ∙ balances b q),
      nonce-set_account a a acc ws h ∙ rw (same_key_self a) refl,
      (λ b q apart. nonce-set_account a b acc ws h ∙ rw (same_key_other keys a b p q apart) refl),
      λ b. code-set_account a b acc ws,
    )
      where
        balances :
            (b : Address)
            → IsAddress b
            → (if same_key a b then acc.balance else ws_get_balance e b ws) ≡ ws_get_balance e b ws
        balances b q = elim (Bool-cases (same_key a b)) [
          | inl same ↦ rw same (
              same_balance
              ∙ ap (λ t. ws_get_balance e t ws)
                  (keys a b p q
                    ((address_equal_iff (address_to_key e a) (address_to_key e b)).0 same)))
          | inr other ↦ rw other refl
        ]

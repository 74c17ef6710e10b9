-- ===== src/State/Access.antt =====
-- include/div0/state/state_access.h: the table of functions behind which the state stands. A
-- function that changes the state returns the new one, with its answer. The optional cache of
-- jump analyses and `destroy` are left out.
use div.Common.{
  ℕ, ◌+◌, ◌≤◌, ◌<◌, ◌≡◌, ◌≢◌, Bool, true, false, List, u64_max, IsU64, ◌-◌, ltb, if◌then◌else◌,
}
use div.Types.Address.{Address, Hash, IsAddress}
use div.Uint256.{Uint256, IsUint256, to_nat, u256_mod, add, sub}

pub record StateAccess (S : Type 0) : Type 0 where
  pub account_exists : Address → S → Bool
  pub account_is_empty : Address → S → Bool
  pub create_contract : Address → S → S
  pub delete_account : Address → S → S
  pub get_balance : Address → S → Uint256
  pub set_balance : Address → Uint256 → S → S
  pub add_balance : Address → Uint256 → S → Bool × S
  pub sub_balance : Address → Uint256 → S → Bool × S
  pub get_nonce : Address → S → ℕ
  pub set_nonce : Address → ℕ → S → S
  pub increment_nonce : Address → S → ℕ × S
  pub get_code : Address → S → List ℕ
  pub get_code_size : Address → S → ℕ
  pub get_code_hash : Address → S → Hash
  pub set_code : Address → List ℕ → S → S
  pub get_storage : Address → Uint256 → S → Uint256
  pub get_original_storage : Address → Uint256 → S → Uint256
  pub set_storage : Address → Uint256 → Uint256 → S → S
  pub is_address_warm : Address → S → Bool
  pub warm_address : Address → S → Bool × S
  pub is_slot_warm : Address → Uint256 → S → Bool
  pub warm_slot : Address → Uint256 → S → Bool × S
  pub begin_transaction : S → S
  pub snapshot : S → ℕ × S
  pub revert_to_snapshot : ℕ → S → S
  pub commit_snapshot : ℕ → S → S
  pub state_root : S → Hash × S

module _ {S : Type 0} (access : StateAccess S) where
  -- The second state has the balances of the first.
  abbrev pub SameBalances : S → S → Type 0
  SameBalances s s' = (a : Address) → IsAddress a → access.get_balance a s' ≡ access.get_balance a s

  abbrev pub SameNonces : S → S → Type 0
  SameNonces s s' = (a : Address) → IsAddress a → access.get_nonce a s' ≡ access.get_nonce a s

  abbrev pub OtherNonces : Address → S → S → Type 0
  OtherNonces a s s' =
      (b : Address) → IsAddress b → a ≢ b → access.get_nonce b s' ≡ access.get_nonce b s

  abbrev pub SameCodes : S → S → Type 0
  SameCodes s s' = (a : Address) → access.get_code a s' ≡ access.get_code a s

  -- Only the balance of one account differs.
  abbrev pub OnlyBalance : Address → Uint256 → S → S → Type 0
  OnlyBalance a v s s' =
      (access.get_balance a s' ≡ v)
      × ((b : Address) → IsAddress b → a ≢ b → access.get_balance b s' ≡ access.get_balance b s)
      × SameNonces s s'
      × SameCodes s s'

  -- What the comments of the table promise of balances, nonces and codes, in the states that
  -- satisfy the invariant `Valid` of the implementation. Deleting an account, setting a code or a
  -- slot and reverting to a snapshot are no part of it.
  pub record IsLawful (Valid : S → Type 0) : Type 0 where
    pub balance : (a : Address) (s : S) → Valid s → IsUint256 (access.get_balance a s)
    pub sub_enough :
        (a : Address) (v : Uint256) (s : S)
        → Valid s
        → IsAddress a
        → IsUint256 v
        → to_nat v ≤ to_nat (access.get_balance a s)
        → ((access.sub_balance a v s).0 ≡ true)
          × OnlyBalance a (sub (access.get_balance a s) v) s (access.sub_balance a v s).1
          × Valid (access.sub_balance a v s).1
    pub sub_short :
        (a : Address) (v : Uint256) (s : S)
        → Valid s
        → IsUint256 v
        → to_nat (access.get_balance a s) < to_nat v
        → access.sub_balance a v s ≡ (false, s)
    pub add_fits :
        (a : Address) (v : Uint256) (s : S)
        → Valid s
        → IsAddress a
        → IsUint256 v
        → to_nat (access.get_balance a s) + to_nat v < u256_mod
        → ((access.add_balance a v s).0 ≡ true)
          × OnlyBalance a (add (access.get_balance a s) v) s (access.add_balance a v s).1
          × Valid (access.add_balance a v s).1
    pub add_codes : (a : Address) (v : Uint256) (s : S) → SameCodes s (access.add_balance a v s).1
    pub add_over :
        (a : Address) (v : Uint256) (s : S)
        → Valid s
        → IsUint256 v
        → u256_mod ≤ to_nat (access.get_balance a s) + to_nat v
        → access.add_balance a v s ≡ (false, s)
    pub increment :
        (a : Address) (s : S)
        → Valid s
        → IsAddress a
        → ((access.increment_nonce a s).0 ≡ access.get_nonce a s)
          × SameBalances s (access.increment_nonce a s).1
          × (access.get_nonce a (access.increment_nonce a s).1 ≡ (
              if ltb (access.get_nonce a s) (u64_max - 1)
              then access.get_nonce a s + 1
              else access.get_nonce a s))
          × OtherNonces a s (access.increment_nonce a s).1
          × Valid (access.increment_nonce a s).1
          × SameCodes s (access.increment_nonce a s).1
    pub set_balance :
        (a : Address) (v : Uint256) (s : S)
        → Valid s
        → IsAddress a
        → IsUint256 v
        → OnlyBalance a v s (access.set_balance a v s) × Valid (access.set_balance a v s)
    pub set_nonce :
        (a : Address) (n : ℕ) (s : S)
        → Valid s
        → IsAddress a
        → IsU64 n
        → SameBalances s (access.set_nonce a n s)
          × (access.get_nonce a (access.set_nonce a n s) ≡ n)
          × OtherNonces a s (access.set_nonce a n s)
          × Valid (access.set_nonce a n s)
          × SameCodes s (access.set_nonce a n s)
    pub create :
        (a : Address) (s : S)
        → Valid s
        → IsAddress a
        → SameBalances s (access.create_contract a s)
          × (access.get_nonce a (access.create_contract a s)
              ≡ (if access.account_exists a s then access.get_nonce a s else 1))
          × OtherNonces a s (access.create_contract a s)
          × Valid (access.create_contract a s)
          × SameCodes s (access.create_contract a s)
    pub warm :
        (a : Address) (s : S)
        → Valid s
        → SameBalances s (access.warm_address a s).1
          × SameNonces s (access.warm_address a s).1
          × Valid (access.warm_address a s).1
          × SameCodes s (access.warm_address a s).1
    pub warm_key :
        (a : Address) (k : Uint256) (s : S)
        → Valid s
        → SameBalances s (access.warm_slot a k s).1
          × SameNonces s (access.warm_slot a k s).1
          × Valid (access.warm_slot a k s).1
          × SameCodes s (access.warm_slot a k s).1
    pub begin :
        (s : S)
        → Valid s
        → SameBalances s (access.begin_transaction s)
          × SameNonces s (access.begin_transaction s)
          × Valid (access.begin_transaction s)
          × SameCodes s (access.begin_transaction s)
    pub snap :
        (s : S)
        → Valid s
        → SameBalances s (access.snapshot s).1
          × SameNonces s (access.snapshot s).1
          × Valid (access.snapshot s).1
          × SameCodes s (access.snapshot s).1
    pub commit :
        (i : ℕ) (s : S)
        → Valid s
        → SameBalances s (access.commit_snapshot i s)
          × SameNonces s (access.commit_snapshot i s)
          × Valid (access.commit_snapshot i s)
          × SameCodes s (access.commit_snapshot i s)

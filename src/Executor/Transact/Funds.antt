-- ===== src/Executor/Transact/Funds.antt =====
-- A transaction that was found acceptable can pay, and is executed.
use div.Common.{
  ℕ, ◌+◌, ◌≤◌, ◌≡◌, refl, ap, ◌∙◌, arith, Bool, true, Option, none, some, List, [], ◌∷◌, Bool-cases,
  if◌then◌else◌, inl, inr,
}
use div.Types.Address.{Address, Hash, IsAddress, address_zero}
use div.Uint256.{Uint256, IsUint256, to_nat, is_zero, mul, from_u64}
use div.Uint256.Add.{sub-mod}
use div.Transaction.{
  Transaction, AccessList, transaction_gas_limit, transaction_value, transaction_to,
  transaction_is_create, transaction_effective_gas_price, transaction_access_list,
}
use div.Transaction.Intrinsic.{tx_intrinsic_gas}
use div.Transaction.Price.{value-IsUint256}
use div.State.Access.{StateAccess, SameBalances, SameCodes, IsLawful}
use div.Evm.Env.{EvmExecutionResult, ExecutionEnv}
use div.Executor.{BlockExecutor, BlockTx}
use div.Executor.Validation.{IsAcceptable, HasWordsOf}
use div.Executor.Validation.Accept.{gas_cost-word}
use div.Executor.Transact.Calls.{IsCall, IsCall-same, entered, build_env-some}
use div.Executor.Transact.{
  Outcome, warm_keys, warm_access_list, warm_to, warm_all, contract_address, transfer, prepare,
  handle_result, receipt_of, conclude, run, recipient, execute_transaction,
}

module _ {S : Type 0} (access : StateAccess S) (Valid : S → Type 0)
    (laws : IsLawful access Valid) where
  -- Balances and codes stay, in a state that stays valid.
  abbrev pub Keeps : S → S → Type 0
  Keeps s s' = SameBalances access s s' × Valid s' × SameCodes access s s'

  pub Keeps-trans : (s t u : S) → Keeps s t → Keeps t u → Keeps s u
  Keeps-trans s t u h k = ((λ a p. k.0 a p ∙ h.0 a p), k.1, λ a. k.2 a ∙ h.2 a)

  warm_address-Keeps : (a : Address) (s : S) → Valid s → Keeps s (access.warm_address a s).1
  warm_address-Keeps a s v = let h = laws.warm a s v in (h.0, h.2, h.3)

  warm_keys-Keeps :
      (a : Address) (keys : List Uint256) (s : S) → Valid s → Keeps s (warm_keys access a keys s)
  unfolding warm_keys
  warm_keys-Keeps a [] s v = ((λ b p. refl), v, λ b. refl)
  warm_keys-Keeps a (key ∷ keys) s v =
      let h = laws.warm_key a key s v in
      Keeps-trans s (access.warm_slot a key s).1
        (warm_keys access a keys (access.warm_slot a key s).1) (h.0, h.2, h.3)
        (warm_keys-Keeps a keys (access.warm_slot a key s).1 h.2)

  warm_access_list-Keeps :
      (entries : AccessList) (s : S) → Valid s → Keeps s (warm_access_list access entries s)
  unfolding warm_access_list
  warm_access_list-Keeps [] s v = ((λ b p. refl), v, λ b. refl)
  warm_access_list-Keeps (entry ∷ entries) s v =
      let s' : S = (access.warm_address entry.address s).1 in
      let s'' : S = warm_keys access entry.address entry.storage_keys s' in
      let h = warm_address-Keeps entry.address s v in
      let k = warm_keys-Keeps entry.address entry.storage_keys s' h.1 in
      Keeps-trans s s' (warm_access_list access entries s'') h (
        Keeps-trans s' s'' (warm_access_list access entries s'') k
          (warm_access_list-Keeps entries s'' k.1))

  warm_to-Keeps : (to : Option Address) (s : S) → Valid s → Keeps s (warm_to access to s)
  warm_to-Keeps none s v = ((λ b p. refl), v, λ b. refl)
  warm_to-Keeps (some to) s v = warm_address-Keeps to s v

  warm_all-Keeps :
      (btx : BlockTx) (contract : Address) (s : S)
      → Valid s
      → Keeps s (warm_all access btx contract s)
  unfolding warm_all
  warm_all-Keeps btx contract s v =
      let s' : S = (access.warm_address btx.sender s).1 in
      let h = warm_address-Keeps btx.sender s v in
      let then_list : (t : S)
          → Keeps s' t
          → Keeps s (warm_access_list access (transaction_access_list btx.tx) t) =
        λ t k. Keeps-trans s s' (warm_access_list access (transaction_access_list btx.tx) t) h (
          Keeps-trans s' t (warm_access_list access (transaction_access_list btx.tx) t) k
            (warm_access_list-Keeps (transaction_access_list btx.tx) t k.1)) in
      elim (Bool-cases (transaction_is_create btx.tx)) [
        | inl create ↦
            rw create
              (then_list (access.warm_address contract s').1 (warm_address-Keeps contract s' h.1))
        | inr call ↦ rw call (
            then_list (warm_to access (transaction_to btx.tx) s')
              (warm_to-Keeps (transaction_to btx.tx) s' h.1))
      ]

  pub prepare-Keeps :
      (create_address : Address → ℕ → Address) (btx : BlockTx) (s : S)
      → Valid s
      → IsAddress btx.sender
      → Keeps s (prepare access create_address btx s).2
  unfolding prepare
  prepare-Keeps create_address btx s v p =
      let contract : Address =
        contract_address create_address btx (access.get_nonce btx.sender s) in
      let s' : S = (access.increment_nonce btx.sender s).1 in
      let t : S = warm_all access btx contract s' in
      let h = laws.increment btx.sender s v p in
      let k = warm_all-Keeps btx contract s' h.4 in
      let l = laws.snap t k.1 in
      Keeps-trans s s' (access.snapshot t).1 (h.1, h.4, h.5)
        (Keeps-trans s' t (access.snapshot t).1 k (l.0, l.2, l.3))

  -- A sender that has the value can transfer it.
  transfer-pays :
      (btx : BlockTx) (contract : Address) (s : S)
      → Valid s
      → IsAddress btx.sender
      → IsUint256 (transaction_value btx.tx)
      → to_nat (transaction_value btx.tx) ≤ to_nat (access.get_balance btx.sender s)
      → (transfer access btx contract s).0 ≡ true
  unfolding transfer
  transfer-pays btx contract s v p w h = elim (Bool-cases (is_zero (transaction_value btx.tx))) [
    | inl nothing ↦ rw nothing refl
    | inr something ↦
        rw (something, (laws.sub_enough btx.sender (transaction_value btx.tx) s v p w h).0) refl
  ]

  -- A transfer changes no code.
  pub transfer-SameCodes :
      (btx : BlockTx) (contract : Address) (s : S)
      → Valid s
      → IsAddress btx.sender
      → IsUint256 (transaction_value btx.tx)
      → to_nat (transaction_value btx.tx) ≤ to_nat (access.get_balance btx.sender s)
      → SameCodes access s (transfer access btx contract s).1
  unfolding transfer
  transfer-SameCodes btx contract s v p w h a =
      let value : Uint256 = transaction_value btx.tx in
      elim (Bool-cases (is_zero value)) [
        | inl nothing ↦ rw nothing refl
        | inr something ↦
            let paid = laws.sub_enough btx.sender value s v p w h in
            let s' : S = (access.sub_balance btx.sender value s).1 in
            rw (something, paid.0) (laws.add_codes (recipient btx contract) value s' a ∙ paid.1.3 a)
      ]

  module _ (execute_env : ExecutionEnv → S → EvmExecutionResult × S)
      (create_address : Address → ℕ → Address) (transaction_hash : Transaction → Hash)
      (alloc : ℕ → Bool) where
    run-some :
        (exec : BlockExecutor) (btx : BlockTx) (contract : Address) (snapshot : ℕ) (s : S)
        → (transfer access btx contract s).0 ≡ true
        → SameCodes access s (transfer access btx contract s).1
        → (env : ExecutionEnv) × ((run access execute_env alloc exec btx
              (transaction_effective_gas_price btx.tx exec.block.base_fee)
              contract
              snapshot
              s).0
            ≡ some
                (handle_result access alloc btx contract snapshot
                  (execute_env env
                    (entered access btx contract (transfer access btx contract s).1)).0
                  (execute_env env
                    (entered access btx contract (transfer access btx contract s).1)).1).0)
          × IsCall exec btx contract (λ a. access.get_code a s) env
    unfolding run
    run-some exec btx contract snapshot s moved codes =
        let s' : S = (transfer access btx contract s).1 in
        let (env, built, call) = build_env-some access exec btx contract s' in
        (
          env,
          rw (moved, built) refl,
          IsCall-same exec btx contract (λ a. access.get_code a s') (λ a. access.get_code a s) env
              codes call,
        )

    -- Over a lawful state an acceptable transaction is not given up: its sender can pay for the gas
    -- and the value, and the receipt is that of a run of the machine. The run starts from the state in
    -- which the gas is paid, the steps before the run are done, the value is transferred and a
    -- creation has its account. Its environment is that of the block and the transaction: without
    -- static mode, from the sender with the value, with the gas that is left after the intrinsic gas,
    -- and with the code that the recipient had before the transaction on the data, or, for a
    -- creation, the data as the code of the address that follows from the sender and its nonce, on no
    -- input.
    pub execute_transaction-runs :
        (exec : BlockExecutor) (btx : BlockTx) (cumulative_gas : ℕ) (s : S)
        → Valid s
        → IsAddress btx.sender
        → HasWordsOf exec btx
        → IsAcceptable access exec btx cumulative_gas s
        → let price = transaction_effective_gas_price btx.tx exec.block.base_fee in
          let cost = mul price (from_u64 (transaction_gas_limit btx.tx)) in
          let (contract, snapshot, u) =
            prepare access create_address btx (access.sub_balance btx.sender cost s).1 in
          let t = entered access btx contract (transfer access btx contract u).1 in
          (env : ExecutionEnv) × ((execute_transaction access execute_env create_address
              transaction_hash alloc exec btx cumulative_gas s).0
            ≡ some (
                receipt_of transaction_hash btx cumulative_gas
                  (handle_result access alloc btx contract snapshot
                    (execute_env env t).0
                    (execute_env env t).1).0))
          × (contract ≡ (
              if transaction_is_create btx.tx
              then create_address btx.sender (access.get_nonce btx.sender s)
              else address_zero))
          × IsCall exec btx contract (λ a. access.get_code a s) env
          × (env.call.gas + tx_intrinsic_gas btx.tx ≡ transaction_gas_limit btx.tx)
    unfolding execute_transaction prepare
    execute_transaction-runs exec btx cumulative s v p h a =
        let price : Uint256 = transaction_effective_gas_price btx.tx exec.block.base_fee in
        let cost : Uint256 = mul price (from_u64 (transaction_gas_limit btx.tx)) in
        let cost_word = gas_cost-word exec btx h in
        let funds : Uint256 = access.get_balance btx.sender s in
        let paid =
          laws.sub_enough btx.sender cost s v p cost_word.1
            (omega (arith, cost_word.0, a.balance)) in
        let s' : S = (access.sub_balance btx.sender cost s).1 in
        let prepared = prepare access create_address btx s' in
        let kept = prepare-Keeps create_address btx s' paid.2 p in
        let difference = sub-mod funds cost (laws.balance btx.sender s v) cost_word.1 in
        let value_word = value-IsUint256 btx.tx h.words in
        let enough : to_nat (transaction_value btx.tx)
            ≤ to_nat (access.get_balance btx.sender prepared.2) =
          omega (
            arith,
            ap to_nat (kept.0 btx.sender p),
            ap to_nat paid.1.0,
            difference.0,
            cost_word.0,
            a.balance,
          ) in
        let moved = transfer-pays btx prepared.0 prepared.2 kept.1 p value_word enough in
        let codes = transfer-SameCodes btx prepared.0 prepared.2 kept.1 p value_word enough in
        let (env, ran, call) = run-some exec btx prepared.0 prepared.1 prepared.2 moved codes in
        (
          env,
          rw paid.0 (
              concluded exec btx price cumulative
                (run access execute_env alloc exec btx price prepared.0 prepared.1 prepared.2) _
                ran),
          contract_is exec btx s s' (paid.1.2 btx.sender p),
          IsCall-same exec btx prepared.0 (λ b. access.get_code b prepared.2)
              (λ b. access.get_code b s) env (λ b. kept.2 b ∙ paid.1.3 b) call,
          omega (arith, call.gas, a.gas, h.gas_limit),
        )
      where
        contract_is :
            (exec : BlockExecutor) (btx : BlockTx) (s s' : S)
            → access.get_nonce btx.sender s' ≡ access.get_nonce btx.sender s
            → (prepare access create_address btx s').0 ≡ (
                if transaction_is_create btx.tx
                then create_address btx.sender (access.get_nonce btx.sender s)
                else address_zero)
        contract_is exec btx s s' nonce = ap (contract_address create_address btx) nonce

        concluded :
            (exec : BlockExecutor) (btx : BlockTx) (price : Uint256) (cumulative : ℕ)
            (r : Option Outcome × S) (o : Outcome)
            → r.0 ≡ some o
            → (conclude access transaction_hash exec btx price cumulative r).0
              ≡ some (receipt_of transaction_hash btx cumulative o)
        concluded exec btx price cumulative (none, u) o e = cc
        concluded exec btx price cumulative (some q, u) o e =
            let same : q ≡ o = cc in
            ap (λ x. some (receipt_of transaction_hash btx cumulative x)) same

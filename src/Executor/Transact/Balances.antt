-- ===== src/Executor/Transact/Balances.antt =====
-- Where the ether of a transaction goes.
use div.Common.{
  ℕ, ◌+◌, ◌-◌, ◌*◌, ◌≤◌, ◌<◌, ◌≡◌, refl, sym, ap, ◌∙◌, arith, Bool, false, some, IsU64, [],
}
use mathlib.Core.Path.{subst}
use native.Mathlib.Nat.{mod-eq_of_lt}
use div.Types.Address.{Address, Hash, IsAddress}
use div.Uint256.{Uint256, IsUint256, to_nat, u256_mod, mul, from_u64}
use div.Transaction.{
  Transaction, is_null, transaction_gas_limit, transaction_value, transaction_to,
  transaction_is_create, transaction_data, transaction_effective_gas_price,
}
use div.Transaction.Intrinsic.{tx_intrinsic_gas}
use div.Transaction.Price.{value-IsUint256, price-IsUint256}
use div.State.Access.{StateAccess, IsLawful, SameBalances}
use div.Evm.Env.{EvmExecutionResult, EvmResult, ExecutionEnv}
use div.Executor.{BlockExecutor, BlockTx, ExecReceipt}
use div.Executor.Validation.{IsAcceptable, HasWordsOf, gas_cost}
use div.Executor.Transact.{
  Outcome, transfer, build_env, call_env, prepare, recipient, handle_result, receipt_of, settle,
  run, execute_transaction,
}
use div.Executor.Transact.Funds.{prepare-Keeps, transfer-SameCodes}
use div.Executor.Transact.Calls.{is_create-is_null}
use div.Executor.Transact.Gas.{charge-le, handle_result-charge}
use div.Executor.Transact.Flows.{
  charge_split, product_le, funds, Parties, pays, transfer-moves, product_exact, settle-moves,
}

module _ {S : Type 0} (access : StateAccess S) (Valid : S → Type 0)
    (laws : IsLawful access Valid) where
  -- A transfer to `to`, which has no code, whose price covers the base fee, among three parties
  -- whose balances have room for what they receive.
  pub record IsTransfer (exec : BlockExecutor) (btx : BlockTx) (to : Address) (s : S) : Type 0 where
    pub recipient_is : transaction_to btx.tx ≡ some to
    pub no_code : access.get_code to s ≡ []
    pub parties : Parties access Valid laws btx.sender to exec.block.coinbase
    pub above :
        to_nat exec.block.base_fee
        ≤ to_nat (transaction_effective_gas_price btx.tx exec.block.base_fee)
    pub cost_fits :
        to_nat (transaction_effective_gas_price btx.tx exec.block.base_fee)
          * transaction_gas_limit btx.tx
        < u256_mod
    pub value_fits : funds access to s + to_nat (transaction_value btx.tx) < u256_mod
    pub tip_fits :
        funds access exec.block.coinbase s
          + to_nat (transaction_effective_gas_price btx.tx exec.block.base_fee)
            * transaction_gas_limit btx.tx
        < u256_mod

  handle_result-commit :
      (alloc : ℕ → Bool) (btx : BlockTx) (contract : Address) (snapshot : ℕ)
      (result : EvmExecutionResult) (s : S)
      → transaction_is_create btx.tx ≡ false
      → result.result ≡ EvmResult.evm_result_stop
      → (handle_result access alloc btx contract snapshot result s).1
        ≡ access.commit_snapshot snapshot s
  unfolding handle_result
  handle_result-commit alloc btx contract snapshot result s call stop = rw (stop, call) refl

  module _ (execute_env : ExecutionEnv → S → EvmExecutionResult × S)
      (within : (env : ExecutionEnv) (s : S) → (execute_env env s).0.gas_used ≤ env.call.gas)
      (stops : (env : ExecutionEnv) (s : S)
        → env.call.code ≡ []
        → (execute_env env s).0.result ≡ EvmResult.evm_result_stop)
      (quiet : (env : ExecutionEnv) (s : S)
        → env.call.code ≡ []
        → Valid s
        → SameBalances access s (execute_env env s).1 × Valid (execute_env env s).1)
      (alloc : ℕ → Bool) where
    -- The run of a transfer moves the value and leaves all else, and its charge is within the limit.
    run-moves :
        (exec : BlockExecutor) (btx : BlockTx) (to : Address) (price : Uint256) (contract : Address)
        (snapshot : ℕ) (s : S)
        → Valid s
        → transaction_to btx.tx ≡ some to
        → access.get_code to s ≡ []
        → Parties access Valid laws btx.sender to exec.block.coinbase
        → IsUint256 (transaction_value btx.tx)
        → tx_intrinsic_gas btx.tx ≤ transaction_gas_limit btx.tx
        → IsU64 (transaction_gas_limit btx.tx)
        → to_nat (transaction_value btx.tx) ≤ funds access btx.sender s
        → funds access to s + to_nat (transaction_value btx.tx) < u256_mod
        → (outcome : Outcome) × (t : S) × (run access execute_env alloc exec btx price contract
              snapshot s
            ≡ (some outcome, t))
          × (outcome.gas_used ≤ transaction_gas_limit btx.tx)
          × (funds access btx.sender t + to_nat (transaction_value btx.tx)
              ≡ funds access btx.sender s)
          × (funds access to t ≡ funds access to s + to_nat (transaction_value btx.tx))
          × (funds access exec.block.coinbase t ≡ funds access exec.block.coinbase s)
          × Valid t
    unfolding run build_env
    run-moves exec btx to price contract snapshot s v here bare parties w gas limit h room =
        let call : transaction_is_create btx.tx ≡ false =
          is_create-is_null btx.tx ∙ ap is_null here in
        let destination : recipient btx contract ≡ to = rw (call, here) refl in
        let moves =
          transfer-moves access Valid laws btx contract exec.block.coinbase s v
            (subst (λ b. Parties access Valid laws btx.sender b exec.block.coinbase)
              (sym destination) parties)
            w h
            (subst (λ b. funds access b s + to_nat (transaction_value btx.tx) < u256_mod)
              (sym destination) room) in
        let s' : S = (transfer access btx contract s).1 in
        let env : ExecutionEnv =
          call_env exec btx price to (access.get_code to s') (transaction_data btx.tx) in
        let result : EvmExecutionResult = (execute_env env s').0 in
        let t : S = (execute_env env s').1 in
        let total : tx_intrinsic_gas btx.tx + result.gas_used ≤ transaction_gas_limit btx.tx =
          omega (arith, within env s') in
        let no_code : env.call.code ≡ [] =
          transfer-SameCodes access Valid laws btx contract s v parties.3 w h to ∙ bare in
        let kept = quiet env s' no_code moves.4 in
        let committed = laws.commit snapshot t kept.1 in
        let final : (handle_result access alloc btx contract snapshot result t).1
            ≡ access.commit_snapshot snapshot t =
          handle_result-commit alloc btx contract snapshot result t call (stops env s' no_code) in
        let same : (b : Address)
            → IsAddress b
            → funds access b (handle_result access alloc btx contract snapshot result t).1
              ≡ funds access b s' =
          λ b p. ap (funds access b) final ∙ ap to_nat (committed.0 b p ∙ kept.0 b p) in
        let received : funds access to s' ≡ funds access to s + to_nat (transaction_value btx.tx) =
          subst (λ b. funds access b s' ≡ funds access b s + to_nat (transaction_value btx.tx))
            destination moves.2 in
        (
          (handle_result access alloc btx contract snapshot result t).0,
          (handle_result access alloc btx contract snapshot result t).1,
          rw (moves.0, call, here) refl,
          omega (
            arith,
            handle_result-charge access alloc btx contract snapshot result t total limit,
            charge-le btx result total,
          ),
          ap (λ (x : ℕ). x + to_nat (transaction_value btx.tx)) (same btx.sender parties.3)
              ∙ moves.1,
          same to parties.4 ∙ received,
          same exec.block.coinbase parties.5 ∙ moves.3,
          subst Valid (sym final) committed.2,
        )

    -- Over a lawful state, with a machine that uses at most the gas it is given and that on an empty
    -- code stops and changes no balance, an acceptable transfer to a recipient without code, whose
    -- price covers the base fee, among three different parties whose balances do not overflow, is
    -- executed: its sender pays the value and the price of the gas in the receipt, the recipient
    -- gets the value, and the coinbase gets the gas at the part of the price above the base fee.
    pub execute_transaction-moves :
        (create_address : Address → ℕ → Address) (transaction_hash : Transaction → Hash)
        (exec : BlockExecutor) (btx : BlockTx) (to : Address) (cumulative_gas : ℕ) (s : S)
        → Valid s
        → HasWordsOf exec btx
        → IsAcceptable access exec btx cumulative_gas s
        → IsTransfer exec btx to s
        → (receipt : ExecReceipt) × (t : S) × (execute_transaction access execute_env create_address
              transaction_hash alloc exec btx cumulative_gas s
            ≡ (some receipt, t))
          × (funds access btx.sender t
                + to_nat (transaction_value btx.tx)
                + to_nat (transaction_effective_gas_price btx.tx exec.block.base_fee)
                  * receipt.gas_used
              ≡ funds access btx.sender s)
          × (funds access to t ≡ funds access to s + to_nat (transaction_value btx.tx))
          × (funds access exec.block.coinbase t
              ≡ funds access exec.block.coinbase s
                + (to_nat (transaction_effective_gas_price btx.tx exec.block.base_fee)
                    - to_nat exec.block.base_fee)
                  * receipt.gas_used)
    unfolding execute_transaction
    execute_transaction-moves create_address transaction_hash exec btx to cumulative s v h a tr =
        let price : Uint256 = transaction_effective_gas_price btx.tx exec.block.base_fee in
        let limit : ℕ = transaction_gas_limit btx.tx in
        let c : Address = exec.block.coinbase in
        let (ab, ac, bc, pa, pb, pc) = tr.parties in
        let price_word = price-IsUint256 btx.tx exec.block.base_fee h.words h.base_fee in
        let cost =
          product_exact access Valid laws price limit price_word h.gas_limit tr.cost_fits in
        let exact : gas_cost exec btx ≡ to_nat price * limit = mod-eq_of_lt tr.cost_fits in
        let paid =
          pays access Valid laws btx.sender (mul price (from_u64 limit)) s v pa cost.1
            (omega (arith, cost.0, exact, a.balance)) in
        let s' : S = (access.sub_balance btx.sender (mul price (from_u64 limit)) s).1 in
        let (contract, snapshot, s'') = prepare access create_address btx s' in
        let kept = prepare-Keeps access Valid laws create_address btx s' paid.3 pa in
        let bare : access.get_code to s'' ≡ [] = kept.2 to ∙ paid.4 to ∙ tr.no_code in
        let (outcome, t, ran, used, at_sender, at_to, at_coinbase, valid) =
          run-moves exec btx to price contract snapshot s'' kept.1 tr.recipient_is bare tr.parties
            (value-IsUint256 btx.tx h.words) a.gas h.gas_limit
            (omega (arith, ap to_nat (kept.0 btx.sender pa), paid.1, cost.0, exact, a.balance))
            (omega (arith, ap to_nat (kept.0 to pb), paid.2 to pb ab, tr.value_fits)) in
        let gas : ℕ = outcome.gas_used in
        let split : to_nat price * limit ≡ to_nat price * (limit - gas) + to_nat price * gas =
          charge_split (to_nat price) limit gas used in
        let tip_le : (to_nat price - to_nat exec.block.base_fee) * gas ≤ to_nat price * limit =
          product_le (to_nat price - to_nat exec.block.base_fee) (to_nat price) gas limit
            (omega arith) used in
        let sender_before : funds access btx.sender s'' + to_nat price * limit
            ≡ funds access btx.sender s =
          omega (arith, ap to_nat (kept.0 btx.sender pa), paid.1, cost.0) in
        let settled =
          settle-moves access Valid laws exec btx price gas to t valid tr.parties price_word
            h.base_fee tr.above used h.gas_limit
            (omega (arith, at_sender, sender_before, split, laws.balance btx.sender s v))
            (omega
              (arith, at_coinbase, ap to_nat (kept.0 c pc), paid.2 c pc ac, tip_le, tr.tip_fits)) in
        (
          receipt_of transaction_hash btx cumulative outcome,
          settle access exec btx price gas t,
          rw (paid.0, ran) refl,
          omega (arith, settled.0, at_sender, sender_before, split),
          omega (arith, settled.1, at_to, ap to_nat (kept.0 to pb), paid.2 to pb ab),
          omega (arith, settled.2, at_coinbase, ap to_nat (kept.0 c pc), paid.2 c pc ac),
        )

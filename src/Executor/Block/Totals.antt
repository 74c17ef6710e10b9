-- ===== src/Executor/Block/Totals.antt =====
-- The receipts of a block, its gas and its gas limit.
use div.Common.{
  ℕ, suc, ◌+◌, ◌*◌, ◌/◌, ◌≤◌, ◌≡◌, refl, sym, arith, Bool, true, not, ◌||◌, ◌&&◌, Option, none,
  some, List, [], ◌∷◌, ◌++◌, ltb, ◌==◌, Bool-cases, inl, inr, length, length-append, All, IsU64,
  u64_max,
}
use mathlib.Core.Path.{subst}
use div.Types.Address.{Address, Hash}
use div.Transaction.{Transaction, transaction_gas_limit}
use div.Transaction.Intrinsic.{tx_intrinsic_gas}
use div.State.Access.{StateAccess}
use div.Evm.Env.{EvmExecutionResult, ExecutionEnv}
use div.Executor.{BlockExecutor, BlockTx, ExecReceipt, TxValidationError}
use div.Executor.Validation.{validate_tx}
use div.Executor.Transact.{execute_transaction}
use div.Executor.Transact.Gas.{Charges, execute_transaction-Charges}
use div.Executor.Block.{
  Run, start, reject, record_result, receipt_size, rejected_size, round, rounds, block_executor_run,
}

-- Each receipt has the gas before it, with its own, and the last one the final gas.
abbrev pub Totals : ℕ → List ExecReceipt → ℕ → Type 0
Totals before [] final = before ≡ final
Totals before (receipt ∷ receipts) final =
    (receipt.cumulative_gas ≡ before + receipt.gas_used)
    × Totals receipt.cumulative_gas receipts final

Totals-append :
    (before : ℕ) (receipts : List ExecReceipt) (final : ℕ) (receipt : ExecReceipt)
    → Totals before receipts final
    → receipt.cumulative_gas ≡ final + receipt.gas_used
    → Totals before (receipts ++ (receipt ∷ [])) receipt.cumulative_gas
Totals-append before [] final receipt h e = (omega (arith, h, e), refl)
Totals-append before (r ∷ receipts) final receipt h e =
    (h.0, Totals-append r.cumulative_gas receipts final receipt h.1 e)

-- The invariant of the loop after `n` transactions.
pub record Accounts (limit n : ℕ) (run : Run) : Type 0 where
  pub totals : Totals 0 run.receipts run.cumulative_gas
  pub within : run.cumulative_gas ≤ limit
  pub all : length run.receipts + length run.rejected ≡ n

start-Accounts : (limit : ℕ) → Accounts limit 0 start
start-Accounts limit = record { totals = refl; within = omega arith; all = omega arith }

reject-Accounts :
    (limit n : ℕ) (btx : BlockTx) (error : TxValidationError) (run : Run)
    → Accounts limit n run
    → Accounts limit (n + 1) (reject btx error run)
reject-Accounts limit n btx error run a = record {
  totals = a.totals;
  within = a.within;
  all = omega (
    arith,
    a.all,
    length-append run.rejected (record { index = btx.original_index; error = error } ∷ []),
  );
}

record_result-Accounts :
    (limit gas_limit n : ℕ) (btx : BlockTx) (run : Run) (result : Option ExecReceipt)
    → run.cumulative_gas + gas_limit ≤ limit
    → IsU64 limit
    → Charges gas_limit run.cumulative_gas result
    → Accounts limit n run
    → Accounts limit (n + 1) (record_result btx run result)
record_result-Accounts limit gas_limit n btx run none room b c a =
    reject-Accounts limit n btx TxValidationError.tx_err_insufficient_balance run a
record_result-Accounts limit gas_limit n btx run (some receipt) room b c a =
    let exact : receipt.cumulative_gas ≡ run.cumulative_gas + receipt.gas_used =
      omega (arith, c.0, c.1) in
    record {
      totals = Totals-append 0 run.receipts run.cumulative_gas receipt a.totals exact;
      within = omega (arith, exact, c.0);
      all = omega (arith, a.all, length-append run.receipts (receipt ∷ []));
    }

validate_tx-room :
    {S : Type 0} (access : StateAccess S) (exec : BlockExecutor) (tx : BlockTx) (cumulative_gas : ℕ)
    (s : S)
    → validate_tx access exec tx cumulative_gas s ≡ TxValidationError.tx_valid
    → (tx_intrinsic_gas tx.tx ≤ transaction_gas_limit tx.tx)
      × (cumulative_gas + transaction_gas_limit tx.tx ≤ exec.block.gas_limit)
unfolding validate_tx
validate_tx-room access exec tx cumulative s valid = ground (arith, valid)

abbrev pub HasLimit : BlockTx → Type 0
HasLimit btx = IsU64 (transaction_gas_limit btx.tx)

module _ {S : Type 0} (access : StateAccess S)
    (execute_env : ExecutionEnv → S → EvmExecutionResult × S)
    (within : (env : ExecutionEnv) (s : S) → (execute_env env s).0.gas_used ≤ env.call.gas)
    (create_address : Address → ℕ → Address) (transaction_hash : Transaction → Hash)
    (alloc : ℕ → Bool) where
  round-Accounts :
      (exec : BlockExecutor) (n : ℕ) (btx : BlockTx) (run : Run) (s : S)
      → IsU64 exec.block.gas_limit
      → HasLimit btx
      → Accounts exec.block.gas_limit n run
      → Accounts exec.block.gas_limit
          (n + 1)
          (round access execute_env create_address transaction_hash alloc exec btx run s).0
  unfolding round
  round-Accounts exec n btx run s b h a =
      by_verdict (validate_tx access exec btx run.cumulative_gas (access.begin_transaction s)) refl
    where
      by_verdict :
          (v : TxValidationError)
          → validate_tx access exec btx run.cumulative_gas (access.begin_transaction s) ≡ v
          → Accounts exec.block.gas_limit
              (n + 1)
              (round access execute_env create_address transaction_hash alloc exec btx run s).0
      by_verdict TxValidationError.tx_valid e =
          let room =
            validate_tx-room access exec btx run.cumulative_gas (access.begin_transaction s) e in
          rw (e, round)
            (record_result-Accounts exec.block.gas_limit (transaction_gas_limit btx.tx) n btx run
              (execute_transaction access execute_env create_address transaction_hash alloc exec btx
                run.cumulative_gas (access.begin_transaction s)).0
              room.1 b
              (execute_transaction-Charges access execute_env within create_address transaction_hash
                alloc exec btx run.cumulative_gas (access.begin_transaction s) room.0 h)
              a)
      by_verdict TxValidationError.tx_err_invalid_signature e =
          rw (e, round) (reject-Accounts _ n btx _ run a)
      by_verdict TxValidationError.tx_err_nonce_too_low e =
          rw (e, round) (reject-Accounts _ n btx _ run a)
      by_verdict TxValidationError.tx_err_nonce_too_high e =
          rw (e, round) (reject-Accounts _ n btx _ run a)
      by_verdict TxValidationError.tx_err_insufficient_balance e =
          rw (e, round) (reject-Accounts _ n btx _ run a)
      by_verdict TxValidationError.tx_err_intrinsic_gas e =
          rw (e, round) (reject-Accounts _ n btx _ run a)
      by_verdict TxValidationError.tx_err_gas_limit_exceeded e =
          rw (e, round) (reject-Accounts _ n btx _ run a)
      by_verdict TxValidationError.tx_err_max_fee_too_low e =
          rw (e, round) (reject-Accounts _ n btx _ run a)
      by_verdict TxValidationError.tx_err_chain_id_mismatch e =
          rw (e, round) (reject-Accounts _ n btx _ run a)

  rounds-Accounts :
      (exec : BlockExecutor) (n : ℕ) (txs : List BlockTx) (run : Run) (s : S)
      → IsU64 exec.block.gas_limit
      → All HasLimit txs
      → Accounts exec.block.gas_limit n run
      → Accounts exec.block.gas_limit
          (n + length txs)
          (rounds access execute_env create_address transaction_hash alloc exec txs run s).0
  unfolding rounds
  rounds-Accounts exec n [] run s b h a =
      let same : n + 0 ≡ n = omega arith in
      subst (λ k. Accounts exec.block.gas_limit k run) (sym same) a
  rounds-Accounts exec n (btx ∷ txs) run s b h a =
      let next = round access execute_env create_address transaction_hash alloc exec btx run s in
      let same : n + 1 + length txs ≡ n + suc (length txs) = omega arith in
      subst
        (λ k.
          Accounts exec.block.gas_limit k
            (rounds access execute_env create_address transaction_hash alloc exec txs next.0
              next.1).0)
        same
        (rounds-Accounts exec (n + 1) txs next.0 next.1 b h.1
          (round-Accounts exec n btx run s b h.0 a))

  -- With a machine that uses at most the gas it is given, a block whose execution succeeds has one
  -- receipt or one rejection for each transaction, the cumulative gas of each receipt is that of
  -- the one before it and its own gas, the last one has the gas of the block, and this does not
  -- exceed the gas limit of the block.
  pub block_executor_run-Totals :
      (exec : BlockExecutor) (txs : List BlockTx) (s : S)
      → IsU64 exec.block.gas_limit
      → All HasLimit txs
      → (block_executor_run access execute_env create_address transaction_hash alloc exec txs s).0
        ≡ true
      → (let result =
            (block_executor_run access execute_env create_address transaction_hash alloc exec txs
              s).1 in
          Totals 0 result.receipts result.gas_used
          × (result.gas_used ≤ exec.block.gas_limit)
          × (length result.receipts + length result.rejected ≡ length txs))
  unfolding block_executor_run
  block_executor_run-Totals exec txs s b h =
      let n : ℕ = length txs in
      let a = rounds-Accounts exec 0 txs start s b h (start-Accounts exec.block.gas_limit) in
      elim (Bool-cases (n == 0)) [
        | inl empty ↦ rw empty (λ done. (refl, omega arith, ground (arith, empty)))
        | inr some_txs ↦
            elim (Bool-cases (ltb (u64_max / receipt_size) n || ltb (u64_max / rejected_size) n)) [
              | inl many ↦ rw (some_txs, many) (λ done. cc)
              | inr few ↦
                  elim (Bool-cases (not (alloc (n * receipt_size) && alloc (n * rejected_size)))) [
                    | inl full ↦ rw (some_txs, few, full) (λ done. cc)
                    | inr room ↦
                        rw (some_txs, few, room)
                          (λ done. (a.totals, a.within, omega (arith, a.all)))
                  ]
            ]
      ]

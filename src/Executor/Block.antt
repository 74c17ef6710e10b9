-- ===== src/Executor/Block.antt =====
-- src/executor/block_executor.c: the loop over the transactions of a block.
pub mod Totals
use div.Common.{
  ℕ, ◌+◌, ◌-◌, ◌*◌, ◌/◌, Bool, true, false, not, ◌||◌, ◌&&◌, Option, none, some, List, [], ◌∷◌,
  ◌++◌, ltb, leb, ◌==◌, if◌then◌else◌, length, u64, u64_max,
}
use div.Types.Address.{Address, Hash, hash_zero}
use div.Transaction.{Transaction, get_blob_gas}
use div.State.Access.{StateAccess}
use div.Evm.Env.{EvmExecutionResult, ExecutionEnv}
use div.Executor.{
  BlockExecutor, BlockTx, BlockExecResult, ExecReceipt, ExecRejected, TxValidationError,
}
use div.Executor.Validation.{validate_tx}
use div.Executor.Transact.{execute_transaction}

-- The variables of the loop. The arrays hold as many elements as their counts.
pub record Run : Type 0 where
  pub receipts : List ExecReceipt
  pub rejected : List ExecRejected
  pub cumulative_gas : ℕ
  pub blob_gas_used : ℕ

abbrev pub start : Run
start = record { receipts = []; rejected = []; cumulative_gas = 0; blob_gas_used = 0 }

abbrev pub reject : BlockTx → TxValidationError → Run → Run
reject btx error run = record run {
  rejected = run.rejected ++ (record { index = btx.original_index; error = error } ∷ []);
}

-- A sum that stays at its greatest value.
unfoldable pub add_blob_gas : ℕ → ℕ → ℕ
add_blob_gas blob_gas_used tx_blob_gas =
    if leb blob_gas_used (u64_max - tx_blob_gas) then u64 (blob_gas_used + tx_blob_gas) else u64_max

abbrev pub record_result : BlockTx → Run → Option ExecReceipt → Run
record_result btx run none = reject btx TxValidationError.tx_err_insufficient_balance run
record_result btx run (some receipt) = record run {
  receipts = run.receipts ++ (receipt ∷ []);
  cumulative_gas = receipt.cumulative_gas;
  blob_gas_used = add_blob_gas run.blob_gas_used (get_blob_gas btx.tx);
}

-- The sizes of the elements of the arrays, in bytes.
abbrev pub receipt_size : ℕ
receipt_size = 96

abbrev pub rejected_size : ℕ
rejected_size = 24

abbrev pub nothing_executed : Hash → BlockExecResult
nothing_executed root = record {
  receipts = [];
  rejected = [];
  gas_used = 0;
  blob_gas_used = 0;
  state_root = root;
}

module _ {S : Type 0} (access : StateAccess S)
    (execute_env : ExecutionEnv → S → EvmExecutionResult × S)
    (create_address : Address → ℕ → Address) (transaction_hash : Transaction → Hash)
    (alloc : ℕ → Bool) where
  -- One round of the loop.
  unfoldable pub round : BlockExecutor → BlockTx → Run → S → Run × S
  round exec btx run s =
      let s' = access.begin_transaction s in
      elim (validate_tx access exec btx run.cumulative_gas s') [
        | TxValidationError.tx_valid ↦
            let (receipt, t) =
              execute_transaction access execute_env create_address transaction_hash alloc exec btx
                run.cumulative_gas s' in
            (record_result btx run receipt, t)
        | error ↦ (reject btx error run, s')
      ]

  unfoldable pub rounds : BlockExecutor → List BlockTx → Run → S → Run × S
  rounds exec [] run s = (run, s)
  rounds exec (btx ∷ txs) run s = let (run', s') = round exec btx run s in rounds exec txs run' s'

  unfoldable pub block_executor_run : BlockExecutor → List BlockTx → S → Bool × BlockExecResult × S
  block_executor_run exec txs s =
      let tx_count = length txs in
      if tx_count == 0
      then (let (root, t) = access.state_root s in (true, nothing_executed root, t))
      else if ltb (u64_max / receipt_size) tx_count || ltb (u64_max / rejected_size) tx_count
      then (false, nothing_executed hash_zero, s)
      else if not (alloc (tx_count * receipt_size) && alloc (tx_count * rejected_size))
      then (false, nothing_executed hash_zero, s)
      else (let (run, t) = rounds exec txs start s in
          let (root, t') = access.state_root t in
          (
            true,
            record {
              receipts = run.receipts;
              rejected = run.rejected;
              gas_used = run.cumulative_gas;
              blob_gas_used = run.blob_gas_used;
              state_root = root;
            },
            t',
          ))

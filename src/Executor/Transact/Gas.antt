-- ===== src/Executor/Transact/Gas.antt =====
-- The gas that a transaction is charged.
use div.Common.{
  ℕ, ◌+◌, ◌-◌, ◌/◌, ◌^◌, ◌≤◌, ◌<◌, ◌≡◌, refl, arith, Bool, Option, none, some, ltb, Bool-cases, inl,
  inr, ltb→lt, ltb→le, min, u64, IsU64,
}
use div.Types.Address.{Address, Hash}
use div.Uint256.{Uint256, mul, from_u64}
use div.Transaction.{
  Transaction, transaction_gas_limit, transaction_is_create, transaction_effective_gas_price,
}
use div.Transaction.Intrinsic.{tx_intrinsic_gas}
use div.State.Access.{StateAccess}
use div.Evm.Env.{EvmExecutionResult, EvmResult, ExecutionEnv}
use div.Executor.{BlockExecutor, BlockTx, ExecReceipt}
use div.Executor.Transact.Calls.{entered, build_env-some}
use div.Executor.Transact.{
  Outcome, refunded_gas, transfer, prepare, conclude, handle_result, run, execute_transaction,
}

-- The refund is at most the fifth part of the gas, and what the machine reports.
refunded_gas_exact :
    (intrinsic gas_used gas_refund : ℕ)
    → intrinsic + gas_used < 2 ^ 64
    → refunded_gas intrinsic gas_used gas_refund + min gas_refund ((intrinsic + gas_used) / 5)
      ≡ intrinsic + gas_used
unfolding refunded_gas
refunded_gas_exact intrinsic gas_used gas_refund h =
    let exact : u64 (intrinsic + gas_used) ≡ intrinsic + gas_used = omega arith in
    rw exact (elim (Bool-cases (ltb gas_refund ((intrinsic + gas_used) / 5))) [
      | inl small ↦ rw small (omega (arith, ltb→lt _ _ small))
      | inr large ↦ rw large (omega (arith, ltb→le _ _ large))
    ])

-- The charge for a run: all of the gas limit after an error, and otherwise the intrinsic gas and
-- the gas of the run without the refund, of which at most the fifth part of the sum counts.
abbrev pub charge : BlockTx → EvmExecutionResult → ℕ
charge btx result = elim result.result [
  | EvmResult.evm_result_stop ↦
      tx_intrinsic_gas btx.tx
      + result.gas_used
      - min result.gas_refund ((tx_intrinsic_gas btx.tx + result.gas_used) / 5)
  | EvmResult.evm_result_error ↦ transaction_gas_limit btx.tx
]

module _ {S : Type 0} (access : StateAccess S) (alloc : ℕ → Bool) where
  -- For a run within the gas it was given, the receipt of a transaction has its charge.
  pub handle_result-charge :
      (btx : BlockTx) (contract : Address) (snapshot : ℕ) (result : EvmExecutionResult) (s : S)
      → tx_intrinsic_gas btx.tx + result.gas_used ≤ transaction_gas_limit btx.tx
      → IsU64 (transaction_gas_limit btx.tx)
      → (handle_result access alloc btx contract snapshot result s).0.gas_used ≡ charge btx result
  unfolding handle_result
  handle_result-charge btx contract snapshot result s h k = by_result result.result refl
    where
      by_result :
          (r : EvmResult)
          → result.result ≡ r
          → (handle_result access alloc btx contract snapshot result s).0.gas_used
            ≡ charge btx result
      by_result EvmResult.evm_result_stop e =
          let exact =
            refunded_gas_exact (tx_intrinsic_gas btx.tx) result.gas_used result.gas_refund
              (omega arith) in
          rw e (elim (Bool-cases (transaction_is_create btx.tx)) [
            | inl create ↦ rw create (omega (arith, exact))
            | inr call ↦ rw call (omega (arith, exact))
          ])
      by_result EvmResult.evm_result_error e = rw e refl

pub charge-le :
    (btx : BlockTx) (result : EvmExecutionResult)
    → tx_intrinsic_gas btx.tx + result.gas_used ≤ transaction_gas_limit btx.tx
    → charge btx result ≤ transaction_gas_limit btx.tx
charge-le btx result h = by_result result.result refl
  where
    by_result :
        (r : EvmResult) → result.result ≡ r → charge btx result ≤ transaction_gas_limit btx.tx
    by_result EvmResult.evm_result_stop e = rw e (omega arith)
    by_result EvmResult.evm_result_error e = rw e (omega arith)

-- An outcome or a receipt, if there is one, charges at most the limit.
abbrev pub WithinLimit : ℕ → Option Outcome → Type 0
WithinLimit limit none = Unit
WithinLimit limit (some outcome) = outcome.gas_used ≤ limit

abbrev pub Charges : ℕ → ℕ → Option ExecReceipt → Type 0
Charges limit cumulative none = Unit
Charges limit cumulative (some receipt) =
    (receipt.gas_used ≤ limit) × (receipt.cumulative_gas ≡ u64 (cumulative + receipt.gas_used))

module _ {S : Type 0} (access : StateAccess S)
    (execute_env : ExecutionEnv → S → EvmExecutionResult × S)
    (within : (env : ExecutionEnv) (s : S) → (execute_env env s).0.gas_used ≤ env.call.gas)
    (create_address : Address → ℕ → Address) (transaction_hash : Transaction → Hash)
    (alloc : ℕ → Bool) where
  run-WithinLimit :
      (exec : BlockExecutor) (btx : BlockTx) (contract : Address) (snapshot : ℕ) (s : S)
      → tx_intrinsic_gas btx.tx ≤ transaction_gas_limit btx.tx
      → IsU64 (transaction_gas_limit btx.tx)
      → WithinLimit
          (transaction_gas_limit btx.tx)
          (run access execute_env alloc exec btx
            (transaction_effective_gas_price btx.tx exec.block.base_fee)
            contract
            snapshot
            s).0
  unfolding run
  run-WithinLimit exec btx contract snapshot s h k =
      let s' : S = (transfer access btx contract s).1 in
      elim (Bool-cases (transfer access btx contract s).0) [
        | inl moved ↦
            let (env, built, call) = build_env-some access exec btx contract s' in
            let t : S = entered access btx contract s' in
            let result : EvmExecutionResult = (execute_env env t).0 in
            let total : tx_intrinsic_gas btx.tx + result.gas_used ≤ transaction_gas_limit btx.tx =
              omega (arith, within env t, call.gas) in
            rw (moved, built)
              (omega (
                arith,
                handle_result-charge access alloc btx contract snapshot result (execute_env env t).1
                    total k,
                charge-le btx result total,
              ))
        | inr unpaid ↦ rw unpaid (omega arith)
      ]

  conclude-Charges :
      (exec : BlockExecutor) (btx : BlockTx) (price : Uint256) (limit cumulative : ℕ)
      (r : Option Outcome × S)
      → WithinLimit limit r.0
      → Charges limit cumulative (conclude access transaction_hash exec btx price cumulative r).0
  conclude-Charges exec btx price limit cumulative (none, s) h = tt
  conclude-Charges exec btx price limit cumulative (some outcome, s) h = (h, refl)

  -- With a machine that uses at most the gas it is given, a transaction whose limit covers its
  -- intrinsic gas is charged at most this limit, and the receipt adds the charge to the gas of the
  -- block.
  pub execute_transaction-Charges :
      (exec : BlockExecutor) (btx : BlockTx) (cumulative_gas : ℕ) (s : S)
      → tx_intrinsic_gas btx.tx ≤ transaction_gas_limit btx.tx
      → IsU64 (transaction_gas_limit btx.tx)
      → Charges
          (transaction_gas_limit btx.tx)
          cumulative_gas
          (execute_transaction access execute_env create_address transaction_hash alloc exec btx
            cumulative_gas s).0
  unfolding execute_transaction
  execute_transaction-Charges exec btx cumulative s h k =
      let price : Uint256 = transaction_effective_gas_price btx.tx exec.block.base_fee in
      let paid =
        access.sub_balance btx.sender (mul price (from_u64 (transaction_gas_limit btx.tx))) s in
      let (contract, snapshot, s'') = prepare access create_address btx paid.1 in
      elim (Bool-cases paid.0) [
        | inl yes_paid ↦ rw yes_paid (
            conclude-Charges exec btx price (transaction_gas_limit btx.tx) cumulative
              (run access execute_env alloc exec btx price contract snapshot s'')
              (run-WithinLimit exec btx contract snapshot s'' h k))
        | inr not_paid ↦ rw not_paid tt
      ]

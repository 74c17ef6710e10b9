-- ===== src/Executor/Transact.antt =====
-- src/executor/block_executor.c: the execution of one transaction, in its numbered steps. The
-- parameter `create_address` stands for compute_create_address, which Executor/Create models, and
-- `transaction_hash` for the hash of an encoded transaction.
pub mod Calls
pub mod Funds
pub mod Gas
pub mod Flows
pub mod Balances
use div.Common.{
  ℕ, ◌+◌, ◌/◌, Bool, true, false, not, Option, none, some, List, [], ◌∷◌, ltb, leb, ◌==◌,
  if◌then◌else◌, length, u64, sub_u64,
}
use div.Types.Address.{Address, Hash, address_zero}
use div.Uint256.{Uint256, is_zero, sub, mul, from_u64}
use div.Transaction.{
  Transaction, AccessListEntry, AccessList, legacy, eip2930, eip1559, eip4844, eip7702,
  transaction_gas_limit, transaction_value, transaction_to, transaction_is_create, transaction_data,
  transaction_effective_gas_price, transaction_access_list, get_blob_hashes,
}
use div.Transaction.Intrinsic.{tx_intrinsic_gas}
use div.State.Access.{StateAccess}
use div.Evm.Env.{EvmExecutionResult, EvmResult, ExecutionEnv}
use div.Executor.{BlockExecutor, BlockTx, ExecReceipt}

abbrev pub tx_type : Transaction → ℕ
tx_type (legacy tx) = 0
tx_type (eip2930 tx) = 1
tx_type (eip1559 tx) = 2
tx_type (eip4844 tx) = 3
tx_type (eip7702 tx) = 4

-- What an execution leaves in the receipt.
pub record Outcome : Type 0 where
  pub success : Bool
  pub gas_used : ℕ
  pub created_address : Option Address
  pub output : List ℕ

-- An execution on which all of the gas is charged.
abbrev pub lost : ℕ → Outcome
lost gas_limit = record {
  success = false;
  gas_used = gas_limit;
  created_address = none;
  output = [];
}

-- The source would follow a null pointer for a transaction without a recipient that is no
-- creation, and there is none.
abbrev pub recipient : BlockTx → Address → Address
recipient btx contract =
    if transaction_is_create btx.tx
    then contract
    else elim (transaction_to btx.tx) [ none ↦ address_zero | some to ↦ to ]

abbrev pub call_env : BlockExecutor → BlockTx → Uint256 → Address → List ℕ → List ℕ → ExecutionEnv
call_env exec btx effective_gas_price address code input = record {
  block = exec.block;
  tx = record {
    origin = btx.sender;
    gas_price = effective_gas_price;
    blob_hashes = get_blob_hashes btx.tx;
  };
  call = record {
    value = transaction_value btx.tx;
    gas = sub_u64 (transaction_gas_limit btx.tx) (tx_intrinsic_gas btx.tx);
    code = code;
    input = input;
    caller = btx.sender;
    address = address;
    is_static = false;
  };
}

unfoldable pub refunded_gas : ℕ → ℕ → ℕ → ℕ
refunded_gas intrinsic run_gas gas_refund =
    let gas_used = u64 (intrinsic + run_gas) in
    let max_refund = gas_used / 5 in
    let refund = if ltb gas_refund max_refund then gas_refund else max_refund in
    sub_u64 gas_used refund

-- Step 3.
abbrev pub contract_address : (Address → ℕ → Address) → BlockTx → ℕ → Address
contract_address create_address btx sender_nonce =
    if transaction_is_create btx.tx then create_address btx.sender sender_nonce else address_zero

-- Step 13, and the receipt.
abbrev pub receipt_of : (Transaction → Hash) → BlockTx → ℕ → Outcome → ExecReceipt
receipt_of transaction_hash btx cumulative_gas outcome = record {
  tx_hash = transaction_hash btx.tx;
  tx_type = tx_type btx.tx;
  success = outcome.success;
  gas_used = outcome.gas_used;
  cumulative_gas = u64 (cumulative_gas + outcome.gas_used);
  created_address = outcome.created_address;
  output = outcome.output;
}

module _ {S : Type 0} (access : StateAccess S) where
  unfoldable pub warm_keys : Address → List Uint256 → S → S
  warm_keys address [] s = s
  warm_keys address (key ∷ keys) s = warm_keys address keys (access.warm_slot address key s).1

  unfoldable pub warm_access_list : AccessList → S → S
  warm_access_list [] s = s
  warm_access_list (entry ∷ entries) s =
      warm_access_list entries
        (warm_keys entry.address entry.storage_keys (access.warm_address entry.address s).1)

  abbrev pub warm_to : Option Address → S → S
  warm_to none s = s
  warm_to (some to) s = (access.warm_address to s).1

  -- Steps 4 and 5.
  unfoldable pub warm_all : BlockTx → Address → S → S
  warm_all btx contract s =
      let s' = (access.warm_address btx.sender s).1 in
      warm_access_list (transaction_access_list btx.tx) (
        if transaction_is_create btx.tx
        then (access.warm_address contract s').1
        else warm_to (transaction_to btx.tx) s')

  -- Step 7.
  unfoldable pub transfer : BlockTx → Address → S → Bool × S
  transfer btx contract s =
      let value = transaction_value btx.tx in
      if is_zero value
      then (true, s)
      else (let (paid, s') = access.sub_balance btx.sender value s in
          if paid
          then (true, (access.add_balance (recipient btx contract) value s').1)
          else (false, s'))

  -- Step 8.
  unfoldable pub build_env :
      BlockExecutor → BlockTx → Uint256 → Address → S → Option (ExecutionEnv × S)
  build_env exec btx price contract s =
      if transaction_is_create btx.tx
      then some (
        call_env exec btx price contract (transaction_data btx.tx) [],
        access.create_contract contract s,
      )
      else elim (transaction_to btx.tx) [
        | none ↦ none
        | some to ↦
            some (call_env exec btx price to (access.get_code to s) (transaction_data btx.tx), s)
      ]

  -- Steps 11 and 12.
  unfoldable pub settle : BlockExecutor → BlockTx → Uint256 → ℕ → S → S
  settle exec btx price gas_used s =
      let gas_remaining = sub_u64 (transaction_gas_limit btx.tx) gas_used in
      let s' =
        if ltb 0 gas_remaining
        then (access.add_balance btx.sender (mul price (from_u64 gas_remaining)) s).1
        else s in
      let priority_fee = sub price exec.block.base_fee in
      (access.add_balance exec.block.coinbase (mul priority_fee (from_u64 gas_used)) s').1

module _ {S : Type 0} (access : StateAccess S) (create_address : Address → ℕ → Address) where
  -- Steps 2 to 6: the address of a new contract, the snapshot and the state.
  unfoldable pub prepare : BlockTx → S → Address × ℕ × S
  prepare btx s =
      let contract = contract_address create_address btx (access.get_nonce btx.sender s) in
      let s' = (access.increment_nonce btx.sender s).1 in
      let (snapshot, s'') = access.snapshot (warm_all access btx contract s') in
      (contract, snapshot, s'')

module _ {S : Type 0} (access : StateAccess S) (transaction_hash : Transaction → Hash) where
  abbrev pub conclude :
      BlockExecutor → BlockTx → Uint256 → ℕ → Option Outcome × S → Option ExecReceipt × S
  conclude exec btx price cumulative_gas (none, s) = (none, s)
  conclude exec btx price cumulative_gas (some outcome, s) = (
    some (receipt_of transaction_hash btx cumulative_gas outcome),
    settle access exec btx price outcome.gas_used s,
  )

module _ {S : Type 0} (access : StateAccess S) (alloc : ℕ → Bool) where
  -- Step 10.
  unfoldable pub handle_result : BlockTx → Address → ℕ → EvmExecutionResult → S → Outcome × S
  handle_result btx contract snapshot result s = elim result.result [
    | EvmResult.evm_result_stop ↦
        let s' = access.commit_snapshot snapshot s in
        let size = length result.output in
        let gas_used = refunded_gas (tx_intrinsic_gas btx.tx) result.gas_used result.gas_refund in
        if transaction_is_create btx.tx
        then (
          record {
            success = true;
            gas_used = gas_used;
            created_address = if alloc 20 then some contract else none;
            output = [];
          },
          if ltb 0 size then access.set_code contract result.output s' else s',
        )
        else (
          record {
            success = true;
            gas_used = gas_used;
            created_address = none;
            output = if ltb 0 size then (if alloc size then result.output else []) else [];
          },
          s',
        )
    | EvmResult.evm_result_error ↦
        (lost (transaction_gas_limit btx.tx), access.revert_to_snapshot snapshot s)
  ]

module _ {S : Type 0} (access : StateAccess S)
    (execute_env : ExecutionEnv → S → EvmExecutionResult × S) (alloc : ℕ → Bool) where
  -- Steps 7 to 10.
  unfoldable pub run : BlockExecutor → BlockTx → Uint256 → Address → ℕ → S → Option Outcome × S
  run exec btx price contract snapshot s =
      let (moved, s') = transfer access btx contract s in
      if moved
      then elim (build_env access exec btx price contract s') [
        | none ↦ (none, access.revert_to_snapshot snapshot s')
        | some (env, s'') ↦
            let (result, t) = execute_env env s'' in
            let (outcome, t') = handle_result access alloc btx contract snapshot result t in
            (some outcome, t')
      ]
      else (some (lost (transaction_gas_limit btx.tx)), access.revert_to_snapshot snapshot s')

module _ {S : Type 0} (access : StateAccess S)
    (execute_env : ExecutionEnv → S → EvmExecutionResult × S)
    (create_address : Address → ℕ → Address) (transaction_hash : Transaction → Hash)
    (alloc : ℕ → Bool) where
  -- `none` is the answer false, and the new cumulative gas is that of the receipt.
  unfoldable pub execute_transaction : BlockExecutor → BlockTx → ℕ → S → Option ExecReceipt × S
  execute_transaction exec btx cumulative_gas s =
      let price = transaction_effective_gas_price btx.tx exec.block.base_fee in
      let max_gas_cost = mul price (from_u64 (transaction_gas_limit btx.tx)) in
      let (paid, s') = access.sub_balance btx.sender max_gas_cost s in
      if paid
      then (let (contract, snapshot, s'') = prepare access create_address btx s' in
          conclude access transaction_hash exec btx price cumulative_gas
            (run access execute_env alloc exec btx price contract snapshot s''))
      else (none, s')

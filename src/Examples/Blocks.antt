-- ===== src/Examples/Blocks.antt =====
-- Transactions and blocks at concrete inputs.
use div.Common.{
  ℕ, ◌+◌, ◌-◌, ◌*◌, ◌/◌, ◌%◌, ◌^◌, ◌≤◌, ◌<◌, ◌≡◌, ◌≢◌, ◌↔◌, refl, arith, Bool, true, false, some,
  List, [], ◌∷◌, length, replicate, if◌then◌else◌,
}
use div.Types.Address.{Address, Hash, address_equal, address_zero, hash_zero}
use div.Uint256.{IsUint256, to_nat, u256_zero, from_u64, mul}
use div.Transaction.{
  Transaction, LegacyTx, Eip1559Tx, legacy, eip1559, legacy_tx_chain_id,
  transaction_effective_gas_price,
}
use div.Transaction.Intrinsic.{
  tx_intrinsic_gas, intrinsic_price, tx_intrinsic_gas_exact, add_calldata_gas, add_create_gas,
  add_access_list_gas,
}
use div.Transaction.Price.{effective_gas_price-exact, effective_gas_price-wraps}
use div.Evm.Env.{BlockContext, EvmExecutionResult, EvmResult, ExecutionEnv}
use div.Evm.Frame.{EvmStatus}
use div.Executor.{BlockExecutor, BlockTx, ExecReceipt, TxValidationError}
use div.Executor.Validation.{validate_tx, IsAcceptable, HasWordsOf}
use div.Executor.Validation.Accept.{validate_tx-IsAcceptable}
use div.Executor.Transact.{execute_transaction, handle_result, receipt_of, prepare, transfer}
use div.Executor.Transact.Calls.{IsCall, entered}
use div.Executor.Transact.Funds.{execute_transaction-runs}
use div.Executor.Transact.Gas.{Charges, execute_transaction-Charges, charge, handle_result-charge}
use div.Executor.Transact.Flows.{funds}
use div.Executor.Transact.Balances.{IsTransfer, execute_transaction-moves}
use div.Executor.Block.{block_executor_run}
use div.Executor.Block.Totals.{Totals, block_executor_run-Totals}
use div.Examples.Ledger.{Ledger, ledger_access, IsLedger, ledger-IsLawful}

abbrev alice : Address
alice = replicate 20 1

abbrev bob : Address
bob = replicate 20 2

abbrev miner : Address
miner = replicate 20 3

abbrev wealth : ℕ
wealth = 1000000000

abbrev genesis : Ledger
genesis = record {
  balances = λ a. if address_equal alice a then from_u64 wealth else u256_zero;
  nonces = λ a. 0;
}

genesis-IsLedger : IsLedger genesis
genesis-IsLedger a = by_test (address_equal alice a)
  where
    by_test : (b : Bool) → IsUint256 (if b then from_u64 wealth else u256_zero)
    by_test true = omega arith
    by_test false = omega arith

abbrev payment : LegacyTx
payment = record {
  nonce = 0;
  gas_price = from_u64 10;
  gas_limit = 30000;
  to = some bob;
  value = from_u64 5;
  payload = 1 ∷ 0 ∷ [];
  v = 37;
  r = from_u64 1;
  s = from_u64 1;
}

abbrev payment_tx : BlockTx
payment_tx = record {
  tx = legacy payment;
  sender = alice;
  sender_recovered = true;
  original_index = 0;
}

abbrev context : BlockContext
context = record {
  number = 1;
  timestamp = 1;
  gas_limit = 100000;
  chain_id = 1;
  base_fee = from_u64 7;
  blob_base_fee = u256_zero;
  prev_randao = u256_zero;
  coinbase = miner;
}

abbrev executor : BlockExecutor
executor = record { block = context; chain_id = 1; skip_signature_validation = false }

-- A machine that uses half of its gas and changes nothing.
abbrev idle : ExecutionEnv → Ledger → EvmExecutionResult × Ledger
idle env s = (
  record {
    result = EvmResult.evm_result_stop;
    error = EvmStatus.evm_ok;
    gas_used = env.call.gas / 2;
    gas_refund = 0;
    output = [];
  },
  s,
)

idle_within : (env : ExecutionEnv) (s : Ledger) → (idle env s).0.gas_used ≤ env.call.gas
idle_within env s = omega arith

abbrev no_address : Address → ℕ → Address
no_address a n = address_zero

abbrev no_hash : Transaction → Hash
no_hash tx = hash_zero

abbrev granted : ℕ → Bool
granted n = true

payment-HasWordsOf : HasWordsOf executor payment_tx
payment-HasWordsOf = record {
  base_fee = omega arith;
  words = (omega arith, omega arith);
  gas_limit = omega arith;
}

payment_gas : tx_intrinsic_gas (legacy payment) ≡ 21020
unfolding tx_intrinsic_gas add_calldata_gas add_create_gas add_access_list_gas
payment_gas = refl

payment-IsAcceptable : IsAcceptable ledger_access executor payment_tx 0 genesis
unfolding legacy_tx_chain_id address_equal
payment-IsAcceptable = record {
  chain = refl;
  nonce = refl;
  gas = omega (arith, payment_gas);
  room = omega arith;
  fee = omega arith;
  balance = omega arith;
}

tx_intrinsic_gas_exact_example :
    tx_intrinsic_gas (legacy payment) ≡ intrinsic_price (legacy payment) % 2 ^ 64
tx_intrinsic_gas_exact_example = tx_intrinsic_gas_exact (legacy payment) (omega arith)

validate_tx-IsAcceptable_example :
    (validate_tx ledger_access executor payment_tx 0 genesis ≡ TxValidationError.tx_valid)
    ↔ IsAcceptable ledger_access executor payment_tx 0 genesis
validate_tx-IsAcceptable_example =
    validate_tx-IsAcceptable ledger_access IsLedger ledger-IsLawful executor payment_tx 0 genesis
      genesis-IsLedger payment-HasWordsOf

-- The payment after its gas is paid and its value is transferred.
abbrev before_run : Address × ℕ × Ledger
before_run =
    prepare ledger_access no_address payment_tx
      (ledger_access.sub_balance alice (mul (from_u64 10) (from_u64 30000)) genesis).1

abbrev start_of_run : Ledger
start_of_run =
    entered ledger_access payment_tx address_zero
      (transfer ledger_access payment_tx address_zero before_run.2).1

execute_transaction-runs_example :
    (env : ExecutionEnv) × ((execute_transaction ledger_access idle no_address no_hash granted
        executor payment_tx 0 genesis).0
      ≡ some (
          receipt_of no_hash payment_tx 0
            (handle_result ledger_access granted payment_tx address_zero 0
              (idle env start_of_run).0
              (idle env start_of_run).1).0))
    × (before_run.0 ≡ address_zero)
    × IsCall executor payment_tx address_zero (λ a. []) env
    × (env.call.gas + tx_intrinsic_gas (legacy payment) ≡ 30000)
unfolding prepare
execute_transaction-runs_example =
    execute_transaction-runs ledger_access IsLedger ledger-IsLawful idle no_address no_hash granted
      executor payment_tx 0 genesis genesis-IsLedger refl payment-HasWordsOf payment-IsAcceptable

abbrev failed_run : EvmExecutionResult
failed_run = record {
  result = EvmResult.evm_result_error;
  error = EvmStatus.evm_ok;
  gas_used = 100;
  gas_refund = 0;
  output = [];
}

handle_result-charge_example :
    (handle_result ledger_access granted payment_tx bob 0 failed_run genesis).0.gas_used
    ≡ charge payment_tx failed_run
handle_result-charge_example =
    handle_result-charge ledger_access granted payment_tx bob 0 failed_run genesis
      (omega (arith, payment_gas)) (omega arith)

execute_transaction-Charges_example :
    Charges 30000 0
      (execute_transaction ledger_access idle no_address no_hash granted executor payment_tx 0
        genesis).0
execute_transaction-Charges_example =
    execute_transaction-Charges ledger_access idle idle_within no_address no_hash granted executor
      payment_tx 0 genesis (omega (arith, payment_gas)) (omega arith)

different : (a b : ℕ) (xs ys : List ℕ) → a ≢ b → a ∷ xs ≢ b ∷ ys
different a b xs ys h e = h (cc e)

payment-IsTransfer :
    IsTransfer ledger_access IsLedger ledger-IsLawful executor payment_tx bob genesis
unfolding address_equal
payment-IsTransfer = record {
  recipient_is = refl;
  no_code = refl;
  parties = (
    different 1 2 (replicate 19 1) (replicate 19 2) (omega arith),
    different 1 3 (replicate 19 1) (replicate 19 3) (omega arith),
    different 2 3 (replicate 19 2) (replicate 19 3) (omega arith),
    refl,
    refl,
    refl,
  );
  above = omega arith;
  cost_fits = omega arith;
  value_fits = omega arith;
  tip_fits = omega arith;
}

execute_transaction-moves_example :
    (receipt : ExecReceipt) × (t : Ledger) × (execute_transaction ledger_access idle no_address
        no_hash granted executor payment_tx 0 genesis
      ≡ (some receipt, t))
    × (funds ledger_access alice t + 5 + 10 * receipt.gas_used ≡ funds ledger_access alice genesis)
    × (funds ledger_access bob t ≡ funds ledger_access bob genesis + 5)
    × (funds ledger_access miner t
        ≡ funds ledger_access miner genesis + (10 - 7) * receipt.gas_used)
execute_transaction-moves_example =
    execute_transaction-moves ledger_access IsLedger ledger-IsLawful idle idle_within
      (λ env s bare. refl) (λ env s bare v. ((λ b q. refl), v)) granted no_address no_hash executor
      payment_tx bob 0 genesis genesis-IsLedger payment-HasWordsOf payment-IsAcceptable
      payment-IsTransfer

abbrev block : List BlockTx
block = payment_tx ∷ payment_tx ∷ []

block_done :
    (block_executor_run ledger_access idle no_address no_hash granted executor block genesis).0
    ≡ true
unfolding block_executor_run
block_done = refl

block_executor_run-Totals_example :
    let result =
      (block_executor_run ledger_access idle no_address no_hash granted executor block genesis).1 in
    Totals 0 result.receipts result.gas_used
    × (result.gas_used ≤ 100000)
    × (length result.receipts + length result.rejected ≡ 2)
block_executor_run-Totals_example =
    block_executor_run-Totals ledger_access idle idle_within no_address no_hash granted executor
      block genesis (omega arith) (omega arith) block_done

-- A tip of almost 2 ^ 256.
abbrev generous : Eip1559Tx
generous = record {
  chain_id = 1;
  nonce = 0;
  max_priority_fee_per_gas = record {
    limb0 = 2 ^ 64 - 1;
    limb1 = 2 ^ 64 - 1;
    limb2 = 2 ^ 64 - 1;
    limb3 = 2 ^ 64 - 1;
  };
  max_fee_per_gas = from_u64 10;
  gas_limit = 30000;
  to = some bob;
  value = u256_zero;
  payload = [];
  access_list = [];
  y_parity = 0;
  r = from_u64 1;
  s = from_u64 1;
}

effective_gas_price-wraps_example :
    to_nat (transaction_effective_gas_price (eip1559 generous) (from_u64 7)) < to_nat (from_u64 7)
effective_gas_price-wraps_example =
    effective_gas_price-wraps generous (from_u64 7) (omega arith, omega arith, omega arith)
      (omega arith) (omega arith) (omega arith)

-- A tip below the room that the bound leaves.
abbrev modest : Eip1559Tx
modest = record generous { max_priority_fee_per_gas = from_u64 2 }

effective_gas_price-exact_example :
    (to_nat (transaction_effective_gas_price (eip1559 modest) (from_u64 7)) ≡ 9)
    × (to_nat (from_u64 7) ≤ to_nat (transaction_effective_gas_price (eip1559 modest) (from_u64 7)))
    × (to_nat (transaction_effective_gas_price (eip1559 modest) (from_u64 7)) ≤ 10)
effective_gas_price-exact_example =
    effective_gas_price-exact (eip1559 modest) (from_u64 7) (omega arith, omega arith, omega arith)
      (omega arith) (omega arith) (omega arith)

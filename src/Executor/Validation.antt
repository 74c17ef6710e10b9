-- ===== src/Executor/Validation.antt =====
-- src/executor/tx_validation.c: what a transaction has to satisfy before it is executed.
pub mod Accept
use div.Common.{
  ℕ, ◌+◌, ◌-◌, ◌*◌, ◌%◌, ◌^◌, ◌≤◌, ◌<◌, ◌≡◌, ◌≢◌, ◌↔◌, refl, sym, ap, ◌∙◌, arith, Bool, true, false,
  not, ◌||◌, Option, none, some, ltb, leb, ◌==◌, if◌then◌else◌, Bool-cases, inl, inr, ==_iff, IsU64,
}
use div.Uint256.{Uint256, IsUint256, to_nat, u256_mod, add, mul, lt, from_u64}
use div.Uint256.Add.{add-mod}
use div.Uint256.Mul.{mul-mod}
use div.Uint256.Order.{lt_iff}
use div.Transaction.{
  Transaction, transaction_nonce, transaction_gas_limit, transaction_value, transaction_chain_id,
  transaction_effective_gas_price, transaction_max_fee_per_gas,
}
use div.Transaction.Intrinsic.{tx_intrinsic_gas}
use div.Transaction.Price.{HasWords, value-IsUint256, max_fee-IsUint256, price-IsUint256}
use div.State.Access.{StateAccess, IsLawful}
use div.Executor.{BlockExecutor, BlockTx, TxValidationError}

-- The identifier, where there is one, is that of the chain.
abbrev pub chain_matches : Option ℕ → ℕ → Bool
chain_matches none chain_id = true
chain_matches (some tx_chain_id) chain_id = tx_chain_id == chain_id

-- The price of the gas of a transaction as the code computes it, a word.
abbrev pub gas_cost : BlockExecutor → BlockTx → ℕ
gas_cost exec tx =
    to_nat (transaction_effective_gas_price tx.tx exec.block.base_fee)
    * transaction_gas_limit tx.tx
    % u256_mod

-- The words of the block and the transaction are well formed.
pub record HasWordsOf (exec : BlockExecutor) (tx : BlockTx) : Type 0 where
  pub base_fee : IsUint256 exec.block.base_fee
  pub words : HasWords tx.tx
  pub gas_limit : IsU64 (transaction_gas_limit tx.tx)

module _ {S : Type 0} (access : StateAccess S) where
  unfoldable pub validate_balance : BlockExecutor → BlockTx → S → TxValidationError
  validate_balance exec tx s =
      let transaction = tx.tx in
      let effective_gas_price = transaction_effective_gas_price transaction exec.block.base_fee in
      let gas_cost = mul effective_gas_price (from_u64 (transaction_gas_limit transaction)) in
      let total_cost = add gas_cost (transaction_value transaction) in
      if lt total_cost (transaction_value transaction)
      then TxValidationError.tx_err_insufficient_balance
      else if lt (access.get_balance tx.sender s) total_cost
      then TxValidationError.tx_err_insufficient_balance
      else TxValidationError.tx_valid

  unfoldable pub validate_tx : BlockExecutor → BlockTx → ℕ → S → TxValidationError
  validate_tx exec tx cumulative_gas s =
      let transaction = tx.tx in
      let sender_nonce = access.get_nonce tx.sender s in
      let tx_nonce = transaction_nonce transaction in
      let intrinsic = tx_intrinsic_gas transaction in
      let gas_limit = transaction_gas_limit transaction in
      let block_gas_limit = exec.block.gas_limit in
      if not (chain_matches (transaction_chain_id transaction) exec.chain_id)
      then TxValidationError.tx_err_chain_id_mismatch
      else if ltb tx_nonce sender_nonce
      then TxValidationError.tx_err_nonce_too_low
      else if ltb sender_nonce tx_nonce
      then TxValidationError.tx_err_nonce_too_high
      else if ltb gas_limit intrinsic
      then TxValidationError.tx_err_intrinsic_gas
      else if ltb block_gas_limit gas_limit || ltb (block_gas_limit - gas_limit) cumulative_gas
      then TxValidationError.tx_err_gas_limit_exceeded
      else if lt (transaction_max_fee_per_gas transaction) exec.block.base_fee
      then TxValidationError.tx_err_max_fee_too_low
      else validate_balance exec tx s

  -- The conditions, in exact numbers except for the product of price and gas.
  pub record IsAcceptable (exec : BlockExecutor) (tx : BlockTx) (cumulative_gas : ℕ) (s : S)
      : Type 0 where
    pub chain : chain_matches (transaction_chain_id tx.tx) exec.chain_id ≡ true
    pub nonce : transaction_nonce tx.tx ≡ access.get_nonce tx.sender s
    pub gas : tx_intrinsic_gas tx.tx ≤ transaction_gas_limit tx.tx
    pub room : cumulative_gas + transaction_gas_limit tx.tx ≤ exec.block.gas_limit
    pub fee : to_nat exec.block.base_fee ≤ to_nat (transaction_max_fee_per_gas tx.tx)
    pub balance :
        gas_cost exec tx + to_nat (transaction_value tx.tx)
        ≤ to_nat (access.get_balance tx.sender s)

-- ===== src/Executor/Validation/Accept.antt =====
-- A transaction is found valid exactly when it is acceptable.
use div.Common.{
  ℕ, ◌+◌, ◌*◌, ◌%◌, ◌≤◌, ◌≡◌, ◌↔◌, refl, ap, ◌∙◌, arith, ltb, Bool-cases, inl, inr, ltb→lt, ltb→le,
}
use div.Uint256.{Uint256, IsUint256, to_nat, u256_mod, add, mul, from_u64}
use div.Uint256.Add.{add-mod}
use div.Uint256.Mul.{mul-mod}
use div.Uint256.Order.{lt-ltb}
use div.Transaction.{
  transaction_gas_limit, transaction_value, transaction_effective_gas_price,
  transaction_max_fee_per_gas,
}
use div.Transaction.Price.{value-IsUint256, max_fee-IsUint256, price-IsUint256}
use div.State.Access.{StateAccess, IsLawful}
use div.Executor.{BlockExecutor, BlockTx, TxValidationError}
use div.Executor.Validation.{validate_balance, validate_tx, gas_cost, IsAcceptable, HasWordsOf}

pub gas_cost-word :
    (exec : BlockExecutor) (tx : BlockTx)
    → HasWordsOf exec tx
    → (to_nat (
          mul
            (transaction_effective_gas_price tx.tx exec.block.base_fee)
            (from_u64 (transaction_gas_limit tx.tx)))
        ≡ gas_cost exec tx)
      × IsUint256 (
          mul
            (transaction_effective_gas_price tx.tx exec.block.base_fee)
            (from_u64 (transaction_gas_limit tx.tx)))
gas_cost-word exec tx h =
    let price = transaction_effective_gas_price tx.tx exec.block.base_fee in
    let limit = transaction_gas_limit tx.tx in
    let limit_word : IsUint256 (from_u64 limit) =
      (h.gas_limit, omega arith, omega arith, omega arith) in
    let same : to_nat (from_u64 limit) ≡ limit = omega arith in
    let product =
      mul-mod price (from_u64 limit) (price-IsUint256 tx.tx exec.block.base_fee h.words h.base_fee)
        limit_word in
    (product.0 ∙ ap (λ t. to_nat price * t % u256_mod) same, product.1)

module _ {S : Type 0} (access : StateAccess S) (Valid : S → Type 0)
    (laws : IsLawful access Valid) where
  validate_balance_iff :
      (exec : BlockExecutor) (tx : BlockTx) (s : S)
      → Valid s
      → HasWordsOf exec tx
      → (validate_balance access exec tx s ≡ TxValidationError.tx_valid) ↔ (
          gas_cost exec tx + to_nat (transaction_value tx.tx)
          ≤ to_nat (access.get_balance tx.sender s))
  unfolding validate_balance
  validate_balance_iff exec tx s v h =
      let cost : Uint256 =
        mul (transaction_effective_gas_price tx.tx exec.block.base_fee)
          (from_u64 (transaction_gas_limit tx.tx)) in
      let cost_word = gas_cost-word exec tx h in
      let value = transaction_value tx.tx in
      let value_word = value-IsUint256 tx.tx h.words in
      let sum = add-mod cost value cost_word.1 value_word in
      let funds = access.get_balance tx.sender s in
      let funds_word = laws.balance tx.sender s v in
      let first = lt-ltb (add cost value) value sum.1 value_word in
      let second = lt-ltb funds (add cost value) funds_word sum.1 in
      rw (first, second)
        (elim (Bool-cases (ltb (to_nat (add cost value)) (to_nat value))) [
          | inl over ↦
              rw over
                ((λ e. absurd cc), λ e. absurd (omega (arith, ltb→lt _ _ over, sum.0, cost_word.0)))
          | inr fits ↦ elim (Bool-cases (ltb (to_nat funds) (to_nat (add cost value)))) [
            | inl poor ↦
                rw (fits, poor)
                  (
                    (λ e. absurd cc),
                    λ e.
                        absurd
                          (omega (arith, ltb→lt _ _ poor, ltb→le _ _ fits, sum.0, cost_word.0)),
                  )
            | inr rich ↦
                rw (fits, rich)
                  (
                    (λ e. omega (arith, ltb→le _ _ rich, ltb→le _ _ fits, sum.0, cost_word.0)),
                    λ e. refl,
                  )
          ]
        ])

  accepted :
      (exec : BlockExecutor) (tx : BlockTx) (cumulative_gas : ℕ) (s : S)
      → Valid s
      → HasWordsOf exec tx
      → validate_tx access exec tx cumulative_gas s ≡ TxValidationError.tx_valid
      → IsAcceptable access exec tx cumulative_gas s
  unfolding validate_tx
  accepted exec tx cumulative s v h =
      let funds = validate_balance_iff exec tx s v h in
      let fee =
        lt-ltb (transaction_max_fee_per_gas tx.tx) exec.block.base_fee
          (max_fee-IsUint256 tx.tx h.words) h.base_fee in
      rw fee (λ valid. record {
        chain = ground (arith, valid);
        nonce = ground (arith, valid);
        gas = ground (arith, valid);
        room = ground (arith, valid);
        fee = ground (arith, valid);
        balance = ground (arith, valid, funds.0);
      })

  found_valid :
      (exec : BlockExecutor) (tx : BlockTx) (cumulative_gas : ℕ) (s : S)
      → Valid s
      → HasWordsOf exec tx
      → IsAcceptable access exec tx cumulative_gas s
      → validate_tx access exec tx cumulative_gas s ≡ TxValidationError.tx_valid
  unfolding validate_tx
  found_valid exec tx cumulative s v h a =
      let funds = validate_balance_iff exec tx s v h in
      let fee =
        lt-ltb (transaction_max_fee_per_gas tx.tx) exec.block.base_fee
          (max_fee-IsUint256 tx.tx h.words) h.base_fee in
      rw (fee, a.chain, funds.1 a.balance) (ground (arith, a.nonce, a.gas, a.room, a.fee))

  -- For well-formed words, a transaction is valid exactly when it names the chain, if any, carries
  -- the nonce of its sender, pays its intrinsic gas, fits into the gas that the block has left,
  -- covers the base fee, and its sender has its value and the price of its gas.
  pub validate_tx-IsAcceptable :
      (exec : BlockExecutor) (tx : BlockTx) (cumulative_gas : ℕ) (s : S)
      → Valid s
      → HasWordsOf exec tx
      → (validate_tx access exec tx cumulative_gas s ≡ TxValidationError.tx_valid)
        ↔ IsAcceptable access exec tx cumulative_gas s
  unfolding validate_tx
  validate_tx-IsAcceptable exec tx cumulative s v h =
      (accepted exec tx cumulative s v h, found_valid exec tx cumulative s v h)
